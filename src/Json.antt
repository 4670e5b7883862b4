-- ===== src/Json.antt =====
-- The values that the program hands to json.Marshal. The members of an object are in the order of
-- their insertion; the printer sorts them.
use agg_certificate_proxy.Prelude.{ℕ, Bytes}

mutual
  pub data Json : Type 0 where
    number : ℕ → Json
    text : Bytes → Json
    array : Elements → Json
    object : Members → Json

  pub data Elements : Type 0 where
    nil : Elements
    cons : Json → Elements → Elements

  pub data Members : Type 0 where
    end : Members
    member : Bytes → Json → Members → Members
