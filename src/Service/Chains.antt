-- ===== src/Service/Chains.antt =====
-- The list of delayed chains that is stored and read back.
use agg_certificate_proxy.Prelude.{
  ℕ, suc, ◌≤◌, ◌≡◌, refl, ap, ◌∙◌, ◌↔◌, inl, inr, Bool, true, false, List, [], ◌∷◌, map, some,
  Bytes, All, All-map, In, ◌≢◌, ==_iff, ◌==◌, lookup, insert, lookup-insert, same_bytes_iff,
  same_bytes, arith, Bool-cases,
}
use agg_certificate_proxy.Text.Decimal.{parse_uint, format_uint, max_uint32, is_digit}
use agg_certificate_proxy.Text.Decimal.RoundTrip.{
  parse_uint-format_uint, format_uint-All, format_uint-ne-nil,
}
use agg_certificate_proxy.Text.Separated.{
  split, join, trim_space, Lacks, split-join, HasNoSpace, trim_space-HasNoSpace, is_space,
}
use agg_certificate_proxy.Service.{
  parse_chains, chains_of, chains_text, is_listed, is_chain_delayed, get_delayed_chains,
  set_delayed_chains,
}
use agg_certificate_proxy.Store.{get_config_value, set_config_value, text_delayed_chains, or_empty}
use agg_certificate_proxy.World.{World, Env, ok, tick}

-- A chain ID is a uint32.
abbrev pub AreChains : List ℕ → Type 0
AreChains = All (λ c. c ≤ max_uint32)

digit-not-space : (c : ℕ) → is_digit c ≡ true → is_space c ≡ false
unfolding is_space
digit-not-space c h = ground arith

digit-not-comma : (c : ℕ) → is_digit c ≡ true → c ≢ b','
digit-not-comma c h = ground arith

parse_chains-cons :
    (part : Bytes) (parts : List Bytes) (c : ℕ)
    → parse_uint max_uint32 (trim_space part) ≡ some c
    → parse_chains (part ∷ parts) ≡ c ∷ parse_chains parts
unfolding parse_chains
parse_chains-cons part parts c h = rw (parse_chains, h) refl

parse_chains-format : (cs : List ℕ) → AreChains cs → parse_chains (map format_uint cs) ≡ cs
unfolding parse_chains
parse_chains-format [] h = refl
parse_chains-format (c ∷ cs) h =
    let clean : HasNoSpace (format_uint c) =
      All-map _ _ (format_uint c) digit-not-space (format_uint-All c) in
    parse_chains-cons (format_uint c) (map format_uint cs) c (
      ap (parse_uint max_uint32) (trim_space-HasNoSpace (format_uint c) clean)
      ∙ parse_uint-format_uint max_uint32 c h.0 (omega (arith, h.0)))
    ∙ ap (λ t. c ∷ t) (parse_chains-format cs h.1)

format_uint-Lacks : (cs : List ℕ) → All (Lacks b',') (map format_uint cs)
format_uint-Lacks [] = tt
format_uint-Lacks (c ∷ cs) =
    (All-map _ _ (format_uint c) digit-not-comma (format_uint-All c), format_uint-Lacks cs)

chains_of-not-nil : (s : Bytes) → s ≢ [] → chains_of s ≡ parse_chains (split b',' s)
unfolding chains_of
chains_of-not-nil [] h = absurd (h refl)
chains_of-not-nil (c ∷ s) h = refl

join-not-nil : (p : Bytes) (ps : List Bytes) → p ≢ [] → join b',' (p ∷ ps) ≢ []
unfolding join
join-not-nil p [] h = h
join-not-nil [] (q ∷ ps) h = absurd (h refl)
join-not-nil (c ∷ p) (q ∷ ps) h = λ e. absurd (cc)

-- A list of uint32 chain IDs, printed and read, is the same list, the empty list included.
pub chains_of-chains_text : (cs : List ℕ) → AreChains cs → chains_of (chains_text cs) ≡ cs
unfolding chains_of chains_text join
chains_of-chains_text [] h = refl
chains_of-chains_text (c ∷ cs) h =
    chains_of-not-nil (join b',' (map format_uint (c ∷ cs)))
      (join-not-nil (format_uint c) (map format_uint cs) (format_uint-ne-nil c))
    ∙ ap parse_chains
        (split-join b',' (format_uint c) (map format_uint cs) (format_uint-Lacks (c ∷ cs)))
    ∙ parse_chains-format (c ∷ cs) h

pub is_listed_iff : (chain : ℕ) (cs : List ℕ) → (is_listed chain cs ≡ true) ↔ In chain cs
unfolding is_listed
is_listed_iff chain [] = (λ h. absurd (cc), λ h. absurd h)
is_listed_iff chain (c ∷ cs) = elim (Bool-cases (c == chain)) [
  | inl e ↦ (λ h. inl ((==_iff c chain).0 e), λ h. rw e refl)
  | inr e ↦ (
    λ h. inr ((is_listed_iff chain cs).0 (ground (arith))),
    λ h. elim h [ inl i ↦ absurd (ground arith) | inr i ↦ rw e ((is_listed_iff chain cs).1 i) ],
  )
]

module _ (env : Env) where
  get_delayed_chains-world :
      (w : World)
      → env.db_fails w.ticks ≡ false
      → get_delayed_chains env w
        ≡ (ok (chains_of (or_empty (lookup text_delayed_chains w.configuration))), tick w)
  unfolding get_delayed_chains get_config_value
  get_delayed_chains-world w up = rw up refl

  is_chain_delayed-world :
      (w : World) (chain : ℕ) (cs : List ℕ)
      → get_delayed_chains env w ≡ (ok cs, tick w)
      → (is_chain_delayed env chain w).0 ≡ ok (is_listed chain cs)
  unfolding is_chain_delayed
  is_chain_delayed-world w chain cs e = rw e refl

  -- The state behind SetDelayedChains.
  abbrev with_chains : List ℕ → World → World
  with_chains cs w = record (tick w) {
    configuration = insert text_delayed_chains (chains_text cs) w.configuration;
  }

  set_delayed_chains-world :
      (w : World) (cs : List ℕ)
      → env.db_fails w.ticks ≡ false
      → set_delayed_chains env cs w ≡ (ok tt, with_chains cs w)
  unfolding set_delayed_chains set_config_value
  set_delayed_chains-world w cs up = rw up refl

  -- After SetDelayedChains has stored a list of uint32 chain IDs, GetDelayedChains returns that
  -- list, and IsChainDelayed returns true for exactly its members, whatever was stored before; the
  -- other keys of the configuration keep their values. The statements must not fail.
  pub set_delayed_chains_lem :
      (w : World) (cs : List ℕ)
      → AreChains cs
      → env.db_fails w.ticks ≡ false
      → env.db_fails (suc w.ticks) ≡ false
      → let after = (set_delayed_chains env cs w).1 in
        ((get_delayed_chains env after).0 ≡ ok cs)
        × ((chain : ℕ)
            → (b : Bool) × ((is_chain_delayed env chain after).0 ≡ ok b)
              × ((b ≡ true) ↔ In chain cs))
        × ((k : Bytes)
            → same_bytes text_delayed_chains k ≡ false
            → lookup k after.configuration ≡ lookup k w.configuration)
  set_delayed_chains_lem w cs h up₁ up₂ =
      let stored : or_empty (lookup text_delayed_chains (with_chains cs w).configuration)
          ≡ chains_text cs =
        rw
          (
            lookup-insert text_delayed_chains text_delayed_chains (chains_text cs) w.configuration,
            (same_bytes_iff text_delayed_chains text_delayed_chains).1 refl,
          )
          refl in
      let read : get_delayed_chains env (with_chains cs w) ≡ (ok cs, tick (with_chains cs w)) =
        get_delayed_chains-world (with_chains cs w) up₂
        ∙ ap (λ x. (ok x, tick (with_chains cs w)))
            (ap chains_of stored ∙ chains_of-chains_text cs h) in
      rw (set_delayed_chains-world w cs up₁) (
        ap (λ x. x.0) read,
        λ chain. (
          is_listed chain cs,
          is_chain_delayed-world (with_chains cs w) chain cs read,
          is_listed_iff chain cs,
        ),
        λ k other.
            rw (lookup-insert text_delayed_chains k (chains_text cs) w.configuration, other) refl,
      )
