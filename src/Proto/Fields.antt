-- ===== src/Proto/Fields.antt =====
-- pkg/proto/agglayer/interop/types/v1/bytes.pb.go and merkle_proof.pb.go.
use agg_certificate_proxy.Prelude.{List, [], Option, none, some, Bytes}

abbrev pub Slice : Type 0
Slice = Option Bytes

-- What a slice holds, for code that does not tell nil from empty.
abbrev pub contents : Slice → Bytes
contents none = []
contents (some s) = s

pub record FixedBytes20 : Type 0 where
  pub value : Slice

pub record FixedBytes32 : Type 0 where
  pub value : Slice

pub record FixedBytes65 : Type 0 where
  pub value : Slice

pub record MerkleProof : Type 0 where
  pub root : Option FixedBytes32
  pub siblings : List (Option FixedBytes32)

-- The getters `GetValue` of the fixed-size messages: nil at a nil receiver.
abbrev pub get_value20 : Option FixedBytes20 → Slice
get_value20 none = none
get_value20 (some b) = b.value

abbrev pub get_value32 : Option FixedBytes32 → Slice
get_value32 none = none
get_value32 (some b) = b.value

abbrev pub get_value65 : Option FixedBytes65 → Slice
get_value65 none = none
get_value65 (some b) = b.value
