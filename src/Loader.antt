-- ===== src/Loader.antt =====
-- internal/certificate/marshal.go: a certificate from its JSON form. The functions that convert a
-- map return no error but nil, so they are functions into the messages.
pub mod Index
pub mod Form
pub mod RoundTrip
pub mod Certificate
use agg_certificate_proxy.Prelude.{
  ℕ, zero, suc, ◌/◌, ◌%◌, ◌^◌, Bool, true, false, List, [], ◌∷◌, ◌++◌, Option, none, some, Bytes,
  codes, length, replicate, same_bytes, ◌==◌, if◌then◌else◌,
}
use agg_certificate_proxy.Prelude.Maybe.{◌>>=◌}
use mathlib.Core.List.{reverse}
use agg_certificate_proxy.Decoded.{
  Value, null, map_of, Values, no_value, value, Fields, no_field, field, Conversions, field_of,
  as_bool, as_float, as_string, as_list, as_map,
}
use agg_certificate_proxy.Proto.Fields.{FixedBytes20, FixedBytes32, MerkleProof}
use agg_certificate_proxy.Proto.Interop.{
  LeafType, unspecified, transfer, message, BridgeExit, TokenInfo, L1InfoTreeLeaf,
  L1InfoTreeLeafWithContext, ClaimFromMainnet, ClaimFromRollup, Claim, mainnet, rollup,
  ImportedBridgeExit,
}
use agg_certificate_proxy.Proto.Node.{ProtoCertificate}
use agg_certificate_proxy.Text.Hex.{trim_0x, decode_hex}

abbrev is_absent : Bytes → Bool
is_absent [] = true
is_absent (c ∷ s) = same_bytes (c ∷ s) (codes "null")

-- An odd number of digits gets a zero in front.
abbrev even_digits : Bytes → Bytes
even_digits s = if length s % 2 == 1 then b'0' ∷ s else s

unfoldable pub hex_string_to_bytes : Bytes → Option Bytes
hex_string_to_bytes s = if is_absent s then none else decode_hex (even_digits (trim_0x s))

-- A field in hexadecimal, nil where it is missing, of another type, or no hexadecimal.
abbrev bytes_field : Bytes → Fields → Option Bytes
bytes_field key m = as_string (field_of key m) >>= hex_string_to_bytes

abbrev fixed20 : Bytes → Fields → Option FixedBytes20
fixed20 key m = bytes_field key m >>= λ b. some (record { value = some b })

abbrev fixed32 : Bytes → Fields → Option FixedBytes32
fixed32 key m = bytes_field key m >>= λ b. some (record { value = some b })

-- The field `metadata`, which may also be the empty text or "null".
abbrev given : Bytes → Option Bytes
given s = if is_absent s then none else some s

abbrev metadata_field : Fields → Option FixedBytes32
metadata_field m = do
  s ← as_string (field_of (codes "metadata") m)
  t ← given s
  b ← hex_string_to_bytes t
  some (record { value = some b })

abbrev or_zero : Option ℕ → ℕ
or_zero none = 0
or_zero (some n) = n

-- The strings of a list that are hexadecimal.
abbrev sibling : Option Bytes → List (Option FixedBytes32) → List (Option FixedBytes32)
sibling none rest = rest
sibling (some b) rest = some (record { value = some b }) ∷ rest

unfoldable pub siblings_of : Values → List (Option FixedBytes32)
siblings_of no_value = []
siblings_of (value v rest) = sibling (as_string (some v) >>= hex_string_to_bytes) (siblings_of rest)

abbrev siblings_field : Option Values → List (Option FixedBytes32)
siblings_field none = []
siblings_field (some vs) = siblings_of vs

unfoldable pub map_to_merkle_proof : Fields → MerkleProof
map_to_merkle_proof m = record {
  root = fixed32 (codes "root") m;
  siblings =
      siblings_field
        (as_map (field_of (codes "proof") m) >>= λ p. as_list (field_of (codes "siblings") p));
}

abbrev leaf_type_of : Option Bytes → LeafType
leaf_type_of none = unspecified
leaf_type_of (some s) =
    if same_bytes s (codes "Transfer")
    then transfer
    else if same_bytes s (codes "Message")
    then message
    else unspecified

-- One byte with its lowest bit set by the flag.
abbrev flag_byte : Bool → ℕ
flag_byte true = 1
flag_byte false = 0

-- binary.LittleEndian.PutUint32
abbrev pub little_endian : ℕ → Bytes
little_endian n = n % 256 ∷ n / 2 ^ 8 % 256 ∷ n / 2 ^ 16 % 256 ∷ n / 2 ^ 24 % 256 ∷ []

-- The 32 bytes, filled from the front and then reversed.
unfoldable pub global_index_bytes : Bool → ℕ → ℕ → Bytes
global_index_bytes flag rollup_index leaf_index =
    reverse
      (little_endian leaf_index ++ (little_endian rollup_index ++ flag_byte flag ∷ replicate 23 0))

-- The loops over the exits pass over what is no map.
abbrev put_if : {A : Type 0} → (Fields → A) → Option Fields → List (Option A) → List (Option A)
put_if f none rest = rest
put_if f (some m) rest = some (f m) ∷ rest

unfoldable pub maps_of : {A : Type 0} → (Fields → A) → Values → List (Option A)
maps_of f no_value = []
maps_of f (value v rest) = put_if f (as_map (some v)) (maps_of f rest)

abbrev maps_field : {A : Type 0} → (Fields → A) → Option Values → List (Option A)
maps_field f none = []
maps_field f (some vs) = maps_of f vs

module _ (c : Conversions) where
  abbrev uint32_field : Bytes → Fields → Option ℕ
  uint32_field key m = as_float (field_of key m) >>= λ f. some (c.to_uint32 f)

  abbrev uint64_field : Bytes → Fields → Option ℕ
  uint64_field key m = as_float (field_of key m) >>= λ f. some (c.to_uint64 f)

  abbrev token_info_of : Fields → TokenInfo
  token_info_of m = record {
    origin_network = or_zero (uint32_field (codes "origin_network") m);
    origin_token_address = fixed20 (codes "origin_token_address") m;
  }

  unfoldable pub map_to_bridge_exit : Fields → BridgeExit
  map_to_bridge_exit m = record {
    leaf_type = leaf_type_of (as_string (field_of (codes "leaf_type") m));
    token_info = as_map (field_of (codes "token_info") m) >>= λ t. some (token_info_of t);
    dest_network = or_zero (uint32_field (codes "dest_network") m);
    dest_address = fixed20 (codes "dest_address") m;
    amount = fixed32 (codes "amount") m;
    metadata = metadata_field m;
  }

  unfoldable pub map_to_l1_info_tree_leaf_with_context : Fields → L1InfoTreeLeafWithContext
  map_to_l1_info_tree_leaf_with_context m = record {
    l1_info_tree_index = or_zero (uint32_field (codes "l1_info_tree_index") m);
    rer = fixed32 (codes "rer") m;
    mer = fixed32 (codes "mer") m;
    inner = as_map (field_of (codes "inner") m) >>= λ i. some (record {
      global_exit_root = fixed32 (codes "global_exit_root") i;
      block_hash = fixed32 (codes "block_hash") i;
      timestamp = or_zero (uint64_field (codes "timestamp") i);
    });
  }

  abbrev proof_field : Bytes → Fields → Option MerkleProof
  proof_field key m = as_map (field_of key m) >>= λ p. some (map_to_merkle_proof p)

  abbrev l1_leaf_field : Fields → Option L1InfoTreeLeafWithContext
  l1_leaf_field m =
      as_map (field_of (codes "l1_leaf") m) >>= λ l. some (map_to_l1_info_tree_leaf_with_context l)

  unfoldable pub map_to_claim_from_mainnet : Fields → ClaimFromMainnet
  map_to_claim_from_mainnet m = record {
    proof_leaf_mer = proof_field (codes "proof_leaf_mer") m;
    proof_ger_l1root = proof_field (codes "proof_ger_l1root") m;
    l1_leaf = l1_leaf_field m;
  }

  unfoldable pub map_to_claim_from_rollup : Fields → ClaimFromRollup
  map_to_claim_from_rollup m = record {
    proof_leaf_ler = proof_field (codes "proof_leaf_ler") m;
    proof_ler_rer = proof_field (codes "proof_ler_rer") m;
    proof_ger_l1root = proof_field (codes "proof_ger_l1root") m;
    l1_leaf = l1_leaf_field m;
  }

  -- A rollup claim replaces a mainnet claim.
  abbrev claim_with : Option Fields → Option Fields → Option Claim
  claim_with m (some r) = some (rollup (some (map_to_claim_from_rollup r)))
  claim_with (some m) none = some (mainnet (some (map_to_claim_from_mainnet m)))
  claim_with none none = none

  abbrev claim_of : Fields → Option Claim
  claim_of m =
      claim_with (as_map (field_of (codes "Mainnet") m)) (as_map (field_of (codes "Rollup") m))

  abbrev global_index_of : Fields → Option FixedBytes32
  global_index_of m = do
    flag ← as_bool (field_of (codes "mainnet_flag") m)
    rollup_index ← uint32_field (codes "rollup_index") m
    leaf_index ← uint32_field (codes "leaf_index") m
    some (record { value = some (global_index_bytes flag rollup_index leaf_index) })

  unfoldable pub map_to_imported_bridge_exit : Fields → ImportedBridgeExit
  map_to_imported_bridge_exit m = record {
    bridge_exit = as_map (field_of (codes "bridge_exit") m) >>= λ b. some (map_to_bridge_exit b);
    global_index = as_map (field_of (codes "global_index") m) >>= global_index_of;
    claim = as_map (field_of (codes "claim_data") m) >>= claim_of;
  }

  unfoldable pub certificate_from : Fields → ProtoCertificate
  certificate_from m = record {
    network_id = or_zero (uint32_field (codes "network_id") m);
    height = or_zero (uint64_field (codes "height") m);
    prev_local_exit_root = fixed32 (codes "prev_local_exit_root") m;
    new_local_exit_root = fixed32 (codes "new_local_exit_root") m;
    bridge_exits = maps_field map_to_bridge_exit (as_list (field_of (codes "bridge_exits") m));
    imported_bridge_exits =
        maps_field map_to_imported_bridge_exit
          (as_list (field_of (codes "imported_bridge_exits") m));
    metadata = metadata_field m;
    aggchain_data = none;
    custom_chain_data = none;
    l1_info_tree_leaf_count = uint32_field (codes "l1_info_tree_leaf_count") m;
  }

  -- The null of JSON leaves the map nil, in which every key is missing.
  abbrev from_value : Option Value → Option ProtoCertificate
  from_value (some (map_of m)) = some (certificate_from m)
  from_value (some null) = some (certificate_from no_field)
  from_value _ = none

  -- `unmarshal` is json.Unmarshal.
  unfoldable pub certificate_from_json : (Bytes → Option Value) → Bytes → Option ProtoCertificate
  certificate_from_json unmarshal text = from_value (unmarshal text)

  -- `read_file` is os.ReadFile.
  unfoldable pub load_certificate_from_json_file :
      (Bytes → Option Value) → (Bytes → Option Bytes) → Bytes → Option ProtoCertificate
  load_certificate_from_json_file unmarshal read_file name =
      read_file name >>= certificate_from_json unmarshal
