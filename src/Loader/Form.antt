-- ===== src/Loader/Form.antt =====
-- The JSON form of a certificate, as a description by itself: what a file holds that the loader
-- reads. A field that is nil is null.
use agg_certificate_proxy.Prelude.{
  ℕ, ◌/◌, ◌%◌, ◌==◌, ◌^◌, ◌<◌, ◌≡◌, Bool, List, [], ◌∷◌, Option, none, some, Bytes, codes, All,
}
use agg_certificate_proxy.Decoded.{
  Value, null, boolean, float, string, list, map_of, Values, no_value, value, Fields, no_field,
  field, whole,
}
use agg_certificate_proxy.Loader.{global_index_bytes}
use agg_certificate_proxy.BigEndian.{set_bytes}
use agg_certificate_proxy.Proto.Fields.{Slice, contents, FixedBytes20, FixedBytes32, MerkleProof}
use agg_certificate_proxy.Proto.Interop.{
  LeafType, unspecified, transfer, message, unrecognized, BridgeExit, TokenInfo, L1InfoTreeLeaf,
  L1InfoTreeLeafWithContext, ClaimFromMainnet, ClaimFromRollup, Claim, mainnet, rollup,
  ImportedBridgeExit,
}
use agg_certificate_proxy.Proto.Node.{ProtoCertificate}
use agg_certificate_proxy.Text.Hex.{hex_0x, AllBytes}

-- Bytes that are not nil, as a form can show them.
abbrev pub IsGiven : Slice → Type 0
IsGiven s = (b : Bytes) × (s ≡ some b) × AllBytes b

-- Nothing, or what has the property.
abbrev pub IsNilOr : {A : Type 0} → (A → Type 0) → Option A → Type 0
IsNilOr P none = Unit
IsNilOr P (some a) = P a

abbrev pub slice_value : Slice → Value
slice_value none = null
slice_value (some b) = string (hex_0x b)

abbrev pub value20 : Option FixedBytes20 → Value
value20 none = null
value20 (some b) = slice_value b.value

abbrev pub value32 : Option FixedBytes32 → Value
value32 none = null
value32 (some b) = slice_value b.value

abbrev pub Is20 : Option FixedBytes20 → Type 0
Is20 = IsNilOr (λ b. IsGiven b.value)

abbrev pub Is32 : Option FixedBytes32 → Type 0
Is32 = IsNilOr (λ b. IsGiven b.value)

-- Two fields and the rest.
abbrev pub map_or_null : {A : Type 0} → (A → Fields) → Option A → Value
map_or_null f none = null
map_or_null f (some a) = map_of (f a)

abbrev pub leaf_type_value : LeafType → Value
leaf_type_value transfer = string (codes "Transfer")
leaf_type_value message = string (codes "Message")
leaf_type_value unspecified = null
leaf_type_value (unrecognized n) = null

abbrev pub token_info_fields : TokenInfo → Fields
token_info_fields t =
    field (codes "origin_network") (float (whole t.origin_network))
      (field (codes "origin_token_address") (value20 t.origin_token_address) no_field)

abbrev pub bridge_exit_fields : BridgeExit → Fields
bridge_exit_fields b = field (codes "leaf_type") (leaf_type_value b.leaf_type) (
    field (codes "token_info") (map_or_null token_info_fields b.token_info) (
      field (codes "dest_network") (float (whole b.dest_network)) (
        field (codes "dest_address") (value20 b.dest_address) (
          field (codes "amount") (value32 b.amount)
            (field (codes "metadata") (value32 b.metadata) no_field)))))

-- A leaf type that is known, numbers within their types, and bytes that are not nil.
pub record IsFormToken (t : TokenInfo) : Type 0 where
  pub network_fits : t.origin_network < 2 ^ 32
  pub address_given : Is20 t.origin_token_address

pub data IsKnown : LeafType → Type 0 where
  unspecified_known : IsKnown unspecified
  transfer_known : IsKnown transfer
  message_known : IsKnown message

pub record IsFormExit (b : BridgeExit) : Type 0 where
  pub leaf_known : IsKnown b.leaf_type
  pub token_fits : IsNilOr IsFormToken b.token_info
  pub network_fits : b.dest_network < 2 ^ 32
  pub address_given : Is20 b.dest_address
  pub amount_given : Is32 b.amount
  pub metadata_given : Is32 b.metadata

abbrev pub sibling_values : List (Option FixedBytes32) → Values
sibling_values [] = no_value
sibling_values (s ∷ rest) = value (value32 s) (sibling_values rest)

abbrev pub merkle_proof_fields : MerkleProof → Fields
merkle_proof_fields p = field (codes "root") (value32 p.root) (
    field (codes "proof")
      (map_of (field (codes "siblings") (list (sibling_values p.siblings)) no_field)) no_field)

-- A sibling cannot be nil.
abbrev pub IsSibling : Option FixedBytes32 → Type 0
IsSibling s = (b : FixedBytes32) × (s ≡ some b) × IsGiven b.value

pub record IsFormProof (p : MerkleProof) : Type 0 where
  pub root_given : Is32 p.root
  pub siblings_given : All IsSibling p.siblings

abbrev pub inner_fields : L1InfoTreeLeaf → Fields
inner_fields i = field (codes "global_exit_root") (value32 i.global_exit_root) (
    field (codes "block_hash") (value32 i.block_hash)
      (field (codes "timestamp") (float (whole i.timestamp)) no_field))

pub record IsFormInner (i : L1InfoTreeLeaf) : Type 0 where
  pub root_given : Is32 i.global_exit_root
  pub hash_given : Is32 i.block_hash
  pub timestamp_fits : i.timestamp < 2 ^ 53

abbrev pub l1_leaf_fields : L1InfoTreeLeafWithContext → Fields
l1_leaf_fields l = field (codes "l1_info_tree_index") (float (whole l.l1_info_tree_index)) (
    field (codes "rer") (value32 l.rer) (
      field (codes "mer") (value32 l.mer)
        (field (codes "inner") (map_or_null inner_fields l.inner) no_field)))

pub record IsFormLeaf (l : L1InfoTreeLeafWithContext) : Type 0 where
  pub index_fits : l.l1_info_tree_index < 2 ^ 32
  pub rer_given : Is32 l.rer
  pub mer_given : Is32 l.mer
  pub inner_fits : IsNilOr IsFormInner l.inner

abbrev pub mainnet_fields : ClaimFromMainnet → Fields
mainnet_fields c =
    field (codes "proof_leaf_mer") (map_or_null merkle_proof_fields c.proof_leaf_mer) (
      field (codes "proof_ger_l1root") (map_or_null merkle_proof_fields c.proof_ger_l1root)
        (field (codes "l1_leaf") (map_or_null l1_leaf_fields c.l1_leaf) no_field))

abbrev pub rollup_fields : ClaimFromRollup → Fields
rollup_fields c =
    field (codes "proof_leaf_ler") (map_or_null merkle_proof_fields c.proof_leaf_ler) (
      field (codes "proof_ler_rer") (map_or_null merkle_proof_fields c.proof_ler_rer) (
        field (codes "proof_ger_l1root") (map_or_null merkle_proof_fields c.proof_ger_l1root)
          (field (codes "l1_leaf") (map_or_null l1_leaf_fields c.l1_leaf) no_field)))

abbrev pub claim_fields : Claim → Fields
claim_fields (mainnet m) = field (codes "Mainnet") (map_or_null mainnet_fields m) no_field
claim_fields (rollup r) = field (codes "Rollup") (map_or_null rollup_fields r) no_field

pub record IsFormMainnet (c : ClaimFromMainnet) : Type 0 where
  pub leaf_proof : IsNilOr IsFormProof c.proof_leaf_mer
  pub root_proof : IsNilOr IsFormProof c.proof_ger_l1root
  pub leaf : IsNilOr IsFormLeaf c.l1_leaf

pub record IsFormRollup (c : ClaimFromRollup) : Type 0 where
  pub leaf_proof : IsNilOr IsFormProof c.proof_leaf_ler
  pub exit_proof : IsNilOr IsFormProof c.proof_ler_rer
  pub root_proof : IsNilOr IsFormProof c.proof_ger_l1root
  pub leaf : IsNilOr IsFormLeaf c.l1_leaf

abbrev pub IsFormClaim : Claim → Type 0
IsFormClaim (mainnet m) = (c : ClaimFromMainnet) × (m ≡ some c) × IsFormMainnet c
IsFormClaim (rollup r) = (c : ClaimFromRollup) × (r ≡ some c) × IsFormRollup c

-- The parts of a global index, as the number that its bytes spell has them.
abbrev pub index_value : Slice → ℕ
index_value s = set_bytes (contents s)

abbrev pub index_fields : FixedBytes32 → Fields
index_fields b = field (codes "mainnet_flag") (boolean (index_value b.value / 2 ^ 64 == 1)) (
    field (codes "rollup_index") (float (whole (index_value b.value / 2 ^ 32 % 2 ^ 32)))
      (field (codes "leaf_index") (float (whole (index_value b.value % 2 ^ 32))) no_field))

-- The 32 bytes of such a number below 2 ^ 65.
abbrev pub IsFormIndex : FixedBytes32 → Type 0
IsFormIndex b =
    (flag : Bool) × (r : ℕ) × (l : ℕ) × (r < 2 ^ 32)
    × (l < 2 ^ 32)
    × (b.value ≡ some (global_index_bytes flag r l))

abbrev pub imported_fields : ImportedBridgeExit → Fields
imported_fields i = field (codes "bridge_exit") (map_or_null bridge_exit_fields i.bridge_exit) (
    field (codes "global_index") (map_or_null index_fields i.global_index)
      (field (codes "claim_data") (map_or_null claim_fields i.claim) no_field))

pub record IsFormImported (i : ImportedBridgeExit) : Type 0 where
  pub exit_fits : IsNilOr IsFormExit i.bridge_exit
  pub index_fits : IsNilOr IsFormIndex i.global_index
  pub claim_fits : IsNilOr IsFormClaim i.claim

abbrev pub list_values : {A : Type 0} → (A → Fields) → List (Option A) → Values
list_values f [] = no_value
list_values f (a ∷ rest) = value (map_or_null f a) (list_values f rest)

-- No entry is nil.
abbrev pub AllGiven : {A : Type 0} → (A → Type 0) → List (Option A) → Type 0
AllGiven {A} P = All (λ o. (a : A) × (o ≡ some a) × P a)

abbrev pub count_value : Option ℕ → Value
count_value none = null
count_value (some n) = float (whole n)

-- The form of a certificate.
abbrev pub certificate_fields : ProtoCertificate → Fields
certificate_fields c = field (codes "network_id") (float (whole c.network_id)) (
    field (codes "height") (float (whole c.height)) (
      field (codes "prev_local_exit_root") (value32 c.prev_local_exit_root) (
        field (codes "new_local_exit_root") (value32 c.new_local_exit_root) (
          field (codes "bridge_exits") (list (list_values bridge_exit_fields c.bridge_exits)) (
            field (codes "imported_bridge_exits")
              (list (list_values imported_fields c.imported_bridge_exits))
              (field (codes "metadata") (value32 c.metadata) (
                field (codes "l1_info_tree_leaf_count") (count_value c.l1_info_tree_leaf_count)
                  no_field)))))))

-- What a form can hold of a certificate: a height that a float64 holds, no nil entry in a list, no
-- aggchain data and no custom chain data.
pub record IsFormCertificate (c : ProtoCertificate) : Type 0 where
  pub network_fits : c.network_id < 2 ^ 32
  pub height_fits : c.height < 2 ^ 53
  pub prev_given : Is32 c.prev_local_exit_root
  pub new_given : Is32 c.new_local_exit_root
  pub exits_given : AllGiven IsFormExit c.bridge_exits
  pub imported_given : AllGiven IsFormImported c.imported_bridge_exits
  pub metadata_given : Is32 c.metadata
  pub count_fits : IsNilOr (λ n. n < 2 ^ 32) c.l1_info_tree_leaf_count
  pub no_aggchain : c.aggchain_data ≡ none
  pub no_custom : c.custom_chain_data ≡ none
