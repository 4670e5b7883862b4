-- ===== src/Proto/Interop.antt =====
-- pkg/proto/agglayer/interop/types/v1: bridge exits, claims and imported bridge exits.
use agg_certificate_proxy.Prelude.{ℕ, Option, none, some}
use agg_certificate_proxy.Proto.Fields.{FixedBytes20, FixedBytes32, MerkleProof}

-- Any other number is kept as it came.
pub data LeafType : Type 0 where
  unspecified transfer message : LeafType
  unrecognized : ℕ → LeafType

pub record TokenInfo : Type 0 where
  pub origin_network : ℕ
  pub origin_token_address : Option FixedBytes20

pub record BridgeExit : Type 0 where
  pub leaf_type : LeafType
  pub token_info : Option TokenInfo
  pub dest_network : ℕ
  pub dest_address : Option FixedBytes20
  pub amount : Option FixedBytes32
  pub metadata : Option FixedBytes32

pub record L1InfoTreeLeaf : Type 0 where
  pub global_exit_root : Option FixedBytes32
  pub block_hash : Option FixedBytes32
  pub timestamp : ℕ

pub record L1InfoTreeLeafWithContext : Type 0 where
  pub l1_info_tree_index : ℕ
  pub rer : Option FixedBytes32
  pub mer : Option FixedBytes32
  pub inner : Option L1InfoTreeLeaf

pub record ClaimFromMainnet : Type 0 where
  pub proof_leaf_mer : Option MerkleProof
  pub proof_ger_l1root : Option MerkleProof
  pub l1_leaf : Option L1InfoTreeLeafWithContext

pub record ClaimFromRollup : Type 0 where
  pub proof_leaf_ler : Option MerkleProof
  pub proof_ler_rer : Option MerkleProof
  pub proof_ger_l1root : Option MerkleProof
  pub l1_leaf : Option L1InfoTreeLeafWithContext

pub data Claim : Type 0 where
  mainnet : Option ClaimFromMainnet → Claim
  rollup : Option ClaimFromRollup → Claim

pub record ImportedBridgeExit : Type 0 where
  pub bridge_exit : Option BridgeExit
  pub global_index : Option FixedBytes32
  pub claim : Option Claim

abbrev pub get_token_info : Option BridgeExit → Option TokenInfo
get_token_info none = none
get_token_info (some b) = b.token_info

abbrev pub get_dest_network : Option BridgeExit → ℕ
get_dest_network none = 0
get_dest_network (some b) = b.dest_network

abbrev pub get_dest_address : Option BridgeExit → Option FixedBytes20
get_dest_address none = none
get_dest_address (some b) = b.dest_address

abbrev pub get_amount : Option BridgeExit → Option FixedBytes32
get_amount none = none
get_amount (some b) = b.amount

abbrev pub get_mainnet : Option Claim → Option ClaimFromMainnet
get_mainnet none = none
get_mainnet (some (mainnet m)) = m
get_mainnet (some (rollup r)) = none

abbrev pub get_rollup : Option Claim → Option ClaimFromRollup
get_rollup none = none
get_rollup (some (mainnet m)) = none
get_rollup (some (rollup r)) = r

abbrev pub get_origin_network : Option TokenInfo → ℕ
get_origin_network none = 0
get_origin_network (some t) = t.origin_network

abbrev pub get_origin_token_address : Option TokenInfo → Option FixedBytes20
get_origin_token_address none = none
get_origin_token_address (some t) = t.origin_token_address
