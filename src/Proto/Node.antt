-- ===== src/Proto/Node.antt =====
-- pkg/proto/agglayer/node: certificates, their identifiers and headers, requests and responses.
use agg_certificate_proxy.Prelude.{ℕ, List, [], Option, none, some}
use agg_certificate_proxy.Proto.Fields.{Slice, FixedBytes32}
use agg_certificate_proxy.Proto.Interop.{BridgeExit, ImportedBridgeExit}
use agg_certificate_proxy.Proto.Aggchain.{AggchainData}

-- `Certificate` of the protocol. The number of a network is a uint32 and the height a uint64.
pub record ProtoCertificate : Type 0 where
  pub network_id : ℕ
  pub height : ℕ
  pub prev_local_exit_root : Option FixedBytes32
  pub new_local_exit_root : Option FixedBytes32
  pub bridge_exits : List (Option BridgeExit)
  pub imported_bridge_exits : List (Option ImportedBridgeExit)
  pub metadata : Option FixedBytes32
  pub aggchain_data : Option AggchainData
  pub custom_chain_data : Slice
  pub l1_info_tree_leaf_count : Option ℕ

abbrev pub get_network_id : Option ProtoCertificate → ℕ
get_network_id none = 0
get_network_id (some c) = c.network_id

abbrev pub get_bridge_exits : Option ProtoCertificate → List (Option BridgeExit)
get_bridge_exits none = []
get_bridge_exits (some c) = c.bridge_exits

abbrev number_or_zero : Option ℕ → ℕ
number_or_zero none = 0
number_or_zero (some n) = n

abbrev pub get_l1_info_tree_leaf_count : ProtoCertificate → ℕ
get_l1_info_tree_leaf_count c = number_or_zero c.l1_info_tree_leaf_count

pub record CertificateId : Type 0 where
  pub value : Option FixedBytes32

pub data CertificateStatus : Type 0 where
  unspecified pending proven candidate in_error settled : CertificateStatus
  unrecognized : ℕ → CertificateStatus

pub record CertificateStatusError : Type 0 where
  pub message : Slice

pub record CertificateHeader : Type 0 where
  pub network_id : ℕ
  pub height : ℕ
  pub epoch_number : Option ℕ
  pub certificate_index : Option ℕ
  pub certificate_id : Option CertificateId
  pub prev_local_exit_root : Option FixedBytes32
  pub new_local_exit_root : Option FixedBytes32
  pub metadata : Option FixedBytes32
  pub status : CertificateStatus
  pub error : Option CertificateStatusError
  pub settlement_tx_hash : Option FixedBytes32

pub record SubmitCertificateRequest : Type 0 where
  pub certificate : Option ProtoCertificate

pub record SubmitCertificateResponse : Type 0 where
  pub certificate_id : Option CertificateId

pub record GetCertificateHeaderRequest : Type 0 where
  pub certificate_id : Option CertificateId

pub record GetCertificateHeaderResponse : Type 0 where
  pub certificate_header : Option CertificateHeader
