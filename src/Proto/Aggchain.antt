-- ===== src/Proto/Aggchain.antt =====
-- pkg/proto/agglayer/interop/types/v1/aggchain.pb.go.
use agg_certificate_proxy.Prelude.{List, Option, none, some, Bytes}
use agg_certificate_proxy.Proto.Fields.{Slice, FixedBytes32, FixedBytes65}

pub record Sp1StarkProof : Type 0 where
  pub version : Bytes
  pub proof : Slice
  pub vkey : Slice

-- The oneof of the proof has one case, so its wrapper is the pointer inside. The map of the
-- context may be nil.
pub record AggchainProof : Type 0 where
  pub aggchain_params : Option FixedBytes32
  pub signature : Option FixedBytes65
  pub context : Option (List (Bytes × Slice))
  pub sp1_stark : Option Sp1StarkProof

pub data AggchainPayload : Type 0 where
  signature_case : Option FixedBytes65 → AggchainPayload
  generic_case : Option AggchainProof → AggchainPayload

pub record AggchainData : Type 0 where
  pub payload : Option AggchainPayload

abbrev payload_signature : Option AggchainPayload → Option FixedBytes65
payload_signature (some (signature_case s)) = s
payload_signature _ = none

abbrev payload_generic : Option AggchainPayload → Option AggchainProof
payload_generic (some (generic_case g)) = g
payload_generic _ = none

abbrev pub get_signature : AggchainData → Option FixedBytes65
get_signature d = payload_signature d.payload

abbrev pub get_generic : AggchainData → Option AggchainProof
get_generic d = payload_generic d.payload
