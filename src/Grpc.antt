-- ===== src/Grpc.antt =====
-- internal/certificate/grpc.go: the methods of the gRPC server.
pub mod Submission
pub mod Locking
pub mod Header
pub mod Failure
pub mod Frames
use agg_certificate_proxy.Prelude.{
  ℕ, ◌+◌, Bool, true, false, List, [], ◌∷◌, Option, none, some, Bytes, codes, replicate, ◌==◌,
  if◌then◌else◌,
}
use agg_certificate_proxy.BigEndian.{set_bytes}
use agg_certificate_proxy.Hashing.{generate_certificate_id}
use agg_certificate_proxy.Metadata.{extract_metadata}
use agg_certificate_proxy.Proto.Fields.{contents, get_value32, FixedBytes32}
use agg_certificate_proxy.Proto.Interop.{BridgeExit, get_amount}
use agg_certificate_proxy.Proto.Node.{
  ProtoCertificate, CertificateId, SubmitCertificateRequest, SubmitCertificateResponse,
  GetCertificateHeaderRequest, GetCertificateHeaderResponse, CertificateHeader, pending,
  get_network_id, get_bridge_exits,
}
use agg_certificate_proxy.Service.{is_chain_delayed, send_to_agg_sender}
use agg_certificate_proxy.Store.{Certificate, store_certificate, get_certificate_by_id}
use agg_certificate_proxy.Suspicion.{check_for_suspicious_value}
use agg_certificate_proxy.World.{
  Env, World, M, ◌>>=◌, ◌>>◌, return, fail, or_fail, or_panic, attempt, Result, fine, failed, Error,
  Outcome, ok, err, tick, deferring_trigger, marshal_failed, connect_failed, call_failed, no_rows,
  db_error, when,
}

-- The loop that adds up the amounts.
unfoldable pub add_amounts : ℕ → List (Option BridgeExit) → ℕ
add_amounts total [] = total
add_amounts total (b ∷ rest) =
    add_amounts (total + set_bytes (contents (get_value32 (get_amount b)))) rest

unfoldable pub withdrawal_value : Option ProtoCertificate → ℕ
unfolding add_amounts
withdrawal_value certificate = add_amounts 0 (get_bridge_exits certificate)

-- An error of the lookup counts as delayed.
abbrev pub delayed_or_error : Result Bool → Bool
delayed_or_error (fine b) = b
delayed_or_error (failed e) = true

abbrev pub or_empty_text : Option Bytes → Bytes
or_empty_text none = []
or_empty_text (some s) = s

-- A certificate that is not stored: its id is 0, and of its times only the raw bytes are used.
abbrev pub immediate : Bytes → Bytes → Certificate
immediate raw metadata = record {
  id = 0;
  raw_proto = raw;
  received_at = 0;
  processed_at = none;
  metadata = metadata;
}

unfoldable pub send_certificate_immediately : Env → Bytes → Bytes → M SubmitCertificateResponse
send_certificate_immediately env raw metadata = send_to_agg_sender env (immediate raw metadata)

-- The response, or nil where the call returned an error.
abbrev pub response_or_nil : Result SubmitCertificateResponse → Option SubmitCertificateResponse
response_or_nil (fine r) = some r
response_or_nil (failed e) = none

unfoldable pub lock_certificate : Env → Bytes → Bytes → CertificateId → M SubmitCertificateResponse
lock_certificate env raw metadata id = do
  store_certificate env raw metadata (contents (get_value32 id.value))
  return (record { certificate_id = some id })

-- What is done with the certificate: the errors of the two calls are assigned and not looked at.
abbrev pub dispatch :
    Env → Bool → Bytes → Bytes → CertificateId → M (Result SubmitCertificateResponse)
dispatch env true raw metadata id = attempt (lock_certificate env raw metadata id)
dispatch env false raw metadata id = attempt (send_certificate_immediately env raw metadata)

-- Whether the certificate is locked: an error of the check leaves the method.
abbrev pub must_lock : Env → Bool → Option ProtoCertificate → M Bool
must_lock env false certificate = return false
must_lock env true certificate =
    if withdrawal_value certificate == 0
    then return false
    else check_for_suspicious_value env certificate

-- The end of the method: it prints the identifier of the response, and panics where it is nil.
abbrev answer : Result SubmitCertificateResponse → M SubmitCertificateResponse
answer result = do
  response ← or_panic (response_or_nil result)
  id ← or_panic response.certificate_id
  value ← or_panic id.value
  return response

abbrev decide :
    Env
    → SubmitCertificateRequest
    → Bytes
    → Bytes
    → CertificateId
    → Bool
    → M SubmitCertificateResponse
decide env req raw metadata id delayed = do
  locked ← must_lock env delayed req.certificate
  result ← dispatch env locked raw metadata id
  answer result

abbrev submission : Env → SubmitCertificateRequest → M SubmitCertificateResponse
submission env req = do
  raw ← or_fail (env.marshal req) marshal_failed
  let metadata = or_empty_text (env.json_marshal (extract_metadata req.certificate))
  listed ← attempt (is_chain_delayed env (get_network_id req.certificate))
  id ← or_panic (generate_certificate_id env.ethereum req.certificate)
  decide env req raw metadata id (delayed_or_error listed)

unfoldable pub submit_certificate : Env → SubmitCertificateRequest → M SubmitCertificateResponse
submit_certificate env req = deferring_trigger (submission env req)

abbrev header_answer : Option GetCertificateHeaderResponse → Outcome GetCertificateHeaderResponse
header_answer none = err call_failed
header_answer (some r) = ok r

-- dialAndGetCertificateHeader
unfoldable pub dial_and_get_certificate_header :
    Env → Bytes → GetCertificateHeaderRequest → M GetCertificateHeaderResponse
dial_and_get_certificate_header env address req w =
    if env.can_connect address
    then (header_answer (env.get_certificate_header w.ticks address req), tick w)
    else (err connect_failed, w)

abbrev zero_hash : Option FixedBytes32
zero_hash = some (record { value = some (replicate 32 0) })

-- The header of a certificate that waits, and the response with it.
abbrev pub waiting_header : Option CertificateId → CertificateHeader
waiting_header id = record {
  network_id = 0;
  height = 1;
  epoch_number = none;
  certificate_index = none;
  certificate_id = id;
  prev_local_exit_root = zero_hash;
  new_local_exit_root = zero_hash;
  metadata = zero_hash;
  status = pending;
  error = none;
  settlement_tx_hash = none;
}

abbrev pub pending_header : Option CertificateId → GetCertificateHeaderResponse
pending_header id = record { certificate_header = some (waiting_header id) }

-- The header of a processed certificate, whose identifier is then printed.
abbrev header_of_processed :
    Env → Bytes → GetCertificateHeaderRequest → M GetCertificateHeaderResponse
header_of_processed env upstream req = do
  response ← dial_and_get_certificate_header env upstream req
  header ← or_panic response.certificate_header
  id ← or_panic header.certificate_id
  value ← or_panic id.value
  return response

abbrev header_of_row :
    Env → Bytes → GetCertificateHeaderRequest → Option ℕ → M GetCertificateHeaderResponse
header_of_row env upstream req none = return (pending_header req.certificate_id)
header_of_row env upstream req (some t) = header_of_processed env upstream req

abbrev pub header_of_found :
    Env → Bytes → GetCertificateHeaderRequest → Result Certificate → M GetCertificateHeaderResponse
header_of_found env upstream req (fine c) = header_of_row env upstream req c.processed_at
header_of_found env upstream req (failed no_rows) = dial_and_get_certificate_header env upstream req
header_of_found env upstream req (failed e) = fail e

-- The second argument is the address of the backend that the server was made with.
unfoldable pub get_certificate_header :
    Env → Bytes → GetCertificateHeaderRequest → M GetCertificateHeaderResponse
get_certificate_header env upstream req = do
  id ← or_panic req.certificate_id
  value ← or_panic id.value
  found ← attempt (get_certificate_by_id env (contents value.value))
  header_of_found env upstream req found
