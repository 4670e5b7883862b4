-- ===== src/Service.antt =====
-- internal/certificate/service.go: the delayed chains, and the certificates that are sent on.
pub mod Chains
pub mod Sending
pub mod Delivery
use agg_certificate_proxy.Prelude.{
  ℕ, Bool, true, false, List, [], ◌∷◌, map, Option, none, some, Bytes, codes, ◌==◌, if◌then◌else◌,
  ◌++◌,
}
use agg_certificate_proxy.Text.Decimal.{parse_uint, format_uint, max_uint32}
use agg_certificate_proxy.Text.Separated.{split, join, trim_space}
use agg_certificate_proxy.Hashing.{generate_certificate_id}
use agg_certificate_proxy.Proto.Node.{SubmitCertificateRequest, SubmitCertificateResponse}
use agg_certificate_proxy.Store.{
  Certificate, get_config_value, set_config_value, text_delayed_chains,
  get_processable_certificates, mark_certificate_processed,
}
use agg_certificate_proxy.World.{
  World, Env, M, ◌>>=◌, ◌>>◌, return, fail, or_fail, or_panic, attempt, Result, fine, failed,
  Outcome, ok, err, tick, is_cancelled, connect_failed, unmarshal_failed, call_failed, when,
}

-- The loop over the parts: a part that is no uint32 is skipped with a warning.
unfoldable pub parse_chains : List Bytes → List ℕ
parse_chains [] = []
parse_chains (part ∷ parts) = elim (parse_uint max_uint32 (trim_space part)) [
  | none ↦ parse_chains parts
  | some chain ↦ chain ∷ parse_chains parts
]

-- The function parseChainIDs of cmd/proxy/main.go.
unfoldable pub parse_chain_ids : Bytes → List ℕ
unfolding parse_chains
parse_chain_ids chains = parse_chains (split b',' chains)

-- The chains of a configured value.
unfoldable pub chains_of : Bytes → List ℕ
unfolding parse_chains
chains_of [] = []
chains_of (c ∷ s) = parse_chains (split b',' (c ∷ s))

unfoldable pub get_delayed_chains : Env → M (List ℕ)
get_delayed_chains env = do
  value ← get_config_value env text_delayed_chains
  return (chains_of value)

unfoldable pub is_listed : ℕ → List ℕ → Bool
is_listed chain [] = false
is_listed chain (id ∷ rest) = if id == chain then true else is_listed chain rest

unfoldable pub is_chain_delayed : Env → ℕ → M Bool
unfolding is_listed
is_chain_delayed env chain = do chains ← get_delayed_chains env; return (is_listed chain chains)

-- The comma-separated text that SetDelayedChains stores.
unfoldable pub chains_text : List ℕ → Bytes
chains_text chains = join b',' (map format_uint chains)

unfoldable pub set_delayed_chains : Env → List ℕ → M (Unit {0})
set_delayed_chains env chains = set_config_value env text_delayed_chains (chains_text chains)

abbrev pub default_address : Bytes
default_address = codes "localhost:50052"

-- The configured address, or the default on an error and on the empty text.
abbrev pub address_or_default : Result Bytes → Bytes
address_or_default (failed e) = default_address
address_or_default (fine []) = default_address
address_or_default (fine (c ∷ s)) = c ∷ s

abbrev answer : Option SubmitCertificateResponse → Outcome SubmitCertificateResponse
answer none = err call_failed
answer (some r) = ok r

-- The remote call. What was sent is noted, whether an answer came or not.
unfoldable pub submit : Env → Bytes → SubmitCertificateRequest → M SubmitCertificateResponse
submit env address request w = (
  answer (env.submit_certificate w.ticks address request),
  record (tick w) { sent = w.sent ++ record { address = address; request = request } ∷ [] },
)

-- What SendToAggSender does once it has an answer: it prints the identifier of the response and
-- the one that it calculates, and panics where one of the pointers on the way is nil.
abbrev print_ids : Env → SubmitCertificateRequest → SubmitCertificateResponse → M (Unit {0})
print_ids env request response = do
  id ← or_panic response.certificate_id
  value ← or_panic id.value
  calculated ← or_panic (generate_certificate_id env.ethereum request.certificate)
  return tt

abbrev submitted : Env → Bytes → SubmitCertificateRequest → M SubmitCertificateResponse
submitted env address request = do
  response ← submit env address request
  print_ids env request response
  return response

unfoldable pub send_to_agg_sender : Env → Certificate → M SubmitCertificateResponse
send_to_agg_sender env cert = do
  configured ← attempt (get_config_value env (codes "aggsender_address"))
  let address = address_or_default configured
  when (if env.can_connect address then false else true) (fail connect_failed)
  request ← or_fail (env.unmarshal cert.raw_proto) unmarshal_failed
  submitted env address request

-- After a certificate was sent: an error while it is marked is logged.
abbrev mark : Env → ℕ → Result SubmitCertificateResponse → M (Unit {0})
mark env id (failed e) = return tt
mark env id (fine r) = do marked ← attempt (mark_certificate_processed env id); return tt

-- The loop of ProcessPendingCertificates: its body, and the loop. A cancelled context ends it.
abbrev process_certificate : Env → Certificate → M (Unit {0}) → M (Unit {0})
process_certificate env cert rest = do
  response ← attempt (send_to_agg_sender env cert)
  mark env cert.id response
  rest

abbrev unless_cancelled : Env → M (Unit {0}) → M (Unit {0})
unless_cancelled env body = do
  cancelled ← is_cancelled env
  when (if cancelled then false else true) body

unfoldable pub process_certificates : Env → List Certificate → M (Unit {0})
process_certificates env [] = return tt
process_certificates env (cert ∷ certs) =
    let rest = process_certificates env certs in
    unless_cancelled env (process_certificate env cert rest)

abbrev process_found : Env → Result (List Certificate) → M (Unit {0})
process_found env (failed e) = return tt
process_found env (fine certs) = process_certificates env certs

unfoldable pub process_pending_certificates : Env → M (Unit {0})
unfolding process_certificates
process_pending_certificates env = do
  found ← attempt (get_processable_certificates env)
  process_found env found
