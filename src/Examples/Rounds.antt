-- ===== src/Examples/Rounds.antt =====
-- Rounds of the scheduler over a table with one certificate that waits.
use agg_certificate_proxy.Prelude.{
  ◌≡◌, refl, ◌↔◌, inr, false, List, [], ◌∷◌, ◌++◌, ◌^◌, Bool, not, map, keep_if, some, codes,
  lookup, same_bytes, All, In, arith,
}
use agg_certificate_proxy.Examples.{
  some_env, some_world, some_row, some_request, some_certificate, some_ethereum, some_id, bytes32,
}
use agg_certificate_proxy.Hashing.{
  certificate_data, exit_hashes, imported_hashes, exit_data, generate_certificate_id,
  hash_bridge_exit,
}
use agg_certificate_proxy.Proto.Node.{CertificateId}
use agg_certificate_proxy.Service.Delivery.{IsHealthy, Delivered, process_certificates_delivers}
use agg_certificate_proxy.Scheduler.{process_round}
use agg_certificate_proxy.Scheduler.Rounds.{process_round_stopped}
use agg_certificate_proxy.Service.{process_certificates, process_pending_certificates}
use agg_certificate_proxy.Service.Sending.{IsWaiting, process_pending_sends}
use agg_certificate_proxy.Store.{
  Certificate, certificate_of, or_empty, get_processable_certificates, is_processable,
}
use agg_certificate_proxy.Store.Duration.{cutoff, duration_word}
use agg_certificate_proxy.Service.Delivery.Queue.{queue, process_pending-queue}
use agg_certificate_proxy.Store.Due.{IsDue, get_processable_exact}
use agg_certificate_proxy.Store.Rows.{SameCertificates}
use agg_certificate_proxy.Text.Decimal.{pos, parse_int}
use agg_certificate_proxy.World.{World, Row, Submission, ok}

abbrev stopped_world : World
stopped_world = record some_world {
  scheduler_status = some (record { is_active = false; last_updated = 0 });
}

process_round_stopped_example :
    SameCertificates stopped_world (process_round some_env stopped_world).1
process_round_stopped_example = process_round_stopped some_env stopped_world (inr (inr refl))

process_pending_sends_example :
    (new : List Submission) × ((process_pending_certificates some_env some_world).1.sent
      ≡ some_world.sent ++ new)
    × All (IsWaiting some_env some_world) new
process_pending_sends_example = process_pending_sends some_env some_world

get_processable_exact_example :
    (certs : List Certificate) × ((get_processable_certificates some_env some_world).0 ≡ ok certs)
    × ((c : Certificate)
        → In c certs ↔ (
            (r : Row) × In r some_world.certificates
            × IsDue 0 (some_env.clock 1) r
            × (certificate_of r ≡ c)))
unfolding lookup parse_int same_bytes
get_processable_exact_example =
    get_processable_exact some_env some_world (codes "0") 0 refl refl (omega arith) refl refl

abbrev two_certificates : List Certificate
two_certificates = certificate_of some_row ∷ record (certificate_of some_row) { id = 2 } ∷ []

some_env-IsHealthy : IsHealthy some_env
some_env-IsHealthy = record {
  up = λ n. refl;
  running = λ n. refl;
  reachable = λ a. refl;
  answers = λ n a q. (some_id, bytes32 5, refl, refl);
}

abbrev calculated_id : CertificateId
calculated_id = record {
  value = some (record {
    value = some (
        some_ethereum.keccak256_hash
          (or_empty (certificate_data some_ethereum (some some_certificate)) ∷ []));
  });
}

process_certificates_delivers_example :
    Delivered some_env some_env-IsHealthy two_certificates some_world
      (process_certificates some_env two_certificates some_world)
unfolding generate_certificate_id certificate_data exit_hashes imported_hashes hash_bridge_exit
    exit_data
process_certificates_delivers_example =
    process_certificates_delivers some_env some_env-IsHealthy two_certificates some_world
      ((some_request, calculated_id, refl, refl), ((some_request, calculated_id, refl, refl), tt))

-- Two certificates wait; the delay has gone by for the first.
abbrev waiting_world : World
waiting_world = record some_world {
  certificates = some_row ∷ record some_row { id = 2; received_at = 10 ^ 12 } ∷ [];
  last_id = 2;
}

abbrev first_due : Row → Bool
first_due = is_processable (some_env.clock 1) (cutoff (pos 0))

process_pending-queue_example :
    (queue (process_pending_certificates some_env waiting_world).1
      ≡ keep_if (λ r. not (first_due r)) (queue waiting_world))
    × ((new : List Submission) × ((process_pending_certificates some_env waiting_world).1.sent
          ≡ waiting_world.sent ++ new)
        × (map (λ s. some s.request) new
            ≡ map (λ r. some_env.unmarshal r.raw_proto) (keep_if first_due (queue waiting_world))))
unfolding lookup parse_int same_bytes cutoff duration_word generate_certificate_id certificate_data
    exit_hashes imported_hashes hash_bridge_exit exit_data
process_pending-queue_example =
    process_pending-queue some_env some_env-IsHealthy waiting_world (codes "0") (pos 0)
      (omega arith, (omega arith, omega arith)) refl refl
      ((some_request, calculated_id, refl, refl), tt)
