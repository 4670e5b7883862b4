-- ===== src/Examples/Locks.antt =====
-- A certificate that is locked, one that passes, and one whose backend is down.
use agg_certificate_proxy.Prelude.{
  ◌≡◌, ◌≢◌, refl, ◌↔◌, ◌⊎◌, inl, inr, true, false, [], ◌∷◌, none, some, codes, lookup, insert,
  same_bytes, In, arith,
}
use agg_certificate_proxy.BigEndian.{set_bytes}
use agg_certificate_proxy.Examples.{some_env, some_world, some_request, some_certificate}
use agg_certificate_proxy.Grpc.{submit_certificate, withdrawal_value}
use agg_certificate_proxy.Grpc.Failure.{submit_certificate_unanswered}
use agg_certificate_proxy.Grpc.Header.{IsPending, submit_certificate-IsPending}
use agg_certificate_proxy.Grpc.Locking.{IsLocked, submit_certificate_locks}
use agg_certificate_proxy.Grpc.Submission.{MayPass, submit_certificate_passes}
use agg_certificate_proxy.Hashing.{
  certificate_data, exit_hashes, imported_hashes, exit_data, generate_certificate_id,
  hash_bridge_exit, put_uint32,
}
use agg_certificate_proxy.Proto.Node.{CertificateId, SubmitCertificateRequest}
use agg_certificate_proxy.Service.{chains_of}
use agg_certificate_proxy.Store.{get_config_value, or_empty, text_delayed_chains, row_by_cert_id}
use agg_certificate_proxy.Suspicion.{check_for_suspicious_value, round, total_exits}
use agg_certificate_proxy.Text.Decimal.{parse_uint, format_uint}
use agg_certificate_proxy.Text.Separated.{split, trim_space, to_lower, is_space}
use agg_certificate_proxy.Tokens.{parse_token_values, parse_entry, token_id}
use agg_certificate_proxy.Suspicion.Limit.{IsWithinLimit, not_suspicious_iff}
use agg_certificate_proxy.Text.Hex.{trim_0x}
use agg_certificate_proxy.World.{Env, ok, panicked, tick}

abbrev the_id : CertificateId
the_id = record {
  value = some (record {
    value = some (
        some_env.ethereum.keccak256_hash
          (or_empty (certificate_data some_env.ethereum (some some_certificate)) ∷ []));
  });
}

some_chain-delayed :
    In 1 (chains_of (or_empty (lookup text_delayed_chains some_world.configuration)))
unfolding chains_of parse_uint trim_space split lookup same_bytes is_space
some_chain-delayed = inl refl

some_amount : withdrawal_value some_request.certificate ≢ 0
unfolding withdrawal_value set_bytes
some_amount = λ e. absurd (omega arith)

some_suspicion :
    (check_for_suspicious_value some_env some_request.certificate (tick some_world)).0 ≡ ok true
unfolding check_for_suspicious_value get_config_value lookup same_bytes parse_uint
    parse_token_values parse_entry split to_lower token_id format_uint round total_exits set_bytes
    insert trim_0x
some_suspicion = refl

submit_certificate_locks_example :
    ((submit_certificate some_env some_request some_world).0
      ≡ ok (record { certificate_id = some the_id }))
    × IsLocked some_world (submit_certificate some_env some_request some_world).1 (8 ∷ []) the_id
unfolding generate_certificate_id certificate_data exit_hashes imported_hashes hash_bridge_exit
    exit_data
submit_certificate_locks_example =
    submit_certificate_locks some_env some_request (8 ∷ []) the_id some_world (λ n. refl) refl refl
      some_chain-delayed some_amount some_suspicion

submit_certificate_passes_example :
    ((submit_certificate some_env some_request some_world).1.sent ≡ [])
    ⊎ MayPass some_env some_request some_world
submit_certificate_passes_example = submit_certificate_passes some_env some_request some_world

not_suspicious_iff_example :
    ((check_for_suspicious_value some_env (some some_certificate) some_world).0 ≡ ok false)
    ↔ IsWithinLimit some_env.ethereum
        (some some_certificate)
        (or_empty (lookup (codes "suspicious_value") some_world.configuration))
        (or_empty (lookup (codes "token_values") some_world.configuration))
not_suspicious_iff_example =
    not_suspicious_iff some_env (some some_certificate) some_world refl refl

-- The backend answers no call, and the certificate is one of a chain that is not delayed.
abbrev down_env : Env
down_env = record some_env { submit_certificate = λ n a q. none }

abbrev other_request : SubmitCertificateRequest
other_request = record { certificate = some (record some_certificate { network_id = 5 }) }

abbrev other_id : CertificateId
other_id = record {
  value = some (record {
    value = some (
        some_env.ethereum.keccak256_hash
          (or_empty (certificate_data some_env.ethereum other_request.certificate) ∷ []));
  });
}

other_chain-open :
    ¬ In 5 (chains_of (or_empty (lookup text_delayed_chains some_world.configuration)))
unfolding chains_of parse_uint trim_space split lookup same_bytes is_space
other_chain-open (inl e) = absurd (omega arith)
other_chain-open (inr (inl e)) = absurd (omega arith)
other_chain-open (inr (inr i)) = absurd i

submit_certificate_unanswered_example :
    (submit_certificate down_env other_request some_world).0 ≡ panicked
unfolding generate_certificate_id certificate_data exit_hashes imported_hashes hash_bridge_exit
    exit_data
submit_certificate_unanswered_example =
    submit_certificate_unanswered down_env other_request (8 ∷ []) other_id some_world (λ n. refl)
      (λ n a q. refl) refl refl other_chain-open

submit_certificate-IsPending_example :
    ((submit_certificate some_env some_request some_world).0
      ≡ ok (record { certificate_id = some the_id }))
    × IsPending some_env [] the_id (submit_certificate some_env some_request some_world).1
unfolding generate_certificate_id certificate_data exit_hashes imported_hashes hash_bridge_exit
    exit_data row_by_cert_id same_bytes put_uint32
submit_certificate-IsPending_example =
    submit_certificate-IsPending some_env [] some_request (8 ∷ []) the_id some_world (λ n. refl)
      refl refl some_chain-delayed some_amount some_suspicion refl
