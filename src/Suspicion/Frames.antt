-- ===== src/Suspicion/Frames.antt =====
-- The check of the value only reads.
use agg_certificate_proxy.Prelude.{ℕ, ◌+◌, Bool, List, [], ◌∷◌, Option, none, some, Bytes, Dict}
use agg_certificate_proxy.Ethereum.{Ethereum}
use agg_certificate_proxy.Proto.Interop.{BridgeExit}
use agg_certificate_proxy.Proto.Node.{ProtoCertificate}
use agg_certificate_proxy.Store.Rows.{get_config_value-Keeps}
use agg_certificate_proxy.Suspicion.{
  Round, passed_over, unknown_token, divided_by_zero, worth, round, after_round, over_limit,
  total_exits, read_limit, compare_with, with_config, check_for_suspicious_value,
}
use agg_certificate_proxy.Tokens.{TokenValue}
use agg_certificate_proxy.World.{Env, M, panic}
use agg_certificate_proxy.World.Laws.{Frame, Keeps, keeps_rules, return-Keeps}

module _ (F : Frame) where
  panic-Keeps : {A : Type 0} → Keeps F (panic {A = A})
  panic-Keeps = record { keeps = F.same }

  over_limit-Keeps : (limit : Option ℕ) (total : ℕ) → Keeps F (over_limit limit total)
  over_limit-Keeps none total = panic-Keeps
  over_limit-Keeps (some limit) total = return-Keeps F

  after_round-Keeps :
      (r : Round) {rest : M Bool} {more : ℕ → M Bool}
      → Keeps F rest
      → ((v : ℕ) → Keeps F (more v))
      → Keeps F (after_round r rest more)
  after_round-Keeps passed_over h k = h
  after_round-Keeps unknown_token h k = return-Keeps F
  after_round-Keeps divided_by_zero h k = panic-Keeps
  after_round-Keeps (worth v) h k = k v

  total_exits-Keeps :
      (eth : Ethereum) (values : Dict TokenValue) (limit : Option ℕ) (total : ℕ)
      (bs : List (Option BridgeExit))
      → Keeps F (total_exits eth values limit total bs)
  unfolding total_exits
  total_exits-Keeps eth values limit total [] = over_limit-Keeps limit total
  total_exits-Keeps eth values limit total (b ∷ bs) =
      after_round-Keeps (round eth values b) (total_exits-Keeps eth values limit total bs)
        (λ v. total_exits-Keeps eth values limit (total + v) bs)

  read_limit-Keeps : (s : Bytes) → Keeps F (read_limit s)
  read_limit-Keeps [] = search keeps_rules depth 14
  read_limit-Keeps (c ∷ s) = search keeps_rules depth 14

  compare_with-Keeps :
      (env : Env) (certificate : Option ProtoCertificate) (limit : Option ℕ) (s : Bytes)
      → Keeps F (compare_with env certificate limit s)
  compare_with-Keeps env certificate limit s = search (keeps_rules, total_exits-Keeps) depth 14

  with_config-Keeps :
      (env : Env) (certificate : Option ProtoCertificate) (s : Bytes) (limit : Option ℕ) (t : Bytes)
      → Keeps F (with_config env certificate s limit t)
  with_config-Keeps env certificate [] limit [] = return-Keeps F
  with_config-Keeps env certificate (c ∷ s) limit t = compare_with-Keeps env certificate limit t
  with_config-Keeps env certificate [] limit (c ∷ t) =
      compare_with-Keeps env certificate limit (c ∷ t)

  pub check_for_suspicious_value-Keeps :
      (env : Env) (certificate : Option ProtoCertificate)
      → Keeps F (check_for_suspicious_value env certificate)
  unfolding check_for_suspicious_value
  check_for_suspicious_value-Keeps env certificate =
      search (keeps_rules, get_config_value-Keeps, read_limit-Keeps, with_config-Keeps) depth 14
