-- ===== src/Suspicion/Limit.antt =====
-- The check of the value against the configured limit.
use agg_certificate_proxy.Prelude.{
  ℕ, suc, ◌≤◌, ◌≡◌, refl, ◌↔◌, inl, inr, Bool, false, [], ◌∷◌, Option, none, some, Bytes, codes,
  Dict, lookup, Bool-cases, Option-cases, arith,
}
use agg_certificate_proxy.Prelude.Maybe.{some-eq}
use agg_certificate_proxy.Ethereum.{Ethereum}
use agg_certificate_proxy.Proto.Node.{ProtoCertificate, get_bridge_exits}
use agg_certificate_proxy.Store.{get_config_value, or_empty}
use agg_certificate_proxy.Suspicion.{
  read_limit, compare_with, with_config, check_for_suspicious_value,
}
use agg_certificate_proxy.Text.Decimal.{parse_uint, max_uint64}
use agg_certificate_proxy.Tokens.{TokenValue, parse_token_values}
use agg_certificate_proxy.World.{World, Env, ok, tick, ◌>>=◌, M}
use agg_certificate_proxy.Suspicion.Value.{
  CountsAll, Within, total_exits-Within, Within-total_exits,
}

-- The condition in words, for the two configured texts: both can be read, every token of the
-- certificate is among the configured ones, and the sum is within the limit.
abbrev pub IsWithinLimit : Ethereum → Option ProtoCertificate → Bytes → Bytes → Type 0
IsWithinLimit eth certificate s t =
    (limit : ℕ) × (values : Dict TokenValue) × (sum : ℕ) × (parse_uint max_uint64 s ≡ some limit)
    × (parse_token_values t ≡ some values)
    × CountsAll eth values (get_bridge_exits certificate) sum
    × (sum ≤ limit)

module _ (env : Env) (certificate : Option ProtoCertificate) where
  abbrev Compared : Option ℕ → Bytes → Type 0
  Compared limit t =
      (values : Dict TokenValue) × (parse_token_values t ≡ some values)
      × Within env.ethereum values limit 0 (get_bridge_exits certificate)

  compare_with-false :
      (limit : Option ℕ) (t : Bytes) (w : World)
      → (compare_with env certificate limit t w).0 ≡ ok false
      → Compared limit t
  compare_with-false limit t w = elim (Option-cases (parse_token_values t)) [
    | inl e ↦ rw e (λ h. absurd (cc))
    | inr (values, e) ↦ rw e (λ h. (
      values,
      refl,
      total_exits-Within env.ethereum values limit (get_bridge_exits certificate) 0 w h,
    ))
  ]

  with_config-false :
      (s : Bytes) (limit : Option ℕ) (t : Bytes) (w : World)
      → (with_config env certificate s limit t w).0 ≡ ok false
      → Compared limit t
  with_config-false [] limit [] w h = absurd (cc)
  with_config-false [] limit (c ∷ t) w h = compare_with-false limit (c ∷ t) w h
  with_config-false (c ∷ s) limit t w h = compare_with-false limit t w h

  abbrev read_tokens : Bytes → Option ℕ → M Bool
  read_tokens s limit = do
    t ← get_config_value env (codes "token_values")
    with_config env certificate s limit t

  abbrev tokens_text : World → Bytes
  tokens_text w = or_empty (lookup (codes "token_values") w.configuration)

  read_tokens-false :
      (s : Bytes) (limit : Option ℕ) (w : World)
      → (read_tokens s limit w).0 ≡ ok false
      → Compared limit (tokens_text w)
  unfolding get_config_value
  read_tokens-false s limit w = elim (Bool-cases (env.db_fails w.ticks)) [
    | inl e ↦ rw e (λ h. absurd (cc))
    | inr e ↦ rw e (with_config-false s limit (tokens_text w) (tick w))
  ]

  limit_then_tokens-false :
      (s : Bytes) (w : World)
      → ((read_limit s >>= read_tokens s) w).0 ≡ ok false
      → IsWithinLimit env.ethereum certificate s (tokens_text w)
  limit_then_tokens-false [] w = λ h.
      let (values, read, (m, e, sum, all, within)) = read_tokens-false [] none w h in absurd (cc)
  limit_then_tokens-false (c ∷ s) w = elim (Option-cases (parse_uint max_uint64 (c ∷ s))) [
    | inl e ↦ rw e (λ h. absurd (cc))
    | inr (limit, e) ↦ rw e (λ h.
        let (values, read, (m, f, sum, all, within)) = read_tokens-false (c ∷ s) (some limit) w h in
        (limit, values, sum, refl, read, all, omega (arith, within, some-eq f)))
  ]

  limit_then_tokens-within :
      (s : Bytes) (w : World)
      → env.db_fails w.ticks ≡ false
      → IsWithinLimit env.ethereum certificate s (tokens_text w)
      → ((read_limit s >>= read_tokens s) w).0 ≡ ok false
  unfolding get_config_value parse_uint
  limit_then_tokens-within [] w up (limit, values, sum, e, f, all, h) = absurd (cc)
  limit_then_tokens-within (c ∷ s) w up (limit, values, sum, e, f, all, h) =
      rw (e, up, f)
        (Within-total_exits env.ethereum values limit (get_bridge_exits certificate) 0 sum (tick w)
          all (omega (arith, h)))

  -- With no failing statement, checkForSuspiciousValue returns false for exactly the certificates
  -- of which every token is among the configured ones and whose dollar value is at most the
  -- configured limit, both texts of the configuration being readable. Sums do not wrap around.
  pub not_suspicious_iff :
      (w : World)
      → env.db_fails w.ticks ≡ false
      → env.db_fails (suc w.ticks) ≡ false
      → ((check_for_suspicious_value env certificate w).0 ≡ ok false)
        ↔ IsWithinLimit env.ethereum certificate
            (or_empty (lookup (codes "suspicious_value") w.configuration))
            (tokens_text w)
  unfolding check_for_suspicious_value get_config_value
  not_suspicious_iff w up₁ up₂ =
      let s = or_empty (lookup (codes "suspicious_value") w.configuration) in
      rw up₁ (limit_then_tokens-false s (tick w), limit_then_tokens-within s (tick w) up₂)

  -- One direction needs no condition.
  pub not_suspicious :
      (w : World)
      → (check_for_suspicious_value env certificate w).0 ≡ ok false
      → IsWithinLimit env.ethereum certificate
          (or_empty (lookup (codes "suspicious_value") w.configuration))
          (tokens_text w)
  unfolding check_for_suspicious_value get_config_value
  not_suspicious w = elim (Bool-cases (env.db_fails w.ticks)) [
    | inl e ↦ rw e (λ h. absurd (cc))
    | inr e ↦ rw e (
        limit_then_tokens-false (or_empty (lookup (codes "suspicious_value") w.configuration))
          (tick w))
  ]
