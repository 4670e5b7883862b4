-- ===== src/Startup/Keys.antt =====
-- Without its four keys the program does not serve.
use agg_certificate_proxy.Prelude.{
  ℕ, ◌≢◌, ◌≡◌, refl, List, [], ◌∷◌, Option, none, some, Bytes, Dict, codes, Option-cases, inl, inr,
}
use agg_certificate_proxy.Service.{parse_chain_ids, set_delayed_chains}
use agg_certificate_proxy.Store.{set_config_value}
use agg_certificate_proxy.Startup.{
  Flags, Durations, Started, serving, hash_and_store_key, new_sqlite_store, unless_failed, with_key,
  logged, with_address, with_delay, store_delay, with_chains, store_chains, with_limit, store_limit,
  with_token_values, store_token_values, with_keys, start, start_up, format_int,
}
use agg_certificate_proxy.Text.Decimal.{ℤ, parse_uint, max_uint64, format_uint}
use agg_certificate_proxy.Tokens.{TokenValue, parse_token_values}
use agg_certificate_proxy.World.{
  World, Env, M, Outcome, ok, err, panicked, ◌>>=◌, attempt, continue, kept,
}

-- The operation serves from the state.
abbrev Serves : M Started → World → Type 0
Serves m w = (cs : List ℕ) × ((m w).0 ≡ ok (serving cs))

-- It serves from some state.
abbrev CanServe : M Started → Type 0
CanServe m = (v : World) × Serves m v

kept-Serves :
    (r : Outcome (Unit {0})) (rest : M Started) (v : World) (cs : List ℕ)
    → (continue (kept r) (λ done. unless_failed done rest) v).0 ≡ ok (serving cs)
    → (rest v).0 ≡ ok (serving cs)
kept-Serves (ok u) rest v cs e = e
kept-Serves (err x) rest v cs e = absurd (cc)
kept-Serves panicked rest v cs e = absurd (cc)

attempt-CanServe :
    (m : M (Unit {0})) (rest : M Started) (w : World)
    → Serves (attempt m >>= λ done. unless_failed done rest) w
    → CanServe rest
attempt-CanServe m rest w (cs, e) = ((m w).1, (cs, kept-Serves (m w).0 rest (m w).1 cs e))

logged_kept-Serves :
    (r : Outcome (Unit {0})) (rest : M Started) (v : World) (cs : List ℕ)
    → (continue (kept r) (λ done. rest) v).0 ≡ ok (serving cs)
    → (rest v).0 ≡ ok (serving cs)
logged_kept-Serves (ok u) rest v cs e = e
logged_kept-Serves (err x) rest v cs e = e
logged_kept-Serves panicked rest v cs e = absurd (cc)

logged-CanServe :
    (m : M (Unit {0})) (rest : M Started) (w : World) → Serves (logged m rest) w → CanServe rest
logged-CanServe m rest w (cs, e) = ((m w).1, (cs, logged_kept-Serves (m w).0 rest (m w).1 cs e))

module _ (env : Env) where
  with_key-CanServe :
      (name key : Bytes) (rest : M Started)
      → CanServe (with_key env name key rest)
      → (key ≢ []) × CanServe rest
  unfolding with_key
  with_key-CanServe name [] rest (w, (cs, e)) = absurd (cc)
  with_key-CanServe name (c ∷ key) rest (w, serves) =
      (λ e. absurd (cc), attempt-CanServe (hash_and_store_key env name (c ∷ key)) rest w serves)

  with_address-CanServe :
      (address : Bytes) (rest : M Started)
      → CanServe (with_address env address rest)
      → CanServe rest
  unfolding with_address
  with_address-CanServe [] rest h = h
  with_address-CanServe (c ∷ s) rest (w, serves) =
      logged-CanServe (set_config_value env (codes "aggsender_address") (c ∷ s)) rest w serves

  -- A flag that is given can be read.
  abbrev pub IsReadable : {A : Type 0} → (Bytes → Option A) → Bytes → Type 0
  IsReadable {A} parse s = s ≢ [] → (a : A) × (parse s ≡ some a)

  store_delay-CanServe :
      (lib : Durations) (o : Option ℤ) (rest : M Started)
      → CanServe (store_delay env lib o rest)
      → ((d : ℤ) × (o ≡ some d)) × CanServe rest
  store_delay-CanServe lib none rest (w, (cs, e)) = absurd (cc)
  store_delay-CanServe lib (some d) rest (w, serves) = (
    (d, refl),
    logged-CanServe (set_config_value env (codes "delay_seconds") (format_int (lib.seconds_of d)))
        rest w serves,
  )

  with_delay-CanServe :
      (lib : Durations) (s : Bytes) (rest : M Started)
      → CanServe (with_delay env lib s rest)
      → IsReadable lib.parse_duration s × CanServe rest
  unfolding with_delay
  with_delay-CanServe lib [] rest h = (λ given. absurd (given refl), h)
  with_delay-CanServe lib (c ∷ s) rest h =
      let r = store_delay-CanServe lib (lib.parse_duration (c ∷ s)) rest h in (λ given. r.0, r.1)

  store_chains-CanServe :
      (cs : List ℕ) (rest : M Started) → CanServe (store_chains env cs rest) → CanServe rest
  store_chains-CanServe [] rest h = h
  store_chains-CanServe (c ∷ cs) rest (w, serves) =
      logged-CanServe (set_delayed_chains env (c ∷ cs)) rest w serves

  with_chains-CanServe :
      (s : Bytes) (rest : M Started) → CanServe (with_chains env s rest) → CanServe rest
  unfolding with_chains
  with_chains-CanServe [] rest h = h
  with_chains-CanServe (c ∷ s) rest h = store_chains-CanServe (parse_chain_ids (c ∷ s)) rest h

  store_limit-CanServe :
      (o : Option ℕ) (rest : M Started)
      → CanServe (store_limit env o rest)
      → ((n : ℕ) × (o ≡ some n)) × CanServe rest
  store_limit-CanServe none rest (w, (cs, e)) = absurd (cc)
  store_limit-CanServe (some n) rest (w, serves) = (
    (n, refl),
    logged-CanServe (set_config_value env (codes "suspicious_value") (format_uint n)) rest w serves,
  )

  with_limit-CanServe :
      (s : Bytes) (rest : M Started)
      → CanServe (with_limit env s rest)
      → IsReadable (parse_uint max_uint64) s × CanServe rest
  unfolding with_limit
  with_limit-CanServe [] rest h = (λ given. absurd (given refl), h)
  with_limit-CanServe (c ∷ s) rest h =
      let r = store_limit-CanServe (parse_uint max_uint64 (c ∷ s)) rest h in (λ given. r.0, r.1)

  store_token_values-CanServe :
      (o : Option (Dict TokenValue)) (s : Bytes) (rest : M Started)
      → CanServe (store_token_values env o s rest)
      → ((values : Dict TokenValue) × (o ≡ some values)) × CanServe rest
  store_token_values-CanServe none s rest (w, (cs, e)) = absurd (cc)
  store_token_values-CanServe (some values) s rest (w, serves) = (
    (values, refl),
    logged-CanServe (set_config_value env (codes "token_values") s) rest w serves,
  )

  with_token_values-CanServe :
      (s : Bytes) (rest : M Started)
      → CanServe (with_token_values env s rest)
      → IsReadable parse_token_values s × CanServe rest
  unfolding with_token_values
  with_token_values-CanServe [] rest h = (λ given. absurd (given refl), h)
  with_token_values-CanServe (c ∷ s) rest h =
      let r = store_token_values-CanServe (parse_token_values (c ∷ s)) (c ∷ s) rest h in
      (λ given. r.0, r.1)

  -- The program serves only if its four keys are given, its interval and its delay are durations,
  -- its suspicious value is a uint64 and its token values are well formed; the last three may be
  -- left out.
  pub start_refuses :
      (lib : Durations) (flags : Flags) (w : World) (cs : List ℕ)
      → (start env lib flags w).0 ≡ ok (serving cs)
      → (flags.kill_switch_api_key ≢ [])
        × (flags.kill_restart_api_key ≢ [])
        × (flags.data_key ≢ [])
        × (flags.certificate_override_key ≢ [])
        × ((d : ℤ) × (lib.parse_duration flags.scheduler_interval ≡ some d))
        × IsReadable lib.parse_duration flags.delay
        × IsReadable (parse_uint max_uint64) flags.suspicious_value
        × IsReadable parse_token_values flags.token_values
  unfolding start
  start_refuses lib flags w cs = elim (Option-cases (lib.parse_duration flags.scheduler_interval)) [
    | inl e ↦ rw e (λ h. absurd (cc))
    | inr (d, e) ↦ rw e (λ h.
        let up = start_up env flags.aggsender_addr (lib.accepts d) in
        let chain₅ = with_token_values env flags.token_values up in
        let chain₄ = with_limit env flags.suspicious_value chain₅ in
        let chain₃ = with_chains env flags.delayed_chains chain₄ in
        let chain₂ = with_delay env lib flags.delay chain₃ in
        let chain₁ = with_address env flags.aggsender_addr chain₂ in
        let (k₁, s₁) =
          with_key-CanServe (codes "kill_switch_api_key") flags.kill_switch_api_key _
            (attempt-CanServe (new_sqlite_store env) (with_keys env flags chain₁) w (cs, h)) in
        let (k₂, s₂) =
          with_key-CanServe (codes "kill_restart_api_key") flags.kill_restart_api_key _ s₁ in
        let (k₃, s₃) = with_key-CanServe (codes "data_key") flags.data_key _ s₂ in
        let (k₄, s₄) =
          with_key-CanServe (codes "certificate_override_key") flags.certificate_override_key chain₁
            s₃ in
        let s₅ = with_address-CanServe flags.aggsender_addr chain₂ s₄ in
        let (k₅, s₆) = with_delay-CanServe lib flags.delay chain₃ s₅ in
        let s₇ = with_chains-CanServe flags.delayed_chains chain₄ s₆ in
        let (k₆, s₈) = with_limit-CanServe flags.suspicious_value chain₅ s₇ in
        let (k₇, s₉) = with_token_values-CanServe flags.token_values up s₈ in
        (k₁, k₂, k₃, k₄, (d, refl), k₅, k₆, k₇))
  ]
