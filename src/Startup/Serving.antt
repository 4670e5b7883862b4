-- ===== src/Startup/Serving.antt =====
-- With its flags in order the program serves, and its configuration is what the flags say.
use agg_certificate_proxy.Prelude.{
  ℕ, suc, ◌≢◌, ◌≡◌, refl, sym, ap, ◌∙◌, true, false, List, [], ◌∷◌, some, Bytes, codes, lookup,
  subst, Bool-cases, ltb, inl, inr,
}
use agg_certificate_proxy.Service.{parse_chain_ids, get_delayed_chains, chains_of}
use agg_certificate_proxy.Service.Chains.{chains_of-chains_text}
use agg_certificate_proxy.Startup.{
  Flags, Durations, serving, configure, with_keys, start, start_up, start_with,
}
use agg_certificate_proxy.Startup.Keys.{IsReadable}
use agg_certificate_proxy.Startup.Stored.{HasKey, new_sqlite_store-Succeeds}
use agg_certificate_proxy.Startup.Settings.{
  AddressIs, DelayIs, ChainsAre, LimitIs, parse_chain_ids-AreChains,
}
use agg_certificate_proxy.Store.{text_delayed_chains, get_config_value, or_empty}
use agg_certificate_proxy.Text.Decimal.{ℤ, parse_uint, max_uint64}
use agg_certificate_proxy.Tokens.{parse_token_values}
use agg_certificate_proxy.World.{World, Env, ok, trigger, tick}
use agg_certificate_proxy.Startup.Configured.{
  HasKeys, IsConfigured, AreKeys, configure-IsConfigured, with_keys-HasKeys,
}
use agg_certificate_proxy.Metrics.Distinct.{IsDistinct, new_prometheus_reporter_iff}

module _ (env : Env) (up : (n : ℕ) → env.db_fails n ≡ false) where
  trigger-tables :
      (w : World)
      → ((trigger w).credentials ≡ w.credentials) × ((trigger w).configuration ≡ w.configuration)
  trigger-tables w = elim (Bool-cases (ltb w.triggers 256)) [
    | inl e ↦ rw e (refl, refl)
    | inr e ↦ rw e (refl, refl)
  ]

  start_up-serves :
      (address : Bytes) (w : World)
      → env.can_connect address ≡ true
      → (cs : List ℕ) → chains_of (or_empty (lookup text_delayed_chains w.configuration)) ≡ cs
      → IsDistinct cs
      → (v : World) × (start_up env address true w ≡ (ok (serving cs), v))
        × (v.credentials ≡ w.credentials)
        × (v.configuration ≡ w.configuration)
  unfolding start_up get_delayed_chains get_config_value
  start_up-serves [] w reachable cs e distinct =
      let v = tick (tick w) in
      let made = (new_prometheus_reporter_iff cs).0.1 distinct in
      (
        trigger v,
        rw (up w.ticks, up (suc w.ticks), e, made) refl,
        (trigger-tables v).0,
        (trigger-tables v).1,
      )
  start_up-serves (c ∷ address) w reachable cs e distinct =
      let v = tick (tick w) in
      let made = (new_prometheus_reporter_iff cs).0.1 distinct in
      (
        trigger v,
        rw (up w.ticks, up (suc w.ticks), e, made, reachable) refl,
        (trigger-tables v).0,
        (trigger-tables v).1,
      )

  HasKeys-same :
      (flags : Flags) (w v : World)
      → v.credentials ≡ w.credentials
      → HasKeys env flags w
      → HasKeys env flags v
  HasKeys-same flags w v e h =
      let move : (name key : Bytes) → HasKey env name key w → HasKey env name key v =
        λ name key k. (k.0, ap (lookup name) e ∙ k.1, k.2) in
      record {
        kill = move (codes "kill_switch_api_key") flags.kill_switch_api_key h.kill;
        restart = move (codes "kill_restart_api_key") flags.kill_restart_api_key h.restart;
        shown = move (codes "data_key") flags.data_key h.shown;
        override =
            move (codes "certificate_override_key") flags.certificate_override_key h.override;
      }

  IsConfigured-same :
      (lib : Durations) (flags : Flags) (w v : World)
      → v.configuration ≡ w.configuration
      → IsConfigured lib flags w
      → IsConfigured lib flags v
  IsConfigured-same lib flags w v e h = record {
    address_stored =
        subst (λ m. AddressIs flags.aggsender_addr (lookup (codes "aggsender_address") m)) (sym e)
          h.address_stored;
    delay_stored =
        subst (λ m. DelayIs lib flags.delay (lookup (codes "delay_seconds") m)) (sym e)
          h.delay_stored;
    chains_stored =
        subst (λ m. ChainsAre flags.delayed_chains (lookup text_delayed_chains m)) (sym e)
          h.chains_stored;
    limit_stored =
        subst (λ m. LimitIs flags.suspicious_value (lookup (codes "suspicious_value") m)) (sym e)
          h.limit_stored;
    values_stored =
        subst (λ m. AddressIs flags.token_values (lookup (codes "token_values") m)) (sym e)
          h.values_stored;
  }

  -- Where no statement fails, the four keys are given and can be hashed, the interval is a duration
  -- that the scheduler accepts, gRPC accepts the address, and the delay, the suspicious
  -- value and the token values, if given, can be read, and the flag of the chains names some
  -- chain and none twice, the program serves, with metrics on these chains. Then the stored hashes
  -- fit the keys, and each flag that is given stands in the configuration as it is read.
  pub start_serves :
      (lib : Durations) (flags : Flags) (interval : ℤ) (w : World)
      → AreKeys env flags
      → lib.parse_duration flags.scheduler_interval ≡ some interval
      → lib.accepts interval ≡ true
      → env.can_connect flags.aggsender_addr ≡ true
      → IsReadable env lib.parse_duration flags.delay
      → IsReadable env (parse_uint max_uint64) flags.suspicious_value
      → IsReadable env parse_token_values flags.token_values
      → flags.delayed_chains ≢ []
      → parse_chain_ids flags.delayed_chains ≢ []
      → IsDistinct (parse_chain_ids flags.delayed_chains)
      → (v : World) × (start env lib flags w
          ≡ (ok (serving (parse_chain_ids flags.delayed_chains)), v))
        × HasKeys env flags v
        × IsConfigured lib flags v
  unfolding start
  start_serves lib flags interval w keys read_interval accepted reachable read_delay read_limit
        read_values given named distinct =
      let up_servers = start_up env flags.aggsender_addr (lib.accepts interval) in
      let (v₀, e₀) = new_sqlite_store-Succeeds env up w in
      let (v₁, e₁, k₁) =
        with_keys-HasKeys env up flags (configure env lib flags up_servers) v₀ keys in
      let (v₂, e₂, p₂, k₂) =
        configure-IsConfigured env up lib flags up_servers v₁ read_delay read_limit read_values in
      let read_chains : chains_of (or_empty (lookup text_delayed_chains v₂.configuration))
          ≡ parse_chain_ids flags.delayed_chains =
        ap (λ o. chains_of (or_empty o)) (p₂.chains_stored given named)
        ∙ chains_of-chains_text (parse_chain_ids flags.delayed_chains)
            (parse_chain_ids-AreChains flags.delayed_chains) in
      let (v₃, e₃, k₃, p₃) =
        start_up-serves flags.aggsender_addr v₂ reachable (parse_chain_ids flags.delayed_chains)
          read_chains distinct in
      let opened : start_with env lib flags (some interval) w
          ≡ with_keys env flags (configure env lib flags up_servers) v₀ =
        rw e₀ refl in
      let asked : up_servers v₂ ≡ start_up env flags.aggsender_addr true v₂ =
        ap (λ b. start_up env flags.aggsender_addr b v₂) accepted in
      (
        v₃,
        ap (λ o. start_with env lib flags o w) read_interval ∙ opened ∙ e₁ ∙ e₂ ∙ asked ∙ e₃,
        HasKeys-same flags v₁ v₃ (k₃ ∙ k₂) k₁,
        IsConfigured-same lib flags v₂ v₃ p₃ p₂,
      )
