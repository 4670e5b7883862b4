-- ===== src/Startup/Configured.antt =====
-- The keys and the configuration of a start in which nothing fails, all together.
use agg_certificate_proxy.Prelude.{
  ℕ, ◌≢◌, ◌≡◌, refl, sym, ◌∙◌, false, [], codes, lookup, same_bytes, subst,
}
use agg_certificate_proxy.Startup.{
  Flags, Durations, Started, with_delay, with_chains, with_limit, with_token_values, configure,
  with_keys,
}
use agg_certificate_proxy.Startup.Keys.{IsReadable}
use agg_certificate_proxy.Startup.Stored.{HasKey, IsHashable, with_key-StoresKey}
use agg_certificate_proxy.Startup.Settings.{
  AddressIs, DelayIs, ChainsAre, LimitIs, with_address-Stores, with_delay-Stores,
  with_chains-Stores, with_limit-Stores, with_token_values-Stores,
}
use agg_certificate_proxy.Store.{text_delayed_chains}
use agg_certificate_proxy.Text.Decimal.{parse_uint, max_uint64}
use agg_certificate_proxy.Tokens.{parse_token_values}
use agg_certificate_proxy.World.{World, Env, M}

-- The four keys of the flags are stored.
pub record HasKeys (env : Env) (flags : Flags) (w : World) : Type 0 where
  pub kill : HasKey env (codes "kill_switch_api_key") flags.kill_switch_api_key w
  pub restart : HasKey env (codes "kill_restart_api_key") flags.kill_restart_api_key w
  pub shown : HasKey env (codes "data_key") flags.data_key w
  pub override : HasKey env (codes "certificate_override_key") flags.certificate_override_key w

-- Each flag that is given is stored as it is read.
pub record IsConfigured (lib : Durations) (flags : Flags) (w : World) : Type 0 where
  pub address_stored :
      AddressIs flags.aggsender_addr (lookup (codes "aggsender_address") w.configuration)
  pub delay_stored : DelayIs lib flags.delay (lookup (codes "delay_seconds") w.configuration)
  pub chains_stored : ChainsAre flags.delayed_chains (lookup text_delayed_chains w.configuration)
  pub limit_stored :
      LimitIs flags.suspicious_value (lookup (codes "suspicious_value") w.configuration)
  pub values_stored : AddressIs flags.token_values (lookup (codes "token_values") w.configuration)

-- The four keys are given, and bcrypt can hash them.
abbrev pub AreKeys : Env → Flags → Type 0
AreKeys env flags =
    ((flags.kill_switch_api_key ≢ []) × IsHashable env flags.kill_switch_api_key)
    × ((flags.kill_restart_api_key ≢ []) × IsHashable env flags.kill_restart_api_key)
    × ((flags.data_key ≢ []) × IsHashable env flags.data_key)
    × ((flags.certificate_override_key ≢ []) × IsHashable env flags.certificate_override_key)

module _ (env : Env) (up : (n : ℕ) → env.db_fails n ≡ false) where
  pub configure-IsConfigured :
      (lib : Durations) (flags : Flags) (rest : M Started) (w : World)
      → IsReadable env lib.parse_duration flags.delay
      → IsReadable env (parse_uint max_uint64) flags.suspicious_value
      → IsReadable env parse_token_values flags.token_values
      → (v : World) × (configure env lib flags rest w ≡ rest v)
        × IsConfigured lib flags v
        × (v.credentials ≡ w.credentials)
  unfolding same_bytes
  configure-IsConfigured lib flags rest w read_delay read_limit read_values =
      let rest₄ = with_token_values env flags.token_values rest in
      let rest₃ = with_limit env flags.suspicious_value rest₄ in
      let rest₂ = with_chains env flags.delayed_chains rest₃ in
      let rest₁ = with_delay env lib flags.delay rest₂ in
      let (v₁, e₁, p₁, o₁, k₁) = with_address-Stores env up flags.aggsender_addr rest₁ w in
      let (v₂, e₂, p₂, o₂, k₂) = with_delay-Stores env up lib flags.delay rest₂ v₁ read_delay in
      let (v₃, e₃, p₃, o₃, k₃) = with_chains-Stores env up flags.delayed_chains rest₃ v₂ in
      let (v₄, e₄, p₄, o₄, k₄) =
        with_limit-Stores env up flags.suspicious_value rest₄ v₃ read_limit in
      let (v₅, e₅, p₅, o₅, k₅) =
        with_token_values-Stores env up flags.token_values rest v₄ read_values in
      let address = codes "aggsender_address" in
      let delay = codes "delay_seconds" in
      let limit = codes "suspicious_value" in
      (
        v₅,
        e₁ ∙ e₂ ∙ e₃ ∙ e₄ ∙ e₅,
        record {
          address_stored =
              subst (AddressIs flags.aggsender_addr)
                (sym (o₅ address refl ∙ o₄ address refl ∙ o₃ address refl ∙ o₂ address refl)) p₁;
          delay_stored =
              subst (DelayIs lib flags.delay) (sym (o₅ delay refl ∙ o₄ delay refl ∙ o₃ delay refl))
                p₂;
          chains_stored =
              subst (ChainsAre flags.delayed_chains)
                (sym (o₅ text_delayed_chains refl ∙ o₄ text_delayed_chains refl)) p₃;
          limit_stored = subst (LimitIs flags.suspicious_value) (sym (o₅ limit refl)) p₄;
          values_stored = p₅;
        },
        k₅ ∙ k₄ ∙ k₃ ∙ k₂ ∙ k₁,
      )

  pub with_keys-HasKeys :
      (flags : Flags) (rest : M Started) (w : World)
      → AreKeys env flags
      → (v : World) × (with_keys env flags rest w ≡ rest v) × HasKeys env flags v
  unfolding same_bytes
  with_keys-HasKeys flags rest w ((g₁, h₁), (g₂, h₂), (g₃, h₃), (g₄, h₄)) =
      let (v₁, e₁, p₁, o₁) =
        with_key-StoresKey env up (codes "kill_switch_api_key") flags.kill_switch_api_key _ w g₁
          h₁ in
      let (v₂, e₂, p₂, o₂) =
        with_key-StoresKey env up (codes "kill_restart_api_key") flags.kill_restart_api_key _ v₁ g₂
          h₂ in
      let (v₃, e₃, p₃, o₃) =
        with_key-StoresKey env up (codes "data_key") flags.data_key _ v₂ g₃ h₃ in
      let (v₄, e₄, p₄, o₄) =
        with_key-StoresKey env up (codes "certificate_override_key") flags.certificate_override_key
          rest v₃ g₄ h₄ in
      let name₁ = codes "kill_switch_api_key" in
      let name₂ = codes "kill_restart_api_key" in
      let name₃ = codes "data_key" in
      (
        v₄,
        e₁ ∙ e₂ ∙ e₃ ∙ e₄,
        record {
          kill = o₄ name₁ flags.kill_switch_api_key refl (
              o₃ name₁ flags.kill_switch_api_key refl (o₂ name₁ flags.kill_switch_api_key refl p₁));
          restart =
              o₄ name₂ flags.kill_restart_api_key refl
                (o₃ name₂ flags.kill_restart_api_key refl p₂);
          shown = o₄ name₃ flags.data_key refl p₃;
          override = p₄;
        },
      )
