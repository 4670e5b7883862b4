-- ===== src/Startup/Settings.antt =====
-- What each flag leaves in the configuration, where nothing fails.
use agg_certificate_proxy.Prelude.{
  ℕ, ◌≢◌, ◌≡◌, refl, sym, ap, ◌∙◌, false, List, [], ◌∷◌, Option, some, Bytes, codes, Option-cases,
  List-cases, inl, inr,
}
use agg_certificate_proxy.Prelude.Maybe.{some-eq}
use agg_certificate_proxy.Service.{parse_chain_ids, parse_chains, set_delayed_chains, chains_text}
use agg_certificate_proxy.Service.Chains.{AreChains}
use agg_certificate_proxy.Startup.{
  Durations, Started, with_address, with_delay, store_delay, with_chains, store_chains, with_limit,
  store_limit, with_token_values, store_token_values, format_int,
}
use agg_certificate_proxy.Startup.Keys.{IsReadable}
use agg_certificate_proxy.Startup.Stored.{Stores, keeps-Stores, set_config-Stores}
use agg_certificate_proxy.Store.{text_delayed_chains}
use agg_certificate_proxy.Text.Decimal.{ℤ, parse_uint, max_uint32, max_uint64, format_uint}
use agg_certificate_proxy.Text.Decimal.Range.{parse_uint-le}
use agg_certificate_proxy.Text.Separated.{split, trim_space}
use agg_certificate_proxy.Tokens.{parse_token_values}
use agg_certificate_proxy.World.{World, Env, M}

parse_chains-AreChains : (parts : List Bytes) → AreChains (parse_chains parts)
unfolding parse_chains
parse_chains-AreChains [] = tt
parse_chains-AreChains (part ∷ parts) =
    elim (Option-cases (parse_uint max_uint32 (trim_space part))) [
      | inl e ↦ rw (parse_chains, e) (parse_chains-AreChains parts)
      | inr (c, e) ↦
          rw (parse_chains, e)
            (parse_uint-le max_uint32 (trim_space part) c e, parse_chains-AreChains parts)
    ]

pub parse_chain_ids-AreChains : (s : Bytes) → AreChains (parse_chain_ids s)
unfolding parse_chain_ids
parse_chain_ids-AreChains s = parse_chains-AreChains (split b',' s)

-- What a flag leaves under its key, by what is read in it.
abbrev pub AddressIs : Bytes → Option Bytes → Type 0
AddressIs s o = s ≢ [] → o ≡ some s

abbrev pub DelayIs : Durations → Bytes → Option Bytes → Type 0
DelayIs lib s o =
    s ≢ [] → (d : ℤ) → lib.parse_duration s ≡ some d → o ≡ some (format_int (lib.seconds_of d))

abbrev pub ChainsAre : Bytes → Option Bytes → Type 0
ChainsAre s o = s ≢ [] → parse_chain_ids s ≢ [] → o ≡ some (chains_text (parse_chain_ids s))

abbrev pub LimitIs : Bytes → Option Bytes → Type 0
LimitIs s o = s ≢ [] → (n : ℕ) → parse_uint max_uint64 s ≡ some n → o ≡ some (format_uint n)

module _ (env : Env) (up : (n : ℕ) → env.db_fails n ≡ false) where
  pub with_address-Stores :
      (s : Bytes) (rest : M Started) (w : World)
      → Stores env (codes "aggsender_address") (AddressIs s) (with_address env s rest) rest w
  unfolding with_address
  with_address-Stores [] rest w =
      keeps-Stores env (codes "aggsender_address") (AddressIs []) rest w
        (λ given. absurd (given refl))
  with_address-Stores (c ∷ s) rest w =
      let (v, e, p, others, keys) =
        set_config-Stores env up (codes "aggsender_address") (c ∷ s) rest w in
      (v, e, (λ given. p), others, keys)

  pub with_delay-Stores :
      (lib : Durations) (s : Bytes) (rest : M Started) (w : World)
      → IsReadable env lib.parse_duration s
      → Stores env (codes "delay_seconds") (DelayIs lib s) (with_delay env lib s rest) rest w
  unfolding with_delay
  with_delay-Stores lib [] rest w readable =
      keeps-Stores env (codes "delay_seconds") (DelayIs lib []) rest w
        (λ given. absurd (given refl))
  with_delay-Stores lib (c ∷ s) rest w readable =
      let (d, read) = readable (λ e. absurd (cc)) in
      let value = format_int (lib.seconds_of d) in
      let (v, e, p, others, keys) = set_config-Stores env up (codes "delay_seconds") value rest w in
      (
        v,
        ap (λ o. store_delay env lib o rest w) read ∙ e,
        (λ given d' read'.
            let same : d ≡ d' = some-eq (sym read ∙ read') in
            p ∙ ap (λ x. some (format_int (lib.seconds_of x))) same),
        others,
        keys,
      )

  pub with_chains-Stores :
      (s : Bytes) (rest : M Started) (w : World)
      → Stores env text_delayed_chains (ChainsAre s) (with_chains env s rest) rest w
  unfolding with_chains set_delayed_chains
  with_chains-Stores [] rest w =
      keeps-Stores env text_delayed_chains (ChainsAre []) rest w (λ given. absurd (given refl))
  with_chains-Stores (c ∷ s) rest w = elim (List-cases (parse_chain_ids (c ∷ s))) [
    | inl e ↦ (
      w,
      ap (λ cs. store_chains env cs rest w) e,
      (λ given some_chain. absurd (some_chain e)),
      (λ other d. refl),
      refl,
    )
    | inr (k, ks, e) ↦
        let (v, e', p, others, keys) =
          set_config-Stores env up text_delayed_chains (chains_text (k ∷ ks)) rest w in
        (
          v,
          ap (λ cs. store_chains env cs rest w) e ∙ e',
          (λ given some_chain. p ∙ ap (λ cs. some (chains_text cs)) (sym e)),
          others,
          keys,
        )
  ]

  pub with_limit-Stores :
      (s : Bytes) (rest : M Started) (w : World)
      → IsReadable env (parse_uint max_uint64) s
      → Stores env (codes "suspicious_value") (LimitIs s) (with_limit env s rest) rest w
  unfolding with_limit
  with_limit-Stores [] rest w readable =
      keeps-Stores env (codes "suspicious_value") (LimitIs []) rest w (λ given. absurd (given refl))
  with_limit-Stores (c ∷ s) rest w readable =
      let (n, read) = readable (λ e. absurd (cc)) in
      let (v, e, p, others, keys) =
        set_config-Stores env up (codes "suspicious_value") (format_uint n) rest w in
      (
        v,
        ap (λ o. store_limit env o rest w) read ∙ e,
        (λ given n' read'. p ∙ ap (λ x. some (format_uint x)) (some-eq (sym read ∙ read'))),
        others,
        keys,
      )

  pub with_token_values-Stores :
      (s : Bytes) (rest : M Started) (w : World)
      → IsReadable env parse_token_values s
      → Stores env (codes "token_values") (AddressIs s) (with_token_values env s rest) rest w
  unfolding with_token_values
  with_token_values-Stores [] rest w readable =
      keeps-Stores env (codes "token_values") (AddressIs []) rest w (λ given. absurd (given refl))
  with_token_values-Stores (c ∷ s) rest w readable =
      let (values, read) = readable (λ e. absurd (cc)) in
      let (v, e, p, others, keys) =
        set_config-Stores env up (codes "token_values") (c ∷ s) rest w in
      (v, ap (λ o. store_token_values env o (c ∷ s) rest w) read ∙ e, (λ given. p), others, keys)
