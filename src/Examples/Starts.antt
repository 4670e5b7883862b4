-- ===== src/Examples/Starts.antt =====
-- A start of the program with all its flags.
use agg_certificate_proxy.Prelude.{
  ◌≡◌, ◌≢◌, refl, true, [], ◌∷◌, Bytes, some, codes, lookup, insert, same_bytes, same_bytes_iff,
}
use agg_certificate_proxy.Examples.{some_env, some_world}
use agg_certificate_proxy.Metrics.{new_prometheus_reporter, register}
use agg_certificate_proxy.Service.{
  parse_chain_ids, set_delayed_chains, get_delayed_chains, chains_of, chains_text, parse_chains,
  is_listed,
}
use agg_certificate_proxy.Startup.{
  Flags, Durations, serving, start, new_sqlite_store, with_key, hash_and_store_key, with_address,
  with_delay, with_chains, with_limit, with_token_values, start_up, format_int,
}
use agg_certificate_proxy.Startup.Keys.{start_refuses, IsReadable}
use agg_certificate_proxy.Store.{set_credential, set_config_value, get_config_value}
use agg_certificate_proxy.Store.Initial.{init}
use agg_certificate_proxy.Store.Initial.Keeping.{StillThere, init-StillThere}
use agg_certificate_proxy.Text.Decimal.{ℤ, pos, parse_uint, max_uint64, format_uint}
use agg_certificate_proxy.Text.Hex.{trim_0x}
use agg_certificate_proxy.Text.Separated.{split, trim_space, is_space, join, to_lower}
use agg_certificate_proxy.Tokens.{parse_token_values, parse_entries, parse_entry, token_id}
use agg_certificate_proxy.World.{World, ok}
use agg_certificate_proxy.Startup.Stored.{IsHashable}
use agg_certificate_proxy.Startup.Configured.{HasKeys, IsConfigured}
use agg_certificate_proxy.Startup.Serving.{start_serves}

abbrev some_flags : Flags
some_flags = record {
  delayed_chains = codes "5, 7";
  delay = codes "1h";
  aggsender_addr = codes "agg:80";
  scheduler_interval = codes "30s";
  kill_switch_api_key = codes "k";
  kill_restart_api_key = codes "r";
  data_key = codes "d";
  certificate_override_key = codes "o";
  suspicious_value = codes "100";
  token_values = codes "1:aaaaaaaaaaaaaaaaaaaaaaaaaaaaaaaaaaaaaaaa:1:1";
}

-- Every text is the duration of 3600 of its units.
abbrev some_durations : Durations
some_durations = record {
  parse_duration = λ s. some (pos (3600));
  seconds_of = λ d. pos 3600;
  accepts = λ d. true;
}

serves : (start some_env some_durations some_flags some_world).0 ≡ ok (serving (5 ∷ 7 ∷ []))
unfolding start new_prometheus_reporter register is_listed new_sqlite_store init lookup same_bytes
    with_key hash_and_store_key set_credential with_address set_config_value with_delay with_chains
    parse_chain_ids split parse_uint trim_space set_delayed_chains with_limit insert chains_of
    chains_text get_delayed_chains parse_chains format_int start_up with_token_values
    get_config_value format_uint is_space join to_lower parse_entries parse_entry parse_token_values
    token_id trim_0x
serves = refl

start_refuses_example :
    (some_flags.kill_switch_api_key ≢ [])
    × (some_flags.kill_restart_api_key ≢ [])
    × (some_flags.data_key ≢ [])
    × (some_flags.certificate_override_key ≢ [])
    × ((d : ℤ) × (some_durations.parse_duration some_flags.scheduler_interval ≡ some d))
    × IsReadable some_env some_durations.parse_duration some_flags.delay
    × IsReadable some_env (parse_uint max_uint64) some_flags.suspicious_value
    × IsReadable some_env parse_token_values some_flags.token_values
start_refuses_example =
    start_refuses some_env some_durations some_flags some_world (5 ∷ 7 ∷ []) serves

-- bcrypt hashes a key to itself.
hashable : (key : Bytes) → IsHashable some_env key
hashable key = λ n. (key, refl, (same_bytes_iff key key).1 refl)

start_serves_example :
    (v : World) × (start some_env some_durations some_flags some_world
      ≡ (ok (serving (parse_chain_ids (codes "5, 7"))), v))
    × HasKeys some_env some_flags v
    × IsConfigured some_durations some_flags v
unfolding parse_uint parse_token_values split parse_entries parse_entry to_lower token_id insert
    same_bytes trim_0x parse_chain_ids parse_chains trim_space is_space is_listed
start_serves_example =
    start_serves some_env (λ n. refl) some_durations some_flags (pos 3600) some_world
      (
        ((λ e. absurd (cc)), hashable some_flags.kill_switch_api_key),
        ((λ e. absurd (cc)), hashable some_flags.kill_restart_api_key),
        ((λ e. absurd (cc)), hashable some_flags.data_key),
        ((λ e. absurd (cc)), hashable some_flags.certificate_override_key),
      )
      refl refl refl (λ given. (pos 3600, refl)) (λ given. (100, refl)) (λ given. (_, refl))
      (λ e. absurd (cc)) (λ e. absurd (cc)) (refl, (refl, tt))

init-StillThere_example : StillThere some_world (init some_env some_world).1
init-StillThere_example = init-StillThere some_env some_world
