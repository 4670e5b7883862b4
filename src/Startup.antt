-- ===== src/Startup.antt =====
-- cmd/proxy/main.go up to the point where the servers start: the flags, the keys and the
-- configuration that is stored. log.Fatalf and `return` both end the program.
pub mod Keys
pub mod Stored
pub mod Settings
pub mod Configured
pub mod Serving
use agg_certificate_proxy.Prelude.{
  ℕ, zero, suc, Bool, true, false, List, [], ◌∷◌, Option, none, some, Bytes, Dict, codes,
  if◌then◌else◌,
}
use agg_certificate_proxy.Text.Decimal.{ℤ, pos, negsuc, format_uint, parse_uint, max_uint64}
use agg_certificate_proxy.Api.{is_empty}
use agg_certificate_proxy.Service.{parse_chain_ids, get_delayed_chains, set_delayed_chains}
use agg_certificate_proxy.Store.{set_credential, set_config_value, get_config_value}
use agg_certificate_proxy.Store.Initial.{init}
use agg_certificate_proxy.Tokens.{parse_token_values, TokenValue}
use agg_certificate_proxy.World.{
  World, Env, M, ◌>>=◌, ◌>>◌, return, or_fail, attempt, exec, Result, fine, failed, hash_failed,
  trigger, ok, panicked,
}
use agg_certificate_proxy.Metrics.{new_prometheus_reporter}

-- The flags, without the addresses of the two servers and the path of the file.
pub record Flags : Type 0 where
  pub delayed_chains : Bytes
  pub delay : Bytes
  pub aggsender_addr : Bytes
  pub scheduler_interval : Bytes
  pub kill_switch_api_key : Bytes
  pub kill_restart_api_key : Bytes
  pub data_key : Bytes
  pub certificate_override_key : Bytes
  pub suspicious_value : Bytes
  pub token_values : Bytes

-- time.ParseDuration, int(d.Seconds()), and whether the job scheduler accepts the interval.
pub record Durations : Type 0 where
  pub parse_duration : Bytes → Option ℤ
  pub seconds_of : ℤ → ℤ
  pub accepts : ℤ → Bool

-- The program ends, or serves, with the chains that it reports metrics on.
pub data Started : Type 0 where
  stopped : Started
  serving : List ℕ → Started

-- strconv.Itoa
unfoldable pub format_int : ℤ → Bytes
format_int (pos n) = format_uint n
format_int (negsuc n) = b'-' ∷ format_uint (suc n)

unfoldable pub hash_and_store_key : Env → Bytes → Bytes → M (Unit {0})
hash_and_store_key env name key w =
    (or_fail (env.generate_from_password w.ticks key) hash_failed >>= set_credential env name) w

-- Opening the file fails where the driver does not answer; then the tables are made.
unfoldable pub new_sqlite_store : Env → M (Unit {0})
new_sqlite_store env = do exec env (λ w. w); init env

abbrev pub unless_failed : Result (Unit {0}) → M Started → M Started
unless_failed (failed e) rest = return stopped
unless_failed (fine u) rest = rest

-- A key that is not given, or cannot be stored, ends the program.
unfoldable pub with_key : Env → Bytes → Bytes → M Started → M Started
with_key env name key rest =
    if is_empty key
    then return stopped
    else (do done ← attempt (hash_and_store_key env name key); unless_failed done rest)

-- An error of one of the next statements is only logged.
abbrev pub logged : M (Unit {0}) → M Started → M Started
logged m rest = do done ← attempt m; rest

unfoldable pub with_address : Env → Bytes → M Started → M Started
with_address env address rest =
    if is_empty address
    then rest
    else logged (set_config_value env (codes "aggsender_address") address) rest

abbrev pub store_delay : Env → Durations → Option ℤ → M Started → M Started
store_delay env lib none rest = return stopped
store_delay env lib (some d) rest =
    logged (set_config_value env (codes "delay_seconds") (format_int (lib.seconds_of d))) rest

unfoldable pub with_delay : Env → Durations → Bytes → M Started → M Started
with_delay env lib delay rest =
    if is_empty delay then rest else store_delay env lib (lib.parse_duration delay) rest

-- A list in which no chain can be read changes nothing.
abbrev pub store_chains : Env → List ℕ → M Started → M Started
store_chains env [] rest = rest
store_chains env (c ∷ cs) rest = logged (set_delayed_chains env (c ∷ cs)) rest

unfoldable pub with_chains : Env → Bytes → M Started → M Started
with_chains env chains rest =
    if is_empty chains then rest else store_chains env (parse_chain_ids chains) rest

abbrev pub store_limit : Env → Option ℕ → M Started → M Started
store_limit env none rest = return stopped
store_limit env (some limit) rest =
    logged (set_config_value env (codes "suspicious_value") (format_uint limit)) rest

unfoldable pub with_limit : Env → Bytes → M Started → M Started
with_limit env limit rest =
    if is_empty limit then rest else store_limit env (parse_uint max_uint64 limit) rest

-- The values are parsed so that an error shows early; what is stored is the text.
abbrev pub store_token_values : Env → Option (Dict TokenValue) → Bytes → M Started → M Started
store_token_values env none text rest = return stopped
store_token_values env (some values) text rest =
    logged (set_config_value env (codes "token_values") text) rest

unfoldable pub with_token_values : Env → Bytes → M Started → M Started
with_token_values env text rest =
    if is_empty text then rest else store_token_values env (parse_token_values text) text rest

abbrev pub or_no_chains : Result (List ℕ) → List ℕ
or_no_chains (failed e) = []
or_no_chains (fine cs) = cs

-- The metrics are triggered, and the proxy to the backend is made if there is an address. Making
-- the gauges may panic.
abbrev pub with_reporter : Env → Bytes → Option (List ℕ) → M Started
with_reporter env address none w = (panicked, w)
with_reporter env address (some networks) w = (
  ok (
      if is_empty address
      then serving networks
      else if env.can_connect address
      then serving networks
      else stopped),
  trigger w,
)

abbrev pub start_servers : Env → Bytes → Bool → List ℕ → Result Bytes → M Started
start_servers env address accepted chains (failed e) w = return stopped w
start_servers env address accepted chains (fine delay) w =
    if accepted
    then with_reporter env address (new_prometheus_reporter chains) w
    else (ok stopped, w)

-- The configuration is read again, and the scheduler is made with the interval.
unfoldable pub start_up : Env → Bytes → Bool → M Started
start_up env address accepted = do
  chains ← attempt (get_delayed_chains env)
  delay ← attempt (get_config_value env (codes "delay_seconds"))
  start_servers env address accepted (or_no_chains chains) delay

-- The configuration, in the order of the flags in the code.
abbrev pub configure : Env → Durations → Flags → M Started → M Started
configure env lib flags rest = with_address env flags.aggsender_addr (
    with_delay env lib flags.delay (
      with_chains env flags.delayed_chains
        (with_limit env flags.suspicious_value (with_token_values env flags.token_values rest))))

abbrev pub with_keys : Env → Flags → M Started → M Started
with_keys env flags rest = with_key env (codes "kill_switch_api_key") flags.kill_switch_api_key (
    with_key env (codes "kill_restart_api_key") flags.kill_restart_api_key (
      with_key env (codes "data_key") flags.data_key
        (with_key env (codes "certificate_override_key") flags.certificate_override_key rest)))

abbrev pub start_with : Env → Durations → Flags → Option ℤ → M Started
start_with env lib flags none = return stopped
start_with env lib flags (some interval) = do
  opened ← attempt (new_sqlite_store env)
  unless_failed opened (
      with_keys env flags
        (configure env lib flags (start_up env flags.aggsender_addr (lib.accepts interval))))

unfoldable pub start : Env → Durations → Flags → M Started
start env lib flags = start_with env lib flags (lib.parse_duration flags.scheduler_interval)
