-- ===== src/Api.antt =====
-- internal/certificate/api.go: the HTTP handlers that act on the scheduler and on certificates.
-- A response is its status code and what its body says; that the body is written is left out.
pub mod Counting
pub mod Switch
pub mod Authority
pub mod Override
pub mod Frames
pub mod Prompt
use agg_certificate_proxy.Prelude.{
  ℕ, ◌-◌, ◌*◌, Bool, true, false, List, [], ◌∷◌, Option, none, some, Bytes, codes, leb, same_bytes,
  if◌then◌else◌,
}
use agg_certificate_proxy.Text.Decimal.{ℤ, parse_int}
use agg_certificate_proxy.Store.{
  get_credential, record_kill_switch_attempt, cleanup_old_kill_switch_attempts,
  get_recent_kill_switch_attempts, set_scheduler_status, mark_certificate_override_sent,
}
use agg_certificate_proxy.Store.Duration.{minute}
use agg_certificate_proxy.World.{
  AttemptType, kill, restart, Env, M, ◌>>=◌, ◌>>◌, return, attempt, Result, fine, failed,
  deferring_trigger,
}

-- The method of a request and the values of its query, empty where the query lacks the name.
pub record Request : Type 0 where
  pub method : Bytes
  pub key : Bytes
  pub cert_id : Bytes

pub data Response : Type 0 where
  http_error : ℕ → Response
  switched : Response
  recorded : ℕ → ℕ → Response
  override_sent : Response

-- At three attempts within the minute the scheduler is switched.
abbrev pub finish : Result (Unit {0}) → M Response
finish (failed e) = return (http_error 500)
finish (fine u) = return switched

abbrev pub after_count : Env → Bool → Result ℕ → M Response
after_count env active (failed e) = return (http_error 500)
after_count env active (fine count) =
    if leb 3 count
    then (do done ← attempt (set_scheduler_status env active); finish done)
    else return (recorded count (3 - count))

-- The part behind the check of the key. Errors of the first two statements are only logged.
unfoldable pub count_attempt : Env → AttemptType → Bool → M Response
count_attempt env kind active = do
  noted ← attempt (record_kill_switch_attempt env kind)
  cleaned ← attempt (cleanup_old_kill_switch_attempts env (5 * minute))
  count ← attempt (get_recent_kill_switch_attempts env kind minute)
  after_count env active count

abbrev pub check_key : Env → AttemptType → Bool → Bytes → Result Bytes → M Response
check_key env kind active key (failed e) = return (http_error 500)
check_key env kind active key (fine stored) =
    if env.compare_hash_and_password stored key
    then count_attempt env kind active
    else return (http_error 500)

abbrev pub is_empty : Bytes → Bool
is_empty [] = true
is_empty (c ∷ s) = false

-- The two handlers differ in the credential, the kind of attempt and the state that they set.
unfoldable pub handle_switch : Env → Bytes → AttemptType → Bool → Request → M Response
handle_switch env credential kind active r =
    if same_bytes r.method (codes "POST")
    then (if is_empty r.key then return (http_error 401) else (do
      stored ← attempt (get_credential env credential)
      check_key env kind active r.key stored))
    else return (http_error 405)

unfoldable pub handle_kill_switch : Env → Request → M Response
handle_kill_switch env = handle_switch env (codes "kill_switch_api_key") kill false

unfoldable pub handle_restart : Env → Request → M Response
handle_restart env = handle_switch env (codes "kill_restart_api_key") restart true

abbrev finish_override : Result (Unit {0}) → M Response
finish_override (failed e) = return (http_error 500)
finish_override (fine u) = return override_sent

abbrev check_override : Env → ℤ → Bytes → Result Bytes → M Response
check_override env id key (failed e) = return (http_error 500)
check_override env id key (fine stored) =
    if env.compare_hash_and_password stored key
    then (do done ← attempt (mark_certificate_override_sent env id); finish_override done)
    else return (http_error 401)

abbrev override_with : Env → Bytes → Option ℤ → M Response
override_with env key none = return (http_error 400)
override_with env key (some id) = if is_empty key then return (http_error 401) else (do
  stored ← attempt (get_credential env (codes "certificate_override_key"))
  check_override env id key stored)

abbrev override_request : Env → Request → M Response
override_request env r =
    if same_bytes r.method (codes "POST")
    then (if is_empty r.cert_id
        then return (http_error 400)
        else override_with env r.key (parse_int r.cert_id))
    else return (http_error 405)

unfoldable pub handle_override : Env → Request → M Response
handle_override env r = deferring_trigger (override_request env r)
