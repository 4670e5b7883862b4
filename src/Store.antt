-- ===== src/Store.antt =====
-- internal/certificate/sqlite.go. Each SQL statement is the list operation that it denotes: the
-- table keeps its rows in the order of their ids, in which SQLite scans a table.
pub mod Duration
pub mod Initial
pub mod Rows
pub mod Table
pub mod Latest
pub mod Due
use agg_certificate_proxy.Prelude.{
  ℕ, zero, suc, ◌+◌, ◌*◌, Bool, true, false, ◌&&◌, ◌||◌, List, [], ◌∷◌, ◌++◌, map, Option, none,
  some, Bytes, codes, Dict, lookup, insert, keep_if, same_bytes, length, ltb, leb, ◌==◌,
  if◌then◌else◌,
}
use agg_certificate_proxy.Text.Decimal.{ℤ, pos, negsuc, parse_int}
use agg_certificate_proxy.World.{
  Row, Status, AttemptType, kill, restart, Attempt, World, Env, no_rows, bad_value, M, ◌>>=◌, ◌>>◌,
  return, or_fail, time_now, exec, query, statement, Result, fine, failed, Error, fail, attempt,
}
use Duration.{cutoff, is_before, minute}

-- models.go: what a query returns of a row.
pub record Certificate : Type 0 where
  pub id : ℕ
  pub raw_proto : Bytes
  pub received_at : ℕ
  pub processed_at : Option ℕ
  pub metadata : Bytes

abbrev pub certificate_of : Row → Certificate
certificate_of r = record {
  id = r.id;
  raw_proto = r.raw_proto;
  received_at = r.received_at;
  processed_at = r.processed_at;
  metadata = r.metadata;
}

abbrev pub is_null : Option ℕ → Bool
is_null none = true
is_null (some t) = false

-- INSERT INTO certificates
abbrev pub insert_row : Bytes → Bytes → Bytes → ℕ → World → World
insert_row raw metadata cert_id received w = record w {
  certificates =
      w.certificates
      ++ record {
        id = suc w.last_id;
        raw_proto = raw;
        received_at = received;
        processed_at = none;
        metadata = metadata;
        cert_id = cert_id;
        override_sent_at = none;
      }
        ∷ [];
  last_id = suc w.last_id;
}

unfoldable pub store_certificate : Env → Bytes → Bytes → Bytes → M (Unit {0})
store_certificate env raw metadata cert_id = do
  received ← time_now env
  exec env (insert_row raw metadata cert_id received)

abbrev pub text_delay_seconds : Bytes
text_delay_seconds = codes "delay_seconds"

abbrev pub text_delayed_chains : Bytes
text_delayed_chains = codes "delayed_chains"

-- The condition of GetProcessableCertificates, with the offset of the cutoff from the present.
abbrev pub is_processable : ℕ → ℤ → Row → Bool
is_processable now offset r =
    is_null r.processed_at
    && (is_before r.received_at now offset || (if is_null r.override_sent_at then false else true))

unfoldable pub get_processable_certificates : Env → M (List Certificate)
get_processable_certificates env = do
  found ← query env (λ w. lookup text_delay_seconds w.configuration)
  value ← or_fail found no_rows
  seconds ← or_fail (parse_int value) bad_value
  now ← time_now env
  rows ← query env (λ w. keep_if (is_processable now (cutoff seconds)) w.certificates)
  return (map certificate_of rows)

-- UPDATE certificates SET processed_at, for the rows with the id
abbrev pub set_processed : ℕ → ℕ → Row → Row
set_processed t id r = if r.id == id then record r { processed_at = some t } else r

unfoldable pub mark_certificate_processed : Env → ℕ → M (Unit {0})
mark_certificate_processed env id = do
  now ← time_now env
  exec env (λ w. record w { certificates = map (set_processed now id) w.certificates })

-- An id that comes from a request may be negative, which no row has.
abbrev pub is_id : ℤ → ℕ → Bool
is_id (pos n) id = id == n
is_id (negsuc n) id = false

abbrev pub set_override : ℕ → ℤ → Row → Row
set_override t id r = if is_id id r.id then record r { override_sent_at = some t } else r

unfoldable pub mark_certificate_override_sent : Env → ℤ → M (Unit {0})
mark_certificate_override_sent env id = do
  now ← time_now env
  exec env (λ w. record w { certificates = map (set_override now id) w.certificates })

-- ORDER BY received_at DESC, with rows of one time in the order of the table.
pub insert_latest : Row → List Row → List Row
insert_latest r [] = r ∷ []
insert_latest r (s ∷ rest) =
    if ltb r.received_at s.received_at then s ∷ insert_latest r rest else r ∷ s ∷ rest

pub latest_first : List Row → List Row
unfolding insert_latest
latest_first [] = []
latest_first (r ∷ rest) = insert_latest r (latest_first rest)

unfoldable pub get_certificates : Env → M (List Certificate)
unfolding latest_first
get_certificates env = do
  rows ← query env (λ w. latest_first w.certificates)
  return (map certificate_of rows)

-- GetConfigValue and GetCredential return the empty text where the key has no row.
abbrev pub or_empty : Option Bytes → Bytes
or_empty none = []
or_empty (some v) = v

unfoldable pub get_config_value : Env → Bytes → M Bytes
get_config_value env key = query env (λ w. or_empty (lookup key w.configuration))

unfoldable pub set_config_value : Env → Bytes → Bytes → M (Unit {0})
set_config_value env key value =
    exec env (λ w. record w { configuration = insert key value w.configuration })

unfoldable pub get_credential : Env → Bytes → M Bytes
get_credential env key = query env (λ w. or_empty (lookup key w.credentials))

unfoldable pub set_credential : Env → Bytes → Bytes → M (Unit {0})
set_credential env key value =
    exec env (λ w. record w { credentials = insert key value w.credentials })

-- With no row the scheduler counts as active.
abbrev pub active_or_default : Option Status → Bool
active_or_default none = true
active_or_default (some s) = s.is_active

unfoldable pub get_scheduler_status : Env → M Bool
get_scheduler_status env = query env (λ w. active_or_default w.scheduler_status)

-- An UPDATE: it adds no row.
abbrev pub updated : Bool → ℕ → Option Status → Option Status
updated active now none = none
updated active now (some s) = some (record { is_active = active; last_updated = now })

unfoldable pub set_scheduler_status : Env → Bool → M (Unit {0})
set_scheduler_status env active = do
  now ← time_now env
  exec env (λ w. record w { scheduler_status = updated active now w.scheduler_status })

unfoldable pub record_kill_switch_attempt : Env → AttemptType → M (Unit {0})
record_kill_switch_attempt env kind = do
  now ← time_now env
  exec env (λ w. record w {
    attempts = w.attempts ++ record { attempt_type = kind; attempted_at = now } ∷ [];
  })

abbrev pub same_type : AttemptType → AttemptType → Bool
same_type kill kill = true
same_type restart restart = true
same_type _ _ = false

-- attempted_at >= cutoff, where the cutoff is `duration` before `now`
abbrev pub is_recent : AttemptType → ℕ → ℕ → Attempt → Bool
is_recent kind duration now a = same_type a.attempt_type kind && leb now (a.attempted_at + duration)

unfoldable pub get_recent_kill_switch_attempts : Env → AttemptType → ℕ → M ℕ
get_recent_kill_switch_attempts env kind duration = do
  now ← time_now env
  query env (λ w. length (keep_if (is_recent kind duration now) w.attempts))

-- attempted_at < cutoff is deleted
unfoldable pub cleanup_old_kill_switch_attempts : Env → ℕ → M (Unit {0})
cleanup_old_kill_switch_attempts env older_than = do
  now ← time_now env
  exec env
      (λ w. record w { attempts = keep_if (λ a. leb now (a.attempted_at + older_than)) w.attempts })

unfoldable pub get_unprocessed_certificates : Env → M (List Certificate)
get_unprocessed_certificates env = do
  rows ← query env (λ w. keep_if (λ r. is_null r.processed_at) w.certificates)
  return (map certificate_of rows)

-- The first row with the identifier of the protocol.
unfoldable pub row_by_cert_id : Bytes → List Row → Option Row
row_by_cert_id id [] = none
row_by_cert_id id (r ∷ rest) = if same_bytes r.cert_id id then some r else row_by_cert_id id rest

unfoldable pub get_certificate_by_id : Env → Bytes → M Certificate
get_certificate_by_id env id = do
  found ← query env (λ w. row_by_cert_id id w.certificates)
  row ← or_fail found no_rows
  return (certificate_of row)
