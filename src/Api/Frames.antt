-- ===== src/Api/Frames.antt =====
-- What the handlers of the kill switch and of the restart leave alone.
use agg_certificate_proxy.Prelude.{ℕ, Bool, Bytes}
use agg_certificate_proxy.Api.{
  Request, handle_switch, check_key, count_attempt, after_count, finish,
}
use agg_certificate_proxy.Store.{
  set_scheduler_status, record_kill_switch_attempt, cleanup_old_kill_switch_attempts,
}
use agg_certificate_proxy.Store.Rows.{get_credential-Keeps, get_recent-Keeps}
use agg_certificate_proxy.World.{Env, AttemptType, Result, fine, failed}
use agg_certificate_proxy.World.Laws.{Frame, Keeps, keeps_rules}

module _ (F : Frame) (env : Env)
    (sets : (active : Bool) → Keeps F (set_scheduler_status env active))
    (records : (kind : AttemptType) → Keeps F (record_kill_switch_attempt env kind))
    (cleans : (d : ℕ) → Keeps F (cleanup_old_kill_switch_attempts env d)) where
  finish-Keeps : (r : Result (Unit {0})) → Keeps F (finish r)
  finish-Keeps (failed e) = search keeps_rules depth 14
  finish-Keeps (fine u) = search keeps_rules depth 14

  after_count-Keeps : (active : Bool) (r : Result ℕ) → Keeps F (after_count env active r)
  after_count-Keeps active (failed e) = search keeps_rules depth 14
  after_count-Keeps active (fine n) = search (keeps_rules, sets, finish-Keeps) depth 14

  count_attempt-Keeps :
      (kind : AttemptType) (active : Bool) → Keeps F (count_attempt env kind active)
  unfolding count_attempt
  count_attempt-Keeps kind active =
      search (keeps_rules, records, cleans, get_recent-Keeps, after_count-Keeps) depth 20

  check_key-Keeps :
      (kind : AttemptType) (active : Bool) (key : Bytes) (r : Result Bytes)
      → Keeps F (check_key env kind active key r)
  check_key-Keeps kind active key (failed e) = search keeps_rules depth 14
  check_key-Keeps kind active key (fine s) = search (keeps_rules, count_attempt-Keeps) depth 14

  pub handle_switch-Keeps :
      (credential : Bytes) (kind : AttemptType) (active : Bool) (r : Request)
      → Keeps F (handle_switch env credential kind active r)
  unfolding handle_switch
  handle_switch-Keeps credential kind active r =
      search (keeps_rules, get_credential-Keeps, check_key-Keeps) depth 14
