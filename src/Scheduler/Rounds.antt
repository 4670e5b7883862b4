-- ===== src/Scheduler/Rounds.antt =====
-- What a round of the scheduler does, with the kill switch on and off.
use agg_certificate_proxy.Prelude.{ℕ, Bytes, suc, ◌≡◌, ◌⊎◌, Bool, true, false, arith}
use agg_certificate_proxy.Proto.Node.{SubmitCertificateRequest}
use agg_certificate_proxy.Scheduler.{process_round, check_status, run_if_active}
use agg_certificate_proxy.Service.{process_pending_certificates, submit}
use agg_certificate_proxy.Service.Sending.{process_pending-Keeps, submit-SameSwitch}
use agg_certificate_proxy.Store.{
  get_scheduler_status, active_or_default, mark_certificate_processed,
}
use agg_certificate_proxy.Store.Rows.{
  switch_frame, SameCertificates, get_scheduler_status-Keeps, mark_processed-SameSwitch,
}
use agg_certificate_proxy.World.{World, Env, Result, fine, failed, tick}
use agg_certificate_proxy.World.Laws.{Frame, Keeps, keeps_rules}

module _ (F : Frame) (env : Env)
    (submits : (a : Bytes) (r : SubmitCertificateRequest) → Keeps F (submit env a r))
    (marks : (id : ℕ) → Keeps F (mark_certificate_processed env id)) where
  run_if_active-Keeps : (r : Result Bool) → Keeps F (run_if_active env r)
  run_if_active-Keeps (failed e) = search keeps_rules depth 14
  run_if_active-Keeps (fine false) = search keeps_rules depth 14
  run_if_active-Keeps (fine true) = process_pending-Keeps F env submits marks

  check_status-Keeps : (b : Bool) → Keeps F (check_status env b)
  check_status-Keeps true = search keeps_rules depth 14
  check_status-Keeps false =
      search (keeps_rules, get_scheduler_status-Keeps, run_if_active-Keeps) depth 14

  -- A round keeps what a remote call and a mark keep.
  pub process_round-Keeps : Keeps F (process_round env)
  unfolding process_round
  process_round-Keeps = search (keeps_rules, check_status-Keeps) depth 14

-- No round touches the kill switch.
pub process_round-SameSwitch : (env : Env) → Keeps switch_frame (process_round env)
process_round-SameSwitch env =
    process_round-Keeps switch_frame env (submit-SameSwitch env) (mark_processed-SameSwitch env)

module _ (env : Env) where
  -- A round in which the context is cancelled, or the status cannot be read, or the scheduler is
  -- stopped sends nothing and leaves the table of certificates as it was.
  pub process_round_stopped :
      (w : World)
      → (env.cancelled w.ticks ≡ true)
        ⊎ ((env.db_fails (suc w.ticks) ≡ true) ⊎ (active_or_default w.scheduler_status ≡ false))
      → SameCertificates w (process_round env w).1
  unfolding process_round get_scheduler_status
  process_round_stopped w h = ground arith

  -- In every other round the certificates that wait are processed.
  process_round_active :
      (w : World)
      → env.cancelled w.ticks ≡ false
      → env.db_fails (suc w.ticks) ≡ false
      → active_or_default w.scheduler_status ≡ true
      → process_round env w ≡ process_pending_certificates env (tick (tick w))
  unfolding process_round get_scheduler_status
  process_round_active w c d a = ground arith
