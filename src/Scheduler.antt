-- ===== src/Scheduler.antt =====
-- internal/certificate/schedule.go: the task that the job scheduler runs at each interval.
pub mod Rounds
use agg_certificate_proxy.Prelude.{Bool, true, false}
use agg_certificate_proxy.Store.{get_scheduler_status}
use agg_certificate_proxy.Service.{process_pending_certificates}
use agg_certificate_proxy.World.{
  Env, M, ◌>>=◌, ◌>>◌, return, attempt, Result, fine, failed, is_cancelled,
}

-- On an error, and while the kill switch is on, the round is skipped.
abbrev run_if_active : Env → Result Bool → M (Unit {0})
run_if_active env (failed e) = return tt
run_if_active env (fine false) = return tt
run_if_active env (fine true) = process_pending_certificates env

abbrev check_status : Env → Bool → M (Unit {0})
check_status env true = return tt
check_status env false = do active ← attempt (get_scheduler_status env); run_if_active env active

unfoldable pub process_round : Env → M (Unit {0})
process_round env = do cancelled ← is_cancelled env; check_status env cancelled
