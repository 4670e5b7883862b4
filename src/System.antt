-- ===== src/System.antt =====
-- The program as a sequence of calls: the HTTP handlers (internal/certificate/api.go), the gRPC
-- methods (internal/certificate/grpc.go) and the rounds of the scheduler
-- (internal/certificate/schedule.go), which share one store. A call runs to its end before the
-- next one starts.
pub mod Switching
pub mod History
pub mod Stopping
use agg_certificate_proxy.Prelude.{ℕ, List, [], ◌∷◌, Bytes}
use agg_certificate_proxy.Api.{Request, handle_kill_switch, handle_restart, handle_override}
use agg_certificate_proxy.Grpc.{submit_certificate, get_certificate_header}
use agg_certificate_proxy.Proto.Node.{SubmitCertificateRequest, GetCertificateHeaderRequest}
use agg_certificate_proxy.Scheduler.{process_round}
use agg_certificate_proxy.World.{World, Env}

pub data Call : Type 0 where
  kill_call restart_call override_call : Request → Call
  submit_call : SubmitCertificateRequest → Call
  header_call : GetCertificateHeaderRequest → Call
  scheduled_round : Call

module _ (env : Env) (upstream : Bytes) where
  -- The state that a call leaves behind.
  unfoldable pub step : Call → World → World
  step (kill_call r) w = (handle_kill_switch env r w).1
  step (restart_call r) w = (handle_restart env r w).1
  step (override_call r) w = (handle_override env r w).1
  step (submit_call q) w = (submit_certificate env q w).1
  step (header_call q) w = (get_certificate_header env upstream q w).1
  step scheduled_round w = (process_round env w).1

  unfoldable pub run : List Call → World → World
  run [] w = w
  run (c ∷ calls) w = run calls (step c w)
