-- ===== src/System/History.antt =====
-- What no sequence of calls does to the table of certificates.
use agg_certificate_proxy.Prelude.{Bool, true, false, List, [], ◌∷◌, Bytes, codes}
use agg_certificate_proxy.Api.{Request, handle_switch, handle_kill_switch, handle_restart}
use agg_certificate_proxy.Api.Frames.{handle_switch-Keeps}
use agg_certificate_proxy.Api.Override.{handle_override-Keeps}
use agg_certificate_proxy.Grpc.Frames.{submit_certificate-Keeps, get_certificate_header-Keeps}
use agg_certificate_proxy.Proto.Node.{SubmitCertificateRequest}
use agg_certificate_proxy.Scheduler.Rounds.{process_round-Keeps}
use agg_certificate_proxy.Service.{submit}
use agg_certificate_proxy.Store.Rows.{
  set_status-SameCertificates, record_attempt-SameCertificates, cleanup-SameCertificates,
}
use agg_certificate_proxy.Store.Table.{
  IsLater, table_frame, trigger-IsLater, same-Keeps, store_certificate-IsLater,
  mark_processed-IsLater, mark_override-IsLater,
}
use agg_certificate_proxy.System.{
  Call, kill_call, restart_call, override_call, submit_call, header_call, scheduled_round, step,
  run,
}
use agg_certificate_proxy.World.{World, Env, AttemptType, kill, restart}
use agg_certificate_proxy.World.Laws.{Keeps}

module _ (env : Env) (upstream : Bytes) where
  submit-IsLater : (a : Bytes) (r : SubmitCertificateRequest) → Keeps table_frame (submit env a r)
  unfolding submit
  submit-IsLater a r = record { keeps = λ w. table_frame.same w }

  switch-IsLater :
      (credential : Bytes) (kind : AttemptType) (active : Bool) (r : Request)
      → Keeps table_frame (handle_switch env credential kind active r)
  switch-IsLater =
      handle_switch-Keeps table_frame env
        (λ active. same-Keeps env (set_status-SameCertificates env active))
        (λ kind. same-Keeps env (record_attempt-SameCertificates env kind))
        (λ d. same-Keeps env (cleanup-SameCertificates env d))

  step-IsLater : (c : Call) (w : World) → IsLater w (step env upstream c w)
  unfolding step handle_kill_switch handle_restart
  step-IsLater (kill_call r) w = (switch-IsLater (codes "kill_switch_api_key") kill false r).keeps w
  step-IsLater (restart_call r) w =
      (switch-IsLater (codes "kill_restart_api_key") restart true r).keeps w
  step-IsLater (override_call r) w =
      (handle_override-Keeps table_frame trigger-IsLater env (mark_override-IsLater env) r).keeps w
  step-IsLater (submit_call q) w =
      (submit_certificate-Keeps table_frame env (store_certificate-IsLater env) submit-IsLater
          trigger-IsLater q).keeps
        w
  step-IsLater (header_call q) w = (get_certificate_header-Keeps table_frame env upstream q).keeps w
  step-IsLater scheduled_round w =
      (process_round-Keeps table_frame env submit-IsLater (mark_processed-IsLater env)).keeps w

  -- No sequence of calls, whatever fails on the way, loses a certificate: every row of the table
  -- is still there afterwards, at its place, with its id, its bytes, its time, its metadata and its
  -- identifier; a row that is marked as processed or overridden stays so; and where the ids of the
  -- table grow up to the last one given out, they still do.
  pub run-IsLater : (calls : List Call) (w : World) → IsLater w (run env upstream calls w)
  unfolding run
  run-IsLater [] w = table_frame.same w
  run-IsLater (c ∷ calls) w =
      let v = step env upstream c w in
      table_frame.then_too w v (run env upstream calls v) (step-IsLater c w) (run-IsLater calls v)
