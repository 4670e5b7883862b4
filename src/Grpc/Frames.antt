-- ===== src/Grpc/Frames.antt =====
-- What the methods of the gRPC server leave alone.
use agg_certificate_proxy.Prelude.{
  ℕ, Bool, true, false, Bool-cases, inl, inr, Option, none, some, Bytes,
}
use agg_certificate_proxy.Api.Override.{deferring-Keeps, trigger-SameSwitch}
use agg_certificate_proxy.Grpc.{
  send_certificate_immediately, immediate, lock_certificate, dispatch, must_lock, submission,
  submit_certificate, dial_and_get_certificate_header, header_of_row, header_of_found,
  get_certificate_header,
}
use agg_certificate_proxy.Proto.Node.{
  ProtoCertificate, CertificateId, SubmitCertificateRequest, GetCertificateHeaderRequest,
}
use agg_certificate_proxy.Service.{is_chain_delayed, get_delayed_chains, submit}
use agg_certificate_proxy.Service.Sending.{send-Keeps, submit-SameSwitch}
use agg_certificate_proxy.Store.{Certificate, store_certificate}
use agg_certificate_proxy.Store.Rows.{
  switch_frame, get_config_value-Keeps, store_certificate-SameSwitch, get_certificate_by_id-Keeps,
}
use agg_certificate_proxy.Suspicion.Frames.{check_for_suspicious_value-Keeps}
use agg_certificate_proxy.World.{
  World, Env, trigger, Result, fine, failed, no_rows, db_error, bad_value, marshal_failed,
  unmarshal_failed, connect_failed, call_failed, hash_failed,
}
use agg_certificate_proxy.World.Laws.{Frame, Keeps, keeps_rules, return-Keeps, fail-Keeps}

module _ (F : Frame) (env : Env) where
  get_delayed_chains-Keeps : Keeps F (get_delayed_chains env)
  unfolding get_delayed_chains
  get_delayed_chains-Keeps = search (keeps_rules, get_config_value-Keeps) depth 14

  pub is_chain_delayed-Keeps : (chain : ℕ) → Keeps F (is_chain_delayed env chain)
  unfolding is_chain_delayed
  is_chain_delayed-Keeps chain = search (keeps_rules, get_delayed_chains-Keeps) depth 14

  pub must_lock-Keeps :
      (b : Bool) (certificate : Option ProtoCertificate) → Keeps F (must_lock env b certificate)
  must_lock-Keeps false certificate = return-Keeps F
  must_lock-Keeps true certificate = search (keeps_rules, check_for_suspicious_value-Keeps) depth 14

  dial-Keeps :
      (address : Bytes) (req : GetCertificateHeaderRequest)
      → Keeps F (dial_and_get_certificate_header env address req)
  unfolding dial_and_get_certificate_header
  dial-Keeps address req = record {
    keeps = λ w. elim (Bool-cases (env.can_connect address)) [
      | inl e ↦ rw e (F.ticked w)
      | inr e ↦ rw e (F.same w)
    ];
  }

  header_of_row-Keeps :
      (upstream : Bytes) (req : GetCertificateHeaderRequest) (t : Option ℕ)
      → Keeps F (header_of_row env upstream req t)
  header_of_row-Keeps upstream req none = return-Keeps F
  header_of_row-Keeps upstream req (some t) = search (keeps_rules, dial-Keeps) depth 14

  header_of_found-Keeps :
      (upstream : Bytes) (req : GetCertificateHeaderRequest) (r : Result Certificate)
      → Keeps F (header_of_found env upstream req r)
  header_of_found-Keeps upstream req (fine c) = header_of_row-Keeps upstream req c.processed_at
  header_of_found-Keeps upstream req (failed no_rows) = dial-Keeps upstream req
  header_of_found-Keeps upstream req (failed db_error) = fail-Keeps F
  header_of_found-Keeps upstream req (failed bad_value) = fail-Keeps F
  header_of_found-Keeps upstream req (failed marshal_failed) = fail-Keeps F
  header_of_found-Keeps upstream req (failed unmarshal_failed) = fail-Keeps F
  header_of_found-Keeps upstream req (failed connect_failed) = fail-Keeps F
  header_of_found-Keeps upstream req (failed call_failed) = fail-Keeps F
  header_of_found-Keeps upstream req (failed hash_failed) = fail-Keeps F

  -- A request for a header changes nothing but the counter.
  pub get_certificate_header-Keeps :
      (upstream : Bytes) (req : GetCertificateHeaderRequest)
      → Keeps F (get_certificate_header env upstream req)
  unfolding get_certificate_header
  get_certificate_header-Keeps upstream req =
      search (keeps_rules, get_certificate_by_id-Keeps, header_of_found-Keeps) depth 14

module _ (F : Frame) (env : Env)
    (stores : (raw metadata id : Bytes) → Keeps F (store_certificate env raw metadata id))
    (submits : (a : Bytes) (r : SubmitCertificateRequest) → Keeps F (submit env a r))
    (triggers : (w : World) → F.Before w (trigger w)) where
  lock-Keeps :
      (raw metadata : Bytes) (id : CertificateId) → Keeps F (lock_certificate env raw metadata id)
  unfolding lock_certificate
  lock-Keeps raw metadata id = search (keeps_rules, stores) depth 14

  immediately-Keeps :
      (raw metadata : Bytes) → Keeps F (send_certificate_immediately env raw metadata)
  unfolding send_certificate_immediately
  immediately-Keeps raw metadata = send-Keeps F env submits (immediate raw metadata)

  dispatch-Keeps :
      (b : Bool) (raw metadata : Bytes) (id : CertificateId)
      → Keeps F (dispatch env b raw metadata id)
  dispatch-Keeps true raw metadata id = search (keeps_rules, lock-Keeps) depth 14
  dispatch-Keeps false raw metadata id = search (keeps_rules, immediately-Keeps) depth 14

  -- The method keeps what its insertion, its remote call and the trigger keep.
  pub submit_certificate-Keeps :
      (req : SubmitCertificateRequest) → Keeps F (submit_certificate env req)
  unfolding submit_certificate
  submit_certificate-Keeps req =
      deferring-Keeps F triggers {m = submission env req}
        (search (keeps_rules, is_chain_delayed-Keeps, must_lock-Keeps, dispatch-Keeps) depth 20)

pub submit_certificate-SameSwitch :
    (env : Env) (req : SubmitCertificateRequest) → Keeps switch_frame (submit_certificate env req)
submit_certificate-SameSwitch env =
    submit_certificate-Keeps switch_frame env (store_certificate-SameSwitch env)
      (submit-SameSwitch env) trigger-SameSwitch
