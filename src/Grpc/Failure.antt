-- ===== src/Grpc/Failure.antt =====
-- What SubmitCertificate does where the calls of the backend fail.
use agg_certificate_proxy.Prelude.{
  ℕ, suc, ◌≡◌, refl, none, Option-cases, inl, inr, false, some, Bytes, codes, In, lookup,
  Bool-cases,
}
use agg_certificate_proxy.Grpc.{
  or_empty_text, submit_certificate, send_certificate_immediately, immediate,
}
use agg_certificate_proxy.Hashing.{generate_certificate_id}
use agg_certificate_proxy.Metadata.{extract_metadata}
use agg_certificate_proxy.Proto.Node.{CertificateId, SubmitCertificateRequest, get_network_id}
use agg_certificate_proxy.Service.{chains_of, is_listed}
use agg_certificate_proxy.Service.Chains.{is_listed_iff}
use agg_certificate_proxy.Store.{get_config_value, Certificate, text_delayed_chains, or_empty}
use agg_certificate_proxy.World.{World, Env, fine, err, panicked, tick}
use agg_certificate_proxy.Grpc.Submission.{submission-decide, listed_as}
use agg_certificate_proxy.Service.{send_to_agg_sender, submit, address_or_default}
use agg_certificate_proxy.World.{Error, connect_failed, unmarshal_failed, call_failed}

module _ (env : Env) where
  -- An address that is refused, a text that cannot be decoded and a call that fails all end in an
  -- error.
  send-unanswered :
      (c : Certificate) (w : World)
      → ((n : ℕ) → env.db_fails n ≡ false)
      → ((n : ℕ) (a : Bytes) (q : SubmitCertificateRequest) → env.submit_certificate n a q ≡ none)
      → (e : Error) × ((send_to_agg_sender env c w).0 ≡ err e)
  unfolding send_to_agg_sender get_config_value submit
  send-unanswered c w up silent =
      let address =
        address_or_default (fine (or_empty (lookup (codes "aggsender_address") w.configuration))) in
      elim (Bool-cases (env.can_connect address)) [
        | inr refused ↦ (connect_failed, rw (up w.ticks, refused) refl)
        | inl connected ↦ elim (Option-cases (env.unmarshal c.raw_proto)) [
          | inl bad ↦ (unmarshal_failed, rw (up w.ticks, connected, bad) refl)
          | inr (q, good) ↦
              (call_failed, rw (up w.ticks, connected, good, silent (suc w.ticks) address q) refl)
        ]
      ]

  -- Where every call of SubmitCertificate on the backend fails, whatever its address,
  -- SubmitCertificate panics on a certificate that it does not lock because its chain is not
  -- delayed, although no statement fails, the request can be encoded and the identifier can be
  -- calculated.
  pub submit_certificate_unanswered :
      (req : SubmitCertificateRequest) (raw : Bytes) (id : CertificateId) (w : World)
      → ((n : ℕ) → env.db_fails n ≡ false)
      → ((n : ℕ) (a : Bytes) (q : SubmitCertificateRequest) → env.submit_certificate n a q ≡ none)
      → env.marshal req ≡ some raw
      → generate_certificate_id env.ethereum req.certificate ≡ some id
      → ¬ In
          (get_network_id req.certificate)
          (chains_of (or_empty (lookup text_delayed_chains w.configuration)))
      → (submit_certificate env req w).0 ≡ panicked
  unfolding submit_certificate send_certificate_immediately
  submit_certificate_unanswered req raw id w up silent e f other =
      let open_chain : listed_as env req w ≡ false =
        unfold listed_as in
        (elim (Bool-cases (
          is_listed (get_network_id req.certificate)
            (chains_of (or_empty (lookup text_delayed_chains w.configuration))))) [
              | inl i ↦ absurd (other ((is_listed_iff (get_network_id req.certificate) _).0 i))
              | inr i ↦ rw (up w.ticks) i
            ]) in
      let same = submission-decide env req raw id w e f in
      let (error, failed_call) =
        send-unanswered
          (immediate raw (or_empty_text (env.json_marshal (extract_metadata req.certificate))))
          (tick w) up silent in
      rw (same, open_chain) (rw failed_call refl)
