-- ===== src/Grpc/Submission.antt =====
-- What SubmitCertificate does with a certificate.
use agg_certificate_proxy.Prelude.{
  ◌≡◌, refl, sym, ap, ◌∙◌, ◌⊎◌, inl, inr, Bool, true, false, some, Bytes, codes, lookup, Bool-cases,
  Option-cases, ==_iff, ◌==◌, arith, if◌then◌else◌,
}
use agg_certificate_proxy.Grpc.{
  withdrawal_value, delayed_or_error, must_lock, dispatch, or_empty_text, lock_certificate, answer,
  decide, submission, submit_certificate,
}
use agg_certificate_proxy.Grpc.Frames.{must_lock-Keeps}
use agg_certificate_proxy.Hashing.{generate_certificate_id}
use agg_certificate_proxy.Metadata.{extract_metadata}
use agg_certificate_proxy.Proto.Node.{
  CertificateId, SubmitCertificateRequest, SubmitCertificateResponse, get_network_id,
}
use agg_certificate_proxy.Service.{chains_of, is_listed, is_chain_delayed, get_delayed_chains}
use agg_certificate_proxy.Store.{get_config_value, text_delayed_chains, or_empty, store_certificate}
use agg_certificate_proxy.Suspicion.{check_for_suspicious_value}
use agg_certificate_proxy.Suspicion.Limit.{IsWithinLimit, not_suspicious}
use agg_certificate_proxy.World.{
  World, Env, Result, fine, failed, ok, db_error, tick, trigger, kept, ◌>>=◌,
}
use agg_certificate_proxy.World.Laws.{Frame, Keeps, exec-Keeps, keeps_rules, Outcome-cases}

abbrev config : Bytes → World → Bytes
config key w = or_empty (lookup key w.configuration)

module _ (env : Env) (req : SubmitCertificateRequest) where
  -- Why a certificate may be sent on at once: its chain is read and not delayed, or it moves no amount, or
  -- its dollar value is within the limit.
  abbrev pub MayPass : World → Type 0
  MayPass w =
      ((env.db_fails w.ticks ≡ false)
        × (is_listed (get_network_id req.certificate) (chains_of (config text_delayed_chains w))
            ≡ false))
      ⊎ ((withdrawal_value req.certificate ≡ 0)
          ⊎ IsWithinLimit env.ethereum req.certificate (config (codes "suspicious_value") w)
              (config (codes "token_values") w))

  -- What the lookup of the chain is taken for.
  unfoldable pub listed_as : World → Bool
  listed_as w =
      if env.db_fails w.ticks
      then true
      else is_listed (get_network_id req.certificate) (chains_of (config text_delayed_chains w))

  is_chain_delayed-world :
      (w : World)
      → (r : Result Bool) × (kept (is_chain_delayed env (get_network_id req.certificate) w).0
          ≡ ok r)
        × ((is_chain_delayed env (get_network_id req.certificate) w).1 ≡ tick w)
        × (delayed_or_error r ≡ listed_as w)
  unfolding is_chain_delayed get_delayed_chains get_config_value listed_as
  is_chain_delayed-world w = elim (Bool-cases (env.db_fails w.ticks)) [
    | inl e ↦ rw e (failed db_error, refl, refl, refl)
    | inr e ↦ rw e (
      fine (is_listed (get_network_id req.certificate) (chains_of (config text_delayed_chains w))),
      refl,
      refl,
      refl,
    )
  ]

  must_lock-checked :
      (w : World)
      → (must_lock env true req.certificate w).0 ≡ ok false
      → (withdrawal_value req.certificate ≡ 0)
        ⊎ ((check_for_suspicious_value env req.certificate w).0 ≡ ok false)
  must_lock-checked w = elim (Bool-cases (withdrawal_value req.certificate == 0)) [
    | inl e ↦ λ h. inl ((==_iff (withdrawal_value req.certificate) 0).0 e)
    | inr e ↦ rw e (λ h. inr h)
  ]

  not_listed :
      (w : World)
      → listed_as w ≡ false
      → (env.db_fails w.ticks ≡ false)
        × (is_listed (get_network_id req.certificate) (chains_of (config text_delayed_chains w))
            ≡ false)
  unfolding listed_as
  not_listed w = elim (Bool-cases (env.db_fails w.ticks)) [
    | inl e ↦ rw e (λ h. absurd (cc))
    | inr e ↦ rw e (λ h. (refl, h))
  ]

  must_lock-MayPass :
      (w : World) → (must_lock env (listed_as w) req.certificate (tick w)).0 ≡ ok false → MayPass w
  must_lock-MayPass w = elim (Bool-cases (listed_as w)) [
    | inr e ↦ λ h. inl (not_listed w e)
    | inl e ↦ rw e (λ h. elim (must_lock-checked (tick w) h) [
      | inl zero_value ↦ inr (inl zero_value)
      | inr unsuspicious ↦ inr (inr (not_suspicious env req.certificate (tick w) unsuspicious))
    ])
  ]

-- What was sent is as before.
abbrev sent_frame : Frame
sent_frame = record {
  Before = λ v w. w.sent ≡ v.sent;
  same = λ w. refl;
  then_too = λ u v w p q. q ∙ p;
  ticked = λ w. refl;
}

module _ (env : Env) where
  store-sent : (raw metadata id : Bytes) → Keeps sent_frame (store_certificate env raw metadata id)
  unfolding store_certificate
  store-sent raw metadata id = search (keeps_rules, exec-Keeps) depth 14

  lock-sent :
      (raw metadata : Bytes) (id : CertificateId)
      → Keeps sent_frame (lock_certificate env raw metadata id)
  unfolding lock_certificate
  lock-sent raw metadata id = search (keeps_rules, store-sent) depth 14

  answer-sent : (r : Result SubmitCertificateResponse) → Keeps sent_frame (answer r)
  answer-sent r = search keeps_rules depth 14

  locked-sent :
      (raw metadata : Bytes) (id : CertificateId)
      → Keeps sent_frame (dispatch env true raw metadata id >>= answer)
  locked-sent raw metadata id = search (keeps_rules, lock-sent, answer-sent) depth 14

  decide-sent :
      (req : SubmitCertificateRequest) (raw metadata : Bytes) (id : CertificateId) (d : Bool)
      (w : World)
      → ((decide env req raw metadata id d w).1.sent ≡ w.sent)
        ⊎ ((must_lock env d req.certificate w).0 ≡ ok false)
  decide-sent req raw metadata id d w =
      let checked = must_lock env d req.certificate w in
      let before : checked.1.sent ≡ w.sent =
        (must_lock-Keeps sent_frame env d req.certificate).keeps w in
      elim (Outcome-cases checked.0) [
        | inl (locked, e) ↦ elim (Bool-cases locked) [
          | inl f ↦ rw (e, f) (inl ((locked-sent raw metadata id).keeps checked.1 ∙ before))
          | inr f ↦ inr (e ∙ ap ok f)
        ]
        | inr (inl (x, e)) ↦ rw e (inl before)
        | inr (inr e) ↦ rw e (inl before)
      ]

  trigger-sent : (w : World) → (trigger w).sent ≡ w.sent
  trigger-sent w = ground arith

  -- The part before the decision.
  pub submission-decide :
      (req : SubmitCertificateRequest) (raw : Bytes) (id : CertificateId) (w : World)
      → env.marshal req ≡ some raw
      → generate_certificate_id env.ethereum req.certificate ≡ some id
      → submission env req w
        ≡ decide env req raw
            (or_empty_text (env.json_marshal (extract_metadata req.certificate)))
            id
            (listed_as env req w)
            (tick w)
  submission-decide req raw id w e f =
      let (r, read, ticked, same) = is_chain_delayed-world env req w in
      rw (sym same, e, read, ticked, f) refl

  submission-sent :
      (req : SubmitCertificateRequest) (w : World)
      → ((submission env req w).1.sent ≡ w.sent) ⊎ MayPass env req w
  submission-sent req w = elim (Option-cases (env.marshal req)) [
    | inl e ↦ rw e (inl refl)
    | inr (raw, e) ↦ elim (Option-cases (generate_certificate_id env.ethereum req.certificate)) [
      | inl f ↦
          let (r, read, ticked, same) = is_chain_delayed-world env req w in
          rw (e, read, ticked, f) (inl refl)
      | inr (id, f) ↦
          rw (submission-decide req raw id w e f)
            (elim (decide-sent req raw _ id (listed_as env req w) (tick w)) [
              | inl same ↦ inl same
              | inr unlocked ↦ inr (must_lock-MayPass env req w unlocked)
            ])
    ]
  ]

  -- SubmitCertificate passes nothing on to the backend, unless the lookup of the chain succeeds
  -- and finds it not delayed, or the exits move no amount, or the dollar value is within the
  -- configured limit.
  pub submit_certificate_passes :
      (req : SubmitCertificateRequest) (w : World)
      → ((submit_certificate env req w).1.sent ≡ w.sent) ⊎ MayPass env req w
  unfolding submit_certificate
  submit_certificate_passes req w = elim (submission-sent req w) [
    | inl same ↦ inl (trigger-sent (submission env req w).1 ∙ same)
    | inr reason ↦ inr reason
  ]
