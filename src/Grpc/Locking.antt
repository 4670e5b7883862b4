-- ===== src/Grpc/Locking.antt =====
-- What SubmitCertificate does with a certificate that is locked, and where the backend fails.
use agg_certificate_proxy.Prelude.{
  ℕ, suc, ◌≡◌, ◌≢◌, refl, sym, ap, ◌∙◌, inl, inr, Bool, true, false, [], ◌∷◌, ◌++◌, Option, none,
  some, Bytes, In, lookup, Bool-cases, ltb, ==_iff, ◌==◌, arith,
}
use agg_certificate_proxy.Grpc.{
  withdrawal_value, must_lock, or_empty_text, lock_certificate, decide, submission,
  submit_certificate,
}
use agg_certificate_proxy.Grpc.Frames.{must_lock-Keeps}
use agg_certificate_proxy.Prelude.Maybe.{>>=-eq-some, some-eq}
use agg_certificate_proxy.Hashing.{certificate_data, generate_certificate_id}
use agg_certificate_proxy.Metadata.{extract_metadata}
use agg_certificate_proxy.Proto.Fields.{FixedBytes32, contents, get_value32}
use agg_certificate_proxy.Proto.Node.{
  ProtoCertificate, CertificateId, SubmitCertificateRequest, get_network_id,
}
use agg_certificate_proxy.Service.{chains_of}
use agg_certificate_proxy.Service.Chains.{is_listed_iff}
use agg_certificate_proxy.Store.{text_delayed_chains, or_empty, store_certificate, insert_row}
use agg_certificate_proxy.Store.Rows.{certificates_frame}
use agg_certificate_proxy.Suspicion.{check_for_suspicious_value}
use agg_certificate_proxy.World.{World, Env, Row, ok, tick, trigger}
use agg_certificate_proxy.Grpc.Submission.{submission-decide, listed_as}

-- The state that a locked certificate leaves: a row is added, and nothing is sent.
abbrev pub IsLocked : World → World → Bytes → CertificateId → Type 0
IsLocked v w raw id =
    (w.sent ≡ v.sent)
    × ((r : Row) × (w.certificates ≡ v.certificates ++ r ∷ [])
        × (r.id ≡ suc v.last_id)
        × (r.raw_proto ≡ raw)
        × (r.cert_id ≡ contents (get_value32 id.value))
        × (r.processed_at ≡ none)
        × (r.override_sent_at ≡ none))

module _ (env : Env) where
  -- A generated identifier is not nil inside.
  pub generated-value :
      (c : Option ProtoCertificate) (id : CertificateId)
      → generate_certificate_id env.ethereum c ≡ some id
      → (v : FixedBytes32) × (id.value ≡ some v)
  unfolding generate_certificate_id
  generated-value c id h =
      let made : Bytes → Option CertificateId = λ b. some (record {
        value = some (record { value = some (env.ethereum.keccak256_hash (b ∷ [])) });
      }) in
      let (b, e, f) = >>=-eq-some (certificate_data env.ethereum c) made h in
      (
        record { value = some (env.ethereum.keccak256_hash (b ∷ [])) },
        ap (λ x. x.value) (sym (some-eq f)),
      )

  store_certificate-row :
      (raw metadata id : Bytes) (w : World)
      → env.db_fails (suc w.ticks) ≡ false
      → store_certificate env raw metadata id w
        ≡ (ok tt, insert_row raw metadata id (env.clock w.ticks) (tick (tick w)))
  unfolding store_certificate
  store_certificate-row raw metadata id w up = rw up refl

  must_lock-suspicious :
      (req : SubmitCertificateRequest) (w : World)
      → In
          (get_network_id req.certificate)
          (chains_of (or_empty (lookup text_delayed_chains w.configuration)))
      → withdrawal_value req.certificate ≢ 0
      → must_lock env (listed_as env req w) req.certificate (tick w)
        ≡ check_for_suspicious_value env req.certificate (tick w)
  unfolding listed_as
  must_lock-suspicious req w i big =
      let listed = (is_listed_iff (get_network_id req.certificate) _).1 i in
      let yes : listed_as env req w ≡ true = ground arith in
      rw yes (elim (Bool-cases (withdrawal_value req.certificate == 0)) [
        | inl e ↦ absurd (big ((==_iff (withdrawal_value req.certificate) 0).0 e))
        | inr e ↦ rw e refl
      ])

  decide-IsLocked :
      (req : SubmitCertificateRequest) (raw metadata : Bytes) (id : CertificateId)
      (v : FixedBytes32) (d : Bool) (w : World)
      → ((n : ℕ) → env.db_fails n ≡ false)
      → id.value ≡ some v
      → (must_lock env d req.certificate w).0 ≡ ok true
      → ((decide env req raw metadata id d w).0 ≡ ok (record { certificate_id = some id }))
        × IsLocked w (decide env req raw metadata id d w).1 raw id
  unfolding lock_certificate
  decide-IsLocked req raw metadata id v d w up whole locked =
      let checked = (must_lock env d req.certificate w).1 in
      let same = (must_lock-Keeps certificates_frame env d req.certificate).keeps w in
      let stored =
        store_certificate-row raw metadata (contents (get_value32 id.value)) checked (up _) in
      let row : Row = record {
        id = suc checked.last_id;
        raw_proto = raw;
        received_at = env.clock checked.ticks;
        processed_at = none;
        metadata = metadata;
        cert_id = contents v.value;
        override_sent_at = none;
      } in
      rw (locked, ap (λ x. x.0) stored, ap (λ x. x.1) stored, whole)
        (
          refl,
          (same.2, (row, ap (λ c. c ++ row ∷ []) same.0, ap suc same.1, refl, refl, refl, refl)),
        )

  trigger-IsLocked :
      (v w : World) (raw : Bytes) (id : CertificateId)
      → IsLocked v w raw id
      → IsLocked v (trigger w) raw id
  trigger-IsLocked v w raw id h = elim (Bool-cases (ltb w.triggers 256)) [
    | inl e ↦ rw e h
    | inr e ↦ rw e h
  ]

  -- A certificate of a delayed chain, with amounts that are not all zero, that the check finds
  -- suspicious is locked, where no statement fails, the request can be encoded and the identifier
  -- can be calculated: SubmitCertificate answers with that identifier, adds one row for it, which
  -- is neither processed nor overridden, and sends nothing.
  pub submit_certificate_locks :
      (req : SubmitCertificateRequest) (raw : Bytes) (id : CertificateId) (w : World)
      → ((n : ℕ) → env.db_fails n ≡ false)
      → env.marshal req ≡ some raw
      → generate_certificate_id env.ethereum req.certificate ≡ some id
      → In
          (get_network_id req.certificate)
          (chains_of (or_empty (lookup text_delayed_chains w.configuration)))
      → withdrawal_value req.certificate ≢ 0
      → (check_for_suspicious_value env req.certificate (tick w)).0 ≡ ok true
      → ((submit_certificate env req w).0 ≡ ok (record { certificate_id = some id }))
        × IsLocked w (submit_certificate env req w).1 raw id
  unfolding submit_certificate
  submit_certificate_locks req raw id w up e f delayed big suspicious =
      let (v, whole) = generated-value req.certificate id f in
      let locked = ap (λ x. x.0) (must_lock-suspicious req w delayed big) ∙ suspicious in
      let done =
        decide-IsLocked req raw
          (or_empty_text (env.json_marshal (extract_metadata req.certificate))) id v
          (listed_as env req w) (tick w) up whole locked in
      let same = submission-decide env req raw id w e f in
      (
        ap (λ x. x.0) same ∙ done.0,
        trigger-IsLocked w (submission env req w).1 raw id (rw same done.1),
      )
