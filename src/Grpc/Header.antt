-- ===== src/Grpc/Header.antt =====
-- What GetCertificateHeader answers for a certificate that SubmitCertificate has locked.
use agg_certificate_proxy.Prelude.{
  ℕ, ◌≡◌, ◌≢◌, refl, sym, ap, ◌∙◌, inl, inr, true, false, List, [], ◌∷◌, ◌++◌, Option, none, some,
  Bytes, In, lookup, same_bytes, same_bytes_iff, Bool-cases,
}
use agg_certificate_proxy.Grpc.{
  withdrawal_value, submit_certificate, get_certificate_header, waiting_header,
}
use agg_certificate_proxy.Grpc.Locking.{generated-value, submit_certificate_locks}
use agg_certificate_proxy.Hashing.{generate_certificate_id}
use agg_certificate_proxy.Proto.Fields.{FixedBytes32, contents, get_value32}
use agg_certificate_proxy.Proto.Node.{
  CertificateId, CertificateHeader, SubmitCertificateRequest, GetCertificateHeaderRequest,
  GetCertificateHeaderResponse, pending, get_network_id,
}
use agg_certificate_proxy.Service.{chains_of}
use agg_certificate_proxy.Store.{
  get_certificate_by_id, row_by_cert_id, text_delayed_chains, or_empty,
}
use agg_certificate_proxy.Suspicion.{check_for_suspicious_value}
use agg_certificate_proxy.World.{World, Env, Row, ok, tick}

row_by_cert_id-append :
    (id : Bytes) (rows : List Row) (r : Row)
    → row_by_cert_id id rows ≡ none
    → r.cert_id ≡ id
    → row_by_cert_id id (rows ++ r ∷ []) ≡ some r
unfolding row_by_cert_id
row_by_cert_id-append id [] r other e = rw ((same_bytes_iff r.cert_id id).1 e) refl
row_by_cert_id-append id (s ∷ rest) r other e = elim (Bool-cases (same_bytes s.cert_id id)) [
  | inl found ↦ absurd (let clash : some s ≡ none = sym (rw found refl) ∙ other in cc)
  | inr not_it ↦
      let below : row_by_cert_id id rest ≡ none = sym (rw not_it refl) ∙ other in
      rw not_it (row_by_cert_id-append id rest r below e)
]

-- The answers of the backend to the requests for a header.
abbrev pub Answers : Type 0
Answers = ℕ → Bytes → GetCertificateHeaderRequest → Option GetCertificateHeaderResponse

-- The header for the identifier says that the certificate is pending, and is made without the
-- backend: whatever the backend would answer, it is the same, and the state is changed in nothing
-- but the number of statements.
abbrev pub IsPending : Env → Bytes → CertificateId → World → Type 0
IsPending env upstream id w =
    (h : CertificateHeader) × (h.certificate_id ≡ some id)
    × (h.status ≡ pending)
    × (h.error ≡ none)
    × (h.settlement_tx_hash ≡ none)
    × ((answers : Answers)
        → get_certificate_header (record env { get_certificate_header = answers }) upstream
            (record { certificate_id = some id }) w
          ≡ (ok (record { certificate_header = some h }), tick w))

module _ (env : Env) (upstream : Bytes) where
  waiting-IsPending :
      (id : CertificateId) (v : FixedBytes32) (r : Row) (w : World)
      → ((n : ℕ) → env.db_fails n ≡ false)
      → id.value ≡ some v
      → row_by_cert_id (contents v.value) w.certificates ≡ some r
      → r.processed_at ≡ none
      → IsPending env upstream id w
  unfolding get_certificate_header get_certificate_by_id
  waiting-IsPending id v r w up whole found waits = (
    waiting_header (some id),
    refl,
    refl,
    refl,
    refl,
    λ answers. rw (whole, up w.ticks, found, waits) refl,
  )

  -- A suspicious certificate of a delayed chain, with amounts that are not all zero, is pending
  -- after SubmitCertificate, where no statement fails, the request can be encoded, and the
  -- identifier can be calculated and is that of no row before: GetCertificateHeader, asked for the
  -- identifier that SubmitCertificate answers, says `pending` for this identifier, with no error
  -- and no settlement, and does not depend on what the backend would answer.
  pub submit_certificate-IsPending :
      (req : SubmitCertificateRequest) (raw : Bytes) (id : CertificateId) (w : World)
      → ((n : ℕ) → env.db_fails n ≡ false)
      → env.marshal req ≡ some raw
      → generate_certificate_id env.ethereum req.certificate ≡ some id
      → In
          (get_network_id req.certificate)
          (chains_of (or_empty (lookup text_delayed_chains w.configuration)))
      → withdrawal_value req.certificate ≢ 0
      → (check_for_suspicious_value env req.certificate (tick w)).0 ≡ ok true
      → row_by_cert_id (contents (get_value32 id.value)) w.certificates ≡ none
      → ((submit_certificate env req w).0 ≡ ok (record { certificate_id = some id }))
        × IsPending env upstream id (submit_certificate env req w).1
  submit_certificate-IsPending req raw id w up e f delayed big suspicious new =
      let (v, whole) = generated-value env req.certificate id f in
      let (answer, locked) =
        submit_certificate_locks env req raw id w up e f delayed big suspicious in
      let (sent, row) = locked in
      let (r, added, _, _, same_id, waits, _) = row in
      let key : contents (get_value32 id.value) ≡ contents v.value =
        ap (λ o. contents (get_value32 o)) whole in
      let found : row_by_cert_id (contents v.value) (submit_certificate env req w).1.certificates
          ≡ some r =
        ap (row_by_cert_id (contents v.value)) added
        ∙ row_by_cert_id-append (contents v.value) w.certificates r
            (sym (ap (λ k. row_by_cert_id k w.certificates) key) ∙ new) (same_id ∙ key) in
      (answer, waiting-IsPending id v r (submit_certificate env req w).1 up whole found waits)
