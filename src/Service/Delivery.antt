-- ===== src/Service/Delivery.antt =====
-- That certificates are sent, where nothing fails.
pub mod Queue
use agg_certificate_proxy.Prelude.{
  ℕ, suc, ◌≡◌, ◌≢◌, refl, Bool-cases, inl, inr, ◌==◌, sym, ap, ap₂, subst, subst, ◌∙◌, true, false,
  List, [], ◌∷◌, ◌++◌, append-nil, append_assoc, map, none, some, Bytes, codes, All, lookup, arith,
}
use agg_certificate_proxy.Hashing.{generate_certificate_id}
use agg_certificate_proxy.Proto.Fields.{FixedBytes32}
use agg_certificate_proxy.Proto.Node.{CertificateId, SubmitCertificateRequest}
use agg_certificate_proxy.Service.{
  submit, send_to_agg_sender, process_certificate, unless_cancelled, process_certificates,
  address_or_default,
}
use agg_certificate_proxy.Store.{
  Certificate, get_config_value, mark_certificate_processed, or_empty, set_processed,
}
use agg_certificate_proxy.World.{World, Env, Row, Submission, Outcome, ok, fine, M}

-- No statement fails, the context is not cancelled, and the backend answers with an identifier.
pub record IsHealthy (env : Env) : Type 0 where
  pub up : (n : ℕ) → env.db_fails n ≡ false
  pub running : (n : ℕ) → env.cancelled n ≡ false
  pub reachable : (a : Bytes) → env.can_connect a ≡ true
  pub answers :
      (n : ℕ) (a : Bytes) (q : SubmitCertificateRequest)
      → (id : CertificateId) × (v : FixedBytes32) × (env.submit_certificate n a q
          ≡ some (record { certificate_id = some id }))
        × (id.value ≡ some v)

-- The bytes of the certificate are those of a request whose identifier can be calculated.
abbrev pub IsSendable : Env → Certificate → Type 0
IsSendable env c =
    (q : SubmitCertificateRequest) × (id : CertificateId) × (env.unmarshal c.raw_proto ≡ some q)
    × (generate_certificate_id env.ethereum q.certificate ≡ some id)

-- Every row with the id is processed.
abbrev pub AllMarked : ℕ → List Row → Type 0
AllMarked i = All (λ r. r.id ≡ i → r.processed_at ≢ none)

module _ (env : Env) (healthy : IsHealthy env) where
  configured_address : World → Bytes
  configured_address w =
      address_or_default (fine (or_empty (lookup (codes "aggsender_address") w.configuration)))

  -- One certificate is sent, and marked.
  abbrev SentOne : Certificate → World → World → Type 0
  SentOne c v w =
      (s : Submission) × (t : ℕ) × (w.sent ≡ v.sent ++ s ∷ [])
      × (env.unmarshal c.raw_proto ≡ some s.request)
      × (w.certificates ≡ map (set_processed t c.id) v.certificates)

  -- The state behind the certificate.
  sent_and_marked : Certificate → SubmitCertificateRequest → World → World
  sent_and_marked c q w = record w {
    certificates = map (set_processed (env.clock (suc (suc (suc w.ticks)))) c.id) w.certificates;
    sent = w.sent ++ record { address = configured_address w; request = q } ∷ [];
    ticks = suc (suc (suc (suc (suc w.ticks))));
  }

  body-SentOne :
      (c : Certificate) (rest : M (Unit {0})) (w : World)
      → IsSendable env c
      → (v : World) × SentOne c w v
        × (unless_cancelled env (process_certificate env c rest) w ≡ rest v)
  unfolding send_to_agg_sender get_config_value submit mark_certificate_processed configured_address
      sent_and_marked
  body-SentOne c rest w (q, id, e, f) =
      let a = configured_address w in
      let (got, v, answered, whole) = healthy.answers (suc (suc w.ticks)) a q in
      (
        sent_and_marked c q w,
        (record { address = a; request = q }, env.clock (suc (suc (suc w.ticks))), refl, e, refl),
        rw
            (
              healthy.running w.ticks,
              healthy.up (suc w.ticks),
              healthy.reachable a,
              e,
              answered,
              whole,
              f,
              healthy.up (suc (suc (suc (suc w.ticks)))),
            )
            refl,
      )

  marked-Marked :
      (t i j : ℕ) (rows : List Row) → AllMarked i rows → AllMarked i (map (set_processed t j) rows)
  marked-Marked t i j [] h = tt
  marked-Marked t i j (r ∷ rows) h = elim (Bool-cases (r.id == j)) [
    | inl e ↦ (rw e (λ same none_yet. absurd (cc)), marked-Marked t i j rows h.1)
    | inr e ↦ (rw e h.0, marked-Marked t i j rows h.1)
  ]

  now-Marked : (t i : ℕ) (rows : List Row) → AllMarked i (map (set_processed t i) rows)
  now-Marked t i [] = tt
  now-Marked t i (r ∷ rows) = elim (Bool-cases (r.id == i)) [
    | inl e ↦ (rw e (λ same none_yet. absurd (cc)), now-Marked t i rows)
    | inr e ↦ (rw e (λ same none_yet. absurd (ground (arith, same))), now-Marked t i rows)
  ]

  -- What the loop does with the certificates.
  abbrev pub Delivered : List Certificate → World → Outcome (Unit {0}) × World → Type 0
  Delivered cs w r =
      (r.0 ≡ ok tt)
      × ((new : List Submission) × (r.1.sent ≡ w.sent ++ new)
          × (map (λ s. some s.request) new ≡ map (λ c. env.unmarshal c.raw_proto) cs))
      × All (λ c. AllMarked c.id r.1.certificates) cs

  -- Marks stay.
  abbrev Stays : World → World → Type 0
  Stays v w = (i : ℕ) → AllMarked i v.certificates → AllMarked i w.certificates

  deliver :
      (cs : List Certificate) (w : World)
      → All (IsSendable env) cs
      → Delivered cs w (process_certificates env cs w) × Stays w (process_certificates env cs w).1
  unfolding process_certificates
  deliver [] w h = ((refl, ([], sym (append-nil w.sent), refl), tt), λ i m. m)
  deliver (c ∷ cs) w h =
      let (v, (s, t, sent, read, marked), same) =
        body-SentOne c (process_certificates env cs) w h.0 in
      let ((ends, (new, more, decoded), all), stays) = deliver cs v h.1 in
      subst (λ r. Delivered (c ∷ cs) w r × Stays w r.1) (sym same)
        (
          (
            ends,
            (
              s ∷ new,
              more ∙ ap (λ l. l ++ new) sent ∙ append_assoc w.sent (s ∷ []) new,
              ap₂ (λ x l. x ∷ l) (sym read) decoded,
            ),
            (stays c.id (rw marked (now-Marked t c.id w.certificates)), all),
          ),
          λ i m. stays i (rw marked (marked-Marked t i c.id w.certificates m)),
        )

  -- Where nothing fails and the backend answers every call with an identifier, the loop of
  -- ProcessPendingCertificates ends without an error, sends the request of every certificate that
  -- it is given, once and in their order, and leaves every row of theirs processed. The requests
  -- must decode, and their identifiers must be calculable.
  pub process_certificates_delivers :
      (cs : List Certificate) (w : World)
      → All (IsSendable env) cs
      → Delivered cs w (process_certificates env cs w)
  process_certificates_delivers cs w h = (deliver cs w h).0
