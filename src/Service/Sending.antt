-- ===== src/Service/Sending.antt =====
-- What a round of the scheduler sends, and what it leaves alone.
use agg_certificate_proxy.Prelude.{
  ℕ, ◌≡◌, refl, sym, ap, ◌∙◌, inl, inr, List, [], ◌∷◌, ◌++◌, append-nil, append_assoc, map, none,
  some, Bytes, All, All-append, In,
}
use agg_certificate_proxy.Service.{
  submit, submitted, print_ids, send_to_agg_sender, mark, process_certificate, unless_cancelled,
  process_certificates, process_found, process_pending_certificates, address_or_default,
}
use agg_certificate_proxy.Store.{
  Certificate, set_processed, get_processable_certificates, mark_certificate_processed,
}
use agg_certificate_proxy.Store.Due.{get_processable_unprocessed}
use agg_certificate_proxy.Store.Rows.{switch_frame, get_config_value-Keeps, get_processable-Keeps}
use agg_certificate_proxy.World.Laws.{
  Frame, Keeps, bind-Keeps, attempt-Keeps, exec-Keeps, keeps_rules, then-Keeps, when-Keeps,
  fail-Keeps, or_fail-bind-Keeps, time_now-Keeps, Outcome-cases,
}
use agg_certificate_proxy.World.{Row, World, Env, Submission, M, Result, fine, failed, ok}
use agg_certificate_proxy.Proto.Node.{SubmitCertificateRequest, SubmitCertificateResponse}

module _ (F : Frame) (env : Env)
    (submits : (a : Bytes) (r : SubmitCertificateRequest) → Keeps F (submit env a r)) where
  pub send-Keeps : (c : Certificate) → Keeps F (send_to_agg_sender env c)
  unfolding send_to_agg_sender
  send-Keeps c = search (keeps_rules, submits, get_config_value-Keeps) depth 14

  module _ (marks : (id : ℕ) → Keeps F (mark_certificate_processed env id)) where
    mark-Keeps : (id : ℕ) (r : Result SubmitCertificateResponse) → Keeps F (mark env id r)
    mark-Keeps id (failed e) = search keeps_rules depth 14
    mark-Keeps id (fine r) = search (keeps_rules, marks) depth 14

    body-Keeps :
        (c : Certificate) {rest : M (Unit {0})}
        → Keeps F rest
        → Keeps F (unless_cancelled env (process_certificate env c rest))
    body-Keeps c h = search (keeps_rules, send-Keeps, mark-Keeps) depth 14

    process-Keeps : (cs : List Certificate) → Keeps F (process_certificates env cs)
    unfolding process_certificates
    process-Keeps [] = search keeps_rules depth 14
    process-Keeps (c ∷ cs) = body-Keeps c (process-Keeps cs)

    process_found-Keeps : (r : Result (List Certificate)) → Keeps F (process_found env r)
    process_found-Keeps (failed e) = search keeps_rules depth 14
    process_found-Keeps (fine cs) = process-Keeps cs

    -- Processing keeps what a remote call and a mark keep.
    pub process_pending-Keeps : Keeps F (process_pending_certificates env)
    unfolding process_pending_certificates
    process_pending-Keeps =
        search (keeps_rules, get_processable-Keeps, process_found-Keeps) depth 14

pub submit-SameSwitch :
    (env : Env) (a : Bytes) (r : SubmitCertificateRequest) → Keeps switch_frame (submit env a r)
unfolding submit
submit-SameSwitch env a r = record { keeps = λ w. (refl, refl, refl) }

-- What is sent is added at the end, and all of it has a property.
abbrev SendsOnly : (Submission → Type 0) → World → World → Type 0
SendsOnly P v w = (new : List Submission) × (w.sent ≡ v.sent ++ new) × All P new

SendsOnly-trans :
    (P : Submission → Type 0) (u v w : World) → SendsOnly P u v → SendsOnly P v w → SendsOnly P u w
SendsOnly-trans P u v w (a, e, h) (b, f, k) =
    (a ++ b, f ∙ ap (λ l. l ++ b) e ∙ append_assoc u.sent a b, All-append P a b h k)

abbrev sending_frame : (Submission → Type 0) → Frame
sending_frame P = record {
  Before = SendsOnly P;
  same = λ w. ([], sym (append-nil w.sent), tt);
  then_too = SendsOnly-trans P;
  ticked = λ w. ([], sym (append-nil w.sent), tt);
}

module _ (env : Env) (P : Submission → Type 0) where
  -- The certificate decodes to requests with the property.
  abbrev Decodes : Certificate → Type 0
  Decodes c =
      (a : Bytes) (r : SubmitCertificateRequest)
      → env.unmarshal c.raw_proto ≡ some r
      → P (record { address = a; request = r })

  submit-Sends :
      (a : Bytes) (r : SubmitCertificateRequest)
      → P (record { address = a; request = r })
      → Keeps (sending_frame P) (submit env a r)
  unfolding submit
  submit-Sends a r h = record {
    keeps = λ w. (record { address = a; request = r } ∷ [], refl, (h, tt));
  }

  print_ids-Sends :
      (q : SubmitCertificateRequest) (r : SubmitCertificateResponse)
      → Keeps (sending_frame P) (print_ids env q r)
  print_ids-Sends q r = search keeps_rules depth 14

  submitted-Sends :
      (a : Bytes) (r : SubmitCertificateRequest)
      → P (record { address = a; request = r })
      → Keeps (sending_frame P) (submitted env a r)
  submitted-Sends a r h = search (keeps_rules, submit-Sends, print_ids-Sends) depth 14

  send-Sends : (c : Certificate) → Decodes c → Keeps (sending_frame P) (send_to_agg_sender env c)
  unfolding send_to_agg_sender
  send-Sends c h =
      bind-Keeps (sending_frame P)
        (attempt-Keeps (sending_frame P) (get_config_value-Keeps (sending_frame P) env _))
        (λ configured.
          then-Keeps (sending_frame P)
            (when-Keeps (sending_frame P) _ (fail-Keeps (sending_frame P)))
            (or_fail-bind-Keeps (sending_frame P) (env.unmarshal c.raw_proto) _
              (λ r e. submitted-Sends (address_or_default configured) r (h _ r e))))

  mark_processed-Sends : (id : ℕ) → Keeps (sending_frame P) (mark_certificate_processed env id)
  unfolding mark_certificate_processed
  mark_processed-Sends id =
      bind-Keeps (sending_frame P) (time_now-Keeps (sending_frame P) env) (λ now.
        exec-Keeps (sending_frame P) env
          (λ w. record w { certificates = map (set_processed now id) w.certificates })
          (λ w. ([], sym (append-nil w.sent), tt)))

  mark-Sends :
      (id : ℕ) (r : Result SubmitCertificateResponse) → Keeps (sending_frame P) (mark env id r)
  mark-Sends id (failed e) = search keeps_rules depth 14
  mark-Sends id (fine r) = search (keeps_rules, mark_processed-Sends) depth 14

  body-Sends :
      (c : Certificate) {rest : M (Unit {0})}
      → Decodes c
      → Keeps (sending_frame P) rest
      → Keeps (sending_frame P) (unless_cancelled env (process_certificate env c rest))
  body-Sends c d h = search (keeps_rules, send-Sends, mark-Sends) depth 14

  process-Sends :
      (cs : List Certificate)
      → ((c : Certificate) → In c cs → Decodes c)
      → Keeps (sending_frame P) (process_certificates env cs)
  unfolding process_certificates
  process-Sends [] d = search keeps_rules depth 14
  process-Sends (c ∷ cs) d = body-Sends c (d c (inl refl)) (process-Sends cs (λ x i. d x (inr i)))

-- A request that was stored, undecoded, in a row of the table that is not processed.
abbrev pub IsWaiting : Env → World → Submission → Type 0
IsWaiting env w s =
    (r : Row) × In r w.certificates
    × (r.processed_at ≡ none)
    × (env.unmarshal r.raw_proto ≡ some s.request)

module _ (env : Env) where
  found-Decodes :
      (w : World) (certs : List Certificate)
      → (get_processable_certificates env w).0 ≡ ok certs
      → (c : Certificate) → In c certs
      → Decodes env (IsWaiting env w) c
  found-Decodes w certs returned c i a q e =
      let (r, j, new, same) = get_processable_unprocessed env w certs c returned i in
      (r, j, new, ap (λ x. env.unmarshal x.raw_proto) same ∙ e)

  -- Whatever fails on the way, a call of ProcessPendingCertificates sends only requests of rows
  -- that were in the table, and not processed, when it began; what was sent before stays.
  pub process_pending_sends :
      (w : World)
      → (new : List Submission) × ((process_pending_certificates env w).1.sent ≡ w.sent ++ new)
        × All (IsWaiting env w) new
  unfolding process_pending_certificates
  process_pending_sends w =
      let found = get_processable_certificates env w in
      let before = (get_processable-Keeps (sending_frame (IsWaiting env w)) env).keeps w in
      elim (Outcome-cases found.0) [
        | inl (certs, e) ↦ rw e (
            SendsOnly-trans (IsWaiting env w) w found.1 (process_certificates env certs found.1).1
              before
              ((process-Sends env (IsWaiting env w) certs (found-Decodes w certs e)).keeps found.1))
        | inr (inl (x, e)) ↦ rw e before
        | inr (inr e) ↦ rw e before
      ]
