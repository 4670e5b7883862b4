-- ===== src/Service/Delivery/Queue.antt =====
-- The certificates that wait, as a queue: a pass that meets no failure takes out of it exactly those
-- that are due, and sends these in the order of the queue.
use agg_certificate_proxy.Prelude.{
  ℕ, suc, ◌<◌, ◌≡◌, refl, sym, ap, ap₂, ◌∙◌, Bool, true, false, not, ◌||◌, Bool-cases, inl, inr,
  List, [], ◌∷◌, ◌++◌, map, Option, some, Bytes, All, In, In-of_keep_if, In-keep_if, keep_if,
  lookup, ◌==◌, ==_iff, if◌then◌else◌, arith,
}
use agg_certificate_proxy.Proto.Node.{SubmitCertificateRequest}
use agg_certificate_proxy.Service.{process_certificates, process_pending_certificates}
use agg_certificate_proxy.Service.Delivery.{
  IsHealthy, IsSendable, body-SentOne, process_certificates_delivers,
}
use agg_certificate_proxy.Store.{
  Certificate, certificate_of, is_null, is_processable, set_processed, get_processable_certificates,
  text_delay_seconds,
}
use agg_certificate_proxy.Store.Duration.{cutoff, is_before}
use agg_certificate_proxy.Store.Table.{IsTable}
use agg_certificate_proxy.Text.Decimal.{ℤ, parse_int}
use agg_certificate_proxy.World.{World, Env, Row, Submission}

-- The rows that wait, in the order of the table.
abbrev pub queue : World → List Row
queue w = keep_if (λ r. is_null r.processed_at) w.certificates

abbrev has_id : ℕ → List Certificate → Bool
has_id i [] = false
has_id i (c ∷ cs) = if i == c.id then true else has_id i cs

-- A mark takes the rows with the id out of the queue.
mark_removes :
    (t id : ℕ) (rows : List Row)
    → keep_if (λ r. is_null r.processed_at) (map (set_processed t id) rows)
      ≡ keep_if (λ r. not (r.id == id)) (keep_if (λ r. is_null r.processed_at) rows)
mark_removes t id [] = refl
mark_removes t id (r ∷ rows) = elim (Bool-cases (r.id == id)) [
  | inl e ↦ elim (Bool-cases (is_null r.processed_at)) [
    | inl n ↦ rw (e, n) (rw e (mark_removes t id rows))
    | inr n ↦ rw (e, n) (mark_removes t id rows)
  ]
  | inr e ↦ elim (Bool-cases (is_null r.processed_at)) [
    | inl n ↦ rw (e, n) (rw e (ap (λ l. r ∷ l) (mark_removes t id rows)))
    | inr n ↦ rw (e, n) (mark_removes t id rows)
  ]
]

filter_twice :
    (id : ℕ) (cs : List Certificate) (c : Certificate) (rows : List Row)
    → c.id ≡ id
    → keep_if (λ r. not (has_id r.id cs)) (keep_if (λ r. not (r.id == id)) rows)
      ≡ keep_if (λ r. not (has_id r.id (c ∷ cs))) rows
filter_twice id cs c [] same = refl
filter_twice id cs c (r ∷ rows) same = ground (arith, filter_twice id cs c rows same)

keep_all : (rows : List Row) → keep_if (λ r. not (has_id r.id [])) rows ≡ rows
keep_all [] = refl
keep_all (r ∷ rows) = ap (λ l. r ∷ l) (keep_all rows)

module _ (env : Env) (healthy : IsHealthy env) where
  process_certificates-queue :
      (cs : List Certificate) (w : World)
      → All (IsSendable env) cs
      → queue (process_certificates env cs w).1 ≡ keep_if (λ r. not (has_id r.id cs)) (queue w)
  unfolding process_certificates
  process_certificates-queue [] w h = sym (keep_all (queue w))
  process_certificates-queue (c ∷ cs) w h =
      let (v, (s, t, sent, read, marked), same) =
        body-SentOne env healthy c (process_certificates env cs) w h.0 in
      ap (λ r. queue r.1) same
      ∙ process_certificates-queue cs v h.1
      ∙ ap
          (λ rows. keep_if (λ r. not (has_id r.id cs)) (keep_if (λ r. is_null r.processed_at) rows))
          marked
      ∙ ap (keep_if (λ r. not (has_id r.id cs))) (mark_removes t c.id w.certificates)
      ∙ filter_twice c.id cs c (queue w) refl

-- In a table whose ids grow, a row is determined by its id.
above_low :
    (low last : ℕ) (rows : List Row) (r : Row) → IsTable low rows last → In r rows → low < r.id
above_low low last [] r t i = absurd i
above_low low last (x ∷ xs) r t (inl e) = rw (sym e) t.0
above_low low last (x ∷ xs) r t (inr i) = omega (arith, t.0, above_low x.id last xs r t.1 i)

same_row :
    (low last : ℕ) (rows : List Row) (r s : Row)
    → IsTable low rows last
    → In r rows
    → In s rows
    → r.id ≡ s.id
    → r ≡ s
same_row low last [] r s t i j e = absurd i
same_row low last (x ∷ xs) r s t (inl h) (inl k) e = sym h ∙ k
same_row low last (x ∷ xs) r s t (inl h) (inr k) e = absurd (
    let above = above_low x.id last xs s t.1 k in
    let same = ap (λ y. y.id) h in omega (arith, above, same, e))
same_row low last (x ∷ xs) r s t (inr h) (inl k) e = absurd (
    let above = above_low x.id last xs r t.1 h in
    let same = ap (λ y. y.id) k in omega (arith, above, same, e))
same_row low last (x ∷ xs) r s t (inr h) (inr k) e = same_row x.id last xs r s t.1 h k e

has_id-of_In :
    (r : Row) (rows : List Row) → In r rows → has_id r.id (map certificate_of rows) ≡ true
has_id-of_In r [] i = absurd i
has_id-of_In r (x ∷ xs) (inl h) = rw ((==_iff r.id x.id).1 (ap (λ y. y.id) (sym h))) refl
has_id-of_In r (x ∷ xs) (inr h) = let e = has_id-of_In r xs h in ground (arith, e)

In-of_has_id :
    (i : ℕ) (rows : List Row)
    → has_id i (map certificate_of rows) ≡ true
    → (s : Row) × In s rows × (i ≡ s.id)
In-of_has_id i [] = λ h. absurd (cc)
In-of_has_id i (x ∷ xs) = elim (Bool-cases (i == x.id)) [
  | inl e ↦ λ h. (x, inl refl, (==_iff i x.id).0 e)
  | inr e ↦ rw e (λ h. let (s, j, same) = In-of_has_id i xs h in (s, inr j, same))
]

module _ (due : Row → Bool) where
  has_id-due :
      (low last : ℕ) (rows : List Row) (r : Row)
      → IsTable low rows last
      → In r rows
      → has_id r.id (map certificate_of (keep_if due rows)) ≡ due r
  has_id-due low last rows r t i = elim (Bool-cases (due r)) [
    | inl d ↦ has_id-of_In r (keep_if due rows) (In-keep_if due r rows i d) ∙ sym d
    | inr d ↦ elim (Bool-cases (has_id r.id (map certificate_of (keep_if due rows)))) [
      | inr h ↦ h ∙ sym d
      | inl h ↦
          let (s, j, same) = In-of_has_id r.id (keep_if due rows) h in
          let (k, is_due) = In-of_keep_if due s rows j in
          absurd (let e = ap due (same_row low last rows r s t i k same) in cc)
    ]
  ]

keep_if-same :
    (p q : Row → Bool) (rows : List Row)
    → ((r : Row) → In r rows → p r ≡ q r)
    → keep_if p rows ≡ keep_if q rows
keep_if-same p q [] h = refl
keep_if-same p q (r ∷ rows) h =
    let rest = keep_if-same p q rows (λ s i. h s (inr i)) in
    ap₂ (λ b l. if b then r ∷ l else l) (h r (inl refl)) rest

-- What is due waits.
due-of_queue :
    (now : ℕ) (offset : ℤ) (rows : List Row)
    → keep_if (is_processable now offset) (keep_if (λ r. is_null r.processed_at) rows)
      ≡ keep_if (is_processable now offset) rows
due-of_queue now offset [] = refl
due-of_queue now offset (r ∷ rows) = elim (Bool-cases (is_null r.processed_at)) [
  | inl n ↦ rw n (
      rw n (
        ap
          (λ l.
            if is_before r.received_at now offset
              || (if is_null r.override_sent_at then false else true)
            then r ∷ l
            else l)
          (due-of_queue now offset rows)))
  | inr n ↦ rw n (due-of_queue now offset rows)
]

raw_of_certificates :
    (f : Bytes → Option SubmitCertificateRequest) (rows : List Row)
    → map (λ c. f c.raw_proto) (map certificate_of rows) ≡ map (λ r. f r.raw_proto) rows
raw_of_certificates f [] = refl
raw_of_certificates f (r ∷ rows) = ap (λ l. f r.raw_proto ∷ l) (raw_of_certificates f rows)

module _ (env : Env) (healthy : IsHealthy env) where
  -- Where nothing fails and the backend answers every call, the ids of the table grow, and the delay
  -- can be read, a pass over the certificates refines one step of a queue: the certificates of the
  -- queue that are due at the time of the pass are sent, each once and in their order, and the queue
  -- afterwards is that of the others, in their order. The requests of those that are due must
  -- decode, and their identifiers must be calculable.
  pub process_pending-queue :
      (w : World) (text : Bytes) (seconds : ℤ)
      → IsTable 0 w.certificates w.last_id
      → lookup text_delay_seconds w.configuration ≡ some text
      → parse_int text ≡ some seconds
      → All (IsSendable env) (
          map certificate_of
            (keep_if (is_processable (env.clock (suc w.ticks)) (cutoff seconds)) w.certificates))
      → let due = is_processable (env.clock (suc w.ticks)) (cutoff seconds) in
        let after = (process_pending_certificates env w).1 in
        (queue after ≡ keep_if (λ r. not (due r)) (queue w))
        × ((new : List Submission) × (after.sent ≡ w.sent ++ new)
            × (map (λ s. some s.request) new
                ≡ map (λ r. env.unmarshal r.raw_proto) (keep_if due (queue w))))
  unfolding process_pending_certificates get_processable_certificates
  process_pending-queue w text seconds table found read sendable =
      let due = is_processable (env.clock (suc w.ticks)) (cutoff seconds) in
      let certs = map certificate_of (keep_if due w.certificates) in
      let v : World = record w { ticks = suc (suc (suc w.ticks)) } in
      let (ends, (new, more, decoded), all) =
        process_certificates_delivers env healthy certs v sendable in
      let kept = process_certificates-queue env healthy certs v sendable in
      let others =
        keep_if-same (λ r. not (has_id r.id certs)) (λ r. not (due r)) (queue w)
          (λ r i. ap not (
            has_id-due due 0 w.last_id w.certificates r table
              (In-of_keep_if (λ s. is_null s.processed_at) r w.certificates i).0)) in
      rw (healthy.up w.ticks, found, read, healthy.up (suc (suc w.ticks)))
        (
          kept ∙ others,
          (
            new,
            more,
            decoded
                ∙ raw_of_certificates env.unmarshal (keep_if due w.certificates)
                ∙ ap (map (λ r. env.unmarshal r.raw_proto))
                    (sym (due-of_queue (env.clock (suc w.ticks)) (cutoff seconds) w.certificates)),
          ),
        )
