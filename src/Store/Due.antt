-- ===== src/Store/Due.antt =====
-- Which certificates GetProcessableCertificates returns.
use agg_certificate_proxy.Prelude.{
  ℕ, suc, ◌+◌, ◌*◌, ◌≤◌, ◌≡◌, refl, sym, ◌↔◌, ◌⊎◌, inl, inr, Bool, true, false, ◌&&◌, ◌||◌, List,
  map, Option, none, some, In, In-of_map, In-map, In-of_keep_if, In-keep_if, keep_if, subst, Bytes,
  lookup, leb, leb→le, le→leb, Bool-cases, Option-cases, if◌then◌else◌,
}
use agg_certificate_proxy.Text.Decimal.{ℤ, pos, parse_int}
use agg_certificate_proxy.World.{Row, World, Env, ok}
use agg_certificate_proxy.Store.{
  Certificate, certificate_of, is_processable, is_null, get_processable_certificates,
  text_delay_seconds,
}
use agg_certificate_proxy.Store.Duration.{cutoff, is_before, is_before-cutoff, second}

-- The condition in words: not processed, and either the delay has gone by or the certificate was
-- overridden.
abbrev pub IsDue : ℕ → ℕ → Row → Type 0
IsDue seconds now r =
    (r.processed_at ≡ none)
    × ((r.received_at + seconds * second ≤ now) ⊎ ((t : ℕ) × (r.override_sent_at ≡ some t)))

test_iff :
    (p o : Option ℕ) (b : Bool)
    → ((is_null p && (b || (if is_null o then false else true))) ≡ true)
      ↔ ((p ≡ none) × ((b ≡ true) ⊎ ((t : ℕ) × (o ≡ some t))))
test_iff none none true = (λ _. (refl, inl refl), λ _. refl)
test_iff none none false =
    (λ h. absurd (cc), λ h. elim h.1 [ inl e ↦ absurd (cc) | inr (t, e) ↦ absurd (cc) ])
test_iff none (some t) true = (λ _. (refl, inl refl), λ _. refl)
test_iff none (some t) false = (λ _. (refl, inr (t, refl)), λ _. refl)
test_iff (some t) o b = (λ h. absurd (cc), λ h. absurd (cc))

pub is_processable_iff :
    (seconds now : ℕ) (r : Row)
    → seconds ≤ 9223372036
    → (is_processable now (cutoff (pos seconds)) r ≡ true) ↔ IsDue seconds now r
is_processable_iff seconds now r small =
    let test =
      test_iff r.processed_at r.override_sent_at (leb (r.received_at + seconds * second) now) in
    let late = is_before-cutoff r.received_at now seconds small in
    (
      λ h.
          let (new, why) = test.0 (rw (sym late) h) in
          (new, elim why [ inl e ↦ inl (leb→le _ _ e) | inr t ↦ inr t ]),
      λ (new, why). rw late (test.1 (new, elim why [ inl e ↦ inl (le→leb _ _ e) | inr t ↦ inr t ])),
    )

-- With a delay that can be read and is at most 9223372036 seconds, and no failing statement, the
-- certificates that are returned are those of the rows that are due, and no row that is due is
-- left out.
pub get_processable_exact :
    (env : Env) (w : World) (v : Bytes) (seconds : ℕ)
    → lookup text_delay_seconds w.configuration ≡ some v
    → parse_int v ≡ some (pos seconds)
    → seconds ≤ 9223372036
    → env.db_fails w.ticks ≡ false
    → env.db_fails (suc (suc w.ticks)) ≡ false
    → (certs : List Certificate) × ((get_processable_certificates env w).0 ≡ ok certs)
      × ((c : Certificate)
          → In c certs ↔ (
              (r : Row) × In r w.certificates
              × IsDue seconds (env.clock (suc w.ticks)) r
              × (certificate_of r ≡ c)))
unfolding get_processable_certificates
get_processable_exact env w v seconds found parsed small up₁ up₂ =
    let now = env.clock (suc w.ticks) in
    let test : Row → Bool = is_processable now (cutoff (pos seconds)) in
    (
      map certificate_of (keep_if test w.certificates),
      rw (up₁, found, parsed, up₂) refl,
      λ c. (
        λ i.
            let (r, j, e) = In-of_map certificate_of c (keep_if test w.certificates) i in
            let (k, due) = In-of_keep_if test r w.certificates j in
            (r, k, (is_processable_iff seconds now r small).0 due, e),
        λ (r, k, due, e).
            let j =
              In-keep_if test r w.certificates k ((is_processable_iff seconds now r small).1 due) in
            subst (λ x. In x (map certificate_of (keep_if test w.certificates))) e
              (In-map certificate_of r (keep_if test w.certificates) j),
      ),
    )

-- What the method returns when it returns no error.
abbrev Selected : World → List Certificate → Type 0
Selected w certs =
    (now : ℕ) × (offset : ℤ) × (certs
      ≡ map certificate_of (keep_if (is_processable now offset) w.certificates))

get_processable-Selected :
    (env : Env) (w : World) (certs : List Certificate)
    → (get_processable_certificates env w).0 ≡ ok certs
    → Selected w certs
unfolding get_processable_certificates
get_processable-Selected env w = elim (Bool-cases (env.db_fails w.ticks)) [
  | inl e ↦ rw e (λ certs h. absurd (cc))
  | inr e ↦ elim (Option-cases (lookup text_delay_seconds w.configuration)) [
    | inl f ↦ rw (e, f) (λ certs h. absurd (cc))
    | inr (v, f) ↦ elim (Option-cases (parse_int v)) [
      | inl g ↦ rw (e, f, g) (λ certs h. absurd (cc))
      | inr (d, g) ↦ elim (Bool-cases (env.db_fails (suc (suc w.ticks)))) [
        | inl i ↦ rw (e, f, g, i) (λ certs h. absurd (cc))
        | inr i ↦ rw (e, f, g, i) (λ certs h. (env.clock (suc w.ticks), cutoff d, cc))
      ]
    ]
  ]
]

is_processable-unprocessed :
    (now : ℕ) (offset : ℤ) (r : Row) → is_processable now offset r ≡ true → r.processed_at ≡ none
is_processable-unprocessed now offset r h =
    ((test_iff r.processed_at r.override_sent_at (is_before r.received_at now offset)).0 h).0

-- Whatever the configuration and the failures, a certificate that is returned is that of a row
-- that is not processed.
pub get_processable_unprocessed :
    (env : Env) (w : World) (certs : List Certificate) (c : Certificate)
    → (get_processable_certificates env w).0 ≡ ok certs
    → In c certs
    → (r : Row) × In r w.certificates × (r.processed_at ≡ none) × (certificate_of r ≡ c)
get_processable_unprocessed env w certs c returned i =
    let (now, offset, form) = get_processable-Selected env w certs returned in
    let kept = keep_if (is_processable now offset) w.certificates in
    let (r, j, e) = In-of_map certificate_of c kept (subst (λ x. In c x) form i) in
    let (k, t) = In-of_keep_if (is_processable now offset) r w.certificates j in
    (r, k, is_processable-unprocessed now offset r t, e)
