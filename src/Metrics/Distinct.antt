-- ===== src/Metrics/Distinct.antt =====
-- When the gauges can be made.
use agg_certificate_proxy.Prelude.{
  ℕ, ◌≡◌, refl, sym, ap, ◌∙◌, subst, false, List, [], ◌∷◌, ◌++◌, append-nil, append_assoc, none,
  some, Option-cases, ◌↔◌, inl, inr, Bool-cases, arith,
}
use agg_certificate_proxy.Metrics.{register, new_prometheus_reporter}
use agg_certificate_proxy.Service.{is_listed}

-- No network is there twice.
abbrev pub IsDistinct : List ℕ → Type 0
IsDistinct [] = Unit
IsDistinct (n ∷ rest) = (is_listed n rest ≡ false) × IsDistinct rest

not_listed-append :
    (n : ℕ) (xs ys : List ℕ)
    → (is_listed n (xs ++ ys) ≡ false) ↔ ((is_listed n xs ≡ false) × (is_listed n ys ≡ false))
unfolding is_listed
not_listed-append n [] ys = ground arith
not_listed-append n (x ∷ xs) ys = ground (arith, not_listed-append n xs ys)

not_listed-sym :
    (n x : ℕ) (rest : List ℕ) → is_listed x (n ∷ rest) ≡ false → is_listed n (x ∷ []) ≡ false
unfolding is_listed
not_listed-sym n x rest h = ground arith

not_listed-cons :
    (n x : ℕ) (xs : List ℕ)
    → is_listed n (x ∷ []) ≡ false
    → is_listed n xs ≡ false
    → is_listed n (x ∷ xs) ≡ false
unfolding is_listed
not_listed-cons n x xs h h' = ground arith

not_listed-single :
    (n x : ℕ) (xs : List ℕ) → is_listed n (x ∷ xs) ≡ false → is_listed x (n ∷ []) ≡ false
unfolding is_listed
not_listed-single n x xs h = ground arith

not_listed-tail : (n x : ℕ) (xs : List ℕ) → is_listed n (x ∷ xs) ≡ false → is_listed n xs ≡ false
unfolding is_listed
not_listed-tail n x xs h = ground arith

not_listed-nil : (n : ℕ) → is_listed n [] ≡ false
unfolding is_listed
not_listed-nil n = refl

-- In a distinct list an entry is not among those before it.
IsDistinct-before :
    (seen : List ℕ) (n : ℕ) (rest : List ℕ)
    → IsDistinct (seen ++ n ∷ rest)
    → is_listed n seen ≡ false
IsDistinct-before [] n rest h = not_listed-nil n
IsDistinct-before (x ∷ seen) n rest h =
    not_listed-cons n x seen
      (not_listed-sym n x rest ((not_listed-append x seen (n ∷ rest)).0 h.0).1)
      (IsDistinct-before seen n rest h.1)

IsDistinct-snoc :
    (seen : List ℕ) (n : ℕ)
    → IsDistinct seen
    → is_listed n seen ≡ false
    → IsDistinct (seen ++ n ∷ [])
IsDistinct-snoc [] n h out = (not_listed-nil n, tt)
IsDistinct-snoc (x ∷ seen) n h out = (
  (not_listed-append x seen (n ∷ [])).1 (h.0, not_listed-single n x seen out),
  IsDistinct-snoc seen n h.1 (not_listed-tail n x seen out),
)

register-IsDistinct :
    (seen ns : List ℕ) → IsDistinct (seen ++ ns) → register seen ns ≡ some (seen ++ ns)
unfolding register
register-IsDistinct seen [] h = ap some (sym (append-nil seen))
register-IsDistinct seen (n ∷ rest) h =
    let assoc : (seen ++ n ∷ []) ++ rest ≡ seen ++ n ∷ rest = append_assoc seen (n ∷ []) rest in
    rw (IsDistinct-before seen n rest h)
      (register-IsDistinct (seen ++ n ∷ []) rest (subst IsDistinct (sym assoc) h) ∙ ap some assoc)

IsDistinct-register :
    (seen ns r : List ℕ) → IsDistinct seen → register seen ns ≡ some r → IsDistinct (seen ++ ns)
unfolding register
IsDistinct-register seen [] r h = λ e. subst IsDistinct (sym (append-nil seen)) h
IsDistinct-register seen (n ∷ rest) r h = elim (Bool-cases (is_listed n seen)) [
  | inl in_it ↦ rw in_it (λ e. absurd (cc))
  | inr out ↦ rw out (λ e.
      subst IsDistinct (append_assoc seen (n ∷ []) rest)
        (IsDistinct-register (seen ++ n ∷ []) rest r (IsDistinct-snoc seen n h out) e))
]

register-refuses : (networks : List ℕ) → ¬ IsDistinct networks → register [] networks ≡ none
register-refuses networks twice = elim (Option-cases (register [] networks)) [
  | inl e ↦ e
  | inr (r, e) ↦ absurd (twice (IsDistinct-register [] networks r tt e))
]

-- The gauges of the networks can be made, one for each, if and only if no network is there twice;
-- and the program panics when it makes them, which is the result `none`, if and only if a network
-- is there twice.
pub new_prometheus_reporter_iff :
    (networks : List ℕ)
    → ((new_prometheus_reporter networks ≡ some networks) ↔ IsDistinct networks)
      × ((new_prometheus_reporter networks ≡ none) ↔ (¬ IsDistinct networks))
unfolding new_prometheus_reporter
new_prometheus_reporter_iff networks = (
  (λ e. IsDistinct-register [] networks networks tt e, λ h. register-IsDistinct [] networks h),
  (
    λ e h. let made = register-IsDistinct [] networks h in absurd (let clash = sym e ∙ made in cc),
    λ twice. register-refuses networks twice,
  ),
)
