-- ===== src/Prelude/Lists.antt =====
-- Lists over the native numbers, predicates on lists, and byte sequences.
use Prim.Native.Char.{code}
use Prim.Native.Nat.{ℕ, zero, suc, ◌+◌}
use Prim.Native.String.{String}
use mathlib.Core.Path.{◌≡◌, refl, sym, ap}
use mathlib.Core.Logic.{◌↔◌, ◌⊎◌, inl, inr}
use mathlib.Core.Bool.{Bool, true, false, ◌&&◌}
use mathlib.Core.List.{List, [], ◌∷◌, ◌++◌, map}
use native.Mathlib.Omega.{arith}
use agg_certificate_proxy.Prelude.Tests.{◌==◌, if◌then◌else◌, Bool-cases}

-- A byte slice or a Go string: its bytes.
abbrev pub Bytes : Type 0
Bytes = List ℕ

-- The bytes of an ASCII literal.
abbrev pub codes : String → Bytes
codes String.[] = []
codes (String.◌∷◌ c s) = code c ∷ codes s

module _ {ℓ} {A : Type ℓ} where
  abbrev pub length : List A → ℕ
  length [] = 0
  length (x ∷ xs) = suc (length xs)

  pub length-append : (xs ys : List A) → length (xs ++ ys) ≡ length xs + length ys
  length-append [] ys = omega arith
  length-append (x ∷ xs) ys = omega (arith, length-append xs ys)

  -- The part of the list that passes the test.
  abbrev pub keep_if : (A → Bool) → List A → List A
  keep_if p [] = []
  keep_if p (x ∷ xs) = let rest = keep_if p xs in if p x then x ∷ rest else rest

  pub keep_if-append :
      (p : A → Bool) (xs ys : List A) → keep_if p (xs ++ ys) ≡ keep_if p xs ++ keep_if p ys
  keep_if-append p [] ys = refl
  keep_if-append p (x ∷ xs) ys = ground (arith, keep_if-append p xs ys)

  abbrev pub All {κ} : (A → Type κ) → List A → Type κ
  All P [] = Unit
  All P (x ∷ xs) = P x × All P xs

  pub All-append {κ} : (P : A → Type κ) (xs ys : List A) → All P xs → All P ys → All P (xs ++ ys)
  All-append P [] ys hx hy = hy
  All-append P (x ∷ xs) ys hx hy = (hx.0, All-append P xs ys hx.1 hy)

  pub All-map {κ μ} :
      (P : A → Type κ) (Q : A → Type μ) (xs : List A) → ((a : A) → P a → Q a) → All P xs → All Q xs
  All-map P Q [] f h = tt
  All-map P Q (x ∷ xs) f h = (f x h.0, All-map P Q xs f h.1)

module _ {A : Type 0} where
  -- Membership, at a position.
  abbrev pub In : A → List A → Type 0
  In a [] = ⊥
  In a (x ∷ xs) = (x ≡ a) ⊎ In a xs

  In-of_cons_if :
      (a x : A) (b : Bool) (xs : List A)
      → In a (if b then x ∷ xs else xs)
      → ((x ≡ a) × (b ≡ true)) ⊎ In a xs
  In-of_cons_if a x true xs (inl e) = inl (e, refl)
  In-of_cons_if a x true xs (inr i) = inr i
  In-of_cons_if a x false xs i = inr i

  -- What passes the test, and is in the list, is what is in the filtered list.
  pub In-of_keep_if :
      (p : A → Bool) (a : A) (xs : List A) → In a (keep_if p xs) → In a xs × (p a ≡ true)
  In-of_keep_if p a [] h = absurd h
  In-of_keep_if p a (x ∷ xs) h = elim (In-of_cons_if a x (p x) (keep_if p xs) h) [
    | inl (e, t) ↦ (inl e, rw (sym e) t)
    | inr i ↦ let r = In-of_keep_if p a xs i in (inr r.0, r.1)
  ]

  pub In-keep_if : (p : A → Bool) (a : A) (xs : List A) → In a xs → p a ≡ true → In a (keep_if p xs)
  In-keep_if p a [] h e = absurd h
  In-keep_if p a (x ∷ xs) (inl h) e = rw h (rw e (inl refl))
  In-keep_if p a (x ∷ xs) (inr h) e = elim (Bool-cases (p x)) [
    | inl e' ↦ rw e' (inr (In-keep_if p a xs h e))
    | inr e' ↦ rw e' (In-keep_if p a xs h e)
  ]

module _ {A B : Type 0} where
  pub In-map : (f : A → B) (a : A) (xs : List A) → In a xs → In (f a) (map f xs)
  In-map f a [] h = absurd h
  In-map f a (x ∷ xs) (inl h) = inl (ap f h)
  In-map f a (x ∷ xs) (inr h) = inr (In-map f a xs h)

  pub In-of_map :
      (f : A → B) (b : B) (xs : List A) → In b (map f xs) → (a : A) × In a xs × (f a ≡ b)
  In-of_map f b [] h = absurd h
  In-of_map f b (x ∷ xs) (inl h) = (x, inl refl, h)
  In-of_map f b (x ∷ xs) (inr h) = let (a, i, e) = In-of_map f b xs h in (a, inr i, e)

unfoldable pub same_bytes : Bytes → Bytes → Bool
same_bytes [] [] = true
same_bytes (a ∷ xs) (b ∷ ys) = a == b && same_bytes xs ys
same_bytes _ _ = false

pub same_bytes_iff : (xs ys : Bytes) → (same_bytes xs ys ≡ true) ↔ (xs ≡ ys)
unfolding same_bytes
same_bytes_iff [] [] = ground arith
same_bytes_iff [] (b ∷ ys) = ground arith
same_bytes_iff (a ∷ xs) [] = ground arith
same_bytes_iff (a ∷ xs) (b ∷ ys) = ground (arith, same_bytes_iff xs ys)

module _ {ℓ} {A : Type ℓ} where
  abbrev pub take : ℕ → List A → List A
  take zero xs = []
  take (suc n) [] = []
  take (suc n) (x ∷ xs) = x ∷ take n xs

  abbrev pub drop : ℕ → List A → List A
  drop zero xs = xs
  drop (suc n) [] = []
  drop (suc n) (x ∷ xs) = drop n xs

  abbrev pub replicate : ℕ → A → List A
  replicate zero a = []
  replicate (suc n) a = a ∷ replicate n a

  -- Two texts that agree, with first parts of one length, agree part by part.
  pub parts_of_append :
      (p q s t : List A) → length p ≡ length q → p ++ s ≡ q ++ t → (p ≡ q) × (s ≡ t)
  parts_of_append [] [] s t l e = (refl, e)
  parts_of_append [] (y ∷ q) s t l e = absurd (omega arith)
  parts_of_append (x ∷ p) [] s t l e = absurd (omega arith)
  parts_of_append (x ∷ p) (y ∷ q) s t l e = ground (arith, parts_of_append p q s t)

  -- The parts one behind the other.
  abbrev pub concat : List (List A) → List A
  concat [] = []
  concat (p ∷ ps) = p ++ concat ps

pub All-replicate {ℓ κ} :
    {A : Type ℓ} (P : A → Type κ) (a : A) (n : ℕ) → P a → All P (replicate n a)
All-replicate P a zero h = tt
All-replicate P a (suc n) h = (h, All-replicate P a n h)

pub List-cases {ℓ} :
    {A : Type ℓ} (xs : List A) → (xs ≡ []) ⊎ ((x : A) × (ys : List A) × (xs ≡ x ∷ ys))
List-cases [] = inl refl
List-cases (x ∷ xs) = inr (x, xs, refl)
