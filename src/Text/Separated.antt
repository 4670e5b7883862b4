-- ===== src/Text/Separated.antt =====
-- strings.Split and strings.Join at a one-byte separator, strings.TrimSpace, strings.ToLower and
-- strings.TrimPrefix.
use mathlib.Core.List.{reverse, reverse-reverse, reverse-cons}
use agg_certificate_proxy.Prelude.{
  ℕ, ◌+◌, ◌≡◌, refl, ◌≢◌, ap, ◌∙◌, Bool, false, ◌||◌, List, [], ◌∷◌, ◌++◌, arith, Bytes, codes, All,
  ltb, leb, ◌==◌, if◌then◌else◌,
}

-- The parts with `c` put in front of the first.
pub extend_first : ℕ → List Bytes → List Bytes
extend_first c [] = (c ∷ []) ∷ []
extend_first c (p ∷ ps) = (c ∷ p) ∷ ps

unfoldable pub split : ℕ → Bytes → List Bytes
unfolding extend_first
split sep [] = [] ∷ []
split sep (c ∷ s) = let rest = split sep s in if c == sep then [] ∷ rest else extend_first c rest

unfoldable pub join : ℕ → List Bytes → Bytes
join sep [] = []
join sep (p ∷ []) = p
join sep (p ∷ q ∷ ps) = p ++ sep ∷ join sep (q ∷ ps)

unfoldable pub is_space : ℕ → Bool
is_space c = c == b' ' || (if ltb c 9 then false else leb c 13)

trim_left : Bytes → Bytes
unfolding is_space
trim_left [] = []
trim_left (c ∷ s) = let rest = trim_left s in if is_space c then rest else c ∷ s

unfoldable pub trim_space : Bytes → Bytes
unfolding trim_left
trim_space s = reverse (trim_left (reverse (trim_left s)))

lower_byte : ℕ → ℕ
lower_byte c = if ltb c b'A' then c else if leb c b'Z' then c + 32 else c

unfoldable pub to_lower : Bytes → Bytes
unfolding lower_byte
to_lower [] = []
to_lower (c ∷ s) = lower_byte c ∷ to_lower s

abbrev pub Lacks : ℕ → Bytes → Type 0
Lacks sep = All (λ c. c ≢ sep)

split-append : (sep : ℕ) (p s : Bytes) → Lacks sep p → split sep (p ++ sep ∷ s) ≡ p ∷ split sep s
unfolding split
split-append sep [] s h = ground arith
split-append sep (c ∷ p) s h = ground (arith, split-append sep p s h.1)

split-Lacks : (sep : ℕ) (p : Bytes) → Lacks sep p → split sep p ≡ p ∷ []
unfolding split
split-Lacks sep [] h = refl
split-Lacks sep (c ∷ p) h = ground (arith, split-Lacks sep p h.1)

-- Splitting a join gives the parts back, if there is one and none holds the separator.
pub split-join :
    (sep : ℕ) (p : Bytes) (ps : List Bytes)
    → All (Lacks sep) (p ∷ ps)
    → split sep (join sep (p ∷ ps)) ≡ p ∷ ps
unfolding join
split-join sep p [] h = split-Lacks sep p h.0
split-join sep p (q ∷ ps) h =
    split-append sep p (join sep (q ∷ ps)) h.0 ∙ ap (◌∷◌ p) (split-join sep q ps h.1)

-- A text with no space in it is its own trimmed form.
abbrev pub HasNoSpace : Bytes → Type 0
HasNoSpace = All (λ c. is_space c ≡ false)

trim_left-HasNoSpace : (s : Bytes) → HasNoSpace s → trim_left s ≡ s
unfolding trim_left
trim_left-HasNoSpace [] h = refl
trim_left-HasNoSpace (c ∷ s) h = ground arith

All-snoc : (s : Bytes) (c : ℕ) → HasNoSpace s → is_space c ≡ false → HasNoSpace (s ++ c ∷ [])
All-snoc [] c h e = (e, tt)
All-snoc (d ∷ s) c h e = (h.0, All-snoc s c h.1 e)

All-reverse : (s : Bytes) → HasNoSpace s → HasNoSpace (reverse s)
All-reverse [] h = tt
All-reverse (c ∷ s) h = rw reverse-cons (All-snoc (reverse s) c (All-reverse s h.1) h.0)

pub trim_space-HasNoSpace : (s : Bytes) → HasNoSpace s → trim_space s ≡ s
unfolding trim_space
trim_space-HasNoSpace s h =
    rw (trim_left-HasNoSpace s h, trim_left-HasNoSpace (reverse s) (All-reverse s h))
      (reverse-reverse s)

pub to_lower_idem : (s : Bytes) → to_lower (to_lower s) ≡ to_lower s
unfolding to_lower
to_lower_idem [] = refl
to_lower_idem (c ∷ s) =
    let first : lower_byte (lower_byte c) ≡ lower_byte c = ground arith in
    cc (first, to_lower_idem s)

split_spaced : split b',' (codes "1, 137") ≡ codes "1" ∷ codes " 137" ∷ []
unfolding split
split_spaced = refl

trim_spaced : trim_space (codes " 137 ") ≡ codes "137"
unfolding trim_space
trim_spaced = refl
