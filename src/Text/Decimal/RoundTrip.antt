-- ===== src/Text/Decimal/RoundTrip.antt =====
-- Reading back what FormatUint prints.
use native.Mathlib.Nat.{pow-suc}
use agg_certificate_proxy.Prelude.{
  ℕ, zero, suc, ◌+◌, ◌*◌, ◌/◌, ◌%◌, ◌^◌, ◌≤◌, ◌<◌, ◌≡◌, refl, ◌≢◌, ◌∙◌, true, [], ◌∷◌, some, arith,
  Bytes, All,
}
use agg_certificate_proxy.Text.Decimal.{max_uint64, is_digit, scan, parse_uint, digits, format_uint}

fits_tenth : (fuel n : ℕ) → n < 10 ^ suc fuel → n / 10 < 10 ^ fuel
fits_tenth fuel n h = let bound : n < 10 ^ fuel * 10 = rw (← pow-suc 10 fuel) h in omega arith

-- Reading the digits of `n` in front of a rest has the effect of starting the rest at `n`.
scan-digits :
    (max fuel n : ℕ) (out : Bytes)
    → n < 10 ^ fuel
    → n ≤ max
    → scan max (digits fuel n out) 0 ≡ scan max out n
unfolding scan digits
scan-digits max zero n out small fits = let e : n ≡ 0 = omega arith in rw e
scan-digits max (suc fuel) n out small fits =
    ground (arith, scan-digits max fuel (n / 10) ((b'0' + n % 10) ∷ out), fits_tenth fuel n)

-- A printed number consists of digits and is not empty.
digits-All :
    (fuel n : ℕ) (out : Bytes)
    → All (λ c. is_digit c ≡ true) out
    → All (λ c. is_digit c ≡ true) (digits fuel n out)
unfolding digits
digits-All zero n out h = h
digits-All (suc fuel) n out h = ground (arith, digits-All fuel (n / 10) ((b'0' + n % 10) ∷ out))

digits-ne-nil : (fuel n : ℕ) (out : Bytes) → out ≢ [] → digits fuel n out ≢ []
unfolding digits
digits-ne-nil zero n out h = h
digits-ne-nil (suc fuel) n out h =
    ground (arith, digits-ne-nil fuel (n / 10) ((b'0' + n % 10) ∷ out))

pub format_uint-All : (n : ℕ) → All (λ c. is_digit c ≡ true) (format_uint n)
unfolding format_uint
format_uint-All n = digits-All 20 n [] tt

pub format_uint-ne-nil : (n : ℕ) → format_uint n ≢ []
unfolding format_uint digits
format_uint-ne-nil n = ground (arith, digits-ne-nil 19 (n / 10) ((b'0' + n % 10) ∷ []))

parse_uint-scan : (max : ℕ) (s : Bytes) → s ≢ [] → parse_uint max s ≡ scan max s 0
unfolding parse_uint
parse_uint-scan max [] h = absurd (h refl)
parse_uint-scan max (c ∷ s) h = refl

-- Every number within the range of the reader and of uint64 is read back from its print.
pub parse_uint-format_uint :
    (max n : ℕ) → n ≤ max → n ≤ max_uint64 → parse_uint max (format_uint n) ≡ some n
parse_uint-format_uint max n fits small =
    parse_uint-scan max (format_uint n) (format_uint-ne-nil n)
    ∙ unfold format_uint scan in scan-digits max 20 n [] (omega arith) fits
