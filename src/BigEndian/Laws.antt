-- ===== src/BigEndian/Laws.antt =====
-- Values of byte sequences that are split, padded or cut.
use native.Mathlib.Nat.{pow-suc, mul-le-mul_right, mul-add-mod_self_right}
use agg_certificate_proxy.Prelude.{
  ℕ, zero, suc, ◌+◌, ◌-◌, ◌*◌, ◌%◌, ◌^◌, ◌≤◌, ◌<◌, ◌≡◌, refl, ap, ◌∙◌, sym, subst, [], ◌∷◌, ◌++◌,
  arith, Bytes, length, take, drop, replicate, ltb, Bool-cases, inl, inr, ltb→lt,
}
use agg_certificate_proxy.Text.Hex.{AllBytes}
use agg_certificate_proxy.BigEndian.{value_from, set_bytes, shift_in, bytes_to_uint64}

-- 256 to the number of bytes.
abbrev pub weight : Bytes → ℕ
weight [] = 1
weight (b ∷ s) = weight s * 256

pub weight-length : (s : Bytes) → weight s ≡ 256 ^ length s
weight-length [] = refl
weight-length (b ∷ s) = ap (λ w. w * 256) (weight-length s) ∙ sym (pow-suc 256 (length s))

value_from-split : (n : ℕ) (s : Bytes) → value_from n s ≡ n * weight s + value_from 0 s
unfolding value_from
value_from-split n [] = omega arith
value_from-split n (b ∷ s) =
    omega (arith, value_from-split (n * 256 + b) s, value_from-split (0 * 256 + b) s)

pub value_from-append :
    (n : ℕ) (p s : Bytes) → value_from n (p ++ s) ≡ value_from (value_from n p) s
unfolding value_from
value_from-append n [] s = refl
value_from-append n (b ∷ p) s = value_from-append (n * 256 + b) p s

-- The leading part counts with the weight of the rest.
pub set_bytes-append : (p s : Bytes) → set_bytes (p ++ s) ≡ set_bytes p * weight s + set_bytes s
unfolding set_bytes
set_bytes-append p s = value_from-append 0 p s ∙ value_from-split (value_from 0 p) s

pub set_bytes-lt : (s : Bytes) → AllBytes s → set_bytes s < weight s
unfolding set_bytes value_from
set_bytes-lt [] h = omega arith
set_bytes-lt (b ∷ s) h =
    let rest : value_from 0 s < weight s = set_bytes-lt s h.1 in
    let first : b * weight s ≤ 255 * weight s = mul-le-mul_right (weight s) (omega arith) in
    omega (arith, value_from-split (0 * 256 + b) s)

pub take-append-drop : (k : ℕ) (s : Bytes) → take k s ++ drop k s ≡ s
take-append-drop zero s = refl
take-append-drop (suc k) [] = refl
take-append-drop (suc k) (b ∷ s) = ap (◌∷◌ b) (take-append-drop k s)

pub length-drop : (k : ℕ) (s : Bytes) → length (drop k s) ≡ length s - k
length-drop zero s = omega arith
length-drop (suc k) [] = omega arith
length-drop (suc k) (b ∷ s) = omega (arith, length-drop k s)

pub drop-AllBytes : (k : ℕ) (s : Bytes) → AllBytes s → AllBytes (drop k s)
drop-AllBytes zero s h = h
drop-AllBytes (suc k) [] h = h
drop-AllBytes (suc k) (b ∷ s) h = drop-AllBytes k s h.1

pub set_bytes-replicate : (k : ℕ) → set_bytes (replicate k 0) ≡ 0
unfolding set_bytes value_from
set_bytes-replicate zero = refl
set_bytes-replicate (suc k) = set_bytes-replicate k

-- Within uint64 the loop keeps the value modulo 2 ^ 64.
shift_in-mod :
    (r n : ℕ) (s : Bytes)
    → AllBytes s
    → r < 2 ^ 64
    → r ≡ n % 2 ^ 64
    → shift_in r s ≡ value_from n s % 2 ^ 64
unfolding shift_in value_from
shift_in-mod r n [] h small e = e
shift_in-mod r n (b ∷ s) h small e =
    shift_in-mod (r * 256 % 2 ^ 64 + b) (n * 256 + b) s h.1 (omega arith) (omega arith)

-- What stands in front of the last `k` bytes does not change the value modulo 256 ^ k.
pub set_bytes-suffix :
    (p s : Bytes) (k : ℕ) → length s ≡ k → set_bytes (p ++ s) % 256 ^ k ≡ set_bytes s % 256 ^ k
set_bytes-suffix p s k e =
    rw (set_bytes-append p s, weight-length s, e)
      (mul-add-mod_self_right (set_bytes p) (256 ^ k) (set_bytes s))

-- The last `k` bytes have the value of the whole modulo 256 ^ k.
pub set_bytes-drop :
    (k : ℕ) (s : Bytes)
    → k ≤ length s
    → set_bytes (drop (length s - k) s) % 256 ^ k ≡ set_bytes s % 256 ^ k
set_bytes-drop k s h = sym (
    subst (λ t. set_bytes t % 256 ^ k ≡ set_bytes (drop (length s - k) s) % 256 ^ k)
      (take-append-drop (length s - k) s)
      (set_bytes-suffix (take (length s - k) s) (drop (length s - k) s) k
        (omega (arith, length-drop (length s - k) s))))

-- The number that bytesToUint64 reads from a byte sequence of any length is its big-endian value
-- modulo 2 ^ 64.
pub bytes_to_uint64_lem : (s : Bytes) → AllBytes s → bytes_to_uint64 s ≡ set_bytes s % 2 ^ 64
unfolding bytes_to_uint64
bytes_to_uint64_lem s h = elim (Bool-cases (ltb 8 (length s))) [
  | inl long ↦
      let tail = drop (length s - 8) s in
      let read : shift_in 0 tail ≡ set_bytes tail % 2 ^ 64 =
        unfold set_bytes in
        shift_in-mod 0 0 tail (drop-AllBytes (length s - 8) s h) (omega arith) (omega arith) in
      rw long (read ∙ set_bytes-drop 8 s (omega (arith, ltb→lt 8 (length s) long)))
  | inr short ↦ rw short (unfold set_bytes in shift_in-mod 0 0 s h (omega arith) (omega arith))
]
