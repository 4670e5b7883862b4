-- ===== src/Hashing/Words.antt =====
-- The words and amounts of the hashed buffers.
use native.Mathlib.Nat.{mod-eq_of_lt}
use agg_certificate_proxy.Prelude.{
  ℕ, ◌-◌, ◌%◌, ◌^◌, ◌≤◌, ◌<◌, ◌≡◌, refl, ◌∙◌, sym, ◌++◌, arith, Bytes, length, length-append,
  replicate, leb, Bool-cases, inl, inr, leb→le, le→leb, zero, suc,
}
use agg_certificate_proxy.Text.Hex.{AllBytes}
use agg_certificate_proxy.BigEndian.{set_bytes}
use agg_certificate_proxy.BigEndian.Laws.{
  set_bytes-append, set_bytes-lt, set_bytes-drop, set_bytes-replicate, length-drop, drop-AllBytes,
  weight-length,
}
use agg_certificate_proxy.Hashing.{put_uint32, uint64_to_bytes, amount_bytes}

pub put_uint32-injective : (m n : ℕ) → m < 2 ^ 32 → n < 2 ^ 32 → put_uint32 m ≡ put_uint32 n → m ≡ n
unfolding put_uint32
put_uint32-injective m n hm hn e = ground arith

pub uint64_to_bytes-injective :
    (m n : ℕ) → m < 2 ^ 64 → n < 2 ^ 64 → uint64_to_bytes m ≡ uint64_to_bytes n → m ≡ n
unfolding uint64_to_bytes
uint64_to_bytes-injective m n hm hn e = ground arith

-- The eight bytes of a uint64 spell it.
pub set_bytes-uint64_to_bytes : (n : ℕ) → n < 2 ^ 64 → set_bytes (uint64_to_bytes n) ≡ n
unfolding uint64_to_bytes set_bytes
set_bytes-uint64_to_bytes n h = omega arith

length-replicate : (k : ℕ) → length (replicate {A = ℕ} k 0) ≡ k
length-replicate zero = refl
length-replicate (suc k) = omega (arith, length-replicate k)

pub length-amount_bytes : (s : Bytes) → length (amount_bytes s) ≡ 32
unfolding amount_bytes
length-amount_bytes s = elim (Bool-cases (leb (length s) 32)) [
  | inl short ↦ rw short (
      omega (
        arith,
        length-append (replicate (32 - length s) 0) s,
        length-replicate (32 - length s),
        leb→le (length s) 32 short,
      ))
  | inr long ↦ rw long (ground (arith, length-drop (length s - 32) s))
]

padded-AllBytes : (k : ℕ) (s : Bytes) → AllBytes s → AllBytes (replicate k 0 ++ s)
padded-AllBytes zero s h = h
padded-AllBytes (suc k) s h = (omega arith, padded-AllBytes k s h)

amount_bytes-AllBytes : (s : Bytes) → AllBytes s → AllBytes (amount_bytes s)
unfolding amount_bytes
amount_bytes-AllBytes s h = elim (Bool-cases (leb (length s) 32)) [
  | inl short ↦ rw short (padded-AllBytes (32 - length s) s h)
  | inr long ↦ rw long (drop-AllBytes (length s - 32) s h)
]

set_bytes-amount_bytes-lt : (s : Bytes) → AllBytes s → set_bytes (amount_bytes s) < 2 ^ 256
set_bytes-amount_bytes-lt s h =
    let below = set_bytes-lt (amount_bytes s) (amount_bytes-AllBytes s h) in
    rw (weight-length (amount_bytes s), length-amount_bytes s) at below

amount_bytes_short : (s : Bytes) → length s ≤ 32 → set_bytes (amount_bytes s) ≡ set_bytes s
unfolding amount_bytes
amount_bytes_short s h =
    rw
      (
        le→leb (length s) 32 h,
        set_bytes-append (replicate (32 - length s) 0) s,
        set_bytes-replicate (32 - length s),
      )
      (omega arith)

-- The 32 bytes that hashBridgeExit makes of an amount of any length spell its value modulo 2 ^
-- 256.
pub set_bytes-amount_bytes :
    (s : Bytes) → AllBytes s → set_bytes (amount_bytes s) ≡ set_bytes s % 2 ^ 256
unfolding amount_bytes
set_bytes-amount_bytes s h = elim (Bool-cases (leb (length s) 32)) [
  | inl short ↦
      omega
        (arith, set_bytes-amount_bytes-lt s h, amount_bytes_short s (leb→le (length s) 32 short))
  | inr long ↦
      sym (mod-eq_of_lt (set_bytes-amount_bytes-lt s h))
      ∙ rw long (set_bytes-drop 32 s (ground arith))
]
