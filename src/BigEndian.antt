-- ===== src/BigEndian.antt =====
-- Numbers written as big-endian bytes: SetBytes of math/big, and `bytesToUint64` of
-- internal/certificate/grpc.go.
pub mod Laws
use agg_certificate_proxy.Prelude.{
  ℕ, ◌+◌, ◌-◌, ◌*◌, ◌%◌, ◌^◌, List, [], ◌∷◌, Bytes, length, drop, ltb, if◌then◌else◌,
}

-- The number that the bytes spell behind `n`.
unfoldable pub value_from : ℕ → Bytes → ℕ
value_from n [] = n
value_from n (b ∷ s) = value_from (n * 256 + b) s

-- big.NewInt(0).SetBytes(s)
unfoldable pub set_bytes : Bytes → ℕ
unfolding value_from
set_bytes s = value_from 0 s

-- The loop: a shift within uint64, and a byte put into the eight free bits.
shift_in : ℕ → Bytes → ℕ
shift_in result [] = result
shift_in result (b ∷ s) = shift_in (result * 256 % 2 ^ 64 + b) s

-- Only the last eight bytes are read.
unfoldable pub bytes_to_uint64 : Bytes → ℕ
unfolding shift_in
bytes_to_uint64 s = if ltb 8 (length s) then shift_in 0 (drop (length s - 8) s) else shift_in 0 s
