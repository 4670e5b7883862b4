-- ===== src/Text/Decimal/Range.antt =====
-- ParseUint returns numbers of its range.
use agg_certificate_proxy.Prelude.{ℕ, ◌+◌, ◌-◌, ◌*◌, ◌≤◌, ◌≡◌, [], ◌∷◌, some, arith, Bytes}
use agg_certificate_proxy.Text.Decimal.{scan, parse_uint}

scan-le : (max : ℕ) (s : Bytes) (n r : ℕ) → n ≤ max → scan max s n ≡ some r → r ≤ max
unfolding scan
scan-le max [] n r h e = ground arith
scan-le max (c ∷ s) n r h e = ground (arith, scan-le max s (n * 10 + (c - b'0')) r)

pub parse_uint-le : (max : ℕ) (s : Bytes) (r : ℕ) → parse_uint max s ≡ some r → r ≤ max
unfolding parse_uint
parse_uint-le max [] r e = cc
parse_uint-le max (c ∷ s) r e = scan-le max (c ∷ s) 0 r (omega arith) e
