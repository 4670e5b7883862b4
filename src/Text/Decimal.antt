-- ===== src/Text/Decimal.antt =====
-- strconv.ParseUint and strconv.FormatUint in base ten, and ParseInt for 64 bits.
pub mod RoundTrip
pub mod Range
use agg_certificate_proxy.Prelude.{
  ℕ, zero, suc, ◌+◌, ◌-◌, ◌*◌, ◌/◌, ◌%◌, ◌^◌, ◌≤◌, ◌<◌, ◌≡◌, refl, Bool, true, false, ◌||◌, List,
  [], ◌∷◌, Option, none, some, arith, Bytes, codes, ltb, leb, ◌==◌, if◌then◌else◌,
}

abbrev pub max_uint32 : ℕ
max_uint32 = 2 ^ 32 - 1

abbrev pub max_uint64 : ℕ
max_uint64 = 2 ^ 64 - 1

abbrev pub max_int64 : ℕ
max_int64 = 2 ^ 63 - 1

abbrev pub is_digit : ℕ → Bool
is_digit c = if ltb c b'0' then false else leb c b'9'

-- The digits read so far make `n`; a value above `max` is out of range.
pub scan : ℕ → Bytes → ℕ → Option ℕ
scan max [] n = some n
scan max (c ∷ s) n =
    let m = n * 10 + (c - b'0') in
    let rest = scan max s m in if is_digit c then if leb m max then rest else none else none

-- `none` stands for a syntax error and for a range error alike.
unfoldable pub parse_uint : ℕ → Bytes → Option ℕ
unfolding scan
parse_uint max [] = none
parse_uint max (c ∷ s) = scan max (c ∷ s) 0

-- The digits of `n` in front of `out`, at most `fuel` of them.
pub digits : ℕ → ℕ → Bytes → Bytes
digits zero n out = out
digits (suc fuel) n out =
    let longer = digits fuel (n / 10) ((b'0' + n % 10) ∷ out) in
    if ltb n 10 then (b'0' + n % 10) ∷ out else longer

-- A uint64 has at most twenty digits.
unfoldable pub format_uint : ℕ → Bytes
unfolding digits
format_uint n = digits 20 n []

-- A signed number: `negsuc n` is -(n + 1).
pub data ℤ : Type 0 where
  pos : ℕ → ℤ
  negsuc : ℕ → ℤ

abbrev pub negate : ℕ → ℤ
negate zero = pos zero
negate (suc n) = negsuc n

abbrev signed : Bool → Option ℕ → Option ℤ
signed negative none = none
signed false (some n) = if leb n max_int64 then some (pos n) else none
signed true (some n) = if leb n (2 ^ 63) then some (negate n) else none

-- strconv.ParseInt(s, 10, 64): an optional sign, then digits.
unfoldable pub parse_int : Bytes → Option ℤ
unfolding parse_uint
parse_int [] = none
parse_int (c ∷ s) =
    if c == b'-'
    then signed true (parse_uint max_uint64 s)
    else if c == b'+'
    then signed false (parse_uint max_uint64 s)
    else signed false (parse_uint max_uint64 (c ∷ s))

format_max : format_uint max_uint64 ≡ codes "18446744073709551615"
unfolding format_uint
format_max = refl

parse_overflow : parse_uint max_uint64 (codes "18446744073709551616") ≡ none
unfolding parse_uint
parse_overflow = refl

parse_negative : parse_int (codes "-172800") ≡ some (negsuc 172799)
unfolding parse_int
parse_negative = refl
