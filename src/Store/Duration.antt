-- ===== src/Store/Duration.antt =====
-- Times and durations of Go: a duration is an int64 of nanoseconds, which wraps around.
use agg_certificate_proxy.Prelude.{
  ℕ, suc, ◌+◌, ◌-◌, ◌*◌, ◌%◌, ◌^◌, ◌≤◌, ◌≡◌, Bool, arith, ltb, leb, if◌then◌else◌,
}
use agg_certificate_proxy.Text.Decimal.{ℤ, pos, negsuc}

abbrev pub second : ℕ
second = 10 ^ 9

abbrev pub minute : ℕ
minute = 60 * 10 ^ 9

-- The int64 with a bit pattern.
abbrev pub from_word : ℕ → ℤ
from_word n = if ltb n (2 ^ 63) then pos n else negsuc (2 ^ 64 - 1 - n)

-- The bit pattern of time.Duration(seconds) * time.Second
unfoldable pub duration_word : ℤ → ℕ
duration_word (pos s) = s * second % 2 ^ 64
duration_word (negsuc s) = (2 ^ 64 - suc s * second % 2 ^ 64) % 2 ^ 64

-- The negated duration, by which the cutoff differs from the present.
unfoldable pub cutoff : ℤ → ℤ
cutoff seconds = from_word ((2 ^ 64 - duration_word seconds) % 2 ^ 64)

-- time <= now + offset
abbrev pub is_before : ℕ → ℕ → ℤ → Bool
is_before time now (pos k) = leb time (now + k)
is_before time now (negsuc k) = leb (time + suc k) now

-- For a delay of 0 to 9223372036 seconds, which a duration can hold, the cutoff lies exactly that
-- long before the present.
pub is_before-cutoff :
    (time now seconds : ℕ)
    → seconds ≤ 9223372036
    → is_before time now (cutoff (pos seconds)) ≡ leb (time + seconds * second) now
unfolding cutoff duration_word
is_before-cutoff time now seconds h = ground arith
