-- ===== src/Pages/Texts.antt =====
-- The texts of the pages: formatAmount and truncateJSON of internal/certificate/api.go, and
-- strconv.Atoi with the value that it returns beside an error.
use agg_certificate_proxy.Prelude.{
  ℕ, suc, ◌+◌, ◌-◌, ◌*◌, ◌^◌, Bool, true, false, [], ◌∷◌, ◌++◌, Option, none, some, Bytes, codes,
  ltb, leb, ◌==◌, same_bytes, if◌then◌else◌,
}
use agg_certificate_proxy.Decoded.{
  Value, float, string, list, map_of, Values, no_value, value, Fields, no_field, field, whole,
}
use agg_certificate_proxy.Text.Decimal.{
  ℤ, pos, negate, format_uint, is_digit, max_int64, max_uint64,
}

-- Digits up to the end, or to the one at which the number exceeds the largest.
clamp : ℕ → Bytes → ℕ → Option ℕ
clamp max [] n = some n
clamp max (c ∷ s) n =
    let next = n * 10 + (c - b'0') in
    let rest = clamp max s next in
    if is_digit c then (if leb next max then rest else some max) else none

clamped : Bytes → Option ℕ
unfolding clamp
clamped [] = none
clamped (c ∷ s) = clamp max_uint64 (c ∷ s) 0

abbrev at_least : Option ℕ → ℤ
at_least none = pos 0
at_least (some n) = if leb n (2 ^ 63) then negate n else negate (2 ^ 63)

abbrev at_most : Option ℕ → ℤ
at_most none = pos 0
at_most (some n) = if leb n max_int64 then pos n else pos max_int64

-- 0 for what is no number, and the nearest int64 for a number that is none.
unfoldable pub atoi : Bytes → ℤ
unfolding clamped
atoi [] = pos 0
atoi (c ∷ s) =
    if c == b'-'
    then at_least (clamped s)
    else if c == b'+'
    then at_most (clamped s)
    else at_most (clamped (c ∷ s))

-- `decimals digits n d` is the print of the quotient of two big.Int as a big.Float.
unfoldable pub format_amount : (ℕ → ℕ → ℕ → Bytes) → Option ℕ → Bytes
format_amount decimals none = codes "0 wei"
format_amount decimals (some wei) =
    if ltb wei (10 ^ 9)
    then format_uint wei ++ codes " wei"
    else if ltb wei (10 ^ 12)
    then decimals 3 wei (10 ^ 9) ++ codes " Gwei"
    else decimals 6 wei (10 ^ 18) ++ codes " ETH"

abbrev pub count_values : Values → ℕ
count_values no_value = 0
count_values (value v rest) = suc (count_values rest)

abbrev pub count_fields : Fields → ℕ
count_fields no_field = 0
count_fields (field k v rest) = suc (count_fields rest)

abbrev keys_of : Fields → Values
keys_of no_field = no_value
keys_of (field k v rest) = value (string k) (keys_of rest)

-- What stands for an entry in the summary, and how many lines it counts.
abbrev pub lines_of : Value → ℕ
lines_of (list (value v rest)) = 2
lines_of _ = 1

-- summary[key] = v
unfoldable pub set_field : Bytes → Value → Fields → Fields
set_field key v no_field = field key v no_field
set_field key v (field k u rest) =
    if same_bytes k key then field key v rest else field k u (set_field key v rest)

abbrev example : Bool → Bytes → Value → Fields → Fields
example true key v done = set_field (key ++ codes "_example") v done
example false key v done = done

abbrev pub summarise : ℕ → ℕ → Bytes → Value → Fields → Fields
summarise max count key (list (value v vs)) done =
    example (ltb count (max - 2)) key v
      (set_field (key ++ codes "_count") (float (whole (suc (count_values vs)))) done)
summarise max count key (map_of m) done = set_field (key ++ codes "_keys") (list (keys_of m)) done
summarise max count key v done = set_field key v done

abbrev pub more_truncated : Value
more_truncated = string (codes "more fields truncated")

-- The loop: the summary, and the count of lines at its end. The order of the fields is that in
-- which Go happens to visit the map.
unfoldable pub summary : ℕ → ℕ → Fields → Fields → Fields × ℕ
summary max count done no_field = (done, count)
summary max count done (field key v rest) =
    let more = summary max (count + lines_of v) (summarise max count key v done) rest in
    if leb max count then (set_field (codes "...") more_truncated done, count) else more

-- The summary that is printed, and whether the data is said to be truncated.
unfoldable pub truncate_json : Fields → ℕ → Fields × Bool
truncate_json data_fields max =
    let r = summary max 0 no_field data_fields in (r.0, ltb r.1 (count_fields data_fields))
