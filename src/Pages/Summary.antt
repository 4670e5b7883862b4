-- ===== src/Pages/Summary.antt =====
-- When truncateJSON says that it left something out.
use agg_certificate_proxy.Prelude.{
  ℕ, ◌+◌, ◌≤◌, ◌≡◌, refl, ◌⊎◌, inl, inr, true, Bool-cases, some, Bytes, codes, same_bytes,
  same_bytes_iff, leb, ltb→lt, arith,
}
use agg_certificate_proxy.Decoded.{
  Value, null, boolean, float, string, list, map_of, no_value, value, Fields, no_field, field,
  field_of,
}
use agg_certificate_proxy.Pages.Texts.{
  set_field, summarise, summary, truncate_json, more_truncated, lines_of, count_fields,
}

field_of-set_field :
    (key : Bytes) (v : Value) (m : Fields) → field_of key (set_field key v m) ≡ some v
unfolding field_of set_field
field_of-set_field key v no_field = rw ((same_bytes_iff key key).1 refl) refl
field_of-set_field key v (field k u rest) = elim (Bool-cases (same_bytes k key)) [
  | inl e ↦ rw (e, (same_bytes_iff key key).1 refl) refl
  | inr e ↦ rw (e, e) (field_of-set_field key v rest)
]

one_le_lines : (v : Value) → 1 ≤ lines_of v
one_le_lines null = omega arith
one_le_lines (boolean b) = omega arith
one_le_lines (float f) = omega arith
one_le_lines (string s) = omega arith
one_le_lines (list no_value) = omega arith
one_le_lines (list (value v vs)) = omega arith
one_le_lines (map_of m) = omega arith

summary-cases :
    (max count : ℕ) (done m : Fields)
    → (count + count_fields m ≤ (summary max count done m).1)
      ⊎ (field_of (codes "...") (summary max count done m).0 ≡ some more_truncated)
unfolding summary
summary-cases max count done no_field = inl (omega arith)
summary-cases max count done (field key v rest) = elim (Bool-cases (leb max count)) [
  | inl e ↦ rw e (inr (field_of-set_field (codes "...") more_truncated done))
  | inr e ↦
      rw e (elim (summary-cases max (count + lines_of v) (summarise max count key v done) rest) [
        | inl h ↦ inl (omega (arith, h, one_le_lines v))
        | inr h ↦ inr h
      ])
]

-- Where truncateJSON says that the data are truncated, its summary has the entry that says so.
pub truncate_json_lem :
    (m : Fields) (max : ℕ)
    → (truncate_json m max).1 ≡ true
    → field_of (codes "...") (truncate_json m max).0 ≡ some more_truncated
unfolding truncate_json
truncate_json_lem m max said = elim (summary-cases max 0 no_field m) [
  | inl h ↦ absurd (
      let less = ltb→lt (summary max 0 no_field m).1 (count_fields m) said in
      omega (arith, h, less))
  | inr h ↦ h
]
