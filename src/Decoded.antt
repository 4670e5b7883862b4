-- ===== src/Decoded.antt =====
-- What json.Unmarshal stores in an interface{}, and the type assertions on it.
--
-- A number is a float64: its sign, and a mantissa times a power of two. The decoder is a parameter
-- of what uses it, and so are the conversions of a float64 to the integer types, of which Go fixes
-- the result within the range of the type only.
use agg_certificate_proxy.Prelude.{
  ℕ, suc, ◌*◌, ◌/◌, ◌^◌, ◌<◌, ◌≡◌, refl, ◌∙◌, Bool, false, Option, none, some, Bytes, same_bytes,
  if◌then◌else◌, arith,
}
use agg_certificate_proxy.Text.Decimal.{ℤ, pos, negsuc}

pub record Float64 : Type 0 where
  pub negative : Bool
  pub mantissa : ℕ
  pub exponent : ℤ

mutual
  pub data Value : Type 0 where
    null : Value
    boolean : Bool → Value
    float : Float64 → Value
    string : Bytes → Value
    list : Values → Value
    map_of : Fields → Value

  pub data Values : Type 0 where
    no_value : Values
    value : Value → Values → Values

  pub data Fields : Type 0 where
    no_field : Fields
    field : Bytes → Value → Fields → Fields

-- uint32(f), uint64(f) and int(f).
pub record Conversions : Type 0 where
  pub to_uint32 : Float64 → ℕ
  pub to_uint64 : Float64 → ℕ

-- Without its fraction.
abbrev pub truncated : Float64 → ℕ
truncated f = elim f.exponent [ pos k ↦ f.mantissa * 2 ^ k | negsuc k ↦ f.mantissa / 2 ^ suc k ]

-- The documented behaviour: within the range of the type the fraction is discarded.
pub record IsConversion (c : Conversions) : Type 0 where
  pub uint32_fits :
      (f : Float64) → f.negative ≡ false → truncated f < 2 ^ 32 → c.to_uint32 f ≡ truncated f
  pub uint64_fits :
      (f : Float64) → f.negative ≡ false → truncated f < 2 ^ 64 → c.to_uint64 f ≡ truncated f

-- m[key] with the missing entry as `none`.
unfoldable pub field_of : Bytes → Fields → Option Value
field_of key no_field = none
field_of key (field k v rest) = if same_bytes k key then some v else field_of key rest

-- v.(bool), v.(float64), v.(string), v.([]interface{}) and v.(map[string]interface{})
abbrev pub as_bool : Option Value → Option Bool
as_bool (some (boolean b)) = some b
as_bool _ = none

abbrev pub as_float : Option Value → Option Float64
as_float (some (float f)) = some f
as_float _ = none

abbrev pub as_string : Option Value → Option Bytes
as_string (some (string s)) = some s
as_string _ = none

abbrev pub as_list : Option Value → Option Values
as_list (some (list vs)) = some vs
as_list _ = none

abbrev pub as_map : Option Value → Option Fields
as_map (some (map_of m)) = some m
as_map _ = none

-- An integer that a float64 holds exactly, if it is below 2 ^ 53.
abbrev pub whole : ℕ → Float64
whole n = record { negative = false; mantissa = n; exponent = pos 0 }

module _ (c : Conversions) (k : IsConversion c) where
  pub to_uint32-whole : (n : ℕ) → n < 2 ^ 32 → c.to_uint32 (whole n) ≡ n
  to_uint32-whole n h = k.uint32_fits (whole n) refl (omega (arith, h)) ∙ (omega arith)

  pub to_uint64-whole : (n : ℕ) → n < 2 ^ 64 → c.to_uint64 (whole n) ≡ n
  to_uint64-whole n h = k.uint64_fits (whole n) refl (omega (arith, h)) ∙ (omega arith)
