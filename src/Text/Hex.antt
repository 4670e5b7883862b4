-- ===== src/Text/Hex.antt =====
-- The verb %x of fmt on a byte slice, and hex.DecodeString.
use agg_certificate_proxy.Prelude.{
  ℕ, ◌+◌, ◌-◌, ◌*◌, ◌/◌, ◌%◌, ◌<◌, ◌≡◌, refl, [], ◌∷◌, Option, none, some, arith, Bytes, codes, All,
  take, drop, same_bytes, ltb, leb, if◌then◌else◌,
}

hex_digit : ℕ → ℕ
hex_digit d = if ltb d 10 then b'0' + d else b'a' + (d - 10)

unfoldable pub hex : Bytes → Bytes
unfolding hex_digit
hex [] = []
hex (b ∷ s) = hex_digit (b / 16) ∷ hex_digit (b % 16) ∷ hex s

-- fmt.Sprintf("0x%x", s)
unfoldable pub hex_0x : Bytes → Bytes
unfolding hex
hex_0x s = b'0' ∷ b'x' ∷ hex s

-- strings.TrimPrefix(s, "0x")
unfoldable pub trim_0x : Bytes → Bytes
trim_0x s = if same_bytes (take 2 s) (codes "0x") then drop 2 s else s

digit_value : ℕ → Option ℕ
digit_value c =
    if leb b'0' c
    then (if leb c b'9'
        then some (c - b'0')
        else if leb b'a' c
        then (if leb c b'f' then some (c - b'a' + 10) else none)
        else if leb b'A' c
        then (if leb c b'F' then some (c - b'A' + 10) else none)
        else none)
    else none

byte_of : Option ℕ → Option ℕ → Option ℕ
byte_of (some h) (some l) = some (h * 16 + l)
byte_of _ _ = none

prepend : Option ℕ → Option Bytes → Option Bytes
prepend (some b) (some s) = some (b ∷ s)
prepend _ _ = none

-- hex.DecodeString: digits of either case, an even number of them.
unfoldable pub decode_hex : Bytes → Option Bytes
unfolding digit_value byte_of prepend
decode_hex [] = some []
decode_hex (c ∷ []) = none
decode_hex (c ∷ d ∷ s) = prepend (byte_of (digit_value c) (digit_value d)) (decode_hex s)

digit_value-hex_digit : (d : ℕ) → d < 16 → digit_value (hex_digit d) ≡ some d
unfolding digit_value hex_digit
digit_value-hex_digit d h = ground arith

abbrev pub AllBytes : Bytes → Type 0
AllBytes = All (λ b. b < 256)

-- Decoding the print of a byte sequence gives it back.
pub decode_hex-hex : (s : Bytes) → AllBytes s → decode_hex (hex s) ≡ some s
unfolding decode_hex hex
decode_hex-hex [] h = refl
decode_hex-hex (b ∷ s) h =
    rw
      (
        digit_value-hex_digit (b / 16) (omega arith),
        digit_value-hex_digit (b % 16) (omega arith),
        decode_hex-hex s h.1,
      )
      (let e : b / 16 * 16 + b % 16 ≡ b = omega arith in rw e)

hex_dead : hex_0x (222 ∷ 173 ∷ []) ≡ codes "0xdead"
unfolding hex_0x
hex_dead = refl
