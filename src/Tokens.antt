-- ===== src/Tokens.antt =====
-- internal/certificate/tokens.go: the dollar values of tokens, given as comma-separated entries
-- network:address:value:multiplier.
pub mod Parse
pub mod Identity
use agg_certificate_proxy.Prelude.{
  ℕ, ◌≡◌, refl, List, [], ◌∷◌, ◌++◌, Option, none, some, Bytes, codes, Dict, insert, length, ◌==◌,
  if◌then◌else◌,
}
use agg_certificate_proxy.Text.Decimal.{parse_uint, format_uint, max_uint32, max_uint64}
use agg_certificate_proxy.Text.Separated.{split, to_lower}

pub record TokenValue : Type 0 where
  pub origin_network : ℕ
  pub address : Bytes
  pub dollar_value : ℕ
  pub multiplier : ℕ

-- The method ID.
unfoldable pub token_id : TokenValue → Bytes
token_id t = format_uint t.origin_network ++ b':' ∷ to_lower t.address

-- The entry, once its numbers are read.
entry_with : Option ℕ → Bytes → Option ℕ → Option ℕ → Option TokenValue
entry_with (some network) address (some value) (some multiplier) = some (record {
  origin_network = network;
  address = to_lower address;
  dollar_value = value;
  multiplier = multiplier;
})
entry_with _ address _ _ = none

-- The parts between the colons of an entry.
entry_of : List Bytes → Option TokenValue
unfolding entry_with
entry_of (network ∷ address ∷ value ∷ multiplier ∷ []) =
    if length address == 40
    then entry_with (parse_uint max_uint32 network) address (parse_uint max_uint64 value)
        (parse_uint max_uint64 multiplier)
    else none
entry_of _ = none

-- One round of the loop: `none` where it returns an error.
unfoldable pub parse_entry : Bytes → Option TokenValue
unfolding entry_of
parse_entry s = entry_of (split b':' s)

-- The loop over the entries, `result` being the map so far.
unfoldable pub parse_entries : List Bytes → Dict TokenValue → Option (Dict TokenValue)
parse_entries [] result = some result
parse_entries (s ∷ rest) result = elim (parse_entry s) [
  | none ↦ none
  | some tv ↦ parse_entries rest (insert (token_id tv) tv result)
]

unfoldable pub parse_token_values : Bytes → Option (Dict TokenValue)
unfolding parse_entries
parse_token_values s = parse_entries (split b',' s) []
