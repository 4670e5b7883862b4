-- ===== src/Metrics/Totals.antt =====
-- The method UpdateMetrics of internal/metrics/updater.go: the totals by network.
use agg_certificate_proxy.Prelude.{
  ℕ, ◌+◌, List, [], ◌∷◌, Option, none, some, Bytes, codes, ◌==◌, if◌then◌else◌,
}
use agg_certificate_proxy.Prelude.Maybe.{◌>>=◌}
use agg_certificate_proxy.Decoded.{
  Value, null, map_of, Values, no_value, value, Fields, no_field, Conversions, field_of, as_float,
  as_string, as_list, as_map,
}
use agg_certificate_proxy.Store.{Certificate}
use agg_certificate_proxy.Text.Decimal.{parse_uint, max_uint64}

-- The map from a network to its total.
abbrev pub Networks : Type 0
Networks = List (ℕ × ℕ)

unfoldable pub total_of : ℕ → Networks → Option ℕ
total_of n [] = none
total_of n ((m, t) ∷ rest) = if m == n then some t else total_of n rest

abbrev pub or_zero : Option ℕ → ℕ
or_zero none = 0
or_zero (some n) = n

-- An entry that is missing is made with the total 0 first.
unfoldable pub add_to : ℕ → ℕ → Networks → Networks
add_to n amount [] = (n, amount) ∷ []
add_to n amount ((m, t) ∷ rest) =
    if m == n then (m, t + amount) ∷ rest else (m, t) ∷ add_to n amount rest

-- The amount of an exit, if the entry is a map with a decimal in it.
abbrev pub exit_amount : Value → Option ℕ
exit_amount v = do
  m ← as_map (some v)
  s ← as_string (field_of (codes "amount") m)
  parse_uint max_uint64 s

abbrev pub add_amount : ℕ → Option ℕ → Networks → Networks
add_amount n none nets = nets
add_amount n (some amount) nets = add_to n amount nets

unfoldable pub add_exits : ℕ → Values → Networks → Networks
add_exits n no_value nets = nets
add_exits n (value v rest) nets = add_exits n rest (add_amount n (exit_amount v) nets)

abbrev pub add_exits_field : ℕ → Option Values → Networks → Networks
add_exits_field n none nets = nets
add_exits_field n (some vs) nets = add_exits n vs nets

abbrev pub exits_of : Fields → Option Values
exits_of m = as_list (field_of (codes "bridge_exits") m)

-- `unmarshal` is json.Unmarshal into a map; its result is none where it returns an error.
module _ (c : Conversions) (unmarshal : Bytes → Option Value) where
  -- meta["network_id"].(float64) panics where the entry is missing or no number.
  abbrev pub network_of : Fields → Option ℕ
  network_of m = as_float (field_of (codes "network_id") m) >>= λ f. some (c.to_uint32 f)

  abbrev pub add_fields : Fields → Networks → Option Networks
  add_fields m nets = network_of m >>= λ n. some (add_exits_field n (exits_of m) (add_to n 0 nets))

  -- The null of JSON leaves the map nil; a value that is no object is an error, which is passed
  -- over.
  abbrev pub add_value : Option Value → Networks → Option Networks
  add_value (some (map_of m)) nets = add_fields m nets
  add_value (some null) nets = add_fields no_field nets
  add_value _ nets = some nets

  abbrev pub add_metadata : Bytes → Networks → Option Networks
  add_metadata [] nets = some nets
  add_metadata (b ∷ s) nets = add_value (unmarshal (b ∷ s)) nets

  -- The loop over the certificates; none where it panics.
  unfoldable pub add_certificates : List Certificate → Networks → Option Networks
  add_certificates [] nets = some nets
  add_certificates (x ∷ xs) nets = add_metadata x.metadata nets >>= add_certificates xs
