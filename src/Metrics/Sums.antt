-- ===== src/Metrics/Sums.antt =====
-- The totals by network are the sums of the amounts in the metadata.
use agg_certificate_proxy.Prelude.{
  ℕ, ◌+◌, ◌≡◌, refl, ◌∙◌, Bool, List, [], ◌∷◌, Option, none, some, Bytes, ◌==◌, if◌then◌else◌, All,
  arith,
}
use agg_certificate_proxy.Decoded.{
  Value, null, boolean, float, string, list, map_of, Values, no_value, value, Fields, no_field,
  Conversions,
}
use agg_certificate_proxy.Metrics.Totals.{
  Networks, total_of, add_to, exit_amount, add_amount, add_exits, add_exits_field, exits_of,
  network_of, add_fields, add_value, add_metadata, add_certificates, or_zero,
}
use agg_certificate_proxy.Store.{Certificate}

-- The number, if the condition holds.
abbrev pub counted : Bool → ℕ → ℕ
counted b n = if b then n else 0

-- The amounts of the exits, where they can be read.
abbrev pub exits_sum : Values → ℕ
exits_sum no_value = 0
exits_sum (value v rest) = or_zero (exit_amount v) + exits_sum rest

abbrev pub exits_field_sum : Option Values → ℕ
exits_field_sum none = 0
exits_field_sum (some vs) = exits_sum vs

-- The object that metadata hold, if they hold one.
abbrev pub object_of : Option Value → Option Fields
object_of (some (map_of m)) = some m
object_of (some null) = some no_field
object_of _ = none

module _ (c : Conversions) (unmarshal : Bytes → Option Value) where
  abbrev pub metadata_object : Bytes → Option Fields
  metadata_object [] = none
  metadata_object (b ∷ s) = object_of (unmarshal (b ∷ s))

  abbrev pub in_network : ℕ → Option ℕ → ℕ → ℕ
  in_network n none amount = 0
  in_network n (some m) amount = counted (m == n) amount

  -- What an object adds to a network.
  abbrev pub object_sum : ℕ → Option Fields → ℕ
  object_sum n none = 0
  object_sum n (some m) = in_network n (network_of c unmarshal m) (exits_field_sum (exits_of m))

  abbrev pub certificates_sum : ℕ → List Certificate → ℕ
  certificates_sum n [] = 0
  certificates_sum n (x ∷ xs) = object_sum n (metadata_object x.metadata) + certificates_sum n xs

  -- An object has a number as its network.
  abbrev pub IsNumbered : Option Fields → Type 0
  IsNumbered none = Unit
  IsNumbered (some m) = (n : ℕ) × (network_of c unmarshal m ≡ some n)

  abbrev pub AreNumbered : List Certificate → Type 0
  AreNumbered = All (λ x. IsNumbered (metadata_object x.metadata))

total : ℕ → Networks → ℕ
total n nets = or_zero (total_of n nets)

total-add_to :
    (n m amount : ℕ) (nets : Networks)
    → total n (add_to m amount nets) ≡ total n nets + counted (m == n) amount
unfolding total total_of add_to
total-add_to n m amount [] = ground arith
total-add_to n m amount ((k, t) ∷ rest) = ground (arith, total-add_to n m amount rest)

total-add_amount :
    (n m : ℕ) (o : Option ℕ) (nets : Networks)
    → total n (add_amount m o nets) ≡ total n nets + counted (m == n) (or_zero o)
total-add_amount n m none nets = ground arith
total-add_amount n m (some amount) nets = total-add_to n m amount nets

total-add_exits :
    (n m : ℕ) (vs : Values) (nets : Networks)
    → total n (add_exits m vs nets) ≡ total n nets + counted (m == n) (exits_sum vs)
unfolding add_exits
total-add_exits n m no_value nets = ground arith
total-add_exits n m (value v rest) nets =
    total-add_exits n m rest (add_amount m (exit_amount v) nets)
    ∙ (let e = total-add_amount n m (exit_amount v) nets in ground (arith, e))

total-add_exits_field :
    (n m : ℕ) (o : Option Values) (nets : Networks)
    → total n (add_exits_field m o nets) ≡ total n nets + counted (m == n) (exits_field_sum o)
total-add_exits_field n m none nets = ground arith
total-add_exits_field n m (some vs) nets = total-add_exits n m vs nets

module _ (c : Conversions) (unmarshal : Bytes → Option Value) where
  -- The loop goes on with totals that have grown by the sums.
  Adds : Option Networks → Networks → (ℕ → ℕ) → Type 0
  Adds result nets sum =
      (after : Networks) × (result ≡ some after)
      × ((n : ℕ) → or_zero (total_of n after) ≡ or_zero (total_of n nets) + sum n)

  add_fields-Adds :
      (m : Fields) (nets : Networks)
      → IsNumbered c unmarshal (some m)
      → Adds (add_fields c unmarshal m nets) nets (λ n. object_sum c unmarshal n (some m))
  unfolding Adds total
  add_fields-Adds m nets (k, e) = (
    add_exits_field k (exits_of m) (add_to k 0 nets),
    rw e refl,
    λ n.
        total-add_exits_field n k (exits_of m) (add_to k 0 nets)
        ∙ (let e' = total-add_to n k 0 nets in rw e (ground (arith, e'))),
  )

  add_value-Adds :
      (o : Option Value) (nets : Networks)
      → IsNumbered c unmarshal (object_of o)
      → Adds (add_value c unmarshal o nets) nets (λ n. object_sum c unmarshal n (object_of o))
  unfolding Adds
  add_value-Adds none nets h = (nets, refl, λ n. omega arith)
  add_value-Adds (some null) nets h = add_fields-Adds no_field nets h
  add_value-Adds (some (boolean b)) nets h = (nets, refl, λ n. omega arith)
  add_value-Adds (some (float f)) nets h = (nets, refl, λ n. omega arith)
  add_value-Adds (some (string s)) nets h = (nets, refl, λ n. omega arith)
  add_value-Adds (some (list vs)) nets h = (nets, refl, λ n. omega arith)
  add_value-Adds (some (map_of m)) nets h = add_fields-Adds m nets h

  add_metadata-Adds :
      (s : Bytes) (nets : Networks)
      → IsNumbered c unmarshal (metadata_object c unmarshal s)
      → Adds
          (add_metadata c unmarshal s nets)
          nets
          (λ n. object_sum c unmarshal n (metadata_object c unmarshal s))
  unfolding Adds
  add_metadata-Adds [] nets h = (nets, refl, λ n. omega arith)
  add_metadata-Adds (b ∷ s) nets h = add_value-Adds (unmarshal (b ∷ s)) nets h

  -- Where every object in the metadata has a number as its network, the loop of UpdateMetrics does
  -- not panic, and it adds to the total of each network the amounts of the exits in the metadata of
  -- the certificates of that network, as far as they are decimals of a uint64.
  pub add_certificates_lem :
      (certs : List Certificate) (nets : Networks)
      → AreNumbered c unmarshal certs
      → (after : Networks) × (add_certificates c unmarshal certs nets ≡ some after)
        × ((n : ℕ)
            → or_zero (total_of n after)
              ≡ or_zero (total_of n nets) + certificates_sum c unmarshal n certs)
  unfolding add_certificates Adds
  add_certificates_lem [] nets h = (nets, refl, λ n. omega arith)
  add_certificates_lem (x ∷ xs) nets h =
      let (mid, e, first) = add_metadata-Adds x.metadata nets h.0 in
      let (after, e', rest) = add_certificates_lem xs mid h.1 in
      (after, rw e e', λ n. rest n ∙ (let f = first n in omega (arith, f)))
