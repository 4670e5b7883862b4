-- ===== src/Metadata/Totals.antt =====
-- The amounts that are read off the summary of a certificate.
use agg_certificate_proxy.Prelude.{
  ℕ, ◌+◌, ◌%◌, ◌^◌, ◌<◌, ◌≡◌, refl, sym, ap, ap₂, ◌∙◌, subst, List, [], ◌∷◌, Option, none, some,
  Bytes, codes, same_bytes, ◌==◌, arith,
}
use agg_certificate_proxy.Prelude.Maybe.{◌>>=◌}
use agg_certificate_proxy.BigEndian.{set_bytes, bytes_to_uint64}
use agg_certificate_proxy.BigEndian.Laws.{bytes_to_uint64_lem}
use agg_certificate_proxy.Decoded.{
  Float64, Value, Conversions, IsConversion, field_of, whole, to_uint32-whole, as_string, as_float,
}
use agg_certificate_proxy.Json.{Members, end, object}
use agg_certificate_proxy.Metadata.{
  exit_members, amount_member, hex_member, exit_elements, certificate_members, extract_metadata,
}
use agg_certificate_proxy.Metadata.Decoding.{
  value_of, values_of, fields_of, entry, entry-hex_member, decoded_exits, entry-network,
  entry-exits,
}
use agg_certificate_proxy.Metrics.Sums.{
  counted, exits_sum, exits_field_sum, object_of, metadata_object, object_sum, IsNumbered,
  in_network,
}
use agg_certificate_proxy.Metrics.Totals.{exit_amount, network_of, exits_of, or_zero}
use agg_certificate_proxy.Proto.Fields.{Slice, get_value20, get_value32}
use agg_certificate_proxy.Proto.Interop.{BridgeExit, get_origin_token_address}
use agg_certificate_proxy.Proto.Node.{ProtoCertificate}
use agg_certificate_proxy.Text.Decimal.{parse_uint, format_uint, max_uint64}
use agg_certificate_proxy.Text.Decimal.RoundTrip.{parse_uint-format_uint}
use agg_certificate_proxy.Text.Hex.{AllBytes}

abbrev pub IsSlice : Slice → Type 0
IsSlice none = Unit
IsSlice (some s) = AllBytes s

-- The amount of an exit, as far as a uint64 holds it.
abbrev pub low_amount : Slice → ℕ
low_amount none = 0
low_amount (some s) = set_bytes s % 2 ^ 64

abbrev pub exits_amount : List (Option BridgeExit) → ℕ
exits_amount [] = 0
exits_amount (none ∷ rest) = exits_amount rest
exits_amount (some b ∷ rest) = low_amount (get_value32 b.amount) + exits_amount rest

abbrev pub AreSlices : List (Option BridgeExit) → Type 0
AreSlices [] = Unit
AreSlices (none ∷ rest) = AreSlices rest
AreSlices (some b ∷ rest) = IsSlice (get_value32 b.amount) × AreSlices rest

read_amount :
    (s : Bytes)
    → AllBytes s
    → parse_uint max_uint64 (format_uint (bytes_to_uint64 s)) ≡ some (set_bytes s % 2 ^ 64)
read_amount s h =
    rw (bytes_to_uint64_lem s h)
      (parse_uint-format_uint max_uint64 (set_bytes s % 2 ^ 64) (omega arith) (omega arith))

module _ (nearest : ℕ → Float64) where
  entry-amount_member :
      (s : Slice) (rest : Members)
      → IsSlice s
      → entry nearest (codes "amount") rest ≡ none
      → or_zero (
          as_string (entry nearest (codes "amount") (amount_member s rest))
          >>= parse_uint max_uint64)
        ≡ low_amount s
  unfolding amount_member field_of same_bytes
  entry-amount_member none rest h e = ap (λ o. or_zero (as_string o >>= parse_uint max_uint64)) e
  entry-amount_member (some s) rest h e = ap or_zero (read_amount s h)

  exit_amount-decoded :
      (b : BridgeExit)
      → IsSlice (get_value32 b.amount)
      → or_zero (exit_amount (value_of nearest (object (exit_members b end))))
        ≡ low_amount (get_value32 b.amount)
  unfolding exit_members field_of same_bytes
  exit_amount-decoded b h =
      let key = codes "amount" in
      let token =
        hex_member (codes "token_address") (get_value20 (get_origin_token_address b.token_info))
          end in
      let rest = hex_member (codes "dest_address") (get_value20 b.dest_address) token in
      entry-amount_member (get_value32 b.amount) rest h (
        entry-hex_member nearest key (codes "dest_address") (get_value20 b.dest_address) token refl
        ∙ entry-hex_member nearest key (codes "token_address")
            (get_value20 (get_origin_token_address b.token_info)) end refl)

  exits_sum-decoded :
      (bs : List (Option BridgeExit))
      → AreSlices bs
      → exits_sum (values_of nearest (exit_elements bs)) ≡ exits_amount bs
  unfolding exit_elements
  exits_sum-decoded [] h = refl
  exits_sum-decoded (none ∷ rest) h = exits_sum-decoded rest h
  exits_sum-decoded (some b ∷ rest) h =
      ap₂ ◌+◌ (exit_amount-decoded b h.0) (exits_sum-decoded rest h.1)

  exits_field_sum-decoded :
      (bs : List (Option BridgeExit))
      → AreSlices bs
      → exits_field_sum (decoded_exits nearest bs) ≡ exits_amount bs
  unfolding decoded_exits
  exits_field_sum-decoded [] h = refl
  exits_field_sum-decoded (b ∷ bs) h = exits_sum-decoded (b ∷ bs) h

  -- In a text that decodes to the summary of a certificate, the network is that of the certificate,
  -- and the sum over the exits is that of the amounts of the certificate's exits, each modulo
  -- 2 ^ 64. A number below 2 ^ 53 is decoded exactly.
  pub extract_metadata-sum :
      (c : Conversions) (unmarshal : Bytes → Option Value) (x : ProtoCertificate) (b : ℕ)
      (s : Bytes)
      → IsConversion c
      → ((n : ℕ) → n < 2 ^ 53 → nearest n ≡ whole n)
      → unmarshal (b ∷ s) ≡ some (value_of nearest (extract_metadata (some x)))
      → x.network_id < 2 ^ 32
      → AreSlices x.bridge_exits
      → IsNumbered c unmarshal (metadata_object c unmarshal (b ∷ s))
        × ((n : ℕ)
            → object_sum c unmarshal n (metadata_object c unmarshal (b ∷ s))
              ≡ counted (x.network_id == n) (exits_amount x.bridge_exits))
  unfolding extract_metadata
  extract_metadata-sum c unmarshal x b s k exact read small slices =
      let m = fields_of nearest (certificate_members x) in
      let is_object : metadata_object c unmarshal (b ∷ s) ≡ some m = ap object_of read in
      let network : network_of c unmarshal m ≡ some x.network_id =
        ap (λ o. as_float o >>= λ f. some (c.to_uint32 f)) (entry-network nearest x)
        ∙ ap (λ f. some (c.to_uint32 f)) (exact x.network_id (omega (arith, small)))
        ∙ ap some (to_uint32-whole c k x.network_id small) in
      let amount : exits_field_sum (exits_of m) ≡ exits_amount x.bridge_exits =
        ap exits_field_sum (entry-exits nearest x)
        ∙ exits_field_sum-decoded x.bridge_exits slices in
      (
        subst (IsNumbered c unmarshal) (sym is_object) (x.network_id, network),
        λ n.
            ap (object_sum c unmarshal n) is_object
            ∙ ap₂ (λ o a. in_network c unmarshal n o a) network amount,
      )
