-- ===== src/Loader/RoundTrip.antt =====
-- The loader reads the exits and the proofs of a certificate back from their form.
use agg_certificate_proxy.Prelude.{
  ◌%◌, ◌≡◌, refl, ap, ap₂, false, List, [], ◌∷◌, Option, none, some, Bytes, codes, length, All,
  same_bytes, arith,
}
use agg_certificate_proxy.Prelude.Maybe.{◌>>=◌}
use agg_certificate_proxy.Decoded.{
  Value, field, no_field, Fields, Conversions, IsConversion, field_of, as_string, as_map,
  to_uint32-whole,
}
use agg_certificate_proxy.Loader.{
  hex_string_to_bytes, map_to_bridge_exit, map_to_merkle_proof, siblings_of, token_info_of,
  metadata_field, is_absent, leaf_type_of,
}
use agg_certificate_proxy.Loader.Form.{
  IsNilOr, value20, value32, Is20, Is32, IsKnown, unspecified_known, transfer_known, message_known,
  leaf_type_value, map_or_null, token_info_fields, bridge_exit_fields, IsFormToken, IsFormExit,
  sibling_values, merkle_proof_fields, IsSibling, IsFormProof,
}
use agg_certificate_proxy.Proto.Fields.{FixedBytes20, FixedBytes32, MerkleProof}
use agg_certificate_proxy.Proto.Interop.{
  LeafType, unspecified, transfer, message, unrecognized, BridgeExit, TokenInfo,
}
use agg_certificate_proxy.Text.Hex.{hex, hex_0x, trim_0x, decode_hex-hex, AllBytes}

length-hex : (s : Bytes) → length (hex s) % 2 ≡ 0
unfolding hex
length-hex [] = refl
length-hex (b ∷ s) = omega (arith, length-hex s)

-- Bytes in hexadecimal are read back.
hex_string_to_bytes-hex_0x : (s : Bytes) → AllBytes s → hex_string_to_bytes (hex_0x s) ≡ some s
unfolding hex_string_to_bytes hex_0x trim_0x same_bytes
hex_string_to_bytes-hex_0x s h = rw (length-hex s) (decode_hex-hex s h)

abbrev read32 : Value → Option FixedBytes32
read32 v = as_string (some v) >>= hex_string_to_bytes >>= λ b. some (record { value = some b })

pub read32-value32 : (o : Option FixedBytes32) → Is32 o → read32 (value32 o) ≡ o
read32-value32 none h = refl
read32-value32 (some f) (b, e, all) = rw (e, hex_string_to_bytes-hex_0x b all) refl

abbrev read20 : Value → Option FixedBytes20
read20 v = as_string (some v) >>= hex_string_to_bytes >>= λ b. some (record { value = some b })

read20-value20 : (o : Option FixedBytes20) → Is20 o → read20 (value20 o) ≡ o
read20-value20 none h = refl
read20-value20 (some f) (b, e, all) = rw (e, hex_string_to_bytes-hex_0x b all) refl

absent-hex_0x : (s : Bytes) → is_absent (hex_0x s) ≡ false
unfolding hex_0x same_bytes
absent-hex_0x s = refl

pub read_metadata-value32 :
    (o : Option FixedBytes32) (m : Fields)
    → Is32 o
    → metadata_field (field (codes "metadata") (value32 o) m) ≡ o
unfolding field_of same_bytes
read_metadata-value32 none m h = refl
read_metadata-value32 (some f) m (b, e, all) =
    rw (e, absent-hex_0x b, hex_string_to_bytes-hex_0x b all) refl

leaf_type-value :
    (l : LeafType) → IsKnown l → leaf_type_of (as_string (some (leaf_type_value l))) ≡ l
unfolding same_bytes
leaf_type-value unspecified unspecified_known = refl
leaf_type-value transfer transfer_known = refl
leaf_type-value message message_known = refl
leaf_type-value (unrecognized n) h = elim h [ ]

-- A map that may be null, read by a function that reads the form of each value.
pub nested-map_or_null :
    {A : Type 0} (P : A → Type 0) (f : A → Fields) (g : Fields → A)
    → ((a : A) → P a → g (f a) ≡ a)
    → (o : Option A) → IsNilOr P o
    → (as_map (some (map_or_null f o)) >>= λ m. some (g m)) ≡ o
nested-map_or_null P f g h none fits = refl
nested-map_or_null P f g h (some a) fits = ap some (h a fits)

siblings_of-values :
    (s : List (Option FixedBytes32)) → All IsSibling s → siblings_of (sibling_values s) ≡ s
unfolding siblings_of
siblings_of-values [] h = refl
siblings_of-values (o ∷ rest) ((f, e, (b, g, all)), more) =
    rw (e, g, hex_string_to_bytes-hex_0x b all) (ap₂ ◌∷◌ refl (siblings_of-values rest more))

pub merkle_proof-fields :
    (p : MerkleProof) → IsFormProof p → map_to_merkle_proof (merkle_proof_fields p) ≡ p
unfolding map_to_merkle_proof field_of same_bytes
merkle_proof-fields p h = λ i. record {
  root = read32-value32 p.root h.root_given i;
  siblings = siblings_of-values p.siblings h.siblings_given i;
}

module _ (c : Conversions) (k : IsConversion c) where
  token_info-fields : (t : TokenInfo) → IsFormToken t → token_info_of c (token_info_fields t) ≡ t
  unfolding field_of same_bytes
  token_info-fields t h = λ i. record {
    origin_network = to_uint32-whole c k t.origin_network h.network_fits i;
    origin_token_address = read20-value20 t.origin_token_address h.address_given i;
  }

  pub bridge_exit-fields :
      (b : BridgeExit) → IsFormExit b → map_to_bridge_exit c (bridge_exit_fields b) ≡ b
  unfolding map_to_bridge_exit field_of same_bytes
  bridge_exit-fields b h = λ i. record {
    leaf_type = leaf_type-value b.leaf_type h.leaf_known i;
    token_info =
        nested-map_or_null IsFormToken token_info_fields (token_info_of c) token_info-fields
          b.token_info h.token_fits i;
    dest_network = to_uint32-whole c k b.dest_network h.network_fits i;
    dest_address = read20-value20 b.dest_address h.address_given i;
    amount = read32-value32 b.amount h.amount_given i;
    metadata = read_metadata-value32 b.metadata no_field h.metadata_given i;
  }
