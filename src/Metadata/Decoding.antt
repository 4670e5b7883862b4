-- ===== src/Metadata/Decoding.antt =====
-- What is read back from the summary of a certificate that was printed as JSON.
use agg_certificate_proxy.Prelude.{
  ℕ, ◌≡◌, refl, ap, ◌∙◌, false, List, [], ◌∷◌, Option, none, some, Bytes, codes, same_bytes, ◌==◌,
  Bool-cases, inl, inr, length,
}
use agg_certificate_proxy.Decoded.{
  Float64, Value, float, string, list, map_of, Values, no_value, value, Fields, no_field, field,
  field_of, as_list,
}
use agg_certificate_proxy.Json.{
  Json, number, text, array, object, Elements, nil, cons, Members, end, member,
}
use agg_certificate_proxy.Metadata.{
  hex_member, exit_elements, exits_member, imported_member, imported_elements, count_member,
  aggchain_member, certificate_members,
}
use agg_certificate_proxy.Proto.Aggchain.{AggchainData}
use agg_certificate_proxy.Proto.Fields.{Slice, get_value32}
use agg_certificate_proxy.Proto.Interop.{BridgeExit, ImportedBridgeExit}
use agg_certificate_proxy.Proto.Node.{ProtoCertificate, get_l1_info_tree_leaf_count}
use agg_certificate_proxy.Text.Hex.{hex_0x}

-- The decoded form of a printed value. A number is the float64 that is nearest to it; the order of
-- a map is of no meaning, and here that of the members.
abbrev mutual
  pub value_of : (ℕ → Float64) → Json → Value
  value_of nearest (number n) = float (nearest n)
  value_of nearest (text s) = string s
  value_of nearest (array es) = list (values_of nearest es)
  value_of nearest (object ms) = map_of (fields_of nearest ms)

  pub values_of : (ℕ → Float64) → Elements → Values
  values_of nearest nil = no_value
  values_of nearest (cons j es) = value (value_of nearest j) (values_of nearest es)

  pub fields_of : (ℕ → Float64) → Members → Fields
  fields_of nearest end = no_field
  fields_of nearest (member key j ms) = field key (value_of nearest j) (fields_of nearest ms)

module _ (nearest : ℕ → Float64) where
  -- The entry of a key.
  abbrev pub entry : Bytes → Members → Option Value
  entry key ms = field_of key (fields_of nearest ms)

  pub entry-member :
      (key other : Bytes) (j : Json) (rest : Members)
      → same_bytes other key ≡ false
      → entry key (member other j rest) ≡ entry key rest
  unfolding field_of
  entry-member key other j rest e = rw e refl

  pub entry-hex_member :
      (key other : Bytes) (s : Slice) (rest : Members)
      → same_bytes other key ≡ false
      → entry key (hex_member other s rest) ≡ entry key rest
  unfolding hex_member
  entry-hex_member key other none rest e = refl
  entry-hex_member key other (some s) rest e = entry-member key other (text (hex_0x s)) rest e

  entry-count_member :
      (key : Bytes) (n : ℕ) (rest : Members)
      → same_bytes (codes "l1_info_tree_leaf_count") key ≡ false
      → entry key (count_member n rest) ≡ entry key rest
  unfolding count_member
  entry-count_member key n rest e = elim (Bool-cases (n == 0)) [
    | inl zero_count ↦ rw zero_count refl
    | inr some_count ↦
        rw some_count (entry-member key (codes "l1_info_tree_leaf_count") (number n) rest e)
  ]

  entry-imported_member :
      (key : Bytes) (bs : List (Option ImportedBridgeExit)) (rest : Members)
      → same_bytes (codes "imported_bridge_exits") key ≡ false
      → entry key (imported_member bs rest) ≡ entry key rest
  unfolding imported_member
  entry-imported_member key [] rest e = refl
  entry-imported_member key (b ∷ bs) rest e =
      entry-member key (codes "imported_bridge_exits") (array (imported_elements (b ∷ bs))) rest e

  entry-aggchain_member :
      (key : Bytes) (d : Option AggchainData)
      → same_bytes (codes "aggchain_data") key ≡ false
      → entry key (aggchain_member d) ≡ none
  unfolding aggchain_member field_of
  entry-aggchain_member key none e = refl
  entry-aggchain_member key (some d) e = rw e refl

  -- What the list of the exits is read back as: nothing if it is empty.
  unfoldable pub decoded_exits : List (Option BridgeExit) → Option Values
  decoded_exits [] = none
  decoded_exits (b ∷ bs) = some (values_of nearest (exit_elements (b ∷ bs)))

  entry-exits_member :
      (bs : List (Option BridgeExit)) (rest : Members)
      → entry (codes "bridge_exits") rest ≡ none
      → as_list (entry (codes "bridge_exits") (exits_member bs rest)) ≡ decoded_exits bs
  unfolding exits_member decoded_exits field_of same_bytes
  entry-exits_member [] rest e = ap as_list e
  entry-exits_member (b ∷ bs) rest e = refl

  -- The network of a summary.
  pub entry-network :
      (c : ProtoCertificate)
      → entry (codes "network_id") (certificate_members c) ≡ some (float (nearest c.network_id))
  unfolding certificate_members field_of same_bytes
  entry-network c = refl

  -- The exits of a summary.
  pub entry-exits :
      (c : ProtoCertificate)
      → as_list (entry (codes "bridge_exits") (certificate_members c))
        ≡ decoded_exits c.bridge_exits
  unfolding certificate_members field_of same_bytes
  entry-exits c =
      let key = codes "bridge_exits" in
      let last = aggchain_member c.aggchain_data in
      let count = count_member (get_l1_info_tree_leaf_count c) last in
      let custom = hex_member (codes "custom_chain_data") c.custom_chain_data count in
      let data_member = hex_member (codes "metadata") (get_value32 c.metadata) custom in
      let imported = imported_member c.imported_bridge_exits data_member in
      let counted =
        member (codes "imported_bridge_exits_count") (number (length c.imported_bridge_exits))
          imported in
      let exits = exits_member c.bridge_exits counted in
      let sized = member (codes "bridge_exits_count") (number (length c.bridge_exits)) exits in
      let root =
        hex_member (codes "new_local_exit_root") (get_value32 c.new_local_exit_root) sized in
      let absent : entry key counted ≡ none =
        entry-imported_member key c.imported_bridge_exits data_member refl
        ∙ entry-hex_member key (codes "metadata") (get_value32 c.metadata) custom refl
        ∙ entry-hex_member key (codes "custom_chain_data") c.custom_chain_data count refl
        ∙ entry-count_member key (get_l1_info_tree_leaf_count c) last refl
        ∙ entry-aggchain_member key c.aggchain_data refl in
      ap as_list (
        entry-hex_member key (codes "prev_local_exit_root") (get_value32 c.prev_local_exit_root)
          root refl
        ∙ entry-hex_member key (codes "new_local_exit_root") (get_value32 c.new_local_exit_root)
            sized refl)
      ∙ entry-exits_member c.bridge_exits counted absent
