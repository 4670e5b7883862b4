-- ===== src/Loader/Certificate.antt =====
-- The loader reads a whole certificate back from its form.
use agg_certificate_proxy.Prelude.{
  ℕ, ◌+◌, ◌*◌, ◌/◌, ◌%◌, ◌^◌, ◌<◌, ◌≡◌, refl, sym, ap, ap₂, ◌∙◌, Bool, true, false, List, [], ◌∷◌,
  Option, none, some, Bytes, codes, same_bytes, ◌==◌, arith,
}
use agg_certificate_proxy.Prelude.Maybe.{◌>>=◌}
use agg_certificate_proxy.Decoded.{
  Value, map_of, Fields, field, no_field, Conversions, IsConversion, field_of, as_map, as_float,
  whole, to_uint32-whole, to_uint64-whole,
}
use agg_certificate_proxy.Loader.{
  map_to_bridge_exit, map_to_l1_info_tree_leaf_with_context, map_to_claim_from_mainnet,
  map_to_claim_from_rollup, map_to_merkle_proof, fixed32, or_zero, uint64_field, claim_of,
  global_index_of, global_index_bytes, flag_byte, map_to_imported_bridge_exit, maps_of,
  certificate_from, certificate_from_json,
}
use agg_certificate_proxy.Loader.Index.{global_index_bytes_lem}
use agg_certificate_proxy.Loader.Form.{
  IsNilOr, IsFormProof, IsFormExit, bridge_exit_fields, merkle_proof_fields, map_or_null,
  inner_fields, IsFormInner, l1_leaf_fields, IsFormLeaf, mainnet_fields, rollup_fields,
  claim_fields, IsFormMainnet, IsFormRollup, IsFormClaim, index_value, index_fields, IsFormIndex,
  imported_fields, IsFormImported, list_values, AllGiven, count_value, certificate_fields,
  IsFormCertificate,
}
use agg_certificate_proxy.Loader.RoundTrip.{
  read32-value32, read_metadata-value32, nested-map_or_null, merkle_proof-fields,
  bridge_exit-fields,
}
use agg_certificate_proxy.Proto.Fields.{FixedBytes32, MerkleProof}
use agg_certificate_proxy.Proto.Interop.{
  BridgeExit, L1InfoTreeLeaf, L1InfoTreeLeafWithContext, ClaimFromMainnet, ClaimFromRollup, Claim,
  mainnet, rollup, ImportedBridgeExit,
}
use agg_certificate_proxy.Proto.Node.{ProtoCertificate}

list_of-values :
    {A : Type 0} (P : A → Type 0) (f : A → Fields) (g : Fields → A)
    → ((a : A) → P a → g (f a) ≡ a)
    → (l : List (Option A)) → AllGiven P l
    → maps_of g (list_values f l) ≡ l
unfolding maps_of
list_of-values P f g h [] all = refl
list_of-values P f g h (o ∷ rest) ((a, e, fits), more) =
    rw e (ap₂ ◌∷◌ (ap some (h a fits)) (list_of-values P f g h rest more))

proof-nested :
    (o : Option MerkleProof)
    → IsNilOr IsFormProof o
    → (as_map (some (map_or_null merkle_proof_fields o)) >>= λ p. some (map_to_merkle_proof p)) ≡ o
proof-nested =
    nested-map_or_null IsFormProof merkle_proof_fields map_to_merkle_proof merkle_proof-fields

module _ (c : Conversions) (k : IsConversion c) where
  abbrev inner_of : Fields → L1InfoTreeLeaf
  inner_of i = record {
    global_exit_root = fixed32 (codes "global_exit_root") i;
    block_hash = fixed32 (codes "block_hash") i;
    timestamp = or_zero (uint64_field c (codes "timestamp") i);
  }

  inner-fields : (l : L1InfoTreeLeaf) → IsFormInner l → inner_of (inner_fields l) ≡ l
  unfolding field_of same_bytes
  inner-fields l h = λ i. record {
    global_exit_root = read32-value32 l.global_exit_root h.root_given i;
    block_hash = read32-value32 l.block_hash h.hash_given i;
    timestamp = to_uint64-whole c k l.timestamp (omega (arith, h.timestamp_fits)) i;
  }

  l1_leaf-fields :
      (l : L1InfoTreeLeafWithContext)
      → IsFormLeaf l
      → map_to_l1_info_tree_leaf_with_context c (l1_leaf_fields l) ≡ l
  unfolding map_to_l1_info_tree_leaf_with_context field_of same_bytes
  l1_leaf-fields l h = λ i. record {
    l1_info_tree_index = to_uint32-whole c k l.l1_info_tree_index h.index_fits i;
    rer = read32-value32 l.rer h.rer_given i;
    mer = read32-value32 l.mer h.mer_given i;
    inner =
        nested-map_or_null IsFormInner inner_fields inner_of inner-fields l.inner h.inner_fits i;
  }

  leaf-nested :
      (o : Option L1InfoTreeLeafWithContext)
      → IsNilOr IsFormLeaf o
      → (as_map (some (map_or_null l1_leaf_fields o)) >>= λ l.
          some (map_to_l1_info_tree_leaf_with_context c l))
        ≡ o
  leaf-nested =
      nested-map_or_null IsFormLeaf l1_leaf_fields (map_to_l1_info_tree_leaf_with_context c)
        l1_leaf-fields

  mainnet-fields :
      (m : ClaimFromMainnet) → IsFormMainnet m → map_to_claim_from_mainnet c (mainnet_fields m) ≡ m
  unfolding map_to_claim_from_mainnet field_of same_bytes
  mainnet-fields m h = λ i. record {
    proof_leaf_mer = proof-nested m.proof_leaf_mer h.leaf_proof i;
    proof_ger_l1root = proof-nested m.proof_ger_l1root h.root_proof i;
    l1_leaf = leaf-nested m.l1_leaf h.leaf i;
  }

  rollup-fields :
      (r : ClaimFromRollup) → IsFormRollup r → map_to_claim_from_rollup c (rollup_fields r) ≡ r
  unfolding map_to_claim_from_rollup field_of same_bytes
  rollup-fields r h = λ i. record {
    proof_leaf_ler = proof-nested r.proof_leaf_ler h.leaf_proof i;
    proof_ler_rer = proof-nested r.proof_ler_rer h.exit_proof i;
    proof_ger_l1root = proof-nested r.proof_ger_l1root h.root_proof i;
    l1_leaf = leaf-nested r.l1_leaf h.leaf i;
  }

  claim-fields : (o : Claim) → IsFormClaim o → claim_of c (claim_fields o) ≡ some o
  unfolding field_of same_bytes
  claim-fields (mainnet m) (a, e, h) = rw (e, mainnet-fields a h) refl
  claim-fields (rollup r) (a, e, h) = rw (e, rollup-fields a h) refl

  -- The parts of a global index are read off the number that it spells.
  flag_of-number :
      (flag : Bool) (r l : ℕ)
      → r < 2 ^ 32
      → l < 2 ^ 32
      → ((flag_byte flag * 2 ^ 64 + r * 2 ^ 32 + l) / 2 ^ 64 == 1) ≡ flag
  flag_of-number true r l hr hl = ground arith
  flag_of-number false r l hr hl = ground arith

  rollup_of-number :
      (flag : Bool) (r l : ℕ)
      → r < 2 ^ 32
      → l < 2 ^ 32
      → (flag_byte flag * 2 ^ 64 + r * 2 ^ 32 + l) / 2 ^ 32 % 2 ^ 32 ≡ r
  rollup_of-number true r l hr hl = omega arith
  rollup_of-number false r l hr hl = omega arith

  leaf_of-number :
      (flag : Bool) (r l : ℕ)
      → r < 2 ^ 32
      → l < 2 ^ 32
      → (flag_byte flag * 2 ^ 64 + r * 2 ^ 32 + l) % 2 ^ 32 ≡ l
  leaf_of-number true r l hr hl = omega arith
  leaf_of-number false r l hr hl = omega arith

  global_index-fields :
      (b : FixedBytes32) → IsFormIndex b → global_index_of c (index_fields b) ≡ some b
  unfolding field_of same_bytes
  global_index-fields b (flag, r, l, hr, hl, e) =
      let n : index_value b.value ≡ flag_byte flag * 2 ^ 64 + r * 2 ^ 32 + l =
        ap index_value e ∙ (global_index_bytes_lem flag r l hr hl).0 in
      let ff : (index_value b.value / 2 ^ 64 == 1) ≡ flag =
        ap (λ x. x / 2 ^ 64 == 1) n ∙ flag_of-number flag r l hr hl in
      let rr : c.to_uint32 (whole (index_value b.value / 2 ^ 32 % 2 ^ 32)) ≡ r =
        ap (λ x. c.to_uint32 (whole x))
          (ap (λ x. x / 2 ^ 32 % 2 ^ 32) n ∙ rollup_of-number flag r l hr hl)
        ∙ to_uint32-whole c k r hr in
      let ll : c.to_uint32 (whole (index_value b.value % 2 ^ 32)) ≡ l =
        ap (λ x. c.to_uint32 (whole x)) (ap (λ x. x % 2 ^ 32) n ∙ leaf_of-number flag r l hr hl)
        ∙ to_uint32-whole c k l hl in
      (λ i. some (record { value = some (global_index_bytes (ff i) (rr i) (ll i)) }))
      ∙ ap (λ v. some (record { value = v })) (sym e)

  -- A map that may be null, read by a function that may fail.
  partial-map_or_null :
      {A : Type 0} (P : A → Type 0) (f : A → Fields) (g : Fields → Option A)
      → ((a : A) → P a → g (f a) ≡ some a)
      → (o : Option A) → IsNilOr P o
      → (as_map (some (map_or_null f o)) >>= g) ≡ o
  partial-map_or_null P f g h none fits = refl
  partial-map_or_null P f g h (some a) fits = h a fits

  exit-nested :
      (o : Option BridgeExit)
      → IsNilOr IsFormExit o
      → (as_map (some (map_or_null bridge_exit_fields o)) >>= λ b. some (map_to_bridge_exit c b))
        ≡ o
  exit-nested =
      nested-map_or_null IsFormExit bridge_exit_fields (map_to_bridge_exit c)
        (bridge_exit-fields c k)

  imported-fields :
      (i : ImportedBridgeExit)
      → IsFormImported i
      → map_to_imported_bridge_exit c (imported_fields i) ≡ i
  unfolding map_to_imported_bridge_exit field_of same_bytes
  imported-fields x h = λ i. record {
    bridge_exit = exit-nested x.bridge_exit h.exit_fits i;
    global_index =
        partial-map_or_null IsFormIndex index_fields (global_index_of c) global_index-fields
          x.global_index h.index_fits i;
    claim =
        partial-map_or_null IsFormClaim claim_fields (claim_of c) claim-fields x.claim h.claim_fits
          i;
  }

  count-value :
      (o : Option ℕ)
      → IsNilOr (λ n. n < 2 ^ 32) o
      → (as_float (some (count_value o)) >>= λ f. some (c.to_uint32 f)) ≡ o
  count-value none h = refl
  count-value (some n) h = ap some (to_uint32-whole c k n h)

  certificate-fields :
      (x : ProtoCertificate) → IsFormCertificate x → certificate_from c (certificate_fields x) ≡ x
  unfolding certificate_from field_of same_bytes
  certificate-fields x h = λ i. record {
    network_id = to_uint32-whole c k x.network_id h.network_fits i;
    height = to_uint64-whole c k x.height (omega (arith, h.height_fits)) i;
    prev_local_exit_root = read32-value32 x.prev_local_exit_root h.prev_given i;
    new_local_exit_root = read32-value32 x.new_local_exit_root h.new_given i;
    bridge_exits =
        list_of-values IsFormExit bridge_exit_fields (map_to_bridge_exit c) (bridge_exit-fields c k)
          x.bridge_exits h.exits_given i;
    imported_bridge_exits =
        list_of-values IsFormImported imported_fields (map_to_imported_bridge_exit c)
          imported-fields x.imported_bridge_exits h.imported_given i;
    metadata =
        read_metadata-value32 x.metadata
          (field (codes "l1_info_tree_leaf_count") (count_value x.l1_info_tree_leaf_count) no_field)
          h.metadata_given i;
    aggchain_data = sym h.no_aggchain i;
    custom_chain_data = sym h.no_custom i;
    l1_info_tree_leaf_count = count-value x.l1_info_tree_leaf_count h.count_fits i;
  }

  -- CertificateFromJSON, given a text that the decoder takes to the form of a certificate, returns
  -- that certificate, with its exits and imported exits, proofs and claims, for every certificate
  -- that a form can hold.
  pub certificate_from_json-form :
      (unmarshal : Bytes → Option Value) (text : Bytes) (x : ProtoCertificate)
      → IsFormCertificate x
      → unmarshal text ≡ some (map_of (certificate_fields x))
      → certificate_from_json c unmarshal text ≡ some x
  unfolding certificate_from_json
  certificate_from_json-form unmarshal text x h e = rw e (ap some (certificate-fields x h))
