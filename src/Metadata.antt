-- ===== src/Metadata.antt =====
-- The functions extractMetadata and, for the amounts, bytesToUint64 of internal/certificate/grpc.go:
-- the summary of a certificate that is stored beside it.
pub mod Decoding
pub mod Totals
pub mod Reported
use agg_certificate_proxy.Prelude.{
  ℕ, List, [], ◌∷◌, Option, none, some, Bytes, codes, length, ◌==◌, if◌then◌else◌,
}
use agg_certificate_proxy.BigEndian.{bytes_to_uint64}
use agg_certificate_proxy.Json.{
  Json, number, text, array, object, Elements, nil, cons, Members, end, member,
}
use agg_certificate_proxy.Proto.Aggchain.{
  AggchainData, AggchainProof, Sp1StarkProof, get_signature, get_generic,
}
use agg_certificate_proxy.Proto.Fields.{Slice, get_value20, get_value32, get_value65}
use agg_certificate_proxy.Proto.Interop.{BridgeExit, ImportedBridgeExit, get_origin_token_address}
use agg_certificate_proxy.Proto.Node.{ProtoCertificate, get_l1_info_tree_leaf_count}
use agg_certificate_proxy.Text.Decimal.{format_uint}
use agg_certificate_proxy.Text.Hex.{hex_0x}

-- A member that is there if the slice is not nil: the slice in hexadecimal.
pub hex_member : Bytes → Slice → Members → Members
hex_member key none rest = rest
hex_member key (some s) rest = member key (text (hex_0x s)) rest

-- The amount in decimal, read as a uint64.
pub amount_member : Slice → Members → Members
amount_member none rest = rest
amount_member (some s) rest = member (codes "amount") (text (format_uint (bytes_to_uint64 s))) rest

exit_members : BridgeExit → Members → Members
unfolding hex_member amount_member
exit_members b rest = member (codes "dest_network") (number b.dest_network) (
    amount_member (get_value32 b.amount) (
      hex_member (codes "dest_address") (get_value20 b.dest_address) (
        hex_member (codes "token_address") (get_value20 (get_origin_token_address b.token_info))
          rest)))

-- A nil entry is passed over.
pub exit_elements : List (Option BridgeExit) → Elements
unfolding exit_members
exit_elements [] = nil
exit_elements (none ∷ rest) = exit_elements rest
exit_elements (some b ∷ rest) = cons (object (exit_members b end)) (exit_elements rest)

imported_element : Option BridgeExit → Slice → Elements → Elements
unfolding exit_members
imported_element none index rest = rest
imported_element (some b) index rest =
    cons (object (exit_members b (hex_member (codes "global_index") index end))) rest

imported_elements : List (Option ImportedBridgeExit) → Elements
unfolding imported_element
imported_elements [] = nil
imported_elements (none ∷ rest) = imported_elements rest
imported_elements (some i ∷ rest) =
    imported_element i.bridge_exit (get_value32 i.global_index) (imported_elements rest)

-- A member with the list, if the list of the certificate is not empty.
exits_member : List (Option BridgeExit) → Members → Members
unfolding exit_elements
exits_member [] rest = rest
exits_member (b ∷ bs) rest = member (codes "bridge_exits") (array (exit_elements (b ∷ bs))) rest

imported_member : List (Option ImportedBridgeExit) → Members → Members
unfolding imported_elements
imported_member [] rest = rest
imported_member (b ∷ bs) rest =
    member (codes "imported_bridge_exits") (array (imported_elements (b ∷ bs))) rest

count_member : ℕ → Members → Members
count_member n rest =
    if n == 0 then rest else member (codes "l1_info_tree_leaf_count") (number n) rest

context_member : Option (List (Bytes × Slice)) → Members → Members
context_member none rest = rest
context_member (some c) rest = member (codes "context_size") (number (length c)) rest

stark_member : Option Sp1StarkProof → Members
stark_member none = end
stark_member (some sp1) =
    member (codes "sp1_stark")
      (object (
        member (codes "version") (text sp1.version)
          (hex_member (codes "proof") sp1.proof (hex_member (codes "vkey") sp1.vkey end))))
      end

generic_member : Option AggchainProof → Members
unfolding hex_member context_member stark_member
generic_member none = end
generic_member (some g) =
    member (codes "generic")
      (object (
        hex_member (codes "aggchain_params") (get_value32 g.aggchain_params) (
          hex_member (codes "signature") (get_value65 g.signature)
            (context_member g.context (stark_member g.sp1_stark)))))
      end

aggchain_member : Option AggchainData → Members
unfolding generic_member
aggchain_member none = end
aggchain_member (some d) =
    member (codes "aggchain_data")
      (object (
        hex_member (codes "signature") (get_value65 (get_signature d))
          (generic_member (get_generic d))))
      end

pub certificate_members : ProtoCertificate → Members
unfolding hex_member exits_member imported_member count_member aggchain_member
certificate_members c = member (codes "height") (number c.height) (
    member (codes "network_id") (number c.network_id) (
      hex_member (codes "prev_local_exit_root") (get_value32 c.prev_local_exit_root) (
        hex_member (codes "new_local_exit_root") (get_value32 c.new_local_exit_root) (
          member (codes "bridge_exits_count") (number (length c.bridge_exits)) (
            exits_member c.bridge_exits (
              member (codes "imported_bridge_exits_count") (number (length c.imported_bridge_exits))
                (imported_member c.imported_bridge_exits (
                  hex_member (codes "metadata") (get_value32 c.metadata) (
                    hex_member (codes "custom_chain_data") c.custom_chain_data (
                      count_member (get_l1_info_tree_leaf_count c)
                        (aggchain_member c.aggchain_data)))))))))))

unfoldable pub extract_metadata : Option ProtoCertificate → Json
unfolding certificate_members
extract_metadata none = object end
extract_metadata (some c) = object (certificate_members c)
