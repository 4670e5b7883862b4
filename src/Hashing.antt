-- ===== src/Hashing.antt =====
-- internal/certificate/hashing.go. A function returns `none` where the Go code follows a nil
-- pointer or indexes out of range, which is a panic.
pub mod Words
pub mod Binding
pub mod Identity
use mathlib.Core.List.{reverse}
use agg_certificate_proxy.Prelude.{
  ℕ, ◌-◌, ◌/◌, ◌%◌, ◌^◌, Bool, List, [], ◌∷◌, ◌++◌, Option, none, some, Bytes, codes, length, take,
  drop, replicate, leb, if◌then◌else◌,
}
use agg_certificate_proxy.Prelude.Maybe.{◌>>=◌}
use agg_certificate_proxy.Ethereum.{Ethereum}
use agg_certificate_proxy.Proto.Fields.{contents, FixedBytes32, MerkleProof}
use agg_certificate_proxy.Proto.Interop.{
  LeafType, transfer, BridgeExit, TokenInfo, L1InfoTreeLeaf, L1InfoTreeLeafWithContext,
  ClaimFromMainnet, ClaimFromRollup, ImportedBridgeExit, get_mainnet, get_rollup,
}
use agg_certificate_proxy.Proto.Node.{ProtoCertificate, CertificateId}

-- binary.BigEndian.PutUint32
unfoldable pub put_uint32 : ℕ → Bytes
put_uint32 n = n / 2 ^ 24 % 256 ∷ n / 2 ^ 16 % 256 ∷ n / 2 ^ 8 % 256 ∷ n % 256 ∷ []

-- binary.BigEndian.PutUint64, in `uint64ToBytes` too
unfoldable pub uint64_to_bytes : ℕ → Bytes
uint64_to_bytes n =
    n / 2 ^ 56 % 256
    ∷ n / 2 ^ 48 % 256
    ∷ n / 2 ^ 40 % 256
    ∷ n / 2 ^ 32 % 256
    ∷ n / 2 ^ 24 % 256
    ∷ n / 2 ^ 16 % 256
    ∷ n / 2 ^ 8 % 256
    ∷ n % 256
    ∷ []

-- The amount as 32 bytes: zeros in front, or the rightmost 32 bytes.
unfoldable pub amount_bytes : Bytes → Bytes
amount_bytes s =
    if leb (length s) 32 then replicate (32 - length s) 0 ++ s else drop (length s - 32) s

unfoldable pub leaf_type_byte : LeafType → ℕ
leaf_type_byte transfer = 0
leaf_type_byte _ = 1

-- The constant EMPTY_METADATA_HASH.
abbrev pub empty_metadata_hash : Ethereum → Bytes
empty_metadata_hash eth =
    eth.hex_to_hash (codes "c5d2460186f7233c927e7db2dcc703c0e500b653ca82273b7bfad8045d85a470")

abbrev pub exit_metadata : Ethereum → Option FixedBytes32 → Bytes
exit_metadata eth none = empty_metadata_hash eth
exit_metadata eth (some m) = contents m.value

-- The buffer that `hashBridgeExit` fills.
unfoldable pub exit_data : Ethereum → Option BridgeExit → Option Bytes
exit_data eth exit = do
  b ← exit
  token ← b.token_info
  token_address ← token.origin_token_address
  dest_address ← b.dest_address
  amount ← b.amount
  some (
      leaf_type_byte b.leaf_type
      ∷ (put_uint32 token.origin_network
          ++ (contents token_address.value
              ++ (put_uint32 b.dest_network
                  ++ (contents dest_address.value
                      ++ (amount_bytes (contents amount.value) ++ exit_metadata eth b.metadata))))))

unfoldable pub hash_bridge_exit : Ethereum → Option BridgeExit → Option Bytes
hash_bridge_exit eth exit = do bytes ← exit_data eth exit; some (eth.keccak256_hash (bytes ∷ []))

-- The loop that appends the siblings of a Merkle proof.
unfoldable pub siblings_bytes : List (Option FixedBytes32) → Option Bytes
siblings_bytes [] = some []
siblings_bytes (leaf ∷ rest) = do
  l ← leaf
  bytes ← siblings_bytes rest
  some (contents l.value ++ bytes)

-- The hash of the root and the siblings as two parts, in the mainnet branch.
unfoldable pub proof_hash_parts : Ethereum → Option MerkleProof → Option Bytes
proof_hash_parts eth proof = do
  p ← proof
  siblings ← siblings_bytes p.siblings
  root ← p.root
  some (eth.keccak256_hash (contents root.value ∷ siblings ∷ []))

-- The hash of the root and the siblings in one buffer, in the rollup branch.
unfoldable pub proof_hash_joined : Ethereum → Option MerkleProof → Option Bytes
proof_hash_joined eth proof = do
  p ← proof
  root ← p.root
  siblings ← siblings_bytes p.siblings
  some (eth.keccak256_hash ((contents root.value ++ siblings) ∷ []))

unfoldable pub mainnet_hash : Ethereum → ClaimFromMainnet → Option Bytes
unfolding proof_hash_parts
mainnet_hash eth m = do
  leaf_mer ← proof_hash_parts eth m.proof_leaf_mer
  ger_l1root ← proof_hash_parts eth m.proof_ger_l1root
  leaf ← m.l1_leaf
  mer ← leaf.mer
  rer ← leaf.rer
  inner ← leaf.inner
  block_hash ← inner.block_hash
  let ger = eth.keccak256_hash (contents mer.value ∷ contents rer.value ∷ [])
  let l1_leaf =
      eth.keccak256_hash (ger ∷ contents block_hash.value ∷ uint64_to_bytes inner.timestamp ∷ [])
  some (eth.keccak256_hash (leaf_mer ∷ ger_l1root ∷ l1_leaf ∷ []))

unfoldable pub rollup_hash : Ethereum → ClaimFromRollup → Option Bytes
unfolding proof_hash_joined
rollup_hash eth r = do
  leaf_ler ← proof_hash_joined eth r.proof_leaf_ler
  ler_rer ← proof_hash_joined eth r.proof_ler_rer
  ger_l1root ← proof_hash_joined eth r.proof_ger_l1root
  leaf ← r.l1_leaf
  mer ← leaf.mer
  rer ← leaf.rer
  inner ← leaf.inner
  block_hash ← inner.block_hash
  let ger = eth.keccak256_hash ((contents mer.value ++ contents rer.value) ∷ [])
  let l1_leaf = ger ++ (contents block_hash.value ++ uint64_to_bytes inner.timestamp)
  some (eth.keccak256_hash (leaf_ler ∷ ler_rer ∷ ger_l1root ∷ l1_leaf ∷ []))

-- Nothing is appended where there is neither claim.
unfoldable pub claim_to_hash :
    Ethereum → Option ClaimFromMainnet → Option ClaimFromRollup → Option Bytes
unfolding mainnet_hash rollup_hash
claim_to_hash eth (some m) r = mainnet_hash eth m
claim_to_hash eth none (some r) = rollup_hash eth r
claim_to_hash eth none none = some []

-- The first 32 bytes of the global index, last one first.
unfoldable pub reversed_global_index : Bytes → Option Bytes
reversed_global_index v = if leb 32 (length v) then some (reverse (take 32 v)) else none

unfoldable pub hash_imported_bridge_exit : Ethereum → Option ImportedBridgeExit → Option Bytes
unfolding claim_to_hash reversed_global_index
hash_imported_bridge_exit eth imported = do
  b ← imported
  exit ← hash_bridge_exit eth b.bridge_exit
  claim ← claim_to_hash eth (get_mainnet b.claim) (get_rollup b.claim)
  index ← b.global_index
  reversed ← reversed_global_index (contents index.value)
  let global = eth.keccak256_hash (reversed ∷ [])
  some (eth.keccak256_hash ((exit ++ (claim ++ global)) ∷ []))

-- The loops that hash the elements of a list.
unfoldable pub exit_hashes : Ethereum → List (Option BridgeExit) → Option (List Bytes)
exit_hashes eth [] = some []
exit_hashes eth (b ∷ rest) = do
  hash ← hash_bridge_exit eth b
  hashes ← exit_hashes eth rest
  some (hash ∷ hashes)

unfoldable pub imported_hashes : Ethereum → List (Option ImportedBridgeExit) → Option (List Bytes)
imported_hashes eth [] = some []
imported_hashes eth (b ∷ rest) = do
  hash ← hash_imported_bridge_exit eth b
  hashes ← imported_hashes eth rest
  some (hash ∷ hashes)

-- The buffer `finalHash`.
unfoldable pub certificate_data : Ethereum → Option ProtoCertificate → Option Bytes
certificate_data eth certificate = do
  cert ← certificate
  exits ← exit_hashes eth cert.bridge_exits
  imported ← imported_hashes eth cert.imported_bridge_exits
  prev ← cert.prev_local_exit_root
  new ← cert.new_local_exit_root
  metadata ← cert.metadata
  some (
      put_uint32 cert.network_id
      ++ (uint64_to_bytes cert.height
          ++ (contents prev.value
              ++ (contents new.value
                  ++ (eth.keccak256_hash exits
                      ++ (eth.keccak256_hash imported ++ contents metadata.value))))))

unfoldable pub generate_certificate_id : Ethereum → Option ProtoCertificate → Option CertificateId
generate_certificate_id eth certificate = do
  bytes ← certificate_data eth certificate
  some (record { value = some (record { value = some (eth.keccak256_hash (bytes ∷ [])) }) })
