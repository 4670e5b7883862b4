-- ===== src/Ethereum.antt =====
-- What the program takes from go-ethereum, a library outside the repository.
use agg_certificate_proxy.Prelude.{◌≡◌, List, [], ◌∷◌, Bytes, length, concat}

pub record Ethereum : Type 0 where
  -- crypto.Keccak256Hash(parts...).Bytes()
  pub keccak256_hash : List Bytes → Bytes
  -- common.HexToHash(text).Bytes()
  pub hex_to_hash : Bytes → Bytes
  -- common.BytesToAddress(bytes).Hex()
  pub address_hex : Bytes → Bytes

-- The documented behaviour of the hash: 32 bytes, of the parts one behind the other.
pub record IsKeccak (eth : Ethereum) : Type 0 where
  pub hash_length : (parts : List Bytes) → length (eth.keccak256_hash parts) ≡ 32
  pub hash_parts :
      (parts : List Bytes) → eth.keccak256_hash parts ≡ eth.keccak256_hash (concat parts ∷ [])
