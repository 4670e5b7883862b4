-- ===== src/Hashing/Binding.antt =====
-- What the hashed buffers fix: the fields of a bridge exit, and those of a certificate.
use agg_certificate_proxy.Prelude.{
  ℕ, ◌^◌, ◌<◌, ◌≡◌, refl, ◌∙◌, sym, ◌∷◌, ◌++◌, some, arith, Bytes, length, parts_of_append,
}
use agg_certificate_proxy.Prelude.Maybe.{>>=-eq-some}
use agg_certificate_proxy.Ethereum.{Ethereum}
use agg_certificate_proxy.Proto.Fields.{contents, get_value20, get_value32}
use agg_certificate_proxy.Proto.Interop.{BridgeExit, get_origin_network, get_origin_token_address}
use agg_certificate_proxy.Hashing.{
  put_uint32, uint64_to_bytes, amount_bytes, leaf_type_byte, exit_metadata, exit_data,
}
use agg_certificate_proxy.Hashing.Words.{put_uint32-injective, length-amount_bytes}

pub length-put_uint32 : (n : ℕ) → length (put_uint32 n) ≡ 4
unfolding put_uint32
length-put_uint32 n = refl

pub length-uint64_to_bytes : (n : ℕ) → length (uint64_to_bytes n) ≡ 8
unfolding uint64_to_bytes
length-uint64_to_bytes n = refl

abbrev token_address : BridgeExit → Bytes
token_address b = contents (get_value20 (get_origin_token_address b.token_info))

abbrev dest_address : BridgeExit → Bytes
dest_address b = contents (get_value20 b.dest_address)

-- The ranges of the protocol: numbers of networks are uint32, addresses have twenty bytes.
pub record IsExit (b : BridgeExit) : Type 0 where
  pub network_fits : get_origin_network b.token_info < 2 ^ 32
  pub token_address_length : length (token_address b) ≡ 20
  pub dest_fits : b.dest_network < 2 ^ 32
  pub dest_address_length : length (dest_address b) ≡ 20

-- The buffer of an exit whose parts are known.
abbrev exit_buffer : ℕ → ℕ → Bytes → ℕ → Bytes → Bytes → Bytes → Bytes
exit_buffer leaf network token dest address amount metadata =
    leaf
    ∷ (put_uint32 network
        ++ (token ++ (put_uint32 dest ++ (address ++ (amount_bytes amount ++ metadata)))))

exit_buffer-injective :
    (leaf leaf' network network' : ℕ) (token token' : Bytes) (dest dest' : ℕ)
    (address address' amount amount' metadata metadata' : Bytes)
    → length token ≡ length token'
    → length address ≡ length address'
    → exit_buffer leaf network token dest address amount metadata
      ≡ exit_buffer leaf' network' token' dest' address' amount' metadata'
    → (leaf ≡ leaf')
      × (put_uint32 network ≡ put_uint32 network')
      × (token ≡ token')
      × (put_uint32 dest ≡ put_uint32 dest')
      × (address ≡ address')
      × (amount_bytes amount ≡ amount_bytes amount')
      × (metadata ≡ metadata')
exit_buffer-injective l l' n n' t t' d d' a a' m m' x x' ht ha e =
    let first : l ≡ l' = ground arith in
    let rest : put_uint32 n ++ (t ++ (put_uint32 d ++ (a ++ (amount_bytes m ++ x))))
        ≡ put_uint32 n' ++ (t' ++ (put_uint32 d' ++ (a' ++ (amount_bytes m' ++ x')))) =
      ground arith in
    let p₁ =
      parts_of_append (put_uint32 n) (put_uint32 n') _ _
        (length-put_uint32 n ∙ sym (length-put_uint32 n')) rest in
    let p₂ = parts_of_append t t' _ _ ht p₁.1 in
    let p₃ =
      parts_of_append (put_uint32 d) (put_uint32 d') _ _
        (length-put_uint32 d ∙ sym (length-put_uint32 d')) p₂.1 in
    let p₄ = parts_of_append a a' _ _ ha p₃.1 in
    let p₅ =
      parts_of_append (amount_bytes m) (amount_bytes m') _ _
        (length-amount_bytes m ∙ sym (length-amount_bytes m')) p₄.1 in
    (first, p₁.0, p₂.0, p₃.0, p₄.0, p₅.0, p₅.1)

exit_data-buffer :
    (eth : Ethereum) (b : BridgeExit) (x : Bytes)
    → exit_data eth (some b) ≡ some x
    → x
      ≡ exit_buffer
          (leaf_type_byte b.leaf_type)
          (get_origin_network b.token_info)
          (token_address b)
          b.dest_network
          (dest_address b)
          (contents (get_value32 b.amount))
          (exit_metadata eth b.metadata)
unfolding exit_data
exit_data-buffer eth b x e =
    let (token, token_eq, e₁) = >>=-eq-some b.token_info _ e in
    let (origin, origin_eq, e₂) = >>=-eq-some token.origin_token_address _ e₁ in
    let (dest, dest_eq, e₃) = >>=-eq-some b.dest_address _ e₂ in
    let (amount, amount_eq, e₄) = >>=-eq-some b.amount _ e₃ in
    rw (token_eq, origin_eq, dest_eq, amount_eq) (ground arith)

-- What two exits share if the hash buffers are the same.
pub record SameExit (eth : Ethereum) (b c : BridgeExit) : Type 0 where
  pub same_leaf : leaf_type_byte b.leaf_type ≡ leaf_type_byte c.leaf_type
  pub same_network : get_origin_network b.token_info ≡ get_origin_network c.token_info
  pub same_token : token_address b ≡ token_address c
  pub same_dest : b.dest_network ≡ c.dest_network
  pub same_dest_address : dest_address b ≡ dest_address c
  pub same_amount :
      amount_bytes (contents (get_value32 b.amount))
      ≡ amount_bytes (contents (get_value32 c.amount))
  pub same_metadata : exit_metadata eth b.metadata ≡ exit_metadata eth c.metadata

-- Two exits with networks below 2 ^ 32 and addresses of 20 bytes, which are hashed from the same
-- buffer, agree in every field of it.
pub exit_data-injective :
    (eth : Ethereum) (b c : BridgeExit) (x : Bytes)
    → IsExit b
    → IsExit c
    → exit_data eth (some b) ≡ some x
    → exit_data eth (some c) ≡ some x
    → SameExit eth b c
exit_data-injective eth b c x vb vc eb ec =
    let (leaf, network, token, dest, address, amount, metadata) =
      exit_buffer-injective (leaf_type_byte b.leaf_type) (leaf_type_byte c.leaf_type)
        (get_origin_network b.token_info) (get_origin_network c.token_info) (token_address b)
        (token_address c) b.dest_network c.dest_network (dest_address b) (dest_address c)
        (contents (get_value32 b.amount)) (contents (get_value32 c.amount))
        (exit_metadata eth b.metadata) (exit_metadata eth c.metadata)
        (vb.token_address_length ∙ sym vc.token_address_length)
        (vb.dest_address_length ∙ sym vc.dest_address_length)
        (sym (exit_data-buffer eth b x eb) ∙ exit_data-buffer eth c x ec) in
    record {
      same_leaf = leaf;
      same_network = put_uint32-injective _ _ vb.network_fits vc.network_fits network;
      same_token = token;
      same_dest = put_uint32-injective _ _ vb.dest_fits vc.dest_fits dest;
      same_dest_address = address;
      same_amount = amount;
      same_metadata = metadata;
    }
