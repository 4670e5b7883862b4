-- ===== src/Hashing/Identity.antt =====
-- What the identifier of a certificate fixes.
use agg_certificate_proxy.Prelude.{
  ◌^◌, ◌<◌, ◌≡◌, refl, ap, ap₂, ◌∙◌, sym, List, [], ◌∷◌, ◌++◌, Option, none, some, arith, Bytes,
  length, concat, parts_of_append, All,
}
use agg_certificate_proxy.Prelude.Maybe.{◌>>=◌, >>=-eq-some, some-eq}
use agg_certificate_proxy.Ethereum.{Ethereum, IsKeccak}
use agg_certificate_proxy.Proto.Fields.{contents, get_value32, FixedBytes32}
use agg_certificate_proxy.Proto.Interop.{BridgeExit, ImportedBridgeExit, get_mainnet, get_rollup}
use agg_certificate_proxy.Proto.Node.{ProtoCertificate, CertificateId}
use agg_certificate_proxy.Hashing.{
  put_uint32, uint64_to_bytes, exit_data, exit_hashes, hash_bridge_exit, claim_to_hash,
  reversed_global_index, hash_imported_bridge_exit, imported_hashes, certificate_data,
  generate_certificate_id,
}
use agg_certificate_proxy.Hashing.Binding.{length-put_uint32, length-uint64_to_bytes}
use agg_certificate_proxy.Hashing.Words.{put_uint32-injective, uint64_to_bytes-injective}

abbrev IsHash : Bytes → Type 0
IsHash h = length h ≡ 32

concat-injective :
    (es fs : List Bytes) → All IsHash es → All IsHash fs → concat es ≡ concat fs → es ≡ fs
concat-injective [] [] he hf e = refl
concat-injective [] (f ∷ fs) he hf e = absurd (head_missing f (concat fs) hf.0 e)
  where
    head_missing : (h r : Bytes) → IsHash h → [] ≡ h ++ r → ⊥
    head_missing [] r l e' = omega arith
    head_missing (a ∷ h) r l e' = cc
concat-injective (f ∷ es) [] he hf e = absurd (head_missing f (concat es) he.0 e)
  where
    head_missing : (h r : Bytes) → IsHash h → h ++ r ≡ [] → ⊥
    head_missing [] r l e' = omega arith
    head_missing (a ∷ h) r l e' = cc
concat-injective (e₁ ∷ es) (f ∷ fs) he hf e =
    let (first, rest) = parts_of_append e₁ f (concat es) (concat fs) (he.0 ∙ sym hf.0) e in
    cc (first, concat-injective es fs he.1 hf.1 rest)

module _ (eth : Ethereum) (k : IsKeccak eth) where
  hash_bridge_exit-IsHash :
      (b : Option BridgeExit) (h : Bytes) → hash_bridge_exit eth b ≡ some h → IsHash h
  unfolding hash_bridge_exit
  hash_bridge_exit-IsHash b h e =
      let (x, first, e₁) = >>=-eq-some (exit_data eth b) _ e in
      ground (arith, k.hash_length (x ∷ []))

  exit_hashes-IsHash :
      (bs : List (Option BridgeExit)) (es : List Bytes)
      → exit_hashes eth bs ≡ some es
      → All IsHash es
  unfolding exit_hashes
  exit_hashes-IsHash [] es e = ground arith
  exit_hashes-IsHash (b ∷ bs) es e =
      let (h, first, e₁) = >>=-eq-some (hash_bridge_exit eth b) _ e in
      let (hs, rest, e₂) = >>=-eq-some (exit_hashes eth bs) _ e₁ in
      ground (arith, hash_bridge_exit-IsHash b h first, exit_hashes-IsHash bs hs rest)

  imported_exit-IsHash :
      (b : Option ImportedBridgeExit) (h : Bytes)
      → hash_imported_bridge_exit eth b ≡ some h
      → IsHash h
  unfolding hash_imported_bridge_exit
  imported_exit-IsHash b h e =
      let (i, _, e₁) = >>=-eq-some b _ e in
      let (exit, _, e₂) = >>=-eq-some (hash_bridge_exit eth i.bridge_exit) _ e₁ in
      let (claim, _, e₃) =
        >>=-eq-some (claim_to_hash eth (get_mainnet i.claim) (get_rollup i.claim)) _ e₂ in
      let (index, _, e₄) = >>=-eq-some i.global_index _ e₃ in
      let (rev, _, e₅) = >>=-eq-some (reversed_global_index (contents index.value)) _ e₄ in
      ground (arith, k.hash_length ((exit ++ (claim ++ eth.keccak256_hash (rev ∷ []))) ∷ []))

  imported_hashes-IsHash :
      (bs : List (Option ImportedBridgeExit)) (es : List Bytes)
      → imported_hashes eth bs ≡ some es
      → All IsHash es
  unfolding imported_hashes
  imported_hashes-IsHash [] es e = ground arith
  imported_hashes-IsHash (b ∷ bs) es e =
      let (h, first, e₁) = >>=-eq-some (hash_imported_bridge_exit eth b) _ e in
      let (hs, rest, e₂) = >>=-eq-some (imported_hashes eth bs) _ e₁ in
      ground (arith, imported_exit-IsHash b h first, imported_hashes-IsHash bs hs rest)

-- The ranges of the protocol: a uint32, a uint64, and roots of 32 bytes.
pub record IsCertificate (c : ProtoCertificate) : Type 0 where
  pub network_fits : c.network_id < 2 ^ 32
  pub height_fits : c.height < 2 ^ 64
  pub prev_length : length (contents (get_value32 c.prev_local_exit_root)) ≡ 32
  pub new_length : length (contents (get_value32 c.new_local_exit_root)) ≡ 32

-- The buffer of a certificate whose exits are hashed.
abbrev certificate_buffer : Ethereum → ProtoCertificate → List Bytes → List Bytes → Bytes
certificate_buffer eth c es is =
    put_uint32 c.network_id
    ++ (uint64_to_bytes c.height
        ++ (contents (get_value32 c.prev_local_exit_root)
            ++ (contents (get_value32 c.new_local_exit_root)
                ++ (eth.keccak256_hash es
                    ++ (eth.keccak256_hash is ++ contents (get_value32 c.metadata))))))

-- Three pointers that are followed one after the other.
three_given :
    (p n m : Option FixedBytes32) (f : Bytes → Bytes → Bytes → Bytes) (x : Bytes)
    → (p >>= λ prev. n >>= λ new. m >>= λ metadata.
        some (f (contents prev.value) (contents new.value) (contents metadata.value)))
      ≡ some x
    → x ≡ f (contents (get_value32 p)) (contents (get_value32 n)) (contents (get_value32 m))
three_given (some p) (some n) (some m) f x e = ground arith
three_given none n m f x e = absurd (cc)
three_given (some p) none m f x e = absurd (cc)
three_given (some p) (some n) none f x e = absurd (cc)

certificate_data-buffer :
    (eth : Ethereum) (c : ProtoCertificate) (x : Bytes) (es is : List Bytes)
    → exit_hashes eth c.bridge_exits ≡ some es
    → imported_hashes eth c.imported_bridge_exits ≡ some is
    → certificate_data eth (some c) ≡ some x
    → x ≡ certificate_buffer eth c es is
unfolding certificate_data
certificate_data-buffer eth c x es is exits imported e =
    let (es', exits', e₁) = >>=-eq-some (exit_hashes eth c.bridge_exits) _ e in
    let (is', imported', e₂) = >>=-eq-some (imported_hashes eth c.imported_bridge_exits) _ e₁ in
    let buffer : x ≡ certificate_buffer eth c es' is' =
      three_given c.prev_local_exit_root c.new_local_exit_root c.metadata
        (λ prev new metadata.
          put_uint32 c.network_id
          ++ (uint64_to_bytes c.height
              ++ (prev
                  ++ (new ++ (eth.keccak256_hash es' ++ (eth.keccak256_hash is' ++ metadata))))))
        x e₂ in
    let same_exits : es' ≡ es = some-eq (sym exits' ∙ exits) in
    let same_imported : is' ≡ is = some-eq (sym imported' ∙ imported) in
    buffer ∙ ap₂ (certificate_buffer eth c) same_exits same_imported

-- What two certificates share.
pub record SameCertificate (eth : Ethereum) (c d : ProtoCertificate) : Type 0 where
  pub same_network : c.network_id ≡ d.network_id
  pub same_height : c.height ≡ d.height
  pub same_prev :
      contents (get_value32 c.prev_local_exit_root) ≡ contents (get_value32 d.prev_local_exit_root)
  pub same_new :
      contents (get_value32 c.new_local_exit_root) ≡ contents (get_value32 d.new_local_exit_root)
  pub same_exits : exit_hashes eth c.bridge_exits ≡ exit_hashes eth d.bridge_exits
  pub same_imported :
      imported_hashes eth c.imported_bridge_exits ≡ imported_hashes eth d.imported_bridge_exits
  pub same_metadata : contents (get_value32 c.metadata) ≡ contents (get_value32 d.metadata)

-- The hash does not collide at these two buffers.
abbrev pub NoCollision : Ethereum → Bytes → Bytes → Type 0
NoCollision eth x y = eth.keccak256_hash (x ∷ []) ≡ eth.keccak256_hash (y ∷ []) → x ≡ y

abbrev root : Option CertificateId → Bytes
root none = []
root (some i) = contents (get_value32 i.value)

id-buffer :
    (eth : Ethereum) (c : ProtoCertificate) (x : Bytes)
    → certificate_data eth (some c) ≡ some x
    → root (generate_certificate_id eth (some c)) ≡ eth.keccak256_hash (x ∷ [])
unfolding generate_certificate_id
id-buffer eth c x e = rw e

buffers_same :
    (eth : Ethereum) (k : IsKeccak eth) (c d : ProtoCertificate) (es fs is js : List Bytes)
    → IsCertificate c
    → IsCertificate d
    → certificate_buffer eth c es is ≡ certificate_buffer eth d fs js
    → (c.network_id ≡ d.network_id)
      × (c.height ≡ d.height)
      × (contents (get_value32 c.prev_local_exit_root)
          ≡ contents (get_value32 d.prev_local_exit_root))
      × (contents (get_value32 c.new_local_exit_root)
          ≡ contents (get_value32 d.new_local_exit_root))
      × (eth.keccak256_hash es ≡ eth.keccak256_hash fs)
      × (eth.keccak256_hash is ≡ eth.keccak256_hash js)
      × (contents (get_value32 c.metadata) ≡ contents (get_value32 d.metadata))
buffers_same eth k c d es fs is js vc vd e =
    let p₁ =
      parts_of_append (put_uint32 c.network_id) (put_uint32 d.network_id) _ _
        (length-put_uint32 c.network_id ∙ sym (length-put_uint32 d.network_id)) e in
    let p₂ =
      parts_of_append (uint64_to_bytes c.height) (uint64_to_bytes d.height) _ _
        (length-uint64_to_bytes c.height ∙ sym (length-uint64_to_bytes d.height)) p₁.1 in
    let p₃ =
      parts_of_append (contents (get_value32 c.prev_local_exit_root))
        (contents (get_value32 d.prev_local_exit_root)) _ _ (vc.prev_length ∙ sym vd.prev_length)
        p₂.1 in
    let p₄ =
      parts_of_append (contents (get_value32 c.new_local_exit_root))
        (contents (get_value32 d.new_local_exit_root)) _ _ (vc.new_length ∙ sym vd.new_length)
        p₃.1 in
    let p₅ =
      parts_of_append (eth.keccak256_hash es) (eth.keccak256_hash fs) _ _
        (k.hash_length es ∙ sym (k.hash_length fs)) p₄.1 in
    let p₆ =
      parts_of_append (eth.keccak256_hash is) (eth.keccak256_hash js) _ _
        (k.hash_length is ∙ sym (k.hash_length js)) p₅.1 in
    (
      put_uint32-injective _ _ vc.network_fits vd.network_fits p₁.0,
      uint64_to_bytes-injective _ _ vc.height_fits vd.height_fits p₂.0,
      p₃.0,
      p₄.0,
      p₅.0,
      p₆.0,
      p₆.1,
    )

hashes_same :
    (eth : Ethereum) (k : IsKeccak eth) (es fs : List Bytes)
    → All IsHash es
    → All IsHash fs
    → NoCollision eth (concat es) (concat fs)
    → eth.keccak256_hash es ≡ eth.keccak256_hash fs
    → es ≡ fs
hashes_same eth k es fs he hf free e =
    concat-injective es fs he hf (free (sym (k.hash_parts es) ∙ e ∙ k.hash_parts fs))

-- Two certificates within the ranges of the protocol that have one identifier agree in network,
-- height, exit roots, metadata and in the hashes of their exits and imported exits, one by one,
-- provided that the hash does not collide at the three pairs of buffers that it is given for them.
pub certificate_id_binds :
    (eth : Ethereum) (k : IsKeccak eth) (c d : ProtoCertificate) (x y : Bytes)
    (es fs is js : List Bytes)
    → IsCertificate c
    → IsCertificate d
    → certificate_data eth (some c) ≡ some x
    → certificate_data eth (some d) ≡ some y
    → exit_hashes eth c.bridge_exits ≡ some es
    → exit_hashes eth d.bridge_exits ≡ some fs
    → imported_hashes eth c.imported_bridge_exits ≡ some is
    → imported_hashes eth d.imported_bridge_exits ≡ some js
    → NoCollision eth x y
    → NoCollision eth (concat es) (concat fs)
    → NoCollision eth (concat is) (concat js)
    → generate_certificate_id eth (some c) ≡ generate_certificate_id eth (some d)
    → SameCertificate eth c d
certificate_id_binds eth k c d x y es fs is js vc vd ex ey e₁ e₂ e₃ e₄ free free₁ free₂ e =
    let same : x ≡ y = free (sym (id-buffer eth c x ex) ∙ ap root e ∙ id-buffer eth d y ey) in
    let buffers : certificate_buffer eth c es is ≡ certificate_buffer eth d fs js =
      sym (certificate_data-buffer eth c x es is e₁ e₃ ex)
      ∙ same
      ∙ certificate_data-buffer eth d y fs js e₂ e₄ ey in
    let (network, height, prev, new, exits, imported, metadata) =
      buffers_same eth k c d es fs is js vc vd buffers in
    record {
      same_network = network;
      same_height = height;
      same_prev = prev;
      same_new = new;
      same_exits =
          let same_list =
            hashes_same eth k es fs (exit_hashes-IsHash eth k _ es e₁)
              (exit_hashes-IsHash eth k _ fs e₂) free₁ exits in
          e₁ ∙ ap some same_list ∙ sym e₂;
      same_imported =
          let same_list =
            hashes_same eth k is js (imported_hashes-IsHash eth k _ is e₃)
              (imported_hashes-IsHash eth k _ js e₄) free₂ imported in
          e₃ ∙ ap some same_list ∙ sym e₄;
      same_metadata = metadata;
    }
