-- ===== src/Examples/Hashes.antt =====
-- The identifier of a certificate, and the hash of an exit.
use agg_certificate_proxy.Prelude.{
  ◌%◌, ◌^◌, ◌<◌, ◌≡◌, refl, List, [], Option, none, some, Bytes, replicate, All-replicate, arith,
}
use agg_certificate_proxy.BigEndian.{set_bytes}
use agg_certificate_proxy.Examples.{
  some_ethereum, some_ethereum-IsKeccak, some_certificate, some_exit,
}
use agg_certificate_proxy.Hashing.{
  amount_bytes, leaf_type_byte, certificate_data, exit_hashes, imported_hashes, exit_data,
  generate_certificate_id, hash_bridge_exit,
}
use agg_certificate_proxy.Hashing.Words.{set_bytes-amount_bytes}
use agg_certificate_proxy.Hashing.Binding.{IsExit, SameExit, exit_data-injective}
use agg_certificate_proxy.Hashing.Identity.{IsCertificate, SameCertificate, certificate_id_binds}
use agg_certificate_proxy.Proto.Interop.{BridgeExit, message, unrecognized}
use agg_certificate_proxy.Proto.Node.{ProtoCertificate}

abbrev or_nothing {ℓ} : {A : Type ℓ} → A → Option A → A
or_nothing a none = a
or_nothing a (some b) = b

-- It differs from the other in a field that is not hashed.
abbrev like_certificate : ProtoCertificate
like_certificate = record some_certificate { l1_info_tree_leaf_count = some 3 }

abbrev data_of : ProtoCertificate → Bytes
data_of c = or_nothing [] (certificate_data some_ethereum (some c))

abbrev hashes_of : ProtoCertificate → List Bytes
hashes_of c = or_nothing [] (exit_hashes some_ethereum c.bridge_exits)

is_certificate : IsCertificate some_certificate
is_certificate = record {
  network_fits = omega arith;
  height_fits = omega arith;
  prev_length = refl;
  new_length = refl;
}

is_like_certificate : IsCertificate like_certificate
is_like_certificate = record {
  network_fits = omega arith;
  height_fits = omega arith;
  prev_length = refl;
  new_length = refl;
}

certificate_id_binds_example : SameCertificate some_ethereum some_certificate like_certificate
unfolding certificate_data exit_hashes imported_hashes hash_bridge_exit exit_data
    generate_certificate_id
certificate_id_binds_example =
    certificate_id_binds some_ethereum some_ethereum-IsKeccak some_certificate like_certificate
      (data_of some_certificate) (data_of like_certificate) (hashes_of some_certificate)
      (hashes_of like_certificate) [] [] is_certificate is_like_certificate refl refl refl refl refl
      refl (λ e. refl) (λ e. refl) (λ e. refl) refl

-- Every leaf type but the transfer is hashed as 1.
abbrev message_exit : BridgeExit
message_exit = record some_exit { leaf_type = message }

abbrev odd_exit : BridgeExit
odd_exit = record some_exit { leaf_type = unrecognized 256 }

abbrev exit_bytes : Bytes
exit_bytes = or_nothing [] (exit_data some_ethereum (some message_exit))

message_exit-IsExit : IsExit message_exit
message_exit-IsExit = record {
  network_fits = omega arith;
  token_address_length = refl;
  dest_fits = omega arith;
  dest_address_length = refl;
}

odd_exit-IsExit : IsExit odd_exit
odd_exit-IsExit = record {
  network_fits = omega arith;
  token_address_length = refl;
  dest_fits = omega arith;
  dest_address_length = refl;
}

exit_data-injective_example : SameExit some_ethereum message_exit odd_exit
unfolding exit_data leaf_type_byte
exit_data-injective_example =
    exit_data-injective some_ethereum message_exit odd_exit exit_bytes message_exit-IsExit
      odd_exit-IsExit refl refl

set_bytes-amount_bytes_example :
    set_bytes (amount_bytes (replicate 33 1)) ≡ set_bytes (replicate 33 1) % 2 ^ 256
set_bytes-amount_bytes_example =
    set_bytes-amount_bytes (replicate 33 1) (All-replicate (λ b. b < 256) 1 33 (omega arith))
