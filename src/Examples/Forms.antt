-- ===== src/Examples/Forms.antt =====
-- A certificate in its JSON form, and a global index.
use agg_certificate_proxy.Prelude.{
  ◌<◌, ◌%◌, ◌*◌, ◌+◌, ◌^◌, ◌≡◌, refl, true, [], ◌∷◌, ◌++◌, Option, none, some, Bytes, replicate,
  All-replicate, arith,
}
use agg_certificate_proxy.BigEndian.{set_bytes}
use agg_certificate_proxy.Decoded.{Value, map_of, Conversions, IsConversion, truncated}
use agg_certificate_proxy.Examples.{some_certificate, some_exit}
use agg_certificate_proxy.Hashing.{reversed_global_index}
use agg_certificate_proxy.Loader.{certificate_from_json, global_index_bytes, little_endian}
use agg_certificate_proxy.Loader.Certificate.{certificate_from_json-form}
use agg_certificate_proxy.Loader.Form.{
  certificate_fields, IsFormCertificate, IsFormExit, transfer_known,
}
use agg_certificate_proxy.Loader.Index.{global_index_bytes_lem}
use agg_certificate_proxy.Proto.Interop.{ImportedBridgeExit}
use agg_certificate_proxy.Proto.Node.{ProtoCertificate}

-- Out of range the lower bits are taken.
abbrev some_conversions : Conversions
some_conversions = record {
  to_uint32 = λ f. truncated f % 2 ^ 32;
  to_uint64 = λ f. truncated f % 2 ^ 64;
}

some_conversions-IsConversion : IsConversion some_conversions
some_conversions-IsConversion = record {
  uint32_fits = λ f s h. omega (arith, h);
  uint64_fits = λ f s h. omega (arith, h);
}

abbrev some_imported : ImportedBridgeExit
some_imported = record {
  bridge_exit = some some_exit;
  global_index = some (record { value = some (global_index_bytes true 3 5) });
  claim = none;
}

abbrev loaded : ProtoCertificate
loaded = record some_certificate { imported_bridge_exits = some some_imported ∷ [] }

some_exit-IsFormExit : IsFormExit some_exit
some_exit-IsFormExit = record {
  leaf_known = transfer_known;
  token_fits = record {
    network_fits = omega arith;
    address_given = (_, refl, All-replicate (λ b. b < 256) 170 20 (omega arith));
  };
  network_fits = omega arith;
  address_given = (_, refl, All-replicate (λ b. b < 256) 7 20 (omega arith));
  amount_given = (_, refl, (omega arith, (omega arith, tt)));
  metadata_given = tt;
}

loaded-IsFormCertificate : IsFormCertificate loaded
loaded-IsFormCertificate = record {
  network_fits = omega arith;
  height_fits = omega arith;
  prev_given = (_, refl, All-replicate (λ b. b < 256) 1 32 (omega arith));
  new_given = (_, refl, All-replicate (λ b. b < 256) 2 32 (omega arith));
  exits_given = ((some_exit, refl, some_exit-IsFormExit), tt);
  imported_given = (
    (
      some_imported,
      refl,
      record {
        exit_fits = some_exit-IsFormExit;
        index_fits = (true, 3, 5, omega arith, omega arith, refl);
        claim_fits = tt;
      },
    ),
    tt,
  );
  metadata_given = (_, refl, All-replicate (λ b. b < 256) 3 32 (omega arith));
  count_fits = tt;
  no_aggchain = refl;
  no_custom = refl;
}

-- A decoder that takes every text for the form.
abbrev to_form : Bytes → Option Value
to_form text = some (map_of (certificate_fields loaded))

certificate_from_json-form_example : certificate_from_json some_conversions to_form [] ≡ some loaded
certificate_from_json-form_example =
    certificate_from_json-form some_conversions some_conversions-IsConversion to_form [] loaded
      loaded-IsFormCertificate refl

global_index_bytes_lem_example :
    (set_bytes (global_index_bytes true 3 5) ≡ 2 ^ 64 + 3 * 2 ^ 32 + 5)
    × (reversed_global_index (global_index_bytes true 3 5)
        ≡ some (little_endian 5 ++ (little_endian 3 ++ 1 ∷ replicate 23 0)))
global_index_bytes_lem_example = global_index_bytes_lem true 3 5 (omega arith) (omega arith)
