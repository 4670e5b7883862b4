-- ===== src/Examples/Shown.antt =====
-- The pages on a certificate that waits, and a long map.
use agg_certificate_proxy.Prelude.{ℕ, ◌%◌, ◌^◌, ◌≡◌, refl, true, List, [], ◌∷◌, map, some, codes}
use agg_certificate_proxy.Decoded.{boolean, Fields, field, no_field, field_of, truncated, whole}
use agg_certificate_proxy.Examples.{some_env, some_world, some_row, some_certificate}
use agg_certificate_proxy.Metadata.{extract_metadata}
use agg_certificate_proxy.Metadata.Decoding.{value_of}
use agg_certificate_proxy.Pages.{Printing, CertificateData, page, view_certs, load_certificate_data}
use agg_certificate_proxy.Pages.Reading.{MaySee, view_certs_reads}
use agg_certificate_proxy.Pages.Summary.{truncate_json_lem}
use agg_certificate_proxy.Pages.Texts.{truncate_json, summary, more_truncated}
use agg_certificate_proxy.Pages.Totals.{AreTotals, load_certificate_data_lem}
use agg_certificate_proxy.Store.{certificate_of}
use agg_certificate_proxy.Store.Latest.{IsLatestFirst, rows_at}
use agg_certificate_proxy.Store.Rows.{SameCertificates, SameSwitch}
use agg_certificate_proxy.Text.Decimal.{pos}
use agg_certificate_proxy.World.{World, Row, ok}

-- Every text is read as the summary of one certificate.
abbrev some_printing : Printing
some_printing = record {
  conversions = record {
    to_uint32 = λ f. truncated f % 2 ^ 32;
    to_uint64 = λ f. truncated f % 2 ^ 64;
  };
  to_int = λ f. pos (truncated f);
  unmarshal = λ s. some (value_of whole (extract_metadata (some some_certificate)));
  marshal_indent = λ v. some (codes "{}");
  decimals = λ digits n d. codes "1.000";
  duration_text = λ d. codes "0s";
}

abbrev shown_world : World
shown_world = record some_world {
  certificates =
      record some_row { metadata = codes "{}" }
      ∷ record some_row { id = 2; received_at = 9; metadata = codes "{}" }
      ∷ [];
  credentials = (codes "data_key", codes "d") ∷ [];
}

load_certificate_data_lem_example :
    (d : CertificateData) × ((load_certificate_data some_printing some_env shown_world).0 ≡ ok d)
    × ((rows : List Row) × (map (λ v. v.certificate) d.certificates ≡ map certificate_of rows)
        × IsLatestFirst rows
        × ((t : ℕ) → rows_at t rows ≡ rows_at t shown_world.certificates))
    × AreTotals some_printing d.chain_totals shown_world.certificates
load_certificate_data_lem_example =
    load_certificate_data_lem some_printing some_env shown_world (λ n. refl)

view_certs_reads_example :
    SameCertificates shown_world (view_certs some_printing some_env (codes "d") shown_world).1
    × SameSwitch shown_world (view_certs some_printing some_env (codes "d") shown_world).1
    × ((d : CertificateData)
        → (view_certs some_printing some_env (codes "d") shown_world).0 ≡ ok (page d)
        → MaySee some_env (codes "d") shown_world)
view_certs_reads_example = view_certs_reads some_printing some_env (codes "d") shown_world

abbrev nine_fields : Fields
nine_fields = field (codes "a") (boolean true) (
    field (codes "b") (boolean true) (
      field (codes "c") (boolean true) (
        field (codes "d") (boolean true) (
          field (codes "e") (boolean true) (
            field (codes "f") (boolean true) (
              field (codes "g") (boolean true)
                (field (codes "h") (boolean true) (field (codes "i") (boolean true) no_field))))))))

truncate_json_lem_example :
    field_of (codes "...") (truncate_json nine_fields 8).0 ≡ some more_truncated
unfolding truncate_json summary
truncate_json_lem_example = truncate_json_lem nine_fields 8 refl
