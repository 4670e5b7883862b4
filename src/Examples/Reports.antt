-- ===== src/Examples/Reports.antt =====
-- The metrics of a certificate that waits.
use agg_certificate_proxy.Prelude.{
  ℕ, ◌%◌, ◌/◌, ◌^◌, ◌≡◌, refl, ◌↔◌, [], ◌∷◌, Option, none, some, Bytes, same_bytes, codes, arith,
}
use agg_certificate_proxy.Decoded.{
  Float64, Value, Conversions, IsConversion, truncated, whole, field_of,
}
use agg_certificate_proxy.Examples.{some_certificate, some_env, some_world, some_row}
use agg_certificate_proxy.Metadata.{extract_metadata}
use agg_certificate_proxy.Metadata.Decoding.{value_of}
use agg_certificate_proxy.Metadata.Reported.{summaries_sum, update_metrics-summaries}
use agg_certificate_proxy.Metrics.{update_metrics, new_prometheus_reporter}
use agg_certificate_proxy.Metrics.Distinct.{IsDistinct, new_prometheus_reporter_iff}
use agg_certificate_proxy.Metrics.Gauges.{waiting, shown, update_metrics_lem}
use agg_certificate_proxy.Metrics.Sums.{certificates_sum}
use agg_certificate_proxy.World.{World, ok}

abbrev conversions : Conversions
conversions = record {
  to_uint32 = λ f. truncated f % 2 ^ 32;
  to_uint64 = λ f. truncated f % 2 ^ 64;
}

conversions-IsConversion : IsConversion conversions
conversions-IsConversion = record {
  uint32_fits = λ f s h. omega (arith, h);
  uint64_fits = λ f s h. omega (arith, h);
}

-- A decoder that takes every text for the summary of one certificate.
abbrev to_summary : Bytes → Option Value
to_summary s = some (value_of whole (extract_metadata (some some_certificate)))

-- A state in which the certificate waits with its summary.
abbrev waiting_world : World
waiting_world = record some_world { certificates = record some_row { metadata = codes "{}" } ∷ [] }

-- The division of integers.
abbrev quotient : ℕ → ℕ → Float64
quotient a b = whole (a / b)

update_metrics-summaries_example :
    (update_metrics quotient some_env conversions to_summary (1 ∷ 137 ∷ []) waiting_world).0
    ≡ ok (some (shown quotient (1 ∷ 137 ∷ []) 1 (λ n. summaries_sum n (some_certificate ∷ []))))
update_metrics-summaries_example =
    update_metrics-summaries whole quotient refl some_env conversions to_summary (1 ∷ 137 ∷ [])
      (some_certificate ∷ []) waiting_world refl conversions-IsConversion (λ n h. refl)
      ((refl, omega arith, ((omega arith, (omega arith, tt)), tt)), tt)

update_metrics_lem_example :
    (update_metrics quotient some_env conversions to_summary (1 ∷ 137 ∷ []) waiting_world).0
    ≡ ok (
        some (
          shown quotient
            (1 ∷ 137 ∷ [])
            1
            (λ n. certificates_sum conversions to_summary n (waiting waiting_world))))
unfolding extract_metadata field_of same_bytes
update_metrics_lem_example =
    update_metrics_lem quotient refl some_env conversions to_summary (1 ∷ 137 ∷ []) waiting_world
      refl ((1, refl), tt)

new_prometheus_reporter_iff_example :
    ((new_prometheus_reporter (1 ∷ 137 ∷ []) ≡ some (1 ∷ 137 ∷ [])) ↔ IsDistinct (1 ∷ 137 ∷ []))
    × ((new_prometheus_reporter (1 ∷ 137 ∷ []) ≡ none) ↔ (¬ IsDistinct (1 ∷ 137 ∷ [])))
new_prometheus_reporter_iff_example = new_prometheus_reporter_iff (1 ∷ 137 ∷ [])
