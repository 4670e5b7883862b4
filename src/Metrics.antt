-- ===== src/Metrics.antt =====
-- internal/metrics: the sums that are reported on the certificates that wait (updater.go), and the
-- gauges that show them (prometheus.go). The channel that triggers an update is in World.
pub mod Totals
pub mod Sums
pub mod Gauges
pub mod Distinct
use agg_certificate_proxy.Prelude.{
  ℕ, ◌+◌, ◌^◌, List, [], ◌∷◌, ◌++◌, map, Option, none, some, Bytes, length, if◌then◌else◌,
}
use agg_certificate_proxy.Decoded.{Float64, Value, Conversions, whole}
use agg_certificate_proxy.Service.{is_listed}
use agg_certificate_proxy.Store.{Certificate, get_unprocessed_certificates}
use agg_certificate_proxy.World.{
  World, Env, M, ◌>>=◌, or_panic, return, attempt, Result, fine, failed,
}
use Totals.{Networks, total_of, or_zero, add_certificates}

-- The gauges after a report. The count is exact as a float64 below 2 ^ 53.
pub record Report : Type 0 where
  pub certificate_total : ℕ
  pub network_totals : List (ℕ × Float64)
  pub grand_total : Float64

-- The total of the networks that have a gauge.
unfoldable pub grand_total_of : Networks → List ℕ → ℕ
grand_total_of nets [] = 0
grand_total_of nets (n ∷ rest) = or_zero (total_of n nets) + grand_total_of nets rest

-- `quotient` is the division of two big.Int as big.Float values, rounded to a float64.
module _ (quotient : ℕ → ℕ → Float64) where
  abbrev pub wei_to_eth : ℕ → Float64
  wei_to_eth wei = quotient wei (10 ^ 18)

  abbrev pub gauge_of : Option ℕ → Float64
  gauge_of none = whole 0
  gauge_of (some total) = wei_to_eth total

  unfoldable pub report_totals : List ℕ → ℕ → Networks → Report
  report_totals networks count nets = record {
    certificate_total = count;
    network_totals = map (λ n. (n, gauge_of (total_of n nets))) networks;
    grand_total = wei_to_eth (grand_total_of nets networks);
  }

  -- Nothing is reported where the certificates cannot be read.
  abbrev pub report_found :
      Conversions → (Bytes → Option Value) → List ℕ → Result (List Certificate) → M (Option Report)
  report_found c unmarshal networks (failed e) = return none
  report_found c unmarshal networks (fine found) = do
    nets ← or_panic (add_certificates c unmarshal found [])
    return (some (report_totals networks (length found) nets))

  unfoldable pub update_metrics :
      Env → Conversions → (Bytes → Option Value) → List ℕ → M (Option Report)
  update_metrics env c unmarshal networks = do
    found ← attempt (get_unprocessed_certificates env)
    report_found c unmarshal networks found

-- promauto panics where a gauge of the same name is registered already.
unfoldable pub register : List ℕ → List ℕ → Option (List ℕ)
register seen [] = some seen
register seen (n ∷ rest) = if is_listed n seen then none else register (seen ++ n ∷ []) rest

unfoldable pub new_prometheus_reporter : List ℕ → Option (List ℕ)
new_prometheus_reporter networks = register [] networks
