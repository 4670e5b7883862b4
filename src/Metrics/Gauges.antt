-- ===== src/Metrics/Gauges.antt =====
-- What an update of the metrics shows.
use agg_certificate_proxy.Prelude.{
  ℕ, ◌+◌, ◌^◌, ◌≡◌, refl, sym, ap, ap₂, ◌∙◌, false, List, [], ◌∷◌, map, Option, none, some, Bytes,
  length, keep_if, arith,
}
use agg_certificate_proxy.Decoded.{Float64, Value, Conversions, whole}
use agg_certificate_proxy.Metrics.{Report, grand_total_of, gauge_of, report_totals, update_metrics}
use agg_certificate_proxy.Metrics.Sums.{certificates_sum, AreNumbered, add_certificates_lem}
use agg_certificate_proxy.Metrics.Totals.{Networks, total_of, or_zero}
use agg_certificate_proxy.Store.{Certificate, certificate_of, get_unprocessed_certificates, is_null}
use agg_certificate_proxy.World.{World, Env, ok}

-- The certificates that wait.
abbrev pub waiting : World → List Certificate
waiting w = map certificate_of (keep_if (λ r. is_null r.processed_at) w.certificates)

-- The sum over some networks.
abbrev pub networks_sum : (ℕ → ℕ) → List ℕ → ℕ
networks_sum sum [] = 0
networks_sum sum (n ∷ rest) = sum n + networks_sum sum rest

-- What the gauges show by a sum for each network.
abbrev pub shown : (ℕ → ℕ → Float64) → List ℕ → ℕ → (ℕ → ℕ) → Report
shown quotient networks count sum = record {
  certificate_total = count;
  network_totals = map (λ n. (n, quotient (sum n) (10 ^ 18))) networks;
  grand_total = quotient (networks_sum sum networks) (10 ^ 18);
}

module _ (quotient : ℕ → ℕ → Float64) (zero_over : quotient 0 (10 ^ 18) ≡ whole 0) where
  gauge_of-total : (o : Option ℕ) → gauge_of quotient o ≡ quotient (or_zero o) (10 ^ 18)
  gauge_of-total none = sym zero_over
  gauge_of-total (some n) = refl

  network_totals-sum :
      (nets : Networks) (sum : ℕ → ℕ) (networks : List ℕ)
      → ((n : ℕ) → or_zero (total_of n nets) ≡ sum n)
      → map {B = ℕ × Float64} (λ n. (n, gauge_of quotient (total_of n nets))) networks
        ≡ map (λ n. (n, quotient (sum n) (10 ^ 18))) networks
  network_totals-sum nets sum [] h = refl
  network_totals-sum nets sum (n ∷ rest) h =
      ap₂ ◌∷◌
        (ap (λ x. (n, x)) (gauge_of-total (total_of n nets) ∙ ap (λ t. quotient t (10 ^ 18)) (h n)))
        (network_totals-sum nets sum rest h)

  grand_total_of-sum :
      (nets : Networks) (sum : ℕ → ℕ) (networks : List ℕ)
      → ((n : ℕ) → or_zero (total_of n nets) ≡ sum n)
      → grand_total_of nets networks ≡ networks_sum sum networks
  unfolding grand_total_of
  grand_total_of-sum nets sum [] h = refl
  grand_total_of-sum nets sum (n ∷ rest) h = ap₂ ◌+◌ (h n) (grand_total_of-sum nets sum rest h)

  report_totals-shown :
      (nets : Networks) (sum : ℕ → ℕ) (networks : List ℕ) (count : ℕ)
      → ((n : ℕ) → or_zero (total_of n nets) ≡ sum n)
      → report_totals quotient networks count nets ≡ shown quotient networks count sum
  unfolding report_totals
  report_totals-shown nets sum networks count h = λ i. record {
    certificate_total = count;
    network_totals = network_totals-sum nets sum networks h i;
    grand_total = quotient (grand_total_of-sum nets sum networks h i) (10 ^ 18);
  }

  -- Where the statement does not fail and every object in the metadata of the waiting certificates
  -- has a number as its network, an update does not panic and shows: the number of waiting
  -- certificates, for each network with a gauge the sum of the amounts in their metadata, in ETH,
  -- and the sum over these networks only. The division of 0 is 0.
  pub update_metrics_lem :
      (env : Env) (c : Conversions) (unmarshal : Bytes → Option Value) (networks : List ℕ)
      (w : World)
      → env.db_fails w.ticks ≡ false
      → AreNumbered c unmarshal (waiting w)
      → (update_metrics quotient env c unmarshal networks w).0
        ≡ ok (
            some (
              shown quotient networks
                (length (waiting w))
                (λ n. certificates_sum c unmarshal n (waiting w))))
  unfolding update_metrics get_unprocessed_certificates total_of
  update_metrics_lem env c unmarshal networks w up numbered =
      let (nets, e, sums) = add_certificates_lem c unmarshal (waiting w) [] numbered in
      rw (up, e)
        (ap (λ r. ok (some r))
          (report_totals-shown nets (λ n. certificates_sum c unmarshal n (waiting w)) networks
            (length (waiting w)) (λ n. sums n ∙ (omega arith))))
