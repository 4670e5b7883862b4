-- ===== src/Metadata/Reported.antt =====
-- From extractMetadata (internal/certificate/grpc.go) to UpdateMetrics (internal/metrics/updater.go):
-- what the gauges show of the certificates whose summaries were stored.
use agg_certificate_proxy.Prelude.{
  ℕ, suc, ◌+◌, ◌^◌, ◌<◌, ◌==◌, ◌≡◌, refl, ap, ap₂, ◌∙◌, false, List, [], ◌∷◌, some, Bytes, Option,
  length,
}
use agg_certificate_proxy.Decoded.{Float64, Value, Conversions, IsConversion, whole}
use agg_certificate_proxy.Metadata.{extract_metadata}
use agg_certificate_proxy.Metadata.Decoding.{value_of}
use agg_certificate_proxy.Metadata.Totals.{AreSlices, exits_amount, extract_metadata-sum}
use agg_certificate_proxy.Metrics.{update_metrics}
use agg_certificate_proxy.Metrics.Gauges.{waiting, shown, update_metrics_lem}
use agg_certificate_proxy.Metrics.Sums.{counted, certificates_sum, AreNumbered}
use agg_certificate_proxy.Proto.Node.{ProtoCertificate}
use agg_certificate_proxy.Store.{Certificate}
use agg_certificate_proxy.World.{World, Env, ok}

-- The amounts of the exits of the certificates of a network, each modulo 2 ^ 64.
abbrev pub summaries_sum : ℕ → List ProtoCertificate → ℕ
summaries_sum n [] = 0
summaries_sum n (y ∷ ys) =
    counted (y.network_id == n) (exits_amount y.bridge_exits) + summaries_sum n ys

module _ (nearest : ℕ → Float64) where
  -- The text decodes to the summary of the certificate.
  abbrev pub IsSummary : (Bytes → Option Value) → Bytes → ProtoCertificate → Type 0
  IsSummary unmarshal [] y = ⊥
  IsSummary unmarshal (b ∷ s) y =
      (unmarshal (b ∷ s) ≡ some (value_of nearest (extract_metadata (some y))))
      × (y.network_id < 2 ^ 32)
      × AreSlices y.bridge_exits

  -- The stored certificates have the summaries of the certificates, one by one.
  abbrev pub AreSummaries :
      (Bytes → Option Value) → List Certificate → List ProtoCertificate → Type 0
  AreSummaries unmarshal [] [] = Unit
  AreSummaries unmarshal [] (y ∷ ys) = ⊥
  AreSummaries unmarshal (x ∷ xs) [] = ⊥
  AreSummaries unmarshal (x ∷ xs) (y ∷ ys) =
      IsSummary unmarshal x.metadata y × AreSummaries unmarshal xs ys

  module _ (c : Conversions) (unmarshal : Bytes → Option Value) (conversion : IsConversion c)
      (exact : (n : ℕ) → n < 2 ^ 53 → nearest n ≡ whole n) where
    -- What the stored certificates add up to.
    AddUp : List Certificate → List ProtoCertificate → Type 0
    AddUp xs ys =
        AreNumbered c unmarshal xs
        × (length xs ≡ length ys)
        × ((n : ℕ) → certificates_sum c unmarshal n xs ≡ summaries_sum n ys)

    cons-AddUp :
        (x : Certificate) (y : ProtoCertificate) (xs : List Certificate)
        (ys : List ProtoCertificate)
        → (s : Bytes) → x.metadata ≡ s
        → IsSummary unmarshal s y
        → AddUp xs ys
        → AddUp (x ∷ xs) (y ∷ ys)
    unfolding AddUp
    cons-AddUp x y xs ys [] e h rest = absurd h
    cons-AddUp x y xs ys (b ∷ s) e (read, small, slices) (numbered, lengths, sums) =
        let (number, sum) =
          extract_metadata-sum nearest c unmarshal y b s conversion exact read small slices in
        rw e ((number, numbered), ap suc lengths, λ n. ap₂ ◌+◌ (sum n) (sums n))

    AreSummaries-AddUp :
        (xs : List Certificate) (ys : List ProtoCertificate)
        → AreSummaries unmarshal xs ys
        → AddUp xs ys
    unfolding AddUp
    AreSummaries-AddUp [] [] h = (tt, refl, λ n. refl)
    AreSummaries-AddUp [] (y ∷ ys) h = absurd h
    AreSummaries-AddUp (x ∷ xs) [] h = absurd h
    AreSummaries-AddUp (x ∷ xs) (y ∷ ys) h =
        cons-AddUp x y xs ys x.metadata refl h.0 (AreSummaries-AddUp xs ys h.1)

  -- Where the statement does not fail and the metadata of the waiting certificates decode to the
  -- summaries that extractMetadata makes of some certificates, an update of the metrics shows their
  -- number, for each network with a gauge the sum, in ETH, of the amounts of the exits of the
  -- certificates of this network, each amount modulo 2 ^ 64, and the sum over these networks. A
  -- number below 2 ^ 53 is decoded exactly, and the division of 0 is 0.
  pub update_metrics-summaries :
      (quotient : ℕ → ℕ → Float64)
      → quotient 0 (10 ^ 18) ≡ whole 0
      → (env : Env) (c : Conversions) (unmarshal : Bytes → Option Value) (networks : List ℕ)
        (ys : List ProtoCertificate) (w : World)
      → env.db_fails w.ticks ≡ false
      → IsConversion c
      → ((n : ℕ) → n < 2 ^ 53 → nearest n ≡ whole n)
      → AreSummaries unmarshal (waiting w) ys
      → (update_metrics quotient env c unmarshal networks w).0
        ≡ ok (some (shown quotient networks (length ys) (λ n. summaries_sum n ys)))
  unfolding AddUp
  update_metrics-summaries quotient zero_over env c unmarshal networks ys w up k exact h =
      let (numbered, lengths, sums) = AreSummaries-AddUp c unmarshal k exact (waiting w) ys h in
      update_metrics_lem quotient zero_over env c unmarshal networks w up numbered
      ∙ (λ i. ok (some (shown quotient networks (lengths i) (λ n. sums n i))))
