-- ===== src/Pages/Totals.antt =====
-- The totals by chain on the page are the sums over the certificates that wait.
use agg_certificate_proxy.Prelude.{
  ℕ, suc, ◌+◌, ◌≡◌, refl, sym, ap, ap₂, ◌∙◌, map, lookup, Bool, false, Bool-cases, inl, inr, ◌&&◌,
  List, [], ◌∷◌, codes, ltb, ◌==◌, if◌then◌else◌, arith,
}
use agg_certificate_proxy.Metrics.Sums.{counted}
use agg_certificate_proxy.Pages.{
  Printing, CertificateView, ChainInfo, tokens_total, view_of, add_chain, add_pending, views_of,
  format_totals, load_certificate_data, CertificateData,
}
use agg_certificate_proxy.Pages.Texts.{atoi}
use agg_certificate_proxy.Store.{
  Certificate, certificate_of, is_null, or_empty, latest_first, get_scheduler_status,
  get_config_value, get_certificates, active_or_default,
}
use agg_certificate_proxy.Store.Latest.{
  IsLatestFirst, rows_at, rows_sum, rows_sum-latest_first, latest_first-IsLatestFirst,
  rows_at-latest_first,
}
use agg_certificate_proxy.Store.Duration.{from_word, duration_word}
use agg_certificate_proxy.World.{World, Env, Row, ok}
use agg_certificate_proxy.Text.Decimal.{ℤ}
use agg_certificate_proxy.Pages.Views.{object_amount, object_network, read_object, view_of-Shows}

-- The entry of a chain, as its total and its count.
abbrev pub total_in : ℕ → List (ℕ × ChainInfo) → ℕ
total_in n [] = 0
total_in n ((m, info) ∷ rest) = if m == n then info.total_amount else total_in n rest

abbrev pub count_in : ℕ → List (ℕ × ChainInfo) → ℕ
count_in n [] = 0
count_in n ((m, info) ∷ rest) = if m == n then info.cert_count else count_in n rest

module _ (p : Printing) where
  -- The certificate waits, and its metadata name the network, which is not 0: a certificate whose
  -- metadata name no network has 0.
  abbrev pub waits_in : ℕ → Certificate → Bool
  waits_in n x =
      is_null x.processed_at
      && (ltb 0 (object_network p (read_object p x)) && object_network p (read_object p x) == n)

  abbrev pub waiting_amount : ℕ → List Certificate → ℕ
  waiting_amount n [] = 0
  waiting_amount n (x ∷ xs) =
      counted (waits_in n x) (object_amount (read_object p x)) + waiting_amount n xs

  abbrev pub waiting_count : ℕ → List Certificate → ℕ
  waiting_count n [] = 0
  waiting_count n (x ∷ xs) = counted (waits_in n x) 1 + waiting_count n xs

  add_chain-totals :
      (n m amount : ℕ) (chains : List (ℕ × ChainInfo))
      → (total_in n (add_chain p m amount chains) ≡ total_in n chains + counted (m == n) amount)
        × (count_in n (add_chain p m amount chains) ≡ count_in n chains + counted (m == n) 1)
  unfolding add_chain
  add_chain-totals n m amount [] = ground arith
  add_chain-totals n m amount ((k, info) ∷ rest) = ground (arith, add_chain-totals n m amount rest)

  add_pending-totals :
      (n : ℕ) (v : CertificateView) (chains : List (ℕ × ChainInfo))
      → let waits =
          is_null v.certificate.processed_at && (ltb 0 v.network_id && v.network_id == n) in
        (total_in n (add_pending p v chains)
          ≡ total_in n chains + counted waits (tokens_total p v.tokens))
        × (count_in n (add_pending p v chains) ≡ count_in n chains + counted waits 1)
  add_pending-totals n v chains =
      let e = add_chain-totals n v.network_id (tokens_total p v.tokens) chains in
      elim (Bool-cases (is_null v.certificate.processed_at)) [
        | inr is_sent ↦ rw is_sent (omega arith, omega arith)
        | inl yes_null ↦ elim (Bool-cases (ltb 0 v.network_id)) [
          | inr unknown ↦ rw (yes_null, unknown) (omega arith, omega arith)
          | inl known ↦ rw (yes_null, known) e
        ]
      ]

  views_of-totals :
      (n : ℕ) (delay : ℤ) (xs : List Certificate) (chains : List (ℕ × ChainInfo))
      → (total_in n (views_of p delay xs chains).1 ≡ total_in n chains + waiting_amount n xs)
        × (count_in n (views_of p delay xs chains).1 ≡ count_in n chains + waiting_count n xs)
  unfolding views_of
  views_of-totals n delay [] chains = (omega arith, omega arith)
  views_of-totals n delay (x ∷ xs) chains =
      let v = view_of p x delay in
      let (same, network, amount) = view_of-Shows p x delay in
      let now = add_pending-totals n v chains in
      let later = views_of-totals n delay xs (add_pending p v chains) in
      let waits : (is_null v.certificate.processed_at && (ltb 0 v.network_id && v.network_id == n))
          ≡ waits_in n x =
        ap₂ (λ c m. is_null c.processed_at && (ltb 0 m && m == n)) same network in
      (
        later.0
            ∙ (let e = now.0 ∙ ap₂ (λ b a. total_in n chains + counted b a) waits amount in
                omega (arith, e)),
        later.1
            ∙ (let e = now.1 ∙ ap (λ b. count_in n chains + counted b 1) waits in omega (arith, e)),
      )

  views_of-certificates :
      (delay : ℤ) (xs : List Certificate) (chains : List (ℕ × ChainInfo))
      → map (λ v. v.certificate) (views_of p delay xs chains).0 ≡ xs
  unfolding views_of
  views_of-certificates delay [] chains = refl
  views_of-certificates delay (x ∷ xs) chains =
      ap₂ ◌∷◌ (view_of-Shows p x delay).0
        (views_of-certificates delay xs (add_pending p (view_of p x delay) chains))

  total_in-format_totals :
      (n : ℕ) (chains : List (ℕ × ChainInfo))
      → (total_in n (format_totals p chains) ≡ total_in n chains)
        × (count_in n (format_totals p chains) ≡ count_in n chains)
  total_in-format_totals n [] = (refl, refl)
  total_in-format_totals n ((m, info) ∷ rest) = elim (Bool-cases (m == n)) [
    | inl e ↦ rw e (refl, refl)
    | inr e ↦ rw e (total_in-format_totals n rest)
  ]

  waiting-rows_sum :
      (n : ℕ) (rows : List Row)
      → (waiting_amount n (map certificate_of rows)
          ≡ rows_sum (λ r. waiting_amount n (certificate_of r ∷ [])) rows)
        × (waiting_count n (map certificate_of rows)
            ≡ rows_sum (λ r. waiting_count n (certificate_of r ∷ [])) rows)
  waiting-rows_sum n [] = (refl, refl)
  waiting-rows_sum n (r ∷ rest) =
      let (amounts, counts) = waiting-rows_sum n rest in
      (omega (arith, amounts), omega (arith, counts))

  -- The sums do not depend on the order of the rows.
  waiting-latest_first :
      (n : ℕ) (rows : List Row)
      → (waiting_amount n (map certificate_of (latest_first rows))
          ≡ waiting_amount n (map certificate_of rows))
        × (waiting_count n (map certificate_of (latest_first rows))
            ≡ waiting_count n (map certificate_of rows))
  waiting-latest_first n rows =
      let (amounts, counts) = waiting-rows_sum n rows in
      let (amounts', counts') = waiting-rows_sum n (latest_first rows) in
      (
        amounts'
            ∙ rows_sum-latest_first (λ r. waiting_amount n (certificate_of r ∷ [])) rows
            ∙ sym amounts,
        counts'
            ∙ rows_sum-latest_first (λ r. waiting_count n (certificate_of r ∷ [])) rows
            ∙ sym counts,
      )

  -- The totals of a chain on the page are those of the certificates of the table that wait.
  abbrev pub AreTotals : List (ℕ × ChainInfo) → List Row → Type 0
  AreTotals chains rows =
      (n : ℕ)
      → (total_in n chains ≡ waiting_amount n (map certificate_of rows))
        × (count_in n chains ≡ waiting_count n (map certificate_of rows))

  views_of-AreTotals :
      (delay : ℤ) (rows : List Row)
      → AreTotals
          (format_totals p (views_of p delay (map certificate_of (latest_first rows)) []).1)
          rows
  views_of-AreTotals delay rows n =
      let certs = map certificate_of (latest_first rows) in
      let shown = total_in-format_totals n (views_of p delay certs []).1 in
      let sums = views_of-totals n delay certs [] in
      let (amounts, counts) = waiting-latest_first n rows in
      (shown.0 ∙ sums.0 ∙ (omega (arith, amounts)), shown.1 ∙ sums.1 ∙ (omega (arith, counts)))

  -- Where no statement fails, the data of the page are loaded, with a view for each certificate of
  -- the table: no certificate is later than one before it, and those received at one time are in
  -- the order of the table. For every chain the total and the count are those of the certificates
  -- of the table that wait and whose metadata name the chain: the sum of the amounts of their exits
  -- and imported exits, and their number. A certificate of network 0 counts for no chain.
  pub load_certificate_data_lem :
      (env : Env) (w : World)
      → ((n : ℕ) → env.db_fails n ≡ false)
      → (d : CertificateData) × ((load_certificate_data p env w).0 ≡ ok d)
        × ((rows : List Row) × (map (λ v. v.certificate) d.certificates ≡ map certificate_of rows)
            × IsLatestFirst rows
            × ((t : ℕ) → rows_at t rows ≡ rows_at t w.certificates))
        × AreTotals d.chain_totals w.certificates
  unfolding load_certificate_data get_scheduler_status get_config_value get_certificates
  load_certificate_data_lem env w up =
      let certs = map certificate_of (latest_first w.certificates) in
      let delay =
        from_word
          (duration_word (atoi (or_empty (lookup (codes "delay_seconds") w.configuration)))) in
      let d : CertificateData = record {
        delay_hours = or_empty (lookup (codes "delay_seconds") w.configuration);
        delay = p.duration_text delay;
        current_time = env.clock (suc (suc (suc w.ticks)));
        scheduler_active = active_or_default w.scheduler_status;
        chain_totals = format_totals p (views_of p delay certs []).1;
        certificates = (views_of p delay certs []).0;
      } in
      (
        d,
        rw (up w.ticks, up (suc w.ticks), up (suc (suc w.ticks))) refl,
        (
          latest_first w.certificates,
          views_of-certificates delay certs [],
          latest_first-IsLatestFirst w.certificates,
          λ t. rows_at-latest_first t w.certificates,
        ),
        views_of-AreTotals delay w.certificates,
      )
