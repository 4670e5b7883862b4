-- ===== src/Store/Latest.antt =====
-- The order of GetCertificates: the latest first, the rows of one time in the order of the table.
use agg_certificate_proxy.Prelude.{
  ℕ, ◌+◌, ◌≤◌, ◌==◌, ◌≡◌, refl, ap, ◌∙◌, inl, inr, List, [], ◌∷◌, keep_if, All, All-map, Bool-cases,
  ltb, arith,
}
use agg_certificate_proxy.Store.{insert_latest, latest_first}
use agg_certificate_proxy.World.{Row}

-- No row is of a later time than one before it.
abbrev pub IsLatestFirst : List Row → Type 0
IsLatestFirst [] = Unit
IsLatestFirst (r ∷ rest) = All (λ s. s.received_at ≤ r.received_at) rest × IsLatestFirst rest

-- The rows of a time.
abbrev pub rows_at : ℕ → List Row → List Row
rows_at t = keep_if (λ r. r.received_at == t)

insert_latest-below :
    (b : ℕ) (r : Row) (rows : List Row)
    → r.received_at ≤ b
    → All (λ s. s.received_at ≤ b) rows
    → All (λ s. s.received_at ≤ b) (insert_latest r rows)
unfolding insert_latest
insert_latest-below b r [] h all = (h, tt)
insert_latest-below b r (s ∷ rest) h all = elim (Bool-cases (ltb r.received_at s.received_at)) [
  | inl e ↦ rw e (all.0, insert_latest-below b r rest h all.1)
  | inr e ↦ rw e (h, all)
]

insert_latest-IsLatestFirst :
    (r : Row) (rows : List Row) → IsLatestFirst rows → IsLatestFirst (insert_latest r rows)
unfolding insert_latest
insert_latest-IsLatestFirst r [] h = (tt, tt)
insert_latest-IsLatestFirst r (s ∷ rest) h = elim (Bool-cases (ltb r.received_at s.received_at)) [
  | inl e ↦
      let earlier : r.received_at ≤ s.received_at = ground arith in
      rw e (
        insert_latest-below s.received_at r rest earlier h.0,
        insert_latest-IsLatestFirst r rest h.1,
      )
  | inr e ↦
      let later : s.received_at ≤ r.received_at = ground arith in
      rw e (
        (
          later,
          All-map (λ q. q.received_at ≤ s.received_at) (λ q. q.received_at ≤ r.received_at) rest
              (λ q below. omega (arith, below, later)) h.0,
        ),
        h,
      )
]

pub latest_first-IsLatestFirst : (rows : List Row) → IsLatestFirst (latest_first rows)
unfolding latest_first
latest_first-IsLatestFirst [] = tt
latest_first-IsLatestFirst (r ∷ rest) =
    insert_latest-IsLatestFirst r (latest_first rest) (latest_first-IsLatestFirst rest)

rows_at-insert_latest :
    (t : ℕ) (r : Row) (rows : List Row) → rows_at t (insert_latest r rows) ≡ rows_at t (r ∷ rows)
unfolding insert_latest
rows_at-insert_latest t r [] = refl
rows_at-insert_latest t r (s ∷ rest) =
    let rest_too = rows_at-insert_latest t r rest in ground (arith, rest_too)

pub rows_at-latest_first :
    (t : ℕ) (rows : List Row) → rows_at t (latest_first rows) ≡ rows_at t rows
unfolding latest_first
rows_at-latest_first t [] = refl
rows_at-latest_first t (r ∷ rest) =
    rows_at-insert_latest t r (latest_first rest) ∙ ground (arith, rows_at-latest_first t rest)

module _ (value : Row → ℕ) where
  -- A sum over the rows.
  abbrev pub rows_sum : List Row → ℕ
  rows_sum [] = 0
  rows_sum (r ∷ rest) = value r + rows_sum rest

  rows_sum-insert_latest :
      (r : Row) (rows : List Row) → rows_sum (insert_latest r rows) ≡ value r + rows_sum rows
  unfolding insert_latest
  rows_sum-insert_latest r [] = refl
  rows_sum-insert_latest r (s ∷ rest) = elim (Bool-cases (ltb r.received_at s.received_at)) [
    | inl e ↦ rw e (omega (arith, rows_sum-insert_latest r rest))
    | inr e ↦ rw e refl
  ]

  -- A sum does not depend on the order.
  pub rows_sum-latest_first : (rows : List Row) → rows_sum (latest_first rows) ≡ rows_sum rows
  unfolding latest_first
  rows_sum-latest_first [] = refl
  rows_sum-latest_first (r ∷ rest) =
      rows_sum-insert_latest r (latest_first rest)
      ∙ ap (λ n. value r + n) (rows_sum-latest_first rest)
