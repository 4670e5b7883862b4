-- ===== src/Suspicion/Value.antt =====
-- What it takes for a certificate not to be suspicious.
use agg_certificate_proxy.Prelude.{
  ℕ, zero, suc, ◌+◌, ◌*◌, ◌/◌, ◌≤◌, ◌≡◌, ◌≢◌, refl, ◌⊎◌, inl, inr, false, List, [], ◌∷◌, Option,
  none, some, Dict, lookup, ltb, ◌==◌, ==_iff, Bool-cases, Option-cases, arith,
}
use agg_certificate_proxy.BigEndian.{set_bytes}
use agg_certificate_proxy.Ethereum.{Ethereum}
use agg_certificate_proxy.Proto.Fields.{contents, FixedBytes20, get_value32}
use agg_certificate_proxy.Proto.Interop.{BridgeExit, TokenInfo, get_amount, get_token_info}
use agg_certificate_proxy.Suspicion.{
  Round, passed_over, unknown_token, divided_by_zero, worth, round, exit_key, after_round,
  over_limit, total_exits,
}
use agg_certificate_proxy.Tokens.{TokenValue}
use agg_certificate_proxy.World.{World, ok}

-- The amount of an exit, of any size.
abbrev pub amount_of : Option BridgeExit → ℕ
amount_of b = set_bytes (contents (get_value32 (get_amount b)))

-- An exit that names no token, or no address, counts for nothing; any other counts for the value
-- of the entry that the operator configured for its token.
pub data Counts (eth : Ethereum) (values : Dict TokenValue) : Option BridgeExit → ℕ → Type 0 where
  no_token : {b : Option BridgeExit} → get_token_info b ≡ none → Counts eth values b 0
  no_address :
      {b : Option BridgeExit} {t : TokenInfo}
      → get_token_info b ≡ some t
      → t.origin_token_address ≡ none
      → Counts eth values b 0
  configured :
      {b : Option BridgeExit} {t : TokenInfo} {a : FixedBytes20} {detail : TokenValue}
      → get_token_info b ≡ some t
      → t.origin_token_address ≡ some a
      → lookup (exit_key eth t.origin_network a) values ≡ some detail
      → detail.multiplier ≢ 0
      → Counts eth values b (amount_of b / detail.multiplier * detail.dollar_value)

-- The exits count for a sum.
pub data CountsAll (eth : Ethereum) (values : Dict TokenValue)
    : List (Option BridgeExit) → ℕ → Type 0 where
  nothing : CountsAll eth values [] 0
  one_more :
      {b : Option BridgeExit} {bs : List (Option BridgeExit)} {v total : ℕ}
      → Counts eth values b v
      → CountsAll eth values bs total
      → CountsAll eth values (b ∷ bs) (v + total)

-- What a round says of the exit.
abbrev Said : Ethereum → Dict TokenValue → Option BridgeExit → Round → Type 0
Said eth values b passed_over = Counts eth values b 0
Said eth values b unknown_token = Unit
Said eth values b divided_by_zero = Unit
Said eth values b (worth v) = Counts eth values b v

zero_right : (n : ℕ) → n + 0 ≡ n
zero_right n = omega arith

module _ (eth : Ethereum) (values : Dict TokenValue) where
  round-Said : (b : Option BridgeExit) → Said eth values b (round eth values b)
  unfolding round
  round-Said b = elim (Option-cases (get_token_info b)) [
    | inl e ↦ rw e (no_token e)
    | inr (t, e) ↦ elim (Option-cases t.origin_token_address) [
      | inl f ↦ rw (e, f) (no_address e f)
      | inr (a, f) ↦ elim (Option-cases (lookup (exit_key eth t.origin_network a) values)) [
        | inl g ↦ rw (e, f, g) tt
        | inr (d, g) ↦ elim (Bool-cases (d.multiplier == 0)) [
          | inl h ↦ rw (e, f, g, h) tt
          | inr h ↦ rw (e, f, g, h) (configured e f g (λ i. ground arith))
        ]
      ]
    ]
  ]

  Counts-round :
      (b : Option BridgeExit) (v : ℕ)
      → Counts eth values b v
      → ((round eth values b ≡ passed_over) × (v ≡ 0)) ⊎ (round eth values b ≡ worth v)
  unfolding round
  Counts-round b v (no_token e) = inl (rw e refl, refl)
  Counts-round b v (no_address e f) = inl (rw (e, f) refl, refl)
  Counts-round b v (configured {detail} e f g h) = elim (Bool-cases (detail.multiplier == 0)) [
    | inl i ↦ absurd (h ((==_iff detail.multiplier 0).0 i))
    | inr i ↦ inr (rw (e, f, g, i) refl)
  ]

  -- The loop has returned false.
  abbrev pub Within : Option ℕ → ℕ → List (Option BridgeExit) → Type 0
  Within limit total bs =
      (m : ℕ) × (limit ≡ some m) × (sum : ℕ) × CountsAll eth values bs sum × (total + sum ≤ m)

  Within-more :
      (limit : Option ℕ) (total v : ℕ) (b : Option BridgeExit) (bs : List (Option BridgeExit))
      → Counts eth values b v
      → Within limit (total + v) bs
      → Within limit total (b ∷ bs)
  Within-more limit total v b bs c (m, e, sum, all, h) =
      (m, e, v + sum, one_more c all, omega (arith, h))

  after_round-Within :
      (limit : Option ℕ) (total : ℕ) (b : Option BridgeExit) (bs : List (Option BridgeExit))
      (r : Round) (w : World)
      → Said eth values b r
      → ((t : ℕ) → (total_exits eth values limit t bs w).0 ≡ ok false → Within limit t bs)
      → (after_round r
          (total_exits eth values limit total bs)
          (λ v. total_exits eth values limit (total + v) bs)
          w).0
        ≡ ok false
      → Within limit total (b ∷ bs)
  after_round-Within limit total b bs passed_over w said ih h =
      Within-more limit total 0 b bs said (rw (zero_right total) (ih total h))
  after_round-Within limit total b bs unknown_token w said ih h = absurd (cc)
  after_round-Within limit total b bs divided_by_zero w said ih h = absurd (cc)
  after_round-Within limit total b bs (worth v) w said ih h =
      Within-more limit total v b bs said (ih (total + v) h)

  over_limit-false :
      (limit : Option ℕ) (total : ℕ) (w : World)
      → (over_limit limit total w).0 ≡ ok false
      → Within limit total []
  over_limit-false none total w h = absurd (cc)
  over_limit-false (some m) total w h =
      let within : ltb m total ≡ false = cc in (m, refl, 0, nothing, ground arith)

  pub total_exits-Within :
      (limit : Option ℕ) (bs : List (Option BridgeExit)) (total : ℕ) (w : World)
      → (total_exits eth values limit total bs w).0 ≡ ok false
      → Within limit total bs
  unfolding total_exits
  total_exits-Within limit [] total w h = over_limit-false limit total w h
  total_exits-Within limit (b ∷ bs) total w h =
      after_round-Within limit total b bs (round eth values b) w (round-Said b)
        (λ t. total_exits-Within limit bs t w) h

  pub Within-total_exits :
      (limit : ℕ) (bs : List (Option BridgeExit)) (total sum : ℕ) (w : World)
      → CountsAll eth values bs sum
      → total + sum ≤ limit
      → (total_exits eth values (some limit) total bs w).0 ≡ ok false
  unfolding total_exits
  Within-total_exits limit [] total zero w nothing h = ground arith
  Within-total_exits limit [] total (suc n) w x h = elim x [ ]
  Within-total_exits limit (b ∷ bs) total _ w (one_more {v} {total = sum} c all) h =
      elim (Counts-round b v c) [
        | inl (e, z) ↦ rw e (Within-total_exits limit bs total sum w all (omega (arith, h, z)))
        | inr e ↦ rw e (Within-total_exits limit bs (total + v) sum w all (omega (arith, h)))
      ]
