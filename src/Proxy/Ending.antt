-- ===== src/Proxy/Ending.antt =====
-- How a call ends: the select never waits for ever on a goroutine that is gone, and what the
-- caller is told is true.
use agg_certificate_proxy.Prelude.{◌≤◌, ◌≡◌, refl, sym, subst, ◌⊎◌, inl, inr, [], none, arith}
use agg_certificate_proxy.Proxy.{
  StreamError, Point, receiving, sending, reported, taken, Call, Step, caller_recv, caller_send,
  select_to_caller, Reach,
}
use agg_certificate_proxy.Proxy.Relays.{IsCall, Answers, weight}
use agg_certificate_proxy.Proxy.Order.{Reach-IsCall}

weight_le_one : (p : Point) → weight p ≤ 1
weight_le_one receiving = omega arith
weight_le_one sending = omega arith
weight_le_one (reported e) = omega arith
weight_le_one (taken e) = omega arith

module _ (R : StreamError → Type 0) where
  Point-cases :
      (p : Point)
      → (p ≡ receiving)
        ⊎ ((p ≡ sending)
            ⊎ (((e : StreamError) × (p ≡ reported e)) ⊎ ((e : StreamError) × (p ≡ taken e))))
  Point-cases receiving = inl refl
  Point-cases sending = inr (inl refl)
  Point-cases (reported e) = inr (inr (inl (e, refl)))
  Point-cases (taken e) = inr (inr (inr (e, refl)))

  unanswered-Step : (c : Call) → IsCall R c → c.answer ≡ none → (d : Call) × Step R c d
  unanswered-Step c h a = elim (Point-cases c.to_caller.point) [
    | inl e ↦ (_, caller_recv c [] e)
    | inr (inl e) ↦ (_, caller_send c e)
    | inr (inr (inl (e, at))) ↦ (_, select_to_caller c e a at)
    | inr (inr (inr (e, at))) ↦ absurd (
        subst (λ p. weight p ≡ 0 → ⊥) (sym at) (λ y. omega arith)
          (subst (λ o. Answers o c.to_backend.point c.to_caller.point c.trailer_set) a h.answered))
  ]

  -- The select of the handler runs at most twice, at most once without an answer, and a call that
  -- is not answered always has a next step: the handler cannot wait for a goroutine that is gone.
  pub select_ends :
      (c : Call)
      → Reach R c
      → (c.rounds ≤ 2) × (c.answer ≡ none → (c.rounds ≤ 1) × ((d : Call) × Step R c d))
  select_ends c r =
      let h = Reach-IsCall R r in
      (
        omega (arith, h.counted, weight_le_one c.to_backend.point, weight_le_one c.to_caller.point),
        λ a. (
          omega (
            arith,
            h.counted,
            weight_le_one c.to_backend.point,
            subst (λ o. Answers o c.to_backend.point c.to_caller.point c.trailer_set) a h.answered,
          ),
          unanswered-Step c h a,
        ),
      )
