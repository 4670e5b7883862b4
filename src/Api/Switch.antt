-- ===== src/Api/Switch.antt =====
-- What the handlers of the kill switch do once the key is checked.
use agg_certificate_proxy.Prelude.{
  ℕ, ◌+◌, ◌*◌, ◌≤◌, ◌≡◌, refl, ◌∙◌, ap, sym, subst, suc, ◌⊎◌, inl, inr, Bool, arith, leb,
  Bool-cases, leb→le,
}
use agg_certificate_proxy.World.{
  World, Env, AttemptType, Result, fine, failed, Outcome, ok, err, panicked, M, attempt, continue,
  kept, ◌>>=◌,
}
use agg_certificate_proxy.Store.{
  record_kill_switch_attempt, cleanup_old_kill_switch_attempts, get_recent_kill_switch_attempts,
  set_scheduler_status, updated,
}
use agg_certificate_proxy.Store.Duration.{minute}
use agg_certificate_proxy.Api.{Response, finish, after_count, count_attempt}
use agg_certificate_proxy.Api.Counting.{
  count_kind, count_one, count-record, count-cleanup, attempts_frame, status_frame,
  set_status-attempts, record-status, cleanup-status, get_recent-world, get_recent-value,
  set_status-cases, record-ticks, cleanup-ticks,
}

-- The scheduler was switched, with at least three attempts of the kind left behind that are not
-- older than a minute at the time `now`.
abbrev pub Switched : AttemptType → Bool → ℕ → World → World → Type 0
Switched kind active now v w =
    (t : ℕ) × (3 ≤ count_kind kind (λ at. leb now (at + minute)) w.attempts)
    × (w.scheduler_status ≡ updated active t v.scheduler_status)

-- The time at which a call counts the attempts: before it the call reads the clock twice and runs
-- two statements.
abbrev pub count_time : Env → World → ℕ
count_time env w = env.clock (suc (suc (suc (suc w.ticks))))

finish-world :
    (r : Outcome (Unit {0})) (w : World) → (continue (kept r) (λ done. finish done) w).1 ≡ w
finish-world (ok u) w = refl
finish-world (err e) w = refl
finish-world panicked w = refl

set_and_finish-world :
    (env : Env) (active : Bool) (w : World)
    → ((attempt (set_scheduler_status env active) >>= λ done. finish done) w).1
      ≡ (set_scheduler_status env active w).1
set_and_finish-world env active w =
    finish-world (set_scheduler_status env active w).0 (set_scheduler_status env active w).1

module _ (env : Env) (kind : AttemptType) (active : Bool) where
  -- What a call did to the switch, starting with a number of attempts.
  abbrev Effect : ℕ → World → World → Type 0
  Effect now v w =
      (w.attempts ≡ v.attempts)
      × ((w.scheduler_status ≡ v.scheduler_status) ⊎ Switched kind active now v w)

  set_status-Effect :
      (w : World) (now : ℕ)
      → 3 ≤ count_kind kind (λ at. leb now (at + minute)) w.attempts
      → Effect now w (set_scheduler_status env active w).1
  set_status-Effect w now h =
      let same = (set_status-attempts env active).keeps w in
      (
        same,
        elim (set_status-cases env active w) [ inl e ↦ inl e | inr (t, e) ↦ inr (t, rw same h, e) ],
      )

  after_count-Effect :
      (now : ℕ) (r : Result ℕ) (w : World)
      → ((n : ℕ) → r ≡ fine n → n ≡ count_kind kind (λ at. leb now (at + minute)) w.attempts)
      → Effect now w (after_count env active r w).1
  after_count-Effect now (failed e) w h = (refl, inl refl)
  after_count-Effect now (fine n) w h = elim (Bool-cases (leb 3 n)) [
    | inl enough ↦
        let exact = h n refl in
        rw (enough, set_and_finish-world env active w)
          (set_status-Effect w now (omega (arith, leb→le 3 n enough)))
    | inr few ↦ rw few (refl, inl refl)
  ]

-- An error kept as a value goes on to what follows; only a panic does not.
kept-cases :
    {A : Type 0} (r : Outcome A)
    → (kept r ≡ panicked) ⊎ ((x : Result A) × (kept r ≡ ok x) × ((a : A) → x ≡ fine a → r ≡ ok a))
kept-cases (ok a) = inr (fine a, refl, λ b e. cc)
kept-cases (err e) = inr (failed e, refl, λ b e'. absurd (cc))
kept-cases panicked = inl refl

module _ (env : Env) (kind : AttemptType) (active : Bool) where
  restart_from :
      (now : ℕ) (w u v : World)
      → u.scheduler_status ≡ w.scheduler_status
      → (v.scheduler_status ≡ u.scheduler_status) ⊎ Switched kind active now u v
      → (v.scheduler_status ≡ w.scheduler_status) ⊎ Switched kind active now w v
  restart_from now w u v same (inl e) = inl (e ∙ same)
  restart_from now w u v same (inr (t, h, e)) = inr (t, h, e ∙ ap (updated active t) same)

  count_and_act : M Response
  count_and_act = do
    count ← attempt (get_recent_kill_switch_attempts env kind minute)
    after_count env active count

  count_and_act-Effect :
      (w : World) → Effect env kind active (env.clock w.ticks) w (count_and_act w).1
  unfolding count_and_act
  count_and_act-Effect w =
      let now = env.clock w.ticks in
      let recent = get_recent_kill_switch_attempts env kind minute w in
      let same : recent.1.attempts ≡ w.attempts =
        (get_recent-world env attempts_frame kind minute).keeps w in
      let status : recent.1.scheduler_status ≡ w.scheduler_status =
        (get_recent-world env status_frame kind minute).keeps w in
      elim (kept-cases recent.0) [
        | inl e ↦ rw e (same, inl status)
        | inr (x, e, back) ↦ rw e (
            let after = after_count-Effect env kind active now x recent.1 (λ n h.
              get_recent-value env kind minute w n (back n h)
              ∙ ap (count_kind kind (λ at. leb now (at + minute))) (sym same)) in
            (
              after.0 ∙ same,
              restart_from now w recent.1 (after_count env active x recent.1).1 status after.1,
            ))
      ]

  -- The whole of what follows the check of the key: at most one attempt is added, of the kind and
  -- of the time of the clock, and the scheduler is switched only where the call leaves at least
  -- three attempts of the kind that are not older than a minute at the time at which it counts
  -- them.
  pub count_attempt-Effect :
      (k : AttemptType) (p : ℕ → Bool) (w : World)
      → (count_kind k p (count_attempt env kind active w).1.attempts
          ≤ count_kind k p w.attempts + count_one k p kind (env.clock w.ticks))
        × (((count_attempt env kind active w).1.scheduler_status ≡ w.scheduler_status)
            ⊎ Switched kind active (count_time env w) w (count_attempt env kind active w).1)
  unfolding count_attempt
  count_attempt-Effect k p w =
      let noted = record_kill_switch_attempt env kind w in
      let cleaned = cleanup_old_kill_switch_attempts env (5 * minute) noted.1 in
      let one = count-record env k p kind w in
      let status₁ : noted.1.scheduler_status ≡ w.scheduler_status =
        (record-status env kind).keeps w in
      let two = count-cleanup env k p (5 * minute) noted.1 in
      let status₂ : cleaned.1.scheduler_status ≡ noted.1.scheduler_status =
        (cleanup-status env (5 * minute)).keeps noted.1 in
      let ticks : cleaned.1.ticks ≡ suc (suc (suc (suc w.ticks))) =
        cleanup-ticks env (5 * minute) noted.1 ∙ ap (λ n. suc (suc n)) (record-ticks env kind w) in
      let three : Effect env kind active (count_time env w) cleaned.1 (count_and_act cleaned.1).1 =
        subst (λ n. Effect env kind active (env.clock n) cleaned.1 (count_and_act cleaned.1).1)
          ticks (count_and_act-Effect cleaned.1) in
      elim (kept-cases noted.0) [
        | inl e ↦ rw e (one, inl status₁)
        | inr (x, e, _) ↦ rw e (elim (kept-cases cleaned.0) [
          | inl e' ↦ rw e' (omega (arith, one, two), inl (status₂ ∙ status₁))
          | inr (y, e', _) ↦ rw e' (
              unfold count_and_act in
              (
                omega (arith, one, two, ap (count_kind k p) three.0),
                restart_from (count_time env w) w cleaned.1 (count_and_act cleaned.1).1
                    (status₂ ∙ status₁) three.1,
              ))
        ])
      ]
