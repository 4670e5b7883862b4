-- ===== src/Api/Prompt.antt =====
-- An authorised request to switch the scheduler where nothing fails and no more than a minute
-- passes: it is counted, and the third one switches.
use agg_certificate_proxy.Prelude.{
  ℕ, suc, ◌+◌, ◌*◌, ◌≤◌, ◌≡◌, refl, Bool, true, false, Bool-cases, inl, inr, List, [], ◌∷◌, ◌++◌,
  some, length, keep_if, leb, le→leb, arith,
}
use agg_certificate_proxy.Api.{after_count, count_attempt}
use agg_certificate_proxy.Api.Counting.{count_kind}
use agg_certificate_proxy.Store.{
  record_kill_switch_attempt, cleanup_old_kill_switch_attempts, get_recent_kill_switch_attempts,
  set_scheduler_status, active_or_default, same_type, is_recent,
}
use agg_certificate_proxy.Store.Duration.{minute}
use agg_certificate_proxy.World.{World, Env, Status, Attempt, AttemptType, kill, restart, fine}

-- Since the time, of a kind.
abbrev pub since : ℕ → AttemptType → List Attempt → ℕ
since start k xs = count_kind k (λ at. leb start at) xs

same_type_refl : (k : AttemptType) → same_type k k ≡ true
same_type_refl kill = refl
same_type_refl restart = refl

since-append :
    (start t : ℕ) (k : AttemptType) (xs : List Attempt)
    → start ≤ t
    → since start k (xs ++ record { attempt_type = k; attempted_at = t } ∷ [])
      ≡ suc (since start k xs)
since-append start t k [] h = rw (same_type_refl k, le→leb start t h) (omega arith)
since-append start t k (x ∷ xs) h = ground (arith, since-append start t k xs h)

-- A filter by a later bound keeps what counts.
since-keep_if :
    (start now span : ℕ) (k : AttemptType) (xs : List Attempt)
    → now ≤ start + span
    → since start k xs ≤ since start k (keep_if (λ a. leb now (a.attempted_at + span)) xs)
since-keep_if start now span k [] h = omega arith
since-keep_if start now span k (x ∷ xs) h = ground (arith, since-keep_if start now span k xs h)

since-recent :
    (start now : ℕ) (k : AttemptType) (xs : List Attempt)
    → now ≤ start + minute
    → since start k xs ≤ length (keep_if (is_recent k minute now) xs)
since-recent start now k [] h = omega arith
since-recent start now k (x ∷ xs) h = ground (arith, since-recent start now k xs h)

-- A row for the status is there.
abbrev pub HasStatus : World → Type 0
HasStatus w = (s : Status) × (w.scheduler_status ≡ some s)

-- What a call leaves behind: one attempt more that counts, and at the third the wanted status.
abbrev pub Counted : ℕ → AttemptType → Bool → World → World → Type 0
Counted start k active v w =
    (suc (since start k v.attempts) ≤ since start k w.attempts)
    × (w.credentials ≡ v.credentials)
    × HasStatus w
    × (2 ≤ since start k v.attempts → active_or_default w.scheduler_status ≡ active)

module _ (env : Env) (up : (n : ℕ) → env.db_fails n ≡ false) where
  after_count-Counted :
      (start n : ℕ) (k : AttemptType) (active : Bool) (v w : World)
      → suc (since start k v.attempts) ≤ since start k w.attempts
      → since start k w.attempts ≤ n
      → w.credentials ≡ v.credentials
      → HasStatus w
      → Counted start k active v (after_count env active (fine n) w).1
  unfolding set_scheduler_status
  after_count-Counted start n k active v w more enough same (s, has) = elim (Bool-cases (leb 3 n)) [
    | inl e ↦ rw (e, up (suc w.ticks), has) (more, same, (_, refl), λ two. refl)
    | inr e ↦ rw e (more, same, (s, has), λ two. absurd (ground (arith, two, more, enough, e)))
  ]

  pub count_attempt-Counted :
      (start : ℕ) (k : AttemptType) (active : Bool) (w : World)
      → ((n : ℕ) → (start ≤ env.clock n) × (env.clock n ≤ start + minute))
      → HasStatus w
      → Counted start k active w (count_attempt env k active w).1
  unfolding count_attempt record_kill_switch_attempt cleanup_old_kill_switch_attempts
      get_recent_kill_switch_attempts
  count_attempt-Counted start k active w prompt has =
      let n = w.ticks in
      let noted = w.attempts ++ record { attempt_type = k; attempted_at = env.clock n } ∷ [] in
      let kept = keep_if (λ a. leb (env.clock (suc (suc n))) (a.attempted_at + 5 * minute)) noted in
      let now = env.clock (suc (suc (suc (suc n)))) in
      let after : World = record w {
        attempts = kept;
        ticks = suc (suc (suc (suc (suc (suc n)))));
      } in
      let more : suc (since start k w.attempts) ≤ since start k kept = omega (
        arith,
        since-append start (env.clock n) k w.attempts (prompt n).0,
        since-keep_if start (env.clock (suc (suc n))) (5 * minute) k noted
            (omega (arith, (prompt (suc (suc n))).1)),
      ) in
      rw (up (suc n), up (suc (suc (suc n))), up (suc (suc (suc (suc (suc n))))))
        (after_count-Counted start (length (keep_if (is_recent k minute now) kept)) k active w after
          more (since-recent start now k kept (prompt (suc (suc (suc (suc n))))).1) refl has)
