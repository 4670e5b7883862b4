-- ===== src/Api/Counting.antt =====
-- How each statement of the kill switch changes its attempts and its status.
use agg_certificate_proxy.Prelude.{
  ℕ, suc, ◌+◌, ◌≤◌, ◌≡◌, refl, ◌∙◌, ◌⊎◌, inl, inr, Bool, ◌&&◌, List, [], ◌∷◌, ◌++◌, arith, length,
  keep_if, leb, if◌then◌else◌, Bool-cases,
}
use agg_certificate_proxy.World.{World, Env, AttemptType, Attempt, ok}
use agg_certificate_proxy.World.Laws.{Frame, Keeps, exec-Keeps, keeps_rules}
use agg_certificate_proxy.Store.{
  record_kill_switch_attempt, cleanup_old_kill_switch_attempts, get_recent_kill_switch_attempts,
  set_scheduler_status, updated, same_type,
}

-- How many attempts of a kind were made at a time that passes a test.
abbrev pub count_kind : AttemptType → (ℕ → Bool) → List Attempt → ℕ
count_kind k p attempts =
    length (keep_if (λ a. same_type a.attempt_type k && p a.attempted_at) attempts)

-- One, if the attempt is of the kind and passes the test.
abbrev pub count_one : AttemptType → (ℕ → Bool) → AttemptType → ℕ → ℕ
count_one k p kind t = if same_type kind k && p t then 1 else 0

count_kind-append :
    (k : AttemptType) (p : ℕ → Bool) (xs : List Attempt) (kind : AttemptType) (t : ℕ)
    → count_kind k p (xs ++ record { attempt_type = kind; attempted_at = t } ∷ [])
      ≡ count_kind k p xs + count_one k p kind t
count_kind-append k p [] kind t = ground arith
count_kind-append k p (x ∷ xs) kind t = ground (arith, count_kind-append k p xs kind t)

count_kind-keep_if :
    (k : AttemptType) (p : ℕ → Bool) (q : Attempt → Bool) (xs : List Attempt)
    → count_kind k p (keep_if q xs) ≤ count_kind k p xs
count_kind-keep_if k p q [] = omega arith
count_kind-keep_if k p q (x ∷ xs) = ground (arith, count_kind-keep_if k p q xs)

module _ (env : Env) (k : AttemptType) (p : ℕ → Bool) where
  -- Recording an attempt adds at most that attempt.
  pub count-record :
      (kind : AttemptType) (w : World)
      → count_kind k p (record_kill_switch_attempt env kind w).1.attempts
        ≤ count_kind k p w.attempts + count_one k p kind (env.clock w.ticks)
  unfolding record_kill_switch_attempt
  count-record kind w = elim (Bool-cases (env.db_fails (suc w.ticks))) [
    | inl e ↦ rw e (omega arith)
    | inr e ↦ rw e (omega (arith, count_kind-append k p w.attempts kind (env.clock w.ticks)))
  ]

  pub count-cleanup :
      (d : ℕ) (w : World)
      → count_kind k p (cleanup_old_kill_switch_attempts env d w).1.attempts
        ≤ count_kind k p w.attempts
  unfolding cleanup_old_kill_switch_attempts
  count-cleanup d w = elim (Bool-cases (env.db_fails (suc w.ticks))) [
    | inl e ↦ rw e (omega arith)
    | inr e ↦ rw e (count_kind-keep_if k p _ w.attempts)
  ]

abbrev pub attempts_frame : Frame
attempts_frame = record {
  Before = λ v w. w.attempts ≡ v.attempts;
  same = λ w. refl;
  then_too = λ u v w p q. q ∙ p;
  ticked = λ w. refl;
}

abbrev pub status_frame : Frame
status_frame = record {
  Before = λ v w. w.scheduler_status ≡ v.scheduler_status;
  same = λ w. refl;
  then_too = λ u v w p q. q ∙ p;
  ticked = λ w. refl;
}

module _ (env : Env) where
  pub set_status-attempts : (active : Bool) → Keeps attempts_frame (set_scheduler_status env active)
  unfolding set_scheduler_status
  set_status-attempts active = search (keeps_rules, exec-Keeps) depth 14

  pub record-status :
      (kind : AttemptType) → Keeps status_frame (record_kill_switch_attempt env kind)
  unfolding record_kill_switch_attempt
  record-status kind = search (keeps_rules, exec-Keeps) depth 14

  pub cleanup-status : (d : ℕ) → Keeps status_frame (cleanup_old_kill_switch_attempts env d)
  unfolding cleanup_old_kill_switch_attempts
  cleanup-status d = search (keeps_rules, exec-Keeps) depth 14

  -- Each of the two reads the clock once and runs one statement.
  pub record-ticks :
      (kind : AttemptType) (w : World)
      → (record_kill_switch_attempt env kind w).1.ticks ≡ suc (suc w.ticks)
  unfolding record_kill_switch_attempt
  record-ticks kind w = elim (Bool-cases (env.db_fails (suc w.ticks))) [
    | inl e ↦ rw e refl
    | inr e ↦ rw e refl
  ]

  pub cleanup-ticks :
      (d : ℕ) (w : World) → (cleanup_old_kill_switch_attempts env d w).1.ticks ≡ suc (suc w.ticks)
  unfolding cleanup_old_kill_switch_attempts
  cleanup-ticks d w = elim (Bool-cases (env.db_fails (suc w.ticks))) [
    | inl e ↦ rw e refl
    | inr e ↦ rw e refl
  ]

  pub get_recent-world :
      (F : Frame) (kind : AttemptType) (d : ℕ)
      → Keeps F (get_recent_kill_switch_attempts env kind d)
  unfolding get_recent_kill_switch_attempts
  get_recent-world F kind d = search keeps_rules depth 14

  -- The count that the last statement returns is that of the recent attempts.
  pub get_recent-value :
      (kind : AttemptType) (d : ℕ) (w : World) (n : ℕ)
      → (get_recent_kill_switch_attempts env kind d w).0 ≡ ok n
      → n ≡ count_kind kind (λ t. leb (env.clock w.ticks) (t + d)) w.attempts
  unfolding get_recent_kill_switch_attempts
  get_recent-value kind d w n e = ground arith

  -- The new status is the old one, or the one that is set.
  pub set_status-cases :
      (active : Bool) (w : World)
      → ((set_scheduler_status env active w).1.scheduler_status ≡ w.scheduler_status)
        ⊎ ((t : ℕ) × ((set_scheduler_status env active w).1.scheduler_status
              ≡ updated active t w.scheduler_status))
  unfolding set_scheduler_status
  set_status-cases active w = elim (Bool-cases (env.db_fails (suc w.ticks))) [
    | inl e ↦ inl (rw e)
    | inr e ↦ inr (env.clock w.ticks, rw e)
  ]
