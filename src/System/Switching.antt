-- ===== src/System/Switching.antt =====
-- When a sequence of calls switches the scheduler: only the two handlers do, and only after
-- three authorised requests.
use agg_certificate_proxy.Prelude.{
  ℕ, suc, ◌+◌, ◌≤◌, ◌≡◌, refl, sym, ap, ◌∙◌, ◌⊎◌, inl, inr, Bool, true, false, not, ◌≢◌, List, [],
  ◌∷◌, ◌++◌, Option, none, some, Bytes, codes, length, length-append, keep_if, keep_if-append, leb,
  Bool-cases, if◌then◌else◌, arith,
}
use agg_certificate_proxy.Api.{
  Request, count_attempt, handle_switch, handle_kill_switch, handle_restart,
}
use agg_certificate_proxy.Api.Authority.{
  is_authorised, handle_switch_refused, handle_switch_accepted,
}
use agg_certificate_proxy.Api.Counting.{count_kind, count_one}
use agg_certificate_proxy.Api.Override.{handle_override-SameSwitch}
use agg_certificate_proxy.Api.Switch.{Switched, count_time, count_attempt-Effect}
use agg_certificate_proxy.Grpc.Frames.{submit_certificate-SameSwitch, get_certificate_header-Keeps}
use agg_certificate_proxy.Scheduler.Rounds.{process_round-SameSwitch}
use agg_certificate_proxy.Store.{active_or_default, updated}
use agg_certificate_proxy.Store.Duration.{minute}
use agg_certificate_proxy.Store.Rows.{SameSwitch, switch_frame}
use agg_certificate_proxy.System.{
  Call, kill_call, restart_call, override_call, submit_call, header_call, scheduled_round, step,
  run,
}
use agg_certificate_proxy.World.{World, Env, Status, AttemptType, kill, restart, tick}

-- The state that the requests of a kind ask for, and the credential that they need.
abbrev pub wanted : AttemptType → Bool
wanted kill = false
wanted restart = true

abbrev pub credential_of : AttemptType → Bytes
credential_of kill = codes "kill_switch_api_key"
credential_of restart = codes "kill_restart_api_key"

-- The request of a call to the handler of the kind.
abbrev request_of : AttemptType → Call → Option Request
request_of kill (kill_call r) = some r
request_of restart (restart_call r) = some r
request_of _ _ = none

-- How many of the times lie within the minute before `now`.
abbrev pub recent_times : ℕ → List ℕ → ℕ
recent_times now times = length (keep_if (λ at. leb now (at + minute)) times)

module _ (env : Env) (upstream : Bytes) where
  -- The time of the request, if it is authorised.
  abbrev time_of : AttemptType → Option Request → World → List ℕ
  time_of k none w = []
  time_of k (some r) w =
      if is_authorised env (credential_of k) r w then env.clock (suc w.ticks) ∷ [] else []

  -- The times of the authorised requests of a kind among the calls.
  abbrev pub authorised : AttemptType → List Call → World → List ℕ
  authorised k [] w = []
  authorised k (c ∷ calls) w =
      let rest = authorised k calls (step env upstream c w) in time_of k (request_of k c) w ++ rest

  -- The time at which a request counts the attempts, which it does after the check of the key.
  abbrev pub counts_at : World → ℕ
  counts_at w = count_time env (tick w)

  -- The call is an authorised request of the kind, and at least three such requests, it among
  -- them, are not older than a minute at the time at which it counts.
  abbrev pub IsThird : AttemptType → List Call → Call → World → Type 0
  IsThird k before c w =
      let v = run env upstream before w in
      (time_of k (request_of k c) v ≡ env.clock (suc v.ticks) ∷ [])
      × (3 ≤ recent_times (counts_at v) (authorised k (before ++ c ∷ []) w))

  -- The switching by a call with the times that it logs.
  abbrev Switching : AttemptType → List ℕ → World → World → Type 0
  Switching k times v w =
      (times ≡ env.clock (suc v.ticks) ∷ [])
      × (3 ≤ count_kind k (λ at. leb (counts_at v) (at + minute)) w.attempts)

  -- What a step may do: it adds at most the attempts it logs, and it switches only at three.
  abbrev StepEffect : AttemptType → List ℕ → World → World → Type 0
  StepEffect k times v w =
      ((p : ℕ → Bool)
        → count_kind k p w.attempts ≤ count_kind k p v.attempts + length (keep_if p times))
      × (active_or_default w.scheduler_status ≡ wanted k
          → (active_or_default v.scheduler_status ≡ wanted k) ⊎ Switching k times v w)

  same-StepEffect :
      (k : AttemptType) (times : List ℕ) (v w : World) → SameSwitch v w → StepEffect k times v w
  same-StepEffect k times v w (a, s, c) =
      (λ p. rw a (omega arith), λ h. inl (ap active_or_default (sym s) ∙ h))

  active-updated :
      (a b : Bool) (t : ℕ) (o : Option Status)
      → active_or_default (updated a t o) ≡ b
      → (a ≡ b) ⊎ (active_or_default o ≡ b)
  active-updated a b t none h = inr h
  active-updated a b t (some s) h = inl h

  wanted-injective : (k j : AttemptType) → wanted j ≡ wanted k → j ≡ k
  wanted-injective kill kill h = refl
  wanted-injective kill restart h = absurd (cc)
  wanted-injective restart kill h = absurd (cc)
  wanted-injective restart restart h = refl

  Switched-before :
      (k j : AttemptType) (now : ℕ) (v w : World)
      → (w.scheduler_status ≡ v.scheduler_status) ⊎ Switched j (wanted j) now v w
      → active_or_default w.scheduler_status ≡ wanted k
      → (active_or_default v.scheduler_status ≡ wanted k)
        ⊎ ((j ≡ k) × (3 ≤ count_kind k (λ at. leb now (at + minute)) w.attempts))
  Switched-before k j now v w (inl e) h = inl (ap active_or_default (sym e) ∙ h)
  Switched-before k j now v w (inr (t, enough, e)) h =
      elim (active-updated (wanted j) (wanted k) t v.scheduler_status
        (ap active_or_default (sym e) ∙ h)) [
          | inl same ↦ let mine = wanted-injective k j same in inr (mine, rw (sym mine) enough)
          | inr before ↦ inl before
        ]

  -- The times are those that an authorised request of the handler j logs for the kind k.
  abbrev Logs : AttemptType → AttemptType → List ℕ → World → Type 0
  Logs k j times w =
      ((p : ℕ → Bool) → count_one k p j (env.clock (suc w.ticks)) ≤ length (keep_if p times))
      × (j ≡ k → times ≡ env.clock (suc w.ticks) ∷ [])

  handler-StepEffect :
      (k j : AttemptType) (r : Request) (times : List ℕ) (w : World)
      → (is_authorised env (credential_of j) r w ≡ true → Logs k j times w)
      → StepEffect k times w (handle_switch env (credential_of j) j (wanted j) r w).1
  handler-StepEffect k j r times w logged =
      elim (Bool-cases (is_authorised env (credential_of j) r w)) [
        | inr other ↦
            same-StepEffect k times w (handle_switch env (credential_of j) j (wanted j) r w).1
              (handle_switch_refused env (credential_of j) j (wanted j) r w other).0
        | inl ours ↦ rw (handle_switch_accepted env (credential_of j) j (wanted j) r w ours) (
          λ p.
              omega
                (arith, (count_attempt-Effect env j (wanted j) k p (tick w)).0, (logged ours).0 p),
          λ h.
              elim (Switched-before k j (counts_at w) w (count_attempt env j (wanted j) (tick w)).1
                (count_attempt-Effect env j (wanted j) k (λ n. true) (tick w)).1 h) [
                  | inl before ↦ inl before
                  | inr (mine, enough) ↦ inr ((logged ours).1 mine, enough)
                ],
        )
      ]

  kill_is_not_restart : kill ≢ restart
  kill_is_not_restart e = absurd (cc)

  step-StepEffect :
      (k : AttemptType) (c : Call) (w : World)
      → StepEffect k (time_of k (request_of k c) w) w (step env upstream c w)
  unfolding step handle_kill_switch handle_restart
  step-StepEffect kill (kill_call r) w =
      handler-StepEffect kill kill r (time_of kill (some r) w) w
        (λ ours. (λ p. rw ours (ground arith), λ e. rw ours refl))
  step-StepEffect restart (kill_call r) w =
      handler-StepEffect restart kill r [] w
        (λ ours. (λ p. omega arith, λ e. absurd (kill_is_not_restart e)))
  step-StepEffect kill (restart_call r) w =
      handler-StepEffect kill restart r [] w
        (λ ours. (λ p. omega arith, λ e. absurd (kill_is_not_restart (sym e))))
  step-StepEffect restart (restart_call r) w =
      handler-StepEffect restart restart r (time_of restart (some r) w) w
        (λ ours. (λ p. rw ours (ground arith), λ e. rw ours refl))
  step-StepEffect k (override_call r) w =
      same-StepEffect k (time_of k (request_of k (override_call r)) w) w
        (step env upstream (override_call r) w) ((handle_override-SameSwitch env r).keeps w)
  step-StepEffect k (submit_call q) w =
      same-StepEffect k (time_of k (request_of k (submit_call q)) w) w
        (step env upstream (submit_call q) w) ((submit_certificate-SameSwitch env q).keeps w)
  step-StepEffect k (header_call q) w =
      same-StepEffect k (time_of k (request_of k (header_call q)) w) w
        (step env upstream (header_call q) w)
        ((get_certificate_header-Keeps switch_frame env upstream q).keeps w)
  step-StepEffect k scheduled_round w =
      same-StepEffect k (time_of k (request_of k scheduled_round) w) w
        (step env upstream scheduled_round w) ((process_round-SameSwitch env).keeps w)

  recent_times-append :
      (now : ℕ) (s t : List ℕ) → recent_times now (s ++ t) ≡ recent_times now s + recent_times now t
  recent_times-append now s t =
      ap length (keep_if-append (λ at. leb now (at + minute)) s t)
      ∙ length-append (keep_if (λ at. leb now (at + minute)) s)
          (keep_if (λ at. leb now (at + minute)) t)

  -- The three requests, with the attempts that are there before the calls.
  IsEnough : AttemptType → List Call → Call → World → Type 0
  IsEnough k before c w =
      let v = run env upstream before w in
      (time_of k (request_of k c) v ≡ env.clock (suc v.ticks) ∷ [])
      × (3
          ≤ count_kind k (λ at. leb (counts_at v) (at + minute)) w.attempts
            + recent_times (counts_at v) (authorised k (before ++ c ∷ []) w))

  Switching-IsEnough :
      (k : AttemptType) (c : Call) (w : World)
      → Switching k (time_of k (request_of k c) w) w (step env upstream c w)
      → IsEnough k [] c w
  unfolding run IsEnough
  Switching-IsEnough k c w (mine, enough) =
      let times = time_of k (request_of k c) w in
      (
        mine,
        omega (
          arith,
          enough,
          (step-StepEffect k c w).0 (λ at. leb (counts_at w) (at + minute)),
          recent_times-append (counts_at w) times [],
        ),
      )

  step-IsEnough :
      (k : AttemptType) (c d : Call) (before : List Call) (w : World)
      → IsEnough k before d (step env upstream c w)
      → IsEnough k (c ∷ before) d w
  unfolding run IsEnough
  step-IsEnough k c d before w (mine, enough) =
      let now = counts_at (run env upstream before (step env upstream c w)) in
      (
        mine,
        omega (
          arith,
          enough,
          (step-StepEffect k c w).0 (λ at. leb now (at + minute)),
          recent_times-append now (time_of k (request_of k c) w)
              (authorised k (before ++ d ∷ []) (step env upstream c w)),
        ),
      )

  -- The induction on the calls.
  run-switched :
      (k : AttemptType) (calls : List Call) (w : World)
      → active_or_default (run env upstream calls w).scheduler_status ≡ wanted k
      → (active_or_default w.scheduler_status ≡ wanted k)
        ⊎ ((before : List Call) × (c : Call) × (after : List Call) × (calls ≡ before ++ c ∷ after)
            × IsEnough k before c w)
  unfolding run
  run-switched k [] w h = inl h
  run-switched k (c ∷ calls) w h = elim (run-switched k calls (step env upstream c w) h) [
    | inl e ↦ elim ((step-StepEffect k c w).1 e) [
      | inl before ↦ inl before
      | inr switching ↦ inr ([], c, calls, refl, Switching-IsEnough k c w switching)
    ]
    | inr (before, d, after, e, enough) ↦
        inr (c ∷ before, d, after, ap (λ cs. c ∷ cs) e, step-IsEnough k c d before w enough)
  ]

  not-wanted : (k : AttemptType) → not (wanted k) ≢ wanted k
  not-wanted kill e = absurd (cc)
  not-wanted restart e = absurd (cc)

  -- From a state with no attempts, in which the scheduler is not yet as the requests of a kind
  -- want it (stopped for `kill`, active for `restart`), if any sequence of calls, whatever fails
  -- on the way, ends with the scheduler so, then one of the calls is a request of that kind,
  -- authorised with the key of the kind, and up to it, it included, at least three such requests
  -- were made that are not older than one minute at the time at which this call counts them.
  pub switched_only_by_three :
      (k : AttemptType) (calls : List Call) (w : World)
      → w.attempts ≡ []
      → active_or_default w.scheduler_status ≡ not (wanted k)
      → active_or_default (run env upstream calls w).scheduler_status ≡ wanted k
      → (before : List Call) × (c : Call) × (after : List Call) × (calls ≡ before ++ c ∷ after)
        × IsThird k before c w
  unfolding IsEnough
  switched_only_by_three k calls w none_yet before after = elim (run-switched k calls w after) [
    | inl e ↦ absurd (not-wanted k (sym before ∙ e))
    | inr (first, c, last, e, third) ↦
        let (mine, enough) = third in
        let now = counts_at (run env upstream first w) in
        let three : 3 ≤ recent_times now (authorised k (first ++ c ∷ []) w) =
          omega (arith, enough, ap (count_kind k (λ at. leb now (at + minute))) none_yet) in
        (first, c, last, e, (mine, three))
  ]
