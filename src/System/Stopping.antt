-- ===== src/System/Stopping.antt =====
-- Three authorised requests within a minute do switch the scheduler.
use agg_certificate_proxy.Prelude.{
  ℕ, ◌+◌, ◌≤◌, ◌≡◌, refl, sym, ap₂, ◌∙◌, Bool, not, ◌&&◌, Dict, lookup, same_bytes, true, false, [],
  ◌∷◌, Bytes, codes, arith,
}
use agg_certificate_proxy.Api.{Request, is_empty, handle_switch, handle_kill_switch, handle_restart}
use agg_certificate_proxy.Api.Authority.{is_authorised, handle_switch_accepted}
use agg_certificate_proxy.Api.Prompt.{HasStatus, Counted, count_attempt-Counted}
use agg_certificate_proxy.Store.{active_or_default, or_empty}
use agg_certificate_proxy.Store.Duration.{minute}
use agg_certificate_proxy.System.{Call, kill_call, restart_call, step, run}
use agg_certificate_proxy.System.Switching.{wanted, credential_of}
use agg_certificate_proxy.World.{World, Env, AttemptType, kill, restart, tick}

-- The call of the handler of a kind.
abbrev pub call_of : AttemptType → Request → Call
call_of kill r = kill_call r
call_of restart r = restart_call r

module _ (env : Env) (up : (n : ℕ) → env.db_fails n ≡ false) where
  -- Who is authorised depends on the stored keys only.
  is_authorised-same :
      (credential : Bytes) (r : Request) (v w : World)
      → w.credentials ≡ v.credentials
      → is_authorised env credential r v ≡ true
      → is_authorised env credential r w ≡ true
  is_authorised-same credential r v w same h =
      let test : Bool → Dict Bytes → Bool = λ fails keys.
        same_bytes r.method (codes "POST")
        && (not (is_empty r.key)
            && (not fails
                && env.compare_hash_and_password (or_empty (lookup credential keys)) r.key)) in
      ap₂ test (up w.ticks ∙ sym (up v.ticks)) same ∙ h

  module _ (upstream : Bytes) where
    step-switch :
        (k : AttemptType) (r : Request) (w : World)
        → step env upstream (call_of k r) w
          ≡ (handle_switch env (credential_of k) k (wanted k) r w).1
    unfolding step handle_kill_switch handle_restart
    step-switch kill r w = refl
    step-switch restart r w = refl

    step-Counted :
        (start : ℕ) (k : AttemptType) (r : Request) (w : World)
        → ((n : ℕ) → (start ≤ env.clock n) × (env.clock n ≤ start + minute))
        → HasStatus w
        → is_authorised env (credential_of k) r w ≡ true
        → Counted start k (wanted k) w (step env upstream (call_of k r) w)
    step-Counted start k r w prompt has ours =
        rw (step-switch k r w, handle_switch_accepted env (credential_of k) k (wanted k) r w ours)
          (count_attempt-Counted env up start k (wanted k) (tick w) prompt has)

    -- Where no statement fails, the clock stays within one minute, and the row of the status is
    -- there, three authorised requests of one kind, one after the other, leave the scheduler as they
    -- want it: stopped by the kill switch, active by the restart.
    pub three_requests_switch :
        (start : ℕ) (k : AttemptType) (p q r : Request) (w : World)
        → ((n : ℕ) → (start ≤ env.clock n) × (env.clock n ≤ start + minute))
        → HasStatus w
        → is_authorised env (credential_of k) p w ≡ true
        → is_authorised env (credential_of k) q w ≡ true
        → is_authorised env (credential_of k) r w ≡ true
        → active_or_default
            (run env upstream (call_of k p ∷ call_of k q ∷ call_of k r ∷ []) w).scheduler_status
          ≡ wanted k
    unfolding run
    three_requests_switch start k p q r w prompt has ours_p ours_q ours_r =
        let w₁ = step env upstream (call_of k p) w in
        let w₂ = step env upstream (call_of k q) w₁ in
        let (more₁, same₁, has₁, _) = step-Counted start k p w prompt has ours_p in
        let (more₂, same₂, has₂, _) =
          step-Counted start k q w₁ prompt has₁
            (is_authorised-same (credential_of k) q w w₁ same₁ ours_q) in
        let (more₃, same₃, has₃, switched) =
          step-Counted start k r w₂ prompt has₂
            (is_authorised-same (credential_of k) r w w₂ (same₂ ∙ same₁) ours_r) in
        switched (omega (arith, more₁, more₂))
