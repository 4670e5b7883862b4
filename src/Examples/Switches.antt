-- ===== src/Examples/Switches.antt =====
-- The kill switch: three calls stop the scheduler, and a wrong key does nothing.
use agg_certificate_proxy.Prelude.{
  ◌+◌, ◌≤◌, ◌≡◌, ◌≢◌, refl, ◌⊎◌, true, false, List, [], ◌∷◌, ◌++◌, codes, same_bytes, lookup, arith,
}
use agg_certificate_proxy.Api.{Request, switched, count_attempt, handle_switch, handle_kill_switch}
use agg_certificate_proxy.Api.Authority.{handle_switch_refused}
use agg_certificate_proxy.Api.Counting.{count_kind, count_one}
use agg_certificate_proxy.Api.Switch.{Switched, count_time, count_attempt-Effect}
use agg_certificate_proxy.Examples.{some_env, some_world, some_request}
use agg_certificate_proxy.Store.{
  get_credential, record_kill_switch_attempt, cleanup_old_kill_switch_attempts,
  get_recent_kill_switch_attempts, set_scheduler_status, active_or_default,
}
use agg_certificate_proxy.Store.Rows.{SameSwitch}
use agg_certificate_proxy.System.{Call, kill_call, submit_call, scheduled_round, step, run}
use agg_certificate_proxy.System.History.{run-IsLater}
use agg_certificate_proxy.System.Stopping.{three_requests_switch}
use agg_certificate_proxy.Store.Table.{IsLater}
use agg_certificate_proxy.System.Switching.{IsThird, switched_only_by_three}
use agg_certificate_proxy.World.{Env, kill, ok}

abbrev kill_request : Request
kill_request = record { method = codes "POST"; key = codes "k"; cert_id = [] }

abbrev wrong_request : Request
wrong_request = record { method = codes "POST"; key = codes "x"; cert_id = [] }

abbrev three_calls : List Call
three_calls = kill_call kill_request ∷ kill_call kill_request ∷ kill_call kill_request ∷ []

switched_only_by_three_example :
    (before : List Call) × (c : Call) × (after : List Call) × (three_calls ≡ before ++ c ∷ after)
    × IsThird some_env [] kill before c some_world
unfolding run step handle_kill_switch handle_switch get_credential count_attempt
    record_kill_switch_attempt cleanup_old_kill_switch_attempts get_recent_kill_switch_attempts
    set_scheduler_status same_bytes lookup
switched_only_by_three_example =
    switched_only_by_three some_env [] kill three_calls some_world refl refl refl

handle_switch_refused_example :
    SameSwitch some_world
      (handle_switch some_env (codes "kill_switch_api_key") kill false wrong_request some_world).1
    × ((handle_switch some_env (codes "kill_switch_api_key") kill false wrong_request some_world).0
        ≢ ok switched)
unfolding same_bytes lookup
handle_switch_refused_example =
    handle_switch_refused some_env (codes "kill_switch_api_key") kill false wrong_request some_world
      refl

count_attempt-Effect_example :
    (count_kind kill (λ t. true) (count_attempt some_env kill false some_world).1.attempts
      ≤ count_kind kill (λ t. true) some_world.attempts
        + count_one kill (λ t. true) kill (some_env.clock some_world.ticks))
    × (((count_attempt some_env kill false some_world).1.scheduler_status
          ≡ some_world.scheduler_status)
        ⊎ Switched kill false
            (count_time some_env some_world)
            some_world
            (count_attempt some_env kill false some_world).1)
count_attempt-Effect_example = count_attempt-Effect some_env kill false kill (λ t. true) some_world

-- The clock stands still.
abbrev still_env : Env
still_env = record some_env { clock = λ n. 5 }

three_requests_switch_example :
    active_or_default (run still_env [] three_calls some_world).scheduler_status ≡ false
unfolding same_bytes lookup
three_requests_switch_example =
    three_requests_switch still_env (λ n. refl) [] 5 kill kill_request kill_request kill_request
      some_world (λ n. (omega arith, omega arith)) (_, refl) refl refl refl

run-IsLater_example :
    IsLater some_world
      (run some_env [] (submit_call some_request ∷ scheduled_round ∷ three_calls) some_world)
run-IsLater_example =
    run-IsLater some_env [] (submit_call some_request ∷ scheduled_round ∷ three_calls) some_world
