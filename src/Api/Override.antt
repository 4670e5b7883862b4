-- ===== src/Api/Override.antt =====
-- What the handler of overrides leaves alone.
use agg_certificate_proxy.Prelude.{Option, none, some, Bytes, arith}
use agg_certificate_proxy.Api.{
  Request, handle_override, check_override, override_with, finish_override, override_request,
}
use agg_certificate_proxy.Store.{mark_certificate_override_sent}
use agg_certificate_proxy.Store.Rows.{
  SameSwitch, switch_frame, get_credential-Keeps, mark_override-SameSwitch,
}
use agg_certificate_proxy.Text.Decimal.{ℤ}
use agg_certificate_proxy.World.{World, Env, M, Result, fine, failed, trigger, deferring_trigger}
use agg_certificate_proxy.World.Laws.{Frame, Keeps, keeps_rules}

pub trigger-SameSwitch : (w : World) → SameSwitch w (trigger w)
trigger-SameSwitch w = ground arith

module _ (F : Frame) (triggers : (w : World) → F.Before w (trigger w)) where
  pub deferring-Keeps : {A : Type 0} {m : M A} → Keeps F m → Keeps F (deferring_trigger m)
  deferring-Keeps {m} h = record {
    keeps = λ w. F.then_too w (m w).1 (trigger (m w).1) (h.keeps w) (triggers (m w).1);
  }

  finish_override-Keeps : (r : Result (Unit {0})) → Keeps F (finish_override r)
  finish_override-Keeps (failed e) = search keeps_rules depth 14
  finish_override-Keeps (fine u) = search keeps_rules depth 14

  module _ (env : Env) (marks : (id : ℤ) → Keeps F (mark_certificate_override_sent env id)) where
    check_override-Keeps :
        (id : ℤ) (key : Bytes) (r : Result Bytes) → Keeps F (check_override env id key r)
    check_override-Keeps id key (failed e) = search keeps_rules depth 14
    check_override-Keeps id key (fine s) =
        search (keeps_rules, marks, finish_override-Keeps) depth 14

    override_with-Keeps : (key : Bytes) (id : Option ℤ) → Keeps F (override_with env key id)
    override_with-Keeps key none = search keeps_rules depth 14
    override_with-Keeps key (some id) =
        search (keeps_rules, get_credential-Keeps, check_override-Keeps) depth 14

    -- The handler keeps what its mark and the trigger keep.
    pub handle_override-Keeps : (r : Request) → Keeps F (handle_override env r)
    unfolding handle_override
    handle_override-Keeps r =
        deferring-Keeps {m = override_request env r}
          (search (keeps_rules, override_with-Keeps) depth 14)

pub handle_override-SameSwitch :
    (env : Env) (r : Request) → Keeps switch_frame (handle_override env r)
handle_override-SameSwitch env =
    handle_override-Keeps switch_frame trigger-SameSwitch env (mark_override-SameSwitch env)
