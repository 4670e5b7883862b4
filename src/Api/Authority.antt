-- ===== src/Api/Authority.antt =====
-- Who may use the kill switch: a request without the key changes nothing.
use agg_certificate_proxy.Prelude.{
  ◌≡◌, ◌≢◌, Bool, true, false, not, ◌&&◌, arith, Bytes, codes, lookup, same_bytes,
}
use agg_certificate_proxy.World.{World, Env, AttemptType, ok, tick}
use agg_certificate_proxy.Store.{get_credential, or_empty}
use agg_certificate_proxy.Store.Rows.{SameSwitch}
use agg_certificate_proxy.Api.{Request, switched, count_attempt, is_empty, handle_switch}

-- The request is a POST with a key that fits the stored hash, and the hash can be read.
abbrev pub is_authorised : Env → Bytes → Request → World → Bool
is_authorised env credential r w =
    same_bytes r.method (codes "POST")
    && (not (is_empty r.key)
        && (not (env.db_fails w.ticks)
            && env.compare_hash_and_password (or_empty (lookup credential w.credentials)) r.key))

module _ (env : Env) (credential : Bytes) (kind : AttemptType) (active : Bool) (r : Request) where
  -- A request that is not authorised leaves the switch, its attempts and the credentials as they
  -- were, and is not answered as if it had switched the scheduler.
  pub handle_switch_refused :
      (w : World)
      → is_authorised env credential r w ≡ false
      → SameSwitch w (handle_switch env credential kind active r w).1
        × ((handle_switch env credential kind active r w).0 ≢ ok switched)
  unfolding handle_switch get_credential
  handle_switch_refused w h = ground arith

  pub handle_switch_accepted :
      (w : World)
      → is_authorised env credential r w ≡ true
      → handle_switch env credential kind active r w ≡ count_attempt env kind active (tick w)
  unfolding handle_switch get_credential
  handle_switch_accepted w h = ground arith
