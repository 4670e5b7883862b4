-- ===== src/Store/Initial.antt =====
-- The method Init: the tables are made if they are not there, and get their first rows.
pub mod Succeeding
pub mod Keeping
use agg_certificate_proxy.Prelude.{ℕ, true, Option, none, some, Bytes, codes, lookup, insert, ◌==◌}
use agg_certificate_proxy.World.{Status, Env, M, ◌>>=◌, ◌>>◌, when, time_now, exec, query}

-- CREATE TABLE IF NOT EXISTS: the state holds the tables from the beginning.
abbrev create_table : Env → M (Unit {0})
create_table env = exec env (λ w. w)

abbrev count_status : Option Status → ℕ
count_status none = 0
count_status (some s) = 1

abbrev count_key : Option Bytes → ℕ
count_key none = 0
count_key (some v) = 1

insert_status : Env → M (Unit {0})
insert_status env = do
  now ← time_now env
  exec env
      (λ w. record w { scheduler_status = some (record { is_active = true; last_updated = now }) })

-- A default value, put in where the key has no row.
set_default : Env → Bytes → Bytes → M (Unit {0})
set_default env key value = do
  count ← query env (λ w. count_key (lookup key w.configuration))
  when (count == 0) (exec env (λ w. record w { configuration = insert key value w.configuration }))

unfoldable pub init : Env → M (Unit {0})
unfolding insert_status set_default
init env = do
  create_table env
  create_table env
  create_table env
  create_table env
  create_table env
  count ← query env (λ w. count_status w.scheduler_status)
  when (count == 0) (insert_status env)
  set_default env (codes "delay_seconds") (codes "172800")
  set_default env (codes "delayed_chains") (codes "1,137")
