-- ===== src/Store/Initial/Succeeding.antt =====
-- Init succeeds from every state where no statement fails.
use agg_certificate_proxy.Prelude.{ℕ, ◌≡◌, true, false, some, Bytes, codes, insert, lookup, ◌==◌}
use agg_certificate_proxy.Store.Initial.{
  create_table, count_status, count_key, insert_status, set_default, init,
}
use agg_certificate_proxy.World.{World, Env, M, ◌>>=◌, ◌>>◌, when, exec, query}
use agg_certificate_proxy.World.Succeeding.{
  Succeeds, exec-Succeeds, then-Succeeds, query-Succeeds, when-Succeeds, time-Succeeds,
}

module _ (env : Env) (up : (n : ℕ) → env.db_fails n ≡ false) where
  insert_status-Succeeds : Succeeds (insert_status env)
  unfolding insert_status
  insert_status-Succeeds =
      time-Succeeds env up
        (λ now. exec env (λ w. record w {
          scheduler_status = some (record { is_active = true; last_updated = now });
        }))
        (λ now. exec-Succeeds env up (λ w. record w {
          scheduler_status = some (record { is_active = true; last_updated = now });
        }))

  set_default-Succeeds : (key value : Bytes) → Succeeds (set_default env key value)
  unfolding set_default
  set_default-Succeeds key value =
      let put : World → World =
        λ w. record w { configuration = insert key value w.configuration } in
      query-Succeeds env up (λ w. count_key (lookup key w.configuration))
        (λ count. when (count == 0) (exec env put))
        (λ count. when-Succeeds (count == 0) (exec env put) (exec-Succeeds env up put))

  pub init-Succeeds : Succeeds (init env)
  unfolding init
  init-Succeeds =
      let chains = set_default env (codes "delayed_chains") (codes "1,137") in
      let delay = set_default env (codes "delay_seconds") (codes "172800") in
      let status : ℕ → M (Unit {0}) = λ count. when (count == 0) (insert_status env) in
      let rows : M (Unit {0}) = query env (λ w. count_status w.scheduler_status) >>= λ count.
      (status count >> (delay >> chains)) in
      let table = create_table env in
      let made = exec-Succeeds env up (λ w. w) in
      let filled : Succeeds rows =
        query-Succeeds env up (λ w. count_status w.scheduler_status)
          (λ count. (status count >> (delay >> chains)))
          (λ count.
            then-Succeeds (status count) (delay >> chains)
              (when-Succeeds (count == 0) (insert_status env) insert_status-Succeeds)
              (then-Succeeds delay chains
                (set_default-Succeeds (codes "delay_seconds") (codes "172800"))
                (set_default-Succeeds (codes "delayed_chains") (codes "1,137")))) in
      let after₁ = table >> rows in
      let after₂ = table >> after₁ in
      let after₃ = table >> after₂ in
      let after₄ = table >> after₃ in
      then-Succeeds table after₄ made (
        then-Succeeds table after₃ made (
          then-Succeeds table after₂ made
            (then-Succeeds table after₁ made (then-Succeeds table rows made filled))))
