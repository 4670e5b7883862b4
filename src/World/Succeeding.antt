-- ===== src/World/Succeeding.antt =====
-- Operations that cannot fail where no statement fails.
use agg_certificate_proxy.Prelude.{ℕ, suc, ◌≡◌, refl, Bool, true, false}
use agg_certificate_proxy.World.{World, Env, M, ok, ◌>>=◌, ◌>>◌, when, exec, query, time_now}

-- It returns nil from every state.
abbrev pub Succeeds : M (Unit {0}) → Type 0
Succeeds m = (w : World) → (v : World) × (m w ≡ (ok tt, v))

pub then-Succeeds : (m n : M (Unit {0})) → Succeeds m → Succeeds n → Succeeds (m >> n)
then-Succeeds m n hm hn w = let (v, e) = hm w in let (u, e') = hn v in (u, rw e e')

pub when-Succeeds : (b : Bool) (m : M (Unit {0})) → Succeeds m → Succeeds (when b m)
when-Succeeds true m h = h
when-Succeeds false m h = λ w. (w, refl)

module _ (env : Env) (up : (n : ℕ) → env.db_fails n ≡ false) where
  pub exec-Succeeds : (f : World → World) → Succeeds (exec env f)
  exec-Succeeds f w = (f (record w { ticks = suc w.ticks }), rw (up w.ticks) refl)

  pub query-Succeeds :
      {A : Type 0} (g : World → A) (f : A → M (Unit {0}))
      → ((a : A) → Succeeds (f a))
      → Succeeds (query env g >>= f)
  query-Succeeds g f h w =
      let v : World = record w { ticks = suc w.ticks } in
      let (u, e) = h (g v) v in (u, rw (up w.ticks) e)

  pub time-Succeeds :
      (f : ℕ → M (Unit {0})) → ((a : ℕ) → Succeeds (f a)) → Succeeds (time_now env >>= f)
  time-Succeeds f h w = h (env.clock w.ticks) (record w { ticks = suc w.ticks })
