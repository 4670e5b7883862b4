-- ===== src/Startup/Stored.antt =====
-- Where nothing fails, a step of the start goes on with the rest, from a state in which it has
-- stored its key or its value and nothing else.
use agg_certificate_proxy.Prelude.{
  ℕ, suc, ◌≢◌, ◌≡◌, refl, ◌∙◌, true, false, [], ◌∷◌, Option, some, Bytes, lookup, lookup-insert,
  same_bytes, same_bytes_iff, insert,
}
use agg_certificate_proxy.Startup.{Started, hash_and_store_key, new_sqlite_store, with_key, logged}
use agg_certificate_proxy.Store.{set_config_value, set_credential}
use agg_certificate_proxy.Store.Initial.{init}
use agg_certificate_proxy.Store.Initial.Succeeding.{init-Succeeds}
use agg_certificate_proxy.World.Succeeding.{Succeeds, then-Succeeds, exec-Succeeds}
use agg_certificate_proxy.World.{World, Env, M, exec}

same_bytes_refl : (s : Bytes) → same_bytes s s ≡ true
same_bytes_refl s = (same_bytes_iff s s).1 refl

module _ (env : Env) where
  -- The stored hash fits the key.
  abbrev pub HasKey : Bytes → Bytes → World → Type 0
  HasKey name key w =
      (h : Bytes) × (lookup name w.credentials ≡ some h)
      × (env.compare_hash_and_password h key ≡ true)

  -- A key that bcrypt can hash, at any time, to what fits it.
  abbrev pub IsHashable : Bytes → Type 0
  IsHashable key =
      (n : ℕ)
      → (h : Bytes) × (env.generate_from_password n key ≡ some h)
        × (env.compare_hash_and_password h key ≡ true)

  -- The step goes on from a state with this key; the other keys and the configuration stay.
  abbrev pub StoresKey : Bytes → Bytes → M Started → M Started → World → Type 0
  StoresKey name key m rest w =
      (v : World) × (m w ≡ rest v)
      × HasKey name key v
      × ((other other_key : Bytes)
          → same_bytes name other ≡ false
          → HasKey other other_key w
          → HasKey other other_key v)

  -- The step goes on from a state whose value of `name` has the property; the other values and the
  -- keys stay.
  abbrev pub Stores : Bytes → (Option Bytes → Type 0) → M Started → M Started → World → Type 0
  Stores name P m rest w =
      (v : World) × (m w ≡ rest v)
      × P (lookup name v.configuration)
      × ((other : Bytes)
          → same_bytes name other ≡ false
          → lookup other v.configuration ≡ lookup other w.configuration)
      × (v.credentials ≡ w.credentials)

  pub keeps-Stores :
      (name : Bytes) (P : Option Bytes → Type 0) (rest : M Started) (w : World)
      → P (lookup name w.configuration)
      → Stores name P rest rest w
  keeps-Stores name P rest w p = (w, refl, p, (λ other e. refl), refl)

  module _ (up : (n : ℕ) → env.db_fails n ≡ false) where
    pub new_sqlite_store-Succeeds : Succeeds (new_sqlite_store env)
    unfolding new_sqlite_store
    new_sqlite_store-Succeeds =
        then-Succeeds (exec env (λ w. w)) (init env) (exec-Succeeds env up (λ w. w))
          (init-Succeeds env up)

    pub with_key-StoresKey :
        (name key : Bytes) (rest : M Started) (w : World)
        → key ≢ []
        → IsHashable key
        → StoresKey name key (with_key env name key rest) rest w
    unfolding with_key hash_and_store_key set_credential
    with_key-StoresKey name [] rest w given hashable = absurd (given refl)
    with_key-StoresKey name (c ∷ key) rest w given hashable =
        let (h, e, fits) = hashable w.ticks in
        let v : World = record w {
          credentials = insert name h w.credentials;
          ticks = suc w.ticks;
        } in
        (
          v,
          rw (e, up w.ticks) refl,
          (h, lookup-insert name name h w.credentials ∙ (rw (same_bytes_refl name) refl), fits),
          λ other other_key differs has.
              (has.0, lookup-insert name other h w.credentials ∙ (rw differs has.1), has.2),
        )

    pub set_config-Stores :
        (name value : Bytes) (rest : M Started) (w : World)
        → Stores name (λ o. o ≡ some value) (logged (set_config_value env name value) rest) rest w
    unfolding set_config_value
    set_config-Stores name value rest w =
        let v : World = record w {
          configuration = insert name value w.configuration;
          ticks = suc w.ticks;
        } in
        (
          v,
          rw (up w.ticks) refl,
          lookup-insert name name value w.configuration ∙ (rw (same_bytes_refl name) refl),
          λ other differs. lookup-insert name other value w.configuration ∙ (rw differs refl),
          refl,
        )
