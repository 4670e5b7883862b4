-- ===== src/Store/Initial/Keeping.antt =====
-- The method Init on a file that is there already. What the program does after Init, when it starts,
-- is in Startup: it sets the delay and the delayed chains from its flags.
use agg_certificate_proxy.Prelude.{
  suc, ◌≡◌, refl, sym, ap, ◌∙◌, Bool, true, false, Bool-cases, Option-cases, inl, inr, Option, none,
  some, Bytes, codes, lookup, insert, lookup-insert, same_bytes, same_bytes_iff, ◌==◌, Dict,
}
use agg_certificate_proxy.Store.Initial.{
  create_table, count_status, insert_status, set_default, init,
}
use agg_certificate_proxy.World.{World, Env, Status, M, ◌>>=◌, ◌>>◌, when, query, tick}
use agg_certificate_proxy.World.Laws.{Frame, Keeps, exec-Keeps, then-Keeps, continue-Before}

-- Every value and the status are still there, and the other tables are as before.
abbrev pub StillThere : World → World → Type 0
StillThere v w =
    ((k value : Bytes)
      → lookup k v.configuration ≡ some value
      → lookup k w.configuration ≡ some value)
    × ((s : Status) → v.scheduler_status ≡ some s → w.scheduler_status ≡ some s)
    × (w.certificates ≡ v.certificates)
    × (w.credentials ≡ v.credentials)
    × (w.attempts ≡ v.attempts)

StillThere-refl : (w : World) → StillThere w w
StillThere-refl w = ((λ k value e. e), (λ s e. e), refl, refl, refl)

StillThere-trans : (u v w : World) → StillThere u v → StillThere v w → StillThere u w
StillThere-trans u v w (a, b, c, d, e) (a', b', c', d', e') =
    ((λ k value h. a' k value (a k value h)), (λ s h. b' s (b s h)), c' ∙ c, d' ∙ d, e' ∙ e)

abbrev there_frame : Frame
there_frame = record {
  Before = StillThere;
  same = StillThere-refl;
  then_too = StillThere-trans;
  ticked = λ w. ((λ k value e. e), (λ s e. e), refl, refl, refl);
}

-- A new key hides no other.
lookup-new :
    (key value : Bytes) (m : Dict Bytes)
    → lookup key m ≡ none
    → (k found : Bytes) → lookup k m ≡ some found
    → lookup k (insert key value m) ≡ some found
lookup-new key value m new k found h = elim (Bool-cases (same_bytes key k)) [
  | inr e ↦ lookup-insert key k value m ∙ (rw e h)
  | inl e ↦
      let same : key ≡ k = (same_bytes_iff key k).0 e in
      absurd (let clash = sym new ∙ ap (λ j. lookup j m) same ∙ h in cc)
]

no_rows : (o : Option Status) → (count_status o == 0) ≡ true → o ≡ none
no_rows none e = refl
no_rows (some s) e = absurd (let clash : false ≡ true = e in cc)

module _ (env : Env) where
  set_default-Before :
      (key value : Bytes) (w : World) → StillThere w (set_default env key value w).1
  unfolding set_default
  set_default-Before key value w = elim (Bool-cases (env.db_fails w.ticks)) [
    | inl e ↦ rw e ((λ k v h. h), (λ s h. h), refl, refl, refl)
    | inr e ↦ elim (Option-cases (lookup key w.configuration)) [
      | inr (v, f) ↦ rw (e, f) ((λ k v' h. h), (λ s h. h), refl, refl, refl)
      | inl f ↦ elim (Bool-cases (env.db_fails (suc w.ticks))) [
        | inl g ↦ rw (e, f, g) ((λ k v h. h), (λ s h. h), refl, refl, refl)
        | inr g ↦
            rw (e, f, g) (lookup-new key value w.configuration f, (λ s h. h), refl, refl, refl)
      ]
    ]
  ]

  set_default-Keeps : (key value : Bytes) → Keeps there_frame (set_default env key value)
  set_default-Keeps key value = record { keeps = set_default-Before key value }

  insert_status-Before :
      (w : World) → w.scheduler_status ≡ none → StillThere w (insert_status env w).1
  unfolding insert_status
  insert_status-Before w empty = elim (Bool-cases (env.db_fails (suc w.ticks))) [
    | inl e ↦ rw e ((λ k v h. h), (λ s h. h), refl, refl, refl)
    | inr e ↦
        rw e ((λ k v h. h), (λ s h. absurd (let clash = sym empty ∙ h in cc)), refl, refl, refl)
  ]

  guarded-Before :
      (b : Bool) (rest : M (Unit {0}))
      → Keeps there_frame rest
      → (w : World) → (b ≡ true → w.scheduler_status ≡ none)
      → StillThere w ((when b (insert_status env) >> rest) w).1
  guarded-Before true rest h w empty =
      let made = insert_status env w in
      StillThere-trans w made.1 ((insert_status env >> rest) w).1
        (insert_status-Before w (empty refl))
        (continue-Before there_frame made.0 (λ u. rest) (λ u. h) made.1)
  guarded-Before false rest h w empty = h.keeps w

  -- The row of the status is made only if there is none.
  status_step : M (Unit {0}) → M (Unit {0})
  status_step rest = do
    count ← query env (λ w. count_status w.scheduler_status)
    when (count == 0) (insert_status env)
    rest

  status_step-Keeps :
      (rest : M (Unit {0})) → Keeps there_frame rest → Keeps there_frame (status_step rest)
  unfolding status_step
  status_step-Keeps rest h = record {
    keeps = λ w. elim (Bool-cases (env.db_fails w.ticks)) [
      | inl e ↦ rw e ((λ k v h. h), (λ s h. h), refl, refl, refl)
      | inr e ↦ rw e (
          guarded-Before (count_status w.scheduler_status == 0) rest h (tick w)
            (no_rows w.scheduler_status))
    ];
  }

  table-Keeps : Keeps there_frame (create_table env)
  table-Keeps = exec-Keeps there_frame env (λ w. w) StillThere-refl

  -- Init, whatever fails, keeps every value of the configuration, the status of the scheduler, the
  -- certificates, the keys and the attempts that are there.
  pub init-StillThere : (w : World) → StillThere w (init env w).1
  unfolding init status_step
  init-StillThere w =
      let rest =
        set_default env (codes "delay_seconds") (codes "172800")
        >> set_default env (codes "delayed_chains") (codes "1,137") in
      let kept : Keeps there_frame (status_step rest) = status_step-Keeps rest (
        then-Keeps there_frame (set_default-Keeps (codes "delay_seconds") (codes "172800"))
          (set_default-Keeps (codes "delayed_chains") (codes "1,137"))) in
      (then-Keeps there_frame table-Keeps (
          then-Keeps there_frame table-Keeps (
            then-Keeps there_frame table-Keeps (
              then-Keeps there_frame table-Keeps (then-Keeps there_frame table-Keeps kept))))).keeps
        w
