-- ===== src/World/Laws.antt =====
-- What a chain of operations keeps, whatever it returns: a relation between the state before and
-- the state after that is reflexive and transitive holds of the chain if it holds of each part.
use agg_certificate_proxy.Prelude.{
  ◌≡◌, refl, Bool, true, false, Option, none, some, Bool-cases, inl, inr, ◌⊎◌, if◌then◌else◌,
}
use agg_certificate_proxy.World.{
  World, Env, Outcome, ok, err, panicked, M, continue, ◌>>=◌, ◌>>◌, return, fail, or_fail, or_panic,
  attempt, tick, time_now, exec, query, when, is_cancelled, Error,
}

pub record Frame : Type 1 where
  pub Before : World → World → Type 0
  pub same : (w : World) → Before w w
  pub then_too : (u v w : World) → Before u v → Before v w → Before u w
  -- the counter may always go on
  pub ticked : (w : World) → Before w (tick w)

module _ (F : Frame) where
  open F use {Before, same, then_too, ticked}

  -- The operation relates every state to the one that it leaves.
  pub record Keeps {A : Type 0} (m : M A) : Type 0 where
    pub keeps : (w : World) → Before w (m w).1

  pub continue-Before :
      {A B : Type 0} (r : Outcome A) (f : A → M B)
      → ((a : A) → Keeps (f a))
      → (w : World) → Before w (continue r f w).1
  continue-Before (ok a) f h w = (h a).keeps w
  continue-Before (err e) f h w = same w
  continue-Before panicked f h w = same w

  pub bind-Keeps :
      {A B : Type 0} {m : M A} {f : A → M B} → Keeps m → ((a : A) → Keeps (f a)) → Keeps (m >>= f)
  bind-Keeps {m} {f} h k = record {
    keeps = λ w. then_too w (m w).1 _ (h.keeps w) (continue-Before (m w).0 f k (m w).1);
  }

  pub then-Keeps : {A B : Type 0} {m : M A} {n : M B} → Keeps m → Keeps n → Keeps (m >> n)
  then-Keeps {m} {n} h k = record {
    keeps =
        λ w. then_too w (m w).1 _ (h.keeps w) (continue-Before (m w).0 (λ _. n) (λ _. k) (m w).1);
  }

  pub attempt-Keeps : {A : Type 0} {m : M A} → Keeps m → Keeps (attempt m)
  attempt-Keeps h = record { keeps = λ w. h.keeps w }

  pub return-Keeps : {A : Type 0} {a : A} → Keeps (return a)
  return-Keeps = record { keeps = λ w. same w }

  pub fail-Keeps : {A : Type 0} {e : Error} → Keeps (fail {A = A} e)
  fail-Keeps = record { keeps = λ w. same w }

  or_fail-Before : {A : Type 0} (o : Option A) (e : Error) (w : World) → Before w (or_fail o e w).1
  or_fail-Before none e w = same w
  or_fail-Before (some a) e w = same w

  pub or_fail-Keeps : {A : Type 0} (o : Option A) (e : Error) → Keeps (or_fail o e)
  or_fail-Keeps o e = record { keeps = or_fail-Before o e }

  or_panic-Before : {A : Type 0} (o : Option A) (w : World) → Before w (or_panic o w).1
  or_panic-Before none w = same w
  or_panic-Before (some a) w = same w

  pub or_panic-Keeps : {A : Type 0} (o : Option A) → Keeps (or_panic o)
  or_panic-Keeps o = record { keeps = or_panic-Before o }

  when-Before : (b : Bool) (m : M (Unit {0})) → Keeps m → (w : World) → Before w (when b m w).1
  when-Before true m h w = h.keeps w
  when-Before false m h w = same w

  pub when-Keeps : (b : Bool) {m : M (Unit {0})} → Keeps m → Keeps (when b m)
  when-Keeps b {m} h = record { keeps = when-Before b m h }

  pub if-Keeps :
      {A : Type 0} (b : Bool) {m n : M A} → Keeps m → Keeps n → Keeps (if b then m else n)
  if-Keeps true h k = h
  if-Keeps false h k = k

  pub time_now-Keeps : (env : Env) → Keeps (time_now env)
  time_now-Keeps env = record { keeps = ticked }

  pub is_cancelled-Keeps : (env : Env) → Keeps (is_cancelled env)
  is_cancelled-Keeps env = record { keeps = ticked }

  exec-Before :
      (env : Env) (f : World → World)
      → ((w : World) → Before w (f w))
      → (w : World) → Before w (exec env f w).1
  exec-Before env f h w = elim (Bool-cases (env.db_fails w.ticks)) [
    | inl e ↦ rw e (ticked w)
    | inr e ↦ rw e (then_too w (tick w) _ (ticked w) (h (tick w)))
  ]

  pub exec-Keeps :
      (env : Env) (f : World → World) → ((w : World) → Before w (f w)) → Keeps (exec env f)
  exec-Keeps env f h = record { keeps = exec-Before env f h }

  query-Before : {A : Type 0} (env : Env) (f : World → A) (w : World) → Before w (query env f w).1
  query-Before env f w = elim (Bool-cases (env.db_fails w.ticks)) [
    | inl e ↦ rw e (ticked w)
    | inr e ↦ rw e (ticked w)
  ]

  pub query-Keeps : {A : Type 0} (env : Env) (f : World → A) → Keeps (query env f)
  query-Keeps env f = record { keeps = query-Before env f }

  -- A chain may use where its value comes from.
  pub or_fail-bind-Keeps :
      {A B : Type 0} (o : Option A) (e : Error) {f : A → M B}
      → ((a : A) → o ≡ some a → Keeps (f a))
      → Keeps (or_fail o e >>= f)
  or_fail-bind-Keeps none e h = record { keeps = λ w. same w }
  or_fail-bind-Keeps (some a) e h = record { keeps = (h a refl).keeps }

pub Outcome-cases :
    {A : Type 0} (r : Outcome A)
    → ((a : A) × (r ≡ ok a)) ⊎ (((e : Error) × (r ≡ err e)) ⊎ (r ≡ panicked))
Outcome-cases (ok a) = inl (a, refl)
Outcome-cases (err e) = inr (inl (e, refl))
Outcome-cases panicked = inr (inr refl)

-- The rules for chains.
pub ruleset keeps_rules = (
  bind-Keeps, then-Keeps, attempt-Keeps, return-Keeps, fail-Keeps, or_fail-Keeps, or_panic-Keeps,
  when-Keeps, if-Keeps, time_now-Keeps, is_cancelled-Keeps, query-Keeps,
)
