-- ===== src/Store/Table.antt =====
-- The table of certificates over time: rows are added at the end, and of a row only the two marks
-- change. An UPDATE also writes over the time of a mark that is set already.
use agg_certificate_proxy.Prelude.{
  ℕ, suc, ◌≤◌, ◌<◌, ◌==◌, ◌≡◌, refl, ◌∙◌, false, Bool-cases, inl, inr, List, [], ◌∷◌, ◌++◌, map,
  Bytes, arith, ltb,
}
use agg_certificate_proxy.Store.{
  insert_row, set_processed, set_override, is_id, is_null, store_certificate,
  mark_certificate_processed, mark_certificate_override_sent,
}
use agg_certificate_proxy.Store.Rows.{certificates_frame}
use agg_certificate_proxy.Text.Decimal.{ℤ}
use agg_certificate_proxy.World.{World, Env, M, Row, exec, trigger}
use agg_certificate_proxy.World.Laws.{
  Frame, Keeps, exec-Keeps, bind-Keeps, time_now-Keeps, keeps_rules,
}

-- A row at a later time: a mark that is set stays set, maybe with another time.
pub record Follows (r s : Row) : Type 0 where
  pub same_id : s.id ≡ r.id
  pub same_raw : s.raw_proto ≡ r.raw_proto
  pub same_time : s.received_at ≡ r.received_at
  pub same_metadata : s.metadata ≡ r.metadata
  pub same_cert_id : s.cert_id ≡ r.cert_id
  pub stays_processed : is_null r.processed_at ≡ false → is_null s.processed_at ≡ false
  pub stays_overridden : is_null r.override_sent_at ≡ false → is_null s.override_sent_at ≡ false

-- A table at a later time: every row is still there, at its place.
abbrev pub Extends : List Row → List Row → Type 0
Extends [] ss = Unit
Extends (r ∷ rs) [] = ⊥
Extends (r ∷ rs) (s ∷ ss) = Follows r s × Extends rs ss

-- The ids grow, from above the first number up to the last.
abbrev pub IsTable : ℕ → List Row → ℕ → Type 0
IsTable low [] last = low ≤ last
IsTable low (r ∷ rs) last = (low < r.id) × IsTable r.id rs last

Follows-refl : (r : Row) → Follows r r
Follows-refl r = record {
  same_id = refl;
  same_raw = refl;
  same_time = refl;
  same_metadata = refl;
  same_cert_id = refl;
  stays_processed = λ h. h;
  stays_overridden = λ h. h;
}

Follows-trans : (r s t : Row) → Follows r s → Follows s t → Follows r t
Follows-trans r s t h k = record {
  same_id = k.same_id ∙ h.same_id;
  same_raw = k.same_raw ∙ h.same_raw;
  same_time = k.same_time ∙ h.same_time;
  same_metadata = k.same_metadata ∙ h.same_metadata;
  same_cert_id = k.same_cert_id ∙ h.same_cert_id;
  stays_processed = λ p. k.stays_processed (h.stays_processed p);
  stays_overridden = λ p. k.stays_overridden (h.stays_overridden p);
}

pub Extends-refl : (rs : List Row) → Extends rs rs
Extends-refl [] = tt
Extends-refl (r ∷ rs) = (Follows-refl r, Extends-refl rs)

pub Extends-trans : (rs ss ts : List Row) → Extends rs ss → Extends ss ts → Extends rs ts
Extends-trans [] ss ts h k = tt
Extends-trans (r ∷ rs) [] ts h k = absurd h
Extends-trans (r ∷ rs) (s ∷ ss) [] h k = absurd k
Extends-trans (r ∷ rs) (s ∷ ss) (t ∷ ts) h k =
    (Follows-trans r s t h.0 k.0, Extends-trans rs ss ts h.1 k.1)

Extends-map :
    (f : Row → Row) → ((r : Row) → Follows r (f r)) → (rs : List Row) → Extends rs (map f rs)
Extends-map f h [] = tt
Extends-map f h (r ∷ rs) = (h r, Extends-map f h rs)

Extends-append : (rs new : List Row) → Extends rs (rs ++ new)
Extends-append [] new = tt
Extends-append (r ∷ rs) new = (Follows-refl r, Extends-append rs new)

IsTable-map :
    (f : Row → Row)
    → ((r : Row) → Follows r (f r))
    → (low : ℕ) (rs : List Row) (last : ℕ) → IsTable low rs last
    → IsTable low (map f rs) last
IsTable-map f h low [] last t = t
IsTable-map f h low (r ∷ rs) last t = rw (h r).same_id (t.0, IsTable-map f h r.id rs last t.1)

IsTable-append :
    (low : ℕ) (rs : List Row) (last : ℕ) (new : Row)
    → new.id ≡ suc last
    → IsTable low rs last
    → IsTable low (rs ++ new ∷ []) (suc last)
IsTable-append low [] last new e t = (omega (arith, e, t), omega (arith, e))
IsTable-append low (r ∷ rs) last new e t = (t.0, IsTable-append r.id rs last new e t.1)

-- The later state has a later table, and the ids still grow.
abbrev pub IsLater : World → World → Type 0
IsLater v w =
    Extends v.certificates w.certificates
    × (IsTable 0 v.certificates v.last_id → IsTable 0 w.certificates w.last_id)

pub IsLater-refl : (w : World) → IsLater w w
IsLater-refl w = (Extends-refl w.certificates, λ h. h)

abbrev pub table_frame : Frame
table_frame = record {
  Before = IsLater;
  same = IsLater-refl;
  then_too = λ u v w p q.
      (Extends-trans u.certificates v.certificates w.certificates p.0 q.0, λ h. q.1 (p.1 h));
  ticked = λ w. (Extends-refl w.certificates, λ h. h);
}

set_processed-Follows : (t id : ℕ) (r : Row) → Follows r (set_processed t id r)
set_processed-Follows t id r = elim (Bool-cases (r.id == id)) [
  | inl e ↦ rw e (record {
    same_id = refl;
    same_raw = refl;
    same_time = refl;
    same_metadata = refl;
    same_cert_id = refl;
    stays_processed = λ h. refl;
    stays_overridden = λ h. h;
  })
  | inr e ↦ rw e (Follows-refl r)
]

set_override-Follows : (t : ℕ) (id : ℤ) (r : Row) → Follows r (set_override t id r)
set_override-Follows t id r = elim (Bool-cases (is_id id r.id)) [
  | inl e ↦ rw e (record {
    same_id = refl;
    same_raw = refl;
    same_time = refl;
    same_metadata = refl;
    same_cert_id = refl;
    stays_processed = λ h. h;
    stays_overridden = λ h. refl;
  })
  | inr e ↦ rw e (Follows-refl r)
]

pub trigger-IsLater : (w : World) → IsLater w (trigger w)
trigger-IsLater w = elim (Bool-cases (ltb w.triggers 256)) [
  | inl e ↦ rw e (Extends-refl w.certificates, λ h. h)
  | inr e ↦ rw e (IsLater-refl w)
]

module _ (env : Env) where
  map-Keeps :
      (f : Row → Row)
      → ((r : Row) → Follows r (f r))
      → Keeps table_frame (exec env (λ w. record w { certificates = map f w.certificates }))
  map-Keeps f h =
      exec-Keeps table_frame env (λ w. record w { certificates = map f w.certificates })
        (λ w. (Extends-map f h w.certificates, IsTable-map f h 0 w.certificates w.last_id))

  insert-Keeps :
      (raw metadata id : Bytes) (t : ℕ)
      → Keeps table_frame (exec env (insert_row raw metadata id t))
  insert-Keeps raw metadata id t =
      exec-Keeps table_frame env (insert_row raw metadata id t)
        (λ w. (Extends-append w.certificates _, IsTable-append 0 w.certificates w.last_id _ refl))

  pub store_certificate-IsLater :
      (raw metadata id : Bytes) → Keeps table_frame (store_certificate env raw metadata id)
  unfolding store_certificate
  store_certificate-IsLater raw metadata id = search (keeps_rules, insert-Keeps) depth 14

  pub mark_processed-IsLater : (id : ℕ) → Keeps table_frame (mark_certificate_processed env id)
  unfolding mark_certificate_processed
  mark_processed-IsLater id =
      bind-Keeps table_frame (time_now-Keeps table_frame env)
        (λ now. map-Keeps (set_processed now id) (set_processed-Follows now id))

  pub mark_override-IsLater : (id : ℤ) → Keeps table_frame (mark_certificate_override_sent env id)
  unfolding mark_certificate_override_sent
  mark_override-IsLater id =
      bind-Keeps table_frame (time_now-Keeps table_frame env)
        (λ now. map-Keeps (set_override now id) (set_override-Follows now id))

  -- What leaves the certificates as they were.
  pub same-Keeps : {A : Type 0} {m : M A} → Keeps certificates_frame m → Keeps table_frame m
  same-Keeps {m} h = record {
    keeps = λ w.
        let (rows, last, sent) = h.keeps w in rw (rows, last) (Extends-refl w.certificates, λ t. t);
  }
