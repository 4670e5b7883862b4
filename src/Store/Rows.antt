-- ===== src/Store/Rows.antt =====
-- What the operations of the store leave alone: those on certificates and configuration do not
-- touch the kill switch, and those of the kill switch do not touch the certificates.
use agg_certificate_proxy.Prelude.{ℕ, ◌≡◌, refl, ◌∙◌, Bool, Bytes}
use agg_certificate_proxy.Text.Decimal.{ℤ}
use agg_certificate_proxy.World.{World, Env, AttemptType}
use agg_certificate_proxy.World.Laws.{Frame, Keeps, exec-Keeps, keeps_rules}
use agg_certificate_proxy.Store.{
  store_certificate, get_processable_certificates, mark_certificate_processed,
  mark_certificate_override_sent, get_config_value, get_credential, get_scheduler_status,
  set_scheduler_status, record_kill_switch_attempt, get_recent_kill_switch_attempts,
  cleanup_old_kill_switch_attempts, get_certificate_by_id,
}

-- The kill switch, its attempts and the credentials are as before.
abbrev pub SameSwitch : World → World → Type 0
SameSwitch v w =
    (w.attempts ≡ v.attempts)
    × (w.scheduler_status ≡ v.scheduler_status)
    × (w.credentials ≡ v.credentials)

abbrev pub switch_frame : Frame
switch_frame = record {
  Before = SameSwitch;
  same = λ w. (refl, refl, refl);
  then_too = λ u v w p q. (q.0 ∙ p.0, q.1 ∙ p.1, q.2 ∙ p.2);
  ticked = λ w. (refl, refl, refl);
}

-- The certificates, and what was sent, are as before.
abbrev pub SameCertificates : World → World → Type 0
SameCertificates v w =
    (w.certificates ≡ v.certificates) × (w.last_id ≡ v.last_id) × (w.sent ≡ v.sent)

abbrev pub certificates_frame : Frame
certificates_frame = record {
  Before = SameCertificates;
  same = λ w. (refl, refl, refl);
  then_too = λ u v w p q. (q.0 ∙ p.0, q.1 ∙ p.1, q.2 ∙ p.2);
  ticked = λ w. (refl, refl, refl);
}

module _ (F : Frame) (env : Env) where
  pub get_config_value-Keeps : (key : Bytes) → Keeps F (get_config_value env key)
  unfolding get_config_value
  get_config_value-Keeps key = search keeps_rules depth 14

  pub get_credential-Keeps : (key : Bytes) → Keeps F (get_credential env key)
  unfolding get_credential
  get_credential-Keeps key = search keeps_rules depth 14

  pub get_scheduler_status-Keeps : Keeps F (get_scheduler_status env)
  unfolding get_scheduler_status
  get_scheduler_status-Keeps = search keeps_rules depth 14

  pub get_recent-Keeps :
      (kind : AttemptType) (d : ℕ) → Keeps F (get_recent_kill_switch_attempts env kind d)
  unfolding get_recent_kill_switch_attempts
  get_recent-Keeps kind d = search keeps_rules depth 14

  pub get_certificate_by_id-Keeps : (id : Bytes) → Keeps F (get_certificate_by_id env id)
  unfolding get_certificate_by_id
  get_certificate_by_id-Keeps id = search keeps_rules depth 14

  pub get_processable-Keeps : Keeps F (get_processable_certificates env)
  unfolding get_processable_certificates
  get_processable-Keeps = search keeps_rules depth 14

module _ (env : Env) where
  pub store_certificate-SameSwitch :
      (raw metadata id : Bytes) → Keeps switch_frame (store_certificate env raw metadata id)
  unfolding store_certificate
  store_certificate-SameSwitch raw metadata id = search (keeps_rules, exec-Keeps) depth 14

  pub mark_processed-SameSwitch : (id : ℕ) → Keeps switch_frame (mark_certificate_processed env id)
  unfolding mark_certificate_processed
  mark_processed-SameSwitch id = search (keeps_rules, exec-Keeps) depth 14

  pub mark_override-SameSwitch :
      (id : ℤ) → Keeps switch_frame (mark_certificate_override_sent env id)
  unfolding mark_certificate_override_sent
  mark_override-SameSwitch id = search (keeps_rules, exec-Keeps) depth 14

  pub set_status-SameCertificates :
      (active : Bool) → Keeps certificates_frame (set_scheduler_status env active)
  unfolding set_scheduler_status
  set_status-SameCertificates active = search (keeps_rules, exec-Keeps) depth 14

  pub record_attempt-SameCertificates :
      (kind : AttemptType) → Keeps certificates_frame (record_kill_switch_attempt env kind)
  unfolding record_kill_switch_attempt
  record_attempt-SameCertificates kind = search (keeps_rules, exec-Keeps) depth 14

  pub cleanup-SameCertificates :
      (d : ℕ) → Keeps certificates_frame (cleanup_old_kill_switch_attempts env d)
  unfolding cleanup_old_kill_switch_attempts
  cleanup-SameCertificates d = search (keeps_rules, exec-Keeps) depth 14
