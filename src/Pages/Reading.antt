-- ===== src/Pages/Reading.antt =====
-- Who may see the page of the certificates, and that it changes nothing.
use agg_certificate_proxy.Prelude.{
  ◌≡◌, ◌≢◌, true, Bool-cases, inl, inr, [], ◌∷◌, Bytes, codes, lookup,
}
use agg_certificate_proxy.Pages.{
  Printing, CertificateData, page, page_of, view_with_key, view_certs, load_certificate_data,
}
use agg_certificate_proxy.Store.{get_certificates, get_credential, or_empty}
use agg_certificate_proxy.Store.Rows.{
  SameSwitch, SameCertificates, switch_frame, certificates_frame, get_config_value-Keeps,
  get_credential-Keeps, get_scheduler_status-Keeps,
}
use agg_certificate_proxy.World.{World, Env, Result, fine, failed, ok}
use agg_certificate_proxy.World.Laws.{Frame, Keeps, keeps_rules}

module _ (F : Frame) (p : Printing) (env : Env) where
  get_certificates-Keeps : Keeps F (get_certificates env)
  unfolding get_certificates
  get_certificates-Keeps = search keeps_rules depth 14

  load_certificate_data-Keeps : Keeps F (load_certificate_data p env)
  unfolding load_certificate_data
  load_certificate_data-Keeps =
      search
        (keeps_rules, get_scheduler_status-Keeps, get_config_value-Keeps, get_certificates-Keeps)
        depth 20

  page_of-Keeps : {A : Type 0} (r : Result A) → Keeps F (page_of r)
  page_of-Keeps (failed e) = search keeps_rules depth 14
  page_of-Keeps (fine a) = search keeps_rules depth 14

  view_with_key-Keeps : (key : Bytes) (r : Result Bytes) → Keeps F (view_with_key p env key r)
  view_with_key-Keeps key (failed e) = search keeps_rules depth 14
  view_with_key-Keeps key (fine s) =
      search (keeps_rules, load_certificate_data-Keeps, page_of-Keeps) depth 14

  view_certs-Keeps : (key : Bytes) → Keeps F (view_certs p env key)
  unfolding view_certs
  view_certs-Keeps key = search (keeps_rules, get_credential-Keeps, view_with_key-Keeps) depth 14

-- The key is given, and it fits the stored hash.
abbrev pub MaySee : Env → Bytes → World → Type 0
MaySee env key w =
    (key ≢ [])
    × (env.compare_hash_and_password (or_empty (lookup (codes "data_key") w.credentials)) key
        ≡ true)

shown_to :
    (p : Printing) (env : Env) (key : Bytes) (w : World) (d : CertificateData)
    → (view_certs p env key w).0 ≡ ok (page d)
    → MaySee env key w
unfolding view_certs get_credential
shown_to p env [] w d = λ e. absurd (cc)
shown_to p env (c ∷ key) w d = elim (Bool-cases (env.db_fails w.ticks)) [
  | inl down ↦ rw down (λ e. absurd (cc))
  | inr up ↦
      elim (Bool-cases (
        env.compare_hash_and_password (or_empty (lookup (codes "data_key") w.credentials))
          (c ∷ key))) [
            | inl fits ↦ λ e. ((λ h. absurd (cc)), fits)
            | inr wrong ↦ rw (up, wrong) (λ e. absurd (cc))
          ]
]

-- The page is shown only to a request with the key, and no request for it changes the certificates,
-- what was sent, the kill switch or the keys.
pub view_certs_reads :
    (p : Printing) (env : Env) (key : Bytes) (w : World)
    → SameCertificates w (view_certs p env key w).1
      × SameSwitch w (view_certs p env key w).1
      × ((d : CertificateData) → (view_certs p env key w).0 ≡ ok (page d) → MaySee env key w)
view_certs_reads p env key w = (
  (view_certs-Keeps certificates_frame p env key).keeps w,
  (view_certs-Keeps switch_frame p env key).keeps w,
  λ d e. shown_to p env key w d e,
)
