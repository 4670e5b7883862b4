-- ===== src/Pages/Views.antt =====
-- What the view of a certificate shows of its metadata.
use agg_certificate_proxy.Prelude.{
  ℕ, ◌+◌, ◌≡◌, refl, ◌∙◌, Bool-cases, inl, inr, List, [], ◌∷◌, Option, none, some, Bytes, codes,
  same_bytes, if◌then◌else◌, arith,
}
use agg_certificate_proxy.Api.{is_empty}
use agg_certificate_proxy.Decoded.{
  Value, null, boolean, float, string, list, map_of, Values, no_value, value, Fields, no_field,
  field_of, as_list, as_float, as_map,
}
use agg_certificate_proxy.Metrics.Sums.{exits_sum, exits_field_sum, object_of, metadata_object}
use agg_certificate_proxy.Metrics.Totals.{exit_amount, or_zero}
use agg_certificate_proxy.Pages.{
  Printing, TokenExit, CertificateView, add_token, add_exit, token_of, add_exit_tokens,
  add_field_tokens, tokens_of, tokens_total, raw_view, view_with, view_of, to_number,
}
use agg_certificate_proxy.Store.{Certificate}
use agg_certificate_proxy.Text.Decimal.{ℤ}

-- The amounts of the exits and of the imported exits in an object.
abbrev pub object_amount : Option Fields → ℕ
object_amount none = 0
object_amount (some m) =
    exits_field_sum (as_list (field_of (codes "bridge_exits") m))
    + exits_field_sum (as_list (field_of (codes "imported_bridge_exits") m))

module _ (p : Printing) where
  abbrev pub object_network : Option Fields → ℕ
  object_network none = 0
  object_network (some m) =
      to_number p p.conversions.to_uint32 (as_float (field_of (codes "network_id") m))

  abbrev pub read_object : Certificate → Option Fields
  read_object x = metadata_object p.conversions p.unmarshal x.metadata

  tokens_total-add_token :
      (token : Bytes) (amount : ℕ) (ts : List TokenExit)
      → tokens_total p (add_token p token amount ts) ≡ tokens_total p ts + amount
  unfolding add_token
  tokens_total-add_token token amount [] = omega arith
  tokens_total-add_token token amount (t ∷ rest) =
      elim (Bool-cases (same_bytes t.token_address token)) [
        | inl e ↦ rw e (omega arith)
        | inr e ↦ rw e (omega (arith, tokens_total-add_token token amount rest))
      ]

  tokens_total-add_exit :
      (token : Bytes) (o : Option ℕ) (ts : List TokenExit)
      → tokens_total p (add_exit p token o ts) ≡ tokens_total p ts + or_zero o
  tokens_total-add_exit token none ts = omega arith
  tokens_total-add_exit token (some amount) ts = tokens_total-add_token token amount ts

  tokens_total-add_exit_tokens :
      (vs : Values) (ts : List TokenExit)
      → tokens_total p (add_exit_tokens p vs ts) ≡ tokens_total p ts + exits_sum vs
  unfolding add_exit_tokens
  tokens_total-add_exit_tokens no_value ts = omega arith
  tokens_total-add_exit_tokens (value v rest) ts =
      tokens_total-add_exit_tokens rest
        (add_exit p (token_of p (as_map (some v))) (exit_amount v) ts)
      ∙ (let e = tokens_total-add_exit (token_of p (as_map (some v))) (exit_amount v) ts in
          omega (arith, e))

  tokens_total-field :
      (o : Option Values) (ts : List TokenExit)
      → tokens_total p (add_field_tokens p o ts) ≡ tokens_total p ts + exits_field_sum o
  tokens_total-field none ts = omega arith
  tokens_total-field (some vs) ts = tokens_total-add_exit_tokens vs ts

  tokens_of-amount : (m : Fields) → tokens_total p (tokens_of p m) ≡ object_amount (some m)
  tokens_of-amount m =
      let bridge = as_list (field_of (codes "bridge_exits") m) in
      let imported = as_list (field_of (codes "imported_bridge_exits") m) in
      tokens_total-field imported (add_field_tokens p bridge [])
      ∙ (let e = tokens_total-field bridge [] in omega (arith, e))

  -- A view has the certificate, the network and the amounts that its metadata say.
  abbrev pub Shows : Certificate → Option Fields → CertificateView → Type 0
  Shows x o v =
      (v.certificate ≡ x)
      × (v.network_id ≡ object_network o)
      × (tokens_total p v.tokens ≡ object_amount o)

  view_with-Shows :
      (x : Certificate) (delay : ℤ) (o : Option Value)
      → Shows x (object_of o) (view_with p x delay o)
  view_with-Shows x delay none = (refl, refl, refl)
  view_with-Shows x delay (some null) = (refl, refl, tokens_of-amount no_field)
  view_with-Shows x delay (some (boolean b)) = (refl, refl, refl)
  view_with-Shows x delay (some (float f)) = (refl, refl, refl)
  view_with-Shows x delay (some (string s)) = (refl, refl, refl)
  view_with-Shows x delay (some (list vs)) = (refl, refl, refl)
  view_with-Shows x delay (some (map_of m)) = (refl, refl, tokens_of-amount m)

  view_at-Shows :
      (x : Certificate) (delay : ℤ) (s : Bytes)
      → Shows x
          (metadata_object p.conversions p.unmarshal s)
          (if is_empty s then raw_view p x delay [] [] else view_with p x delay (p.unmarshal s))
  view_at-Shows x delay [] = (refl, refl, refl)
  view_at-Shows x delay (b ∷ s) = view_with-Shows x delay (p.unmarshal (b ∷ s))

  pub view_of-Shows : (x : Certificate) (delay : ℤ) → Shows x (read_object x) (view_of p x delay)
  unfolding view_of
  view_of-Shows x delay = view_at-Shows x delay x.metadata
