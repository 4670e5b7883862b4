-- ===== src/Tokens/Identity.antt =====
-- The key of a token tells tokens apart.
use agg_certificate_proxy.Prelude.{
  ℕ, ◌≤◌, ◌≡◌, ◌≢◌, ◌↔◌, ap, true, [], ◌∷◌, ◌++◌, arith, Bytes, All-map,
}
use agg_certificate_proxy.Text.Decimal.{parse_uint, format_uint, max_uint32, max_uint64, is_digit}
use agg_certificate_proxy.Text.Decimal.RoundTrip.{parse_uint-format_uint, format_uint-All}
use agg_certificate_proxy.Text.Separated.{to_lower, Lacks}
use agg_certificate_proxy.Tokens.{TokenValue, token_id}

-- The text before the first separator, and the text behind it, are determined by the whole.
before_separator :
    (sep : ℕ) (p q s t : Bytes)
    → Lacks sep p
    → Lacks sep q
    → p ++ sep ∷ s ≡ q ++ sep ∷ t
    → (p ≡ q) × (s ≡ t)
before_separator sep [] [] s t hp hq e = ground arith
before_separator sep [] (d ∷ q) s t hp hq e = ground arith
before_separator sep (c ∷ p) [] s t hp hq e = ground arith
before_separator sep (c ∷ p) (d ∷ q) s t hp hq e =
    ground (arith, before_separator sep p q s t hp.1 hq.1)

digit-ne-colon : (c : ℕ) → is_digit c ≡ true → c ≢ b':'
digit-ne-colon c h = ground arith

pub format_uint-Lacks : (n : ℕ) → Lacks b':' (format_uint n)
format_uint-Lacks n = All-map _ _ (format_uint n) digit-ne-colon (format_uint-All n)

format_uint-injective :
    (m n : ℕ) → m ≤ max_uint64 → n ≤ max_uint64 → format_uint m ≡ format_uint n → m ≡ n
format_uint-injective m n hm hn e = cc (
  ap (parse_uint max_uint64) e,
  parse_uint-format_uint max_uint64 m hm hm,
  parse_uint-format_uint max_uint64 n hn hn,
)

-- Two tokens have one key exactly when their networks agree and their addresses agree up to the
-- case of the letters, for networks within uint32.
pub token_id-injective :
    (t u : TokenValue)
    → t.origin_network ≤ max_uint32
    → u.origin_network ≤ max_uint32
    → (token_id t ≡ token_id u)
      ↔ ((t.origin_network ≡ u.origin_network) × (to_lower t.address ≡ to_lower u.address))
unfolding token_id
token_id-injective t u ht hu = (apart, λ same. cc (same.0, same.1))
  where
    apart :
        token_id t ≡ token_id u
        → (t.origin_network ≡ u.origin_network) × (to_lower t.address ≡ to_lower u.address)
    apart e =
        let (networks, addresses) =
          before_separator b':' (format_uint t.origin_network) (format_uint u.origin_network)
            (to_lower t.address) (to_lower u.address) (format_uint-Lacks t.origin_network)
            (format_uint-Lacks u.origin_network) e in
        (
          format_uint-injective t.origin_network u.origin_network (omega arith) (omega arith)
              networks,
          addresses,
        )
