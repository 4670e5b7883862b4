-- ===== src/Examples/Texts.antt =====
-- The configuration: token values and chains.
use agg_certificate_proxy.Prelude.{
  ℕ, ◌<◌, ◌≢◌, ◌≡◌, refl, ◌↔◌, ◌%◌, ◌^◌, inl, [], ◌∷◌, none, some, Bytes, Dict, codes, lookup,
  replicate, arith, same_bytes, Bool, true, false, In, All-replicate, leb, ◌+◌, ◌*◌,
}
use agg_certificate_proxy.BigEndian.{bytes_to_uint64, set_bytes}
use agg_certificate_proxy.BigEndian.Laws.{bytes_to_uint64_lem}
use agg_certificate_proxy.Examples.{some_env, some_world}
use agg_certificate_proxy.Service.{set_delayed_chains, get_delayed_chains, is_chain_delayed}
use agg_certificate_proxy.Service.Chains.{set_delayed_chains_lem}
use agg_certificate_proxy.Store.{text_delayed_chains}
use agg_certificate_proxy.Store.Duration.{cutoff, is_before, is_before-cutoff, second}
use agg_certificate_proxy.Text.Decimal.{pos, parse_uint}
use agg_certificate_proxy.Text.Separated.{split, to_lower}
use agg_certificate_proxy.Tokens.{TokenValue, token_id, parse_entry, parse_token_values}
use agg_certificate_proxy.Tokens.Parse.{
  IsTokenValue, entry_text, latest, parse_entry-entry_text, parse_token_values_complete,
  parse_token_values_error,
}
use agg_certificate_proxy.Tokens.Identity.{token_id-injective}
use agg_certificate_proxy.World.{ok}

abbrev some_token : TokenValue
some_token = record {
  origin_network = 1;
  address = replicate 40 b'a';
  dollar_value = 3;
  multiplier = 10;
}

abbrev other_token : TokenValue
other_token = record {
  origin_network = 1;
  address = replicate 40 b'A';
  dollar_value = 4;
  multiplier = 10;
}

some_token-IsTokenValue : IsTokenValue some_token
unfolding to_lower
some_token-IsTokenValue = record {
  network_fits = omega arith;
  address_length = refl;
  address_lower = refl;
  value_fits = omega arith;
  multiplier_fits = omega arith;
}

parse_entry-entry_text_example : parse_entry (entry_text some_token) ≡ some some_token
parse_entry-entry_text_example =
    parse_entry-entry_text some_token some_token-IsTokenValue
      (All-replicate (λ c. c ≢ b':') b'a' 40 (λ e. absurd (cc)))

token_id-injective_example : (token_id some_token ≡ token_id other_token) ↔ (
    (some_token.origin_network ≡ other_token.origin_network)
    × (to_lower (replicate 40 b'a') ≡ to_lower (replicate 40 b'A')))
token_id-injective_example = token_id-injective some_token other_token (omega arith) (omega arith)

abbrev two_entries : Bytes
two_entries =
    codes
      "1:aaaaaaaaaaaaaaaaaaaaaaaaaaaaaaaaaaaaaaaa:2:5,1:aaaaaaaaaaaaaaaaaaaaaaaaaaaaaaaaaaaaaaaa:3:10"

parse_token_values_complete_example :
    (r : Dict TokenValue) × (parse_token_values two_entries ≡ some r)
    × ((k : Bytes)
        → lookup k r
          ≡ latest k (record some_token { dollar_value = 2; multiplier = 5 } ∷ some_token ∷ []))
unfolding split parse_entry parse_uint to_lower
parse_token_values_complete_example =
    parse_token_values_complete two_entries
      (record some_token { dollar_value = 2; multiplier = 5 } ∷ some_token ∷ []) refl

parse_token_values_error_example : parse_token_values (codes "1:aa:1:1") ≡ none
unfolding split parse_entry
parse_token_values_error_example =
    parse_token_values_error (codes "1:aa:1:1") (codes "1:aa:1:1") (inl refl) refl

bytes_to_uint64_lem_example :
    bytes_to_uint64 (1 ∷ replicate 8 2) ≡ set_bytes (1 ∷ replicate 8 2) % 2 ^ 64
bytes_to_uint64_lem_example =
    bytes_to_uint64_lem (1 ∷ replicate 8 2)
      (omega arith, All-replicate (λ b. b < 256) 2 8 (omega arith))

is_before-cutoff_example :
    is_before 5 (172800 * second + 5) (cutoff (pos 172800))
    ≡ leb (5 + 172800 * second) (172800 * second + 5)
is_before-cutoff_example = is_before-cutoff 5 (172800 * second + 5) 172800 (omega arith)

set_delayed_chains_lem_example :
    let after = (set_delayed_chains some_env (1 ∷ 137 ∷ []) some_world).1 in
    ((get_delayed_chains some_env after).0 ≡ ok (1 ∷ 137 ∷ []))
    × ((chain : ℕ)
        → (b : Bool) × ((is_chain_delayed some_env chain after).0 ≡ ok b)
          × ((b ≡ true) ↔ In chain (1 ∷ 137 ∷ [])))
    × ((k : Bytes)
        → same_bytes text_delayed_chains k ≡ false
        → lookup k after.configuration ≡ lookup k some_world.configuration)
set_delayed_chains_lem_example =
    set_delayed_chains_lem some_env some_world (1 ∷ 137 ∷ []) (omega arith, (omega arith, tt)) refl
      refl
