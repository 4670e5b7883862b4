-- ===== src/Tokens/Parse.antt =====
-- What ParseTokenValues returns: the entries one by one, and the map that holds the last entry of
-- each token.
use agg_certificate_proxy.Prelude.{
  ℕ, ◌≤◌, ◌≡◌, refl, ◌∙◌, List, [], ◌∷◌, map, Option, none, some, arith, Bytes, Dict, lookup,
  insert, lookup-insert, same_bytes, length, ◌==◌, if◌then◌else◌, Option-cases, Bool-cases, In, inl,
  inr, ==_iff,
}
use agg_certificate_proxy.Text.Decimal.{parse_uint, format_uint, max_uint32, max_uint64}
use agg_certificate_proxy.Text.Decimal.RoundTrip.{parse_uint-format_uint}
use agg_certificate_proxy.Text.Decimal.Range.{parse_uint-le}
use agg_certificate_proxy.Text.Separated.{split, join, split-join, to_lower, to_lower_idem, Lacks}
use agg_certificate_proxy.Tokens.{
  TokenValue, token_id, entry_with, entry_of, parse_entry, parse_entries, parse_token_values,
}
use agg_certificate_proxy.Tokens.Identity.{format_uint-Lacks}

length-to_lower : (s : Bytes) → length (to_lower s) ≡ length s
unfolding to_lower
length-to_lower [] = refl
length-to_lower (c ∷ s) = omega (arith, length-to_lower s)

-- An entry that the parser accepts is within the ranges of its Go types, and its address has
-- forty bytes, in lower case.
pub record IsTokenValue (t : TokenValue) : Type 0 where
  pub network_fits : t.origin_network ≤ max_uint32
  pub address_length : length t.address ≡ 40
  pub address_lower : to_lower t.address ≡ t.address
  pub value_fits : t.dollar_value ≤ max_uint64
  pub multiplier_fits : t.multiplier ≤ max_uint64

entry_with-IsTokenValue :
    (network value multiplier : Option ℕ) (address : Bytes) (t : TokenValue)
    → ((n : ℕ) → network ≡ some n → n ≤ max_uint32)
    → ((n : ℕ) → value ≡ some n → n ≤ max_uint64)
    → ((n : ℕ) → multiplier ≡ some n → n ≤ max_uint64)
    → length address ≡ 40
    → entry_with network address value multiplier ≡ some t
    → IsTokenValue t
unfolding entry_with
entry_with-IsTokenValue (some n) (some v) (some m) address t hn hv hm l e =
    ground (arith, hn n refl, hv v refl, hm m refl, length-to_lower address, to_lower_idem address)
entry_with-IsTokenValue none v m address t hn hv hm l e = cc
entry_with-IsTokenValue (some n) none m address t hn hv hm l e = cc
entry_with-IsTokenValue (some n) (some v) none address t hn hv hm l e = cc

entry_of-IsTokenValue :
    (parts : List Bytes) (t : TokenValue) → entry_of parts ≡ some t → IsTokenValue t
unfolding entry_of
entry_of-IsTokenValue (n ∷ a ∷ v ∷ m ∷ []) t e = elim (Bool-cases (length a == 40)) [
  | inl long ↦
      entry_with-IsTokenValue (parse_uint max_uint32 n) (parse_uint max_uint64 v)
        (parse_uint max_uint64 m) a t (parse_uint-le max_uint32 n) (parse_uint-le max_uint64 v)
        (parse_uint-le max_uint64 m) ((==_iff (length a) 40).0 long) (rw long at e)
  | inr short ↦ absurd (cc (rw short at e))
]
entry_of-IsTokenValue [] t e = cc
entry_of-IsTokenValue (n ∷ []) t e = cc
entry_of-IsTokenValue (n ∷ a ∷ []) t e = cc
entry_of-IsTokenValue (n ∷ a ∷ v ∷ []) t e = cc
entry_of-IsTokenValue (n ∷ a ∷ v ∷ m ∷ x ∷ r) t e = cc

pub parse_entry-IsTokenValue :
    (s : Bytes) (t : TokenValue) → parse_entry s ≡ some t → IsTokenValue t
unfolding parse_entry
parse_entry-IsTokenValue s t e = entry_of-IsTokenValue (split b':' s) t e

-- The text of an entry, as the flag -token-values has it.
abbrev pub entry_text : TokenValue → Bytes
entry_text t = join b':' (
    format_uint t.origin_network
    ∷ t.address
    ∷ format_uint t.dollar_value
    ∷ format_uint t.multiplier
    ∷ [])

-- The parser reads an entry back from its text, if the entry is within the ranges and its address
-- holds no colon.
pub parse_entry-entry_text :
    (t : TokenValue) → IsTokenValue t → Lacks b':' t.address → parse_entry (entry_text t) ≡ some t
unfolding parse_entry
parse_entry-entry_text t v lacks = rw (
  split-join b':' (format_uint t.origin_network)
      (t.address ∷ format_uint t.dollar_value ∷ format_uint t.multiplier ∷ [])
      (
        format_uint-Lacks t.origin_network,
        (lacks, (format_uint-Lacks t.dollar_value, (format_uint-Lacks t.multiplier, tt))),
      ),
  v.address_length,
  parse_uint-format_uint max_uint32 t.origin_network v.network_fits (omega arith),
  parse_uint-format_uint max_uint64 t.dollar_value v.value_fits v.value_fits,
  parse_uint-format_uint max_uint64 t.multiplier v.multiplier_fits v.multiplier_fits,
  v.address_lower,
)

-- The last of the entries with a key.
abbrev pub latest : Bytes → List TokenValue → Option TokenValue
latest k [] = none
latest k (t ∷ ts) = elim (latest k ts) [
  | some u ↦ some u
  | none ↦ if same_bytes (token_id t) k then some t else none
]

abbrev or_else : Option TokenValue → Option TokenValue → Option TokenValue
or_else (some t) o = some t
or_else none o = o

or_else-none : (o : Option TokenValue) → or_else o none ≡ o
or_else-none none = refl
or_else-none (some t) = refl

-- All the entries are accepted.
abbrev pub Entries : List Bytes → List TokenValue → Type 0
Entries parts ts = map parse_entry parts ≡ map some ts

parse_entries_complete :
    (parts : List Bytes) (ts : List TokenValue) (m : Dict TokenValue)
    → Entries parts ts
    → (r : Dict TokenValue) × (parse_entries parts m ≡ some r)
      × ((k : Bytes) → lookup k r ≡ or_else (latest k ts) (lookup k m))
unfolding parse_entries
parse_entries_complete [] [] m e = (m, refl, λ k. refl)
parse_entries_complete [] (t ∷ ts) m e = absurd (cc)
parse_entries_complete (p ∷ ps) [] m e = absurd (cc)
parse_entries_complete (p ∷ ps) (t ∷ ts) m e =
    let first : parse_entry p ≡ some t = ground arith in
    let others : Entries ps ts = ground arith in
    let (r, returned, holds) = parse_entries_complete ps ts (insert (token_id t) t m) others in
    (
      r,
      rw (first, parse_entries) returned,
      λ k. holds k ∙ ground (arith, lookup-insert (token_id t) k t m),
    )

parse_entries_error :
    (parts : List Bytes) (p : Bytes) (m : Dict TokenValue)
    → In p parts
    → parse_entry p ≡ none
    → parse_entries parts m ≡ none
unfolding parse_entries
parse_entries_error [] p m i e = absurd i
parse_entries_error (q ∷ ps) p m (inl i) e = rw (i, e, parse_entries)
parse_entries_error (q ∷ ps) p m (inr i) e = elim (Option-cases (parse_entry q)) [
  | inl bad ↦ rw (bad, parse_entries)
  | inr (t, good) ↦ rw (good, parse_entries) (parse_entries_error ps p _ i e)
]

-- If every entry is accepted, ParseTokenValues returns the map that holds, for each key, the last
-- entry with that key and nothing else.
pub parse_token_values_complete :
    (s : Bytes) (ts : List TokenValue)
    → Entries (split b',' s) ts
    → (r : Dict TokenValue) × (parse_token_values s ≡ some r)
      × ((k : Bytes) → lookup k r ≡ latest k ts)
unfolding parse_token_values lookup
parse_token_values_complete s ts e =
    let (r, returned, holds) = parse_entries_complete (split b',' s) ts [] e in
    (r, returned, λ k. holds k ∙ or_else-none (latest k ts))

-- If any entry is refused, ParseTokenValues returns an error and no map.
pub parse_token_values_error :
    (s p : Bytes) → In p (split b',' s) → parse_entry p ≡ none → parse_token_values s ≡ none
unfolding parse_token_values
parse_token_values_error s p i e = parse_entries_error (split b',' s) p [] i e
