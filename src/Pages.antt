-- ===== src/Pages.antt =====
-- internal/certificate/api.go: the pages that show the certificates and the configuration. They only
-- read. The printing of JSON and of the template is left out: a page is the data that is printed.
pub mod Texts
pub mod Views
pub mod Totals
pub mod Reading
pub mod Summary
use agg_certificate_proxy.Prelude.{
  ℕ, zero, suc, ◌+◌, ◌-◌, Bool, true, false, ◌&&◌, ◌||◌, List, [], ◌∷◌, Option, none, some, Bytes,
  codes, length, same_bytes, ltb, leb, ◌==◌, if◌then◌else◌,
}
use agg_certificate_proxy.Api.{is_empty}
use agg_certificate_proxy.Decoded.{
  Float64, Value, null, map_of, Values, no_value, value, Fields, no_field, Conversions, field_of,
  as_float, as_string, as_list, as_map,
}
use agg_certificate_proxy.Metrics.Totals.{exit_amount}
use agg_certificate_proxy.Store.{
  Certificate, get_scheduler_status, get_config_value, get_credential, get_certificates, or_empty,
  is_null,
}
use agg_certificate_proxy.Store.Duration.{from_word, duration_word}
use agg_certificate_proxy.Text.Decimal.{ℤ, pos, negsuc}
use agg_certificate_proxy.World.{
  Env, M, ◌>>=◌, ◌>>◌, return, attempt, Result, fine, failed, time_now,
}
use Texts.{atoi, format_amount, count_values, truncate_json}

-- What the pages use of the Go library.
pub record Printing : Type 0 where
  pub conversions : Conversions
  -- int(f)
  pub to_int : Float64 → ℤ
  -- json.Unmarshal
  pub unmarshal : Bytes → Option Value
  -- json.MarshalIndent of a decoded value, which may fail
  pub marshal_indent : Value → Option Bytes
  -- big.Float with a number of decimals, by numerator and denominator
  pub decimals : ℕ → ℕ → ℕ → Bytes
  -- time.Duration.String
  pub duration_text : ℤ → Bytes

pub record TokenExit : Type 0 where
  pub token_address : Bytes
  pub amount : ℕ
  pub amount_formatted : Bytes

pub record CertificateView : Type 0 where
  pub certificate : Certificate
  pub network_id : ℕ
  pub height : ℕ
  pub will_send_at : ℤ
  pub tokens : List TokenExit
  pub bridge_exit_count : ℤ
  pub imported_bridge_exit_count : ℤ
  pub pretty_metadata : Bytes
  pub full_pretty_metadata : Bytes
  pub has_full_metadata : Bool

pub record ChainInfo : Type 0 where
  pub total_amount : ℕ
  pub formatted_total : Bytes
  pub cert_count : ℕ

pub record CertificateData : Type 0 where
  pub delay_hours : Bytes
  pub delay : Bytes
  pub current_time : ℕ
  pub scheduler_active : Bool
  pub chain_totals : List (ℕ × ChainInfo)
  pub certificates : List CertificateView

-- ReceivedAt.Add(delay)
abbrev add_delay : ℕ → ℤ → ℤ
add_delay t (pos k) = pos (t + k)
add_delay t (negsuc k) = if leb (suc k) t then pos (t - suc k) else negsuc (k - t)

abbrev or_zero : Option ℕ → ℕ
or_zero none = 0
or_zero (some n) = n

abbrev or_text : Bytes → Option Bytes → Bytes
or_text t none = t
or_text t (some s) = s

module _ (p : Printing) where
  -- prettyPrintJSON: the text itself where it cannot be read or printed.
  unfoldable pub pretty_print_json : Bytes → Bytes
  pretty_print_json s = elim (p.unmarshal s) [ none ↦ s | some v ↦ or_text s (p.marshal_indent v) ]

  -- The entry of the token, with its text.
  unfoldable pub add_token : Bytes → ℕ → List TokenExit → List TokenExit
  add_token token amount [] =
      record {
        token_address = token;
        amount = amount;
        amount_formatted = format_amount p.decimals (some amount);
      }
      ∷ []
  add_token token amount (t ∷ rest) =
      if same_bytes t.token_address token
      then record t {
        amount = t.amount + amount;
        amount_formatted = format_amount p.decimals (some (t.amount + amount));
      }
        ∷ rest
      else t ∷ add_token token amount rest

  abbrev pub token_of : Option Fields → Bytes
  token_of none = []
  token_of (some m) = or_text [] (as_string (field_of (codes "token_address") m))

  abbrev pub add_exit : Bytes → Option ℕ → List TokenExit → List TokenExit
  add_exit token none tokens = tokens
  add_exit token (some amount) tokens = add_token token amount tokens

  -- The loops over the exits, and over the imported exits.
  unfoldable pub add_exit_tokens : Values → List TokenExit → List TokenExit
  add_exit_tokens no_value tokens = tokens
  add_exit_tokens (value v rest) tokens =
      add_exit_tokens rest (add_exit (token_of (as_map (some v))) (exit_amount v) tokens)

  abbrev pub add_field_tokens : Option Values → List TokenExit → List TokenExit
  add_field_tokens none tokens = tokens
  add_field_tokens (some vs) tokens = add_exit_tokens vs tokens

  -- The number of the entries, unless the count is a field of its own.
  abbrev count_of : Option Values → Option Float64 → ℤ
  count_of vs (some f) = p.to_int f
  count_of (some vs) none = pos (count_values vs)
  count_of none none = pos 0

  abbrev pub to_number : (Float64 → ℕ) → Option Float64 → ℕ
  to_number f none = 0
  to_number f (some x) = f x

  abbrev pub tokens_of : Fields → List TokenExit
  tokens_of m =
      add_field_tokens (as_list (field_of (codes "imported_bridge_exits") m))
        (add_field_tokens (as_list (field_of (codes "bridge_exits") m)) [])

  -- The view of a certificate whose metadata can be read.
  abbrev pub full_view : Certificate → ℤ → Fields → CertificateView
  full_view x delay m =
      let full = pretty_print_json x.metadata in
      let short = truncate_json m 8 in
      record {
        certificate = x;
        network_id = to_number p.conversions.to_uint32 (as_float (field_of (codes "network_id") m));
        height = to_number p.conversions.to_uint64 (as_float (field_of (codes "height") m));
        will_send_at = add_delay x.received_at delay;
        tokens = tokens_of m;
        bridge_exit_count =
            count_of (as_list (field_of (codes "bridge_exits") m))
              (as_float (field_of (codes "bridge_exits_count") m));
        imported_bridge_exit_count =
            count_of (as_list (field_of (codes "imported_bridge_exits") m))
              (as_float (field_of (codes "imported_bridge_exits_count") m));
        pretty_metadata = or_text [] (p.marshal_indent (map_of short.0));
        full_pretty_metadata = full;
        has_full_metadata = short.1 || ltb 500 (length full);
      }

  -- Metadata that cannot be read are shown as they are.
  abbrev pub raw_view : Certificate → ℤ → Bytes → Bytes → CertificateView
  raw_view x delay shown full = record {
    certificate = x;
    network_id = 0;
    height = 0;
    will_send_at = add_delay x.received_at delay;
    tokens = [];
    bridge_exit_count = pos 0;
    imported_bridge_exit_count = pos 0;
    pretty_metadata = shown;
    full_pretty_metadata = full;
    has_full_metadata = false;
  }

  abbrev pub view_with : Certificate → ℤ → Option Value → CertificateView
  view_with x delay (some (map_of m)) = full_view x delay m
  view_with x delay (some null) = full_view x delay no_field
  view_with x delay _ = raw_view x delay x.metadata (pretty_print_json x.metadata)

  unfoldable pub view_of : Certificate → ℤ → CertificateView
  view_of x delay =
      if is_empty x.metadata
      then raw_view x delay [] []
      else view_with x delay (p.unmarshal x.metadata)

  abbrev pub tokens_total : List TokenExit → ℕ
  tokens_total [] = 0
  tokens_total (t ∷ rest) = t.amount + tokens_total rest

  -- The totals of a chain, with its text still empty.
  unfoldable pub add_chain : ℕ → ℕ → List (ℕ × ChainInfo) → List (ℕ × ChainInfo)
  add_chain n amount [] =
      (n, record { total_amount = amount; formatted_total = []; cert_count = 1 }) ∷ []
  add_chain n amount ((m, info) ∷ rest) =
      if m == n
      then (
        m,
        record info { total_amount = info.total_amount + amount; cert_count = suc info.cert_count },
      )
        ∷ rest
      else (m, info) ∷ add_chain n amount rest

  -- Only a certificate that waits, and whose network is known, counts.
  abbrev pub add_pending : CertificateView → List (ℕ × ChainInfo) → List (ℕ × ChainInfo)
  add_pending v chains =
      if is_null v.certificate.processed_at && ltb 0 v.network_id
      then add_chain v.network_id (tokens_total v.tokens) chains
      else chains

  unfoldable pub views_of :
      ℤ → List Certificate → List (ℕ × ChainInfo) → List CertificateView × List (ℕ × ChainInfo)
  views_of delay [] chains = ([], chains)
  views_of delay (x ∷ xs) chains =
      let v = view_of x delay in
      let rest = views_of delay xs (add_pending v chains) in (v ∷ rest.0, rest.1)

  abbrev pub format_totals : List (ℕ × ChainInfo) → List (ℕ × ChainInfo)
  format_totals [] = []
  format_totals ((n, info) ∷ rest) =
      (n, record info { formatted_total = format_amount p.decimals (some info.total_amount) })
      ∷ format_totals rest

  -- An error of the status counts as active.
  abbrev active_or_error : Result Bool → Bool
  active_or_error (fine b) = b
  active_or_error (failed e) = true

  unfoldable pub load_certificate_data : Env → M CertificateData
  load_certificate_data env = do
    active ← attempt (get_scheduler_status env)
    delay_text ← get_config_value env (codes "delay_seconds")
    certs ← get_certificates env
    now ← time_now env
    let delay = from_word (duration_word (atoi delay_text))
    let views = views_of delay certs []
    return (record {
      delay_hours = delay_text;
      delay = p.duration_text delay;
      current_time = now;
      scheduler_active = active_or_error active;
      chain_totals = format_totals views.1;
      certificates = views.0;
    })

-- A page, or the status of an error.
pub data Page (A : Type 0) : Type 0 where
  page : A → Page A
  page_error : ℕ → Page A

abbrev page_of : {A : Type 0} → Result A → M (Page A)
page_of (failed e) = return (page_error 500)
page_of (fine a) = return (page a)

abbrev view_with_key : Printing → Env → Bytes → Result Bytes → M (Page CertificateData)
view_with_key p env key (failed e) = return (page_error 500)
view_with_key p env key (fine stored) =
    if env.compare_hash_and_password stored key
    then (do loaded ← attempt (load_certificate_data p env); page_of loaded)
    else return (page_error 401)

-- The key is a value of the query.
unfoldable pub view_certs : Printing → Env → Bytes → M (Page CertificateData)
view_certs p env key = if is_empty key then return (page_error 401) else (do
  stored ← attempt (get_credential env (codes "data_key"))
  view_with_key p env key stored)

-- The configured delay.
unfoldable pub view_config : Env → M (Page Bytes)
view_config env = do delay ← attempt (get_config_value env (codes "delay_seconds")); page_of delay
