-- ===== src/Suspicion.antt =====
-- The method checkForSuspiciousValue of internal/certificate/grpc.go: the dollar value of a
-- certificate against the limit that is configured.
pub mod Value
pub mod Limit
pub mod Frames
use agg_certificate_proxy.Prelude.{
  ℕ, ◌+◌, ◌*◌, ◌/◌, Bool, true, false, List, [], ◌∷◌, Option, none, some, Bytes, codes, Dict,
  lookup, ltb, ◌==◌, if◌then◌else◌,
}
use agg_certificate_proxy.BigEndian.{set_bytes}
use agg_certificate_proxy.Ethereum.{Ethereum}
use agg_certificate_proxy.Proto.Fields.{contents, FixedBytes20, get_value32}
use agg_certificate_proxy.Proto.Interop.{BridgeExit, TokenInfo, get_token_info, get_amount}
use agg_certificate_proxy.Proto.Node.{ProtoCertificate, get_bridge_exits}
use agg_certificate_proxy.Store.{get_config_value}
use agg_certificate_proxy.Text.Decimal.{parse_uint, max_uint64}
use agg_certificate_proxy.Text.Hex.{trim_0x}
use agg_certificate_proxy.Text.Separated.{to_lower}
use agg_certificate_proxy.Tokens.{TokenValue, token_id, parse_token_values}
use agg_certificate_proxy.World.{
  Env, M, ◌>>=◌, ◌>>◌, return, fail, panic, or_fail, or_panic, bad_value,
}

-- The key of the token of an exit.
abbrev pub exit_key : Ethereum → ℕ → FixedBytes20 → Bytes
exit_key eth network address = token_id (record {
  origin_network = network;
  address = to_lower (trim_0x (eth.address_hex (contents address.value)));
  dollar_value = 0;
  multiplier = 0;
})

-- One round of the loop: the exit is passed over, its token is unknown, or its value is added,
-- where a division by zero panics.
pub data Round : Type 0 where
  passed_over unknown_token divided_by_zero : Round
  worth : ℕ → Round

exit_value : Option TokenValue → ℕ → Round
exit_value none amount = unknown_token
exit_value (some detail) amount =
    if detail.multiplier == 0
    then divided_by_zero
    else worth (amount / detail.multiplier * detail.dollar_value)

address_value : Ethereum → Dict TokenValue → ℕ → ℕ → Option FixedBytes20 → Round
unfolding exit_value
address_value eth values amount network none = passed_over
address_value eth values amount network (some address) =
    exit_value (lookup (exit_key eth network address) values) amount

token_value : Ethereum → Dict TokenValue → ℕ → Option TokenInfo → Round
unfolding address_value
token_value eth values amount none = passed_over
token_value eth values amount (some token) =
    address_value eth values amount token.origin_network token.origin_token_address

unfoldable pub round : Ethereum → Dict TokenValue → Option BridgeExit → Round
unfolding token_value
round eth values b =
    token_value eth values (set_bytes (contents (get_value32 (get_amount b)))) (get_token_info b)

-- Behind the loop: a nil limit makes the comparison panic.
abbrev pub over_limit : Option ℕ → ℕ → M Bool
over_limit none total = panic
over_limit (some limit) total = return (ltb limit total)

abbrev after_round : Round → M Bool → (ℕ → M Bool) → M Bool
after_round passed_over rest more = rest
after_round unknown_token rest more = return true
after_round divided_by_zero rest more = panic
after_round (worth v) rest more = more v

-- The loop, with the total so far.
unfoldable pub total_exits :
    Ethereum → Dict TokenValue → Option ℕ → ℕ → List (Option BridgeExit) → M Bool
total_exits eth values limit total [] = over_limit limit total
total_exits eth values limit total (b ∷ bs) =
    after_round (round eth values b) (total_exits eth values limit total bs)
      (λ v. total_exits eth values limit (total + v) bs)

-- The limit: nil where none is configured.
abbrev pub read_limit : Bytes → M (Option ℕ)
read_limit [] = return none
read_limit (c ∷ s) = do
  limit ← or_fail (parse_uint max_uint64 (c ∷ s)) bad_value
  return (some limit)

abbrev pub compare_with : Env → Option ProtoCertificate → Option ℕ → Bytes → M Bool
compare_with env certificate limit token_values = do
  values ← or_fail (parse_token_values token_values) bad_value
  total_exits env.ethereum values limit 0 (get_bridge_exits certificate)

abbrev pub with_config : Env → Option ProtoCertificate → Bytes → Option ℕ → Bytes → M Bool
with_config env certificate [] limit [] = return true
with_config env certificate (c ∷ s) limit values = compare_with env certificate limit values
with_config env certificate [] limit (c ∷ s) = compare_with env certificate limit (c ∷ s)

unfoldable pub check_for_suspicious_value : Env → Option ProtoCertificate → M Bool
unfolding total_exits
check_for_suspicious_value env certificate = do
  suspicious_value ← get_config_value env (codes "suspicious_value")
  limit ← read_limit suspicious_value
  token_values ← get_config_value env (codes "token_values")
  with_config env certificate suspicious_value limit token_values
