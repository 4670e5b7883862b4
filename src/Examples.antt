-- ===== src/Examples.antt =====
-- Concrete surroundings, states and requests, on which the theorems are applied.
mod Texts
mod Hashes
mod Locks
mod Rounds
mod Switches
mod Calls
mod Forms
mod Starts
mod Reports
mod Shown
use agg_certificate_proxy.Prelude.{
  ℕ, zero, suc, ◌≤◌, arith, ◌+◌, ◌*◌, ◌^◌, ◌≡◌, refl, sym, ap, Bool, true, false, List, [], ◌∷◌,
  ◌++◌, append-nil, Option, none, some, Bytes, codes, length, take, replicate, concat, same_bytes,
}
use agg_certificate_proxy.Ethereum.{Ethereum, IsKeccak}
use agg_certificate_proxy.Proto.Fields.{FixedBytes20, FixedBytes32}
use agg_certificate_proxy.Proto.Interop.{BridgeExit, TokenInfo, transfer}
use agg_certificate_proxy.Proto.Node.{
  ProtoCertificate, CertificateId, SubmitCertificateRequest, SubmitCertificateResponse,
}
use agg_certificate_proxy.World.{World, Row, Status, Env}

-- The first 32 bytes of the parts, filled up with zeros.
abbrev hash_of : List Bytes → Bytes
hash_of parts = take 32 (concat parts ++ replicate 32 0)

abbrev pub some_ethereum : Ethereum
some_ethereum = record {
  keccak256_hash = hash_of;
  hex_to_hash = λ s. replicate 32 0;
  address_hex = λ s. codes "0x" ++ replicate 40 b'A';
}

length-take_fill : (n m : ℕ) (s : Bytes) → n ≤ m → length (take n (s ++ replicate m 0)) ≡ n
length-take_fill zero m s h = refl
length-take_fill (suc n) zero [] h = absurd (omega arith)
length-take_fill (suc n) (suc m) [] h = ap suc (length-take_fill n m [] (omega (arith, h)))
length-take_fill (suc n) m (c ∷ s) h = ap suc (length-take_fill n m s (omega (arith, h)))

pub some_ethereum-IsKeccak : IsKeccak some_ethereum
some_ethereum-IsKeccak = record {
  hash_length = λ parts. length-take_fill 32 32 (concat parts) (omega arith);
  hash_parts = λ parts. ap (λ s. take 32 (s ++ replicate 32 0)) (sym (append-nil (concat parts)));
}

abbrev pub bytes20 : ℕ → FixedBytes20
bytes20 c = record { value = some (replicate 20 c) }

abbrev pub bytes32 : ℕ → FixedBytes32
bytes32 c = record { value = some (replicate 32 c) }

-- A transfer of 1000 units of one token.
abbrev pub some_exit : BridgeExit
some_exit = record {
  leaf_type = transfer;
  token_info = some (record { origin_network = 1; origin_token_address = some (bytes20 170) });
  dest_network = 2;
  dest_address = some (bytes20 7);
  amount = some (record { value = some (3 ∷ 232 ∷ []) });
  metadata = none;
}

abbrev pub some_certificate : ProtoCertificate
some_certificate = record {
  network_id = 1;
  height = 9;
  prev_local_exit_root = some (bytes32 1);
  new_local_exit_root = some (bytes32 2);
  bridge_exits = some some_exit ∷ [];
  imported_bridge_exits = [];
  metadata = some (bytes32 3);
  aggchain_data = none;
  custom_chain_data = none;
  l1_info_tree_leaf_count = none;
}

abbrev pub some_request : SubmitCertificateRequest
some_request = record { certificate = some some_certificate }

-- The identifier of a response.
abbrev pub some_id : CertificateId
some_id = record { value = some (bytes32 5) }

abbrev pub some_response : SubmitCertificateResponse
some_response = record { certificate_id = some some_id }

-- Nothing fails, a second passes with every reading of the clock, and a key fits its own hash.
abbrev pub some_env : Env
some_env = record {
  ethereum = some_ethereum;
  clock = λ n. n * 10 ^ 9;
  db_fails = λ n. false;
  cancelled = λ n. false;
  compare_hash_and_password = same_bytes;
  generate_from_password = λ n s. some s;
  marshal = λ q. some (8 ∷ []);
  unmarshal = λ s. some some_request;
  json_marshal = λ j. some [];
  can_connect = λ a. true;
  submit_certificate = λ n a q. some some_response;
  get_certificate_header = λ n a q. none;
}

-- A state with a configuration, the keys, and one certificate that waits.
abbrev pub some_row : Row
some_row = record {
  id = 1;
  raw_proto = 8 ∷ [];
  received_at = 0;
  processed_at = none;
  metadata = [];
  cert_id = replicate 32 5;
  override_sent_at = none;
}

abbrev pub some_world : World
some_world = record {
  certificates = some_row ∷ [];
  last_id = 1;
  configuration =
      (codes "delay_seconds", codes "0")
      ∷ (codes "delayed_chains", codes "1,137")
      ∷ (codes "suspicious_value", codes "100")
      ∷ (codes "token_values", codes "1:aaaaaaaaaaaaaaaaaaaaaaaaaaaaaaaaaaaaaaaa:1:1")
      ∷ [];
  credentials =
      (codes "kill_switch_api_key", codes "k") ∷ (codes "kill_restart_api_key", codes "r") ∷ [];
  scheduler_status = some (record { is_active = true; last_updated = 0 });
  attempts = [];
  sent = [];
  triggers = 0;
  ticks = 0;
}
