-- ===== src/World.antt =====
-- The state that the program's parts share, its surroundings, and operations on them.
--
-- The state holds the tables of the SQLite file (internal/certificate/sqlite.go), what was sent
-- to the backend, and the number of tokens in the channel that triggers the metrics. A counter,
-- `ticks`, tells the statements, readings of the clock and remote calls apart: the surroundings
-- answer each by its number, so that any of them may fail at any time.
pub mod Laws
pub mod Succeeding
use agg_certificate_proxy.Prelude.{
  ℕ, suc, ◌+◌, Bool, true, false, List, [], ◌∷◌, ◌++◌, Option, none, some, Bytes, Dict, ltb,
  if◌then◌else◌,
}
use agg_certificate_proxy.Ethereum.{Ethereum}
use agg_certificate_proxy.Json.{Json}
use agg_certificate_proxy.Proto.Node.{
  SubmitCertificateRequest, SubmitCertificateResponse, GetCertificateHeaderRequest,
  GetCertificateHeaderResponse,
}

-- A row of the table certificates. Times are nanoseconds.
pub record Row : Type 0 where
  pub id : ℕ
  pub raw_proto : Bytes
  pub received_at : ℕ
  pub processed_at : Option ℕ
  pub metadata : Bytes
  pub cert_id : Bytes
  pub override_sent_at : Option ℕ

-- The row of the table scheduler_status, whose only id is 1.
pub record Status : Type 0 where
  pub is_active : Bool
  pub last_updated : ℕ

-- The two texts that the column attempt_type holds.
pub data AttemptType : Type 0 where
  kill restart : AttemptType

-- A row of the table kill_switch_attempts.
pub record Attempt : Type 0 where
  pub attempt_type : AttemptType
  pub attempted_at : ℕ

-- A call of SubmitCertificate on the backend.
pub record Submission : Type 0 where
  pub address : Bytes
  pub request : SubmitCertificateRequest

pub record World : Type 0 where
  pub certificates : List Row
  pub last_id : ℕ
  pub configuration : Dict Bytes
  pub credentials : Dict Bytes
  pub scheduler_status : Option Status
  pub attempts : List Attempt
  pub sent : List Submission
  pub triggers : ℕ
  pub ticks : ℕ

-- What the program does not implement, by the number of the call where the answer may vary.
pub record Env : Type 0 where
  pub ethereum : Ethereum
  -- time.Now()
  pub clock : ℕ → ℕ
  -- the driver returns an error for the statement
  pub db_fails : ℕ → Bool
  -- the context of the scheduler is cancelled
  pub cancelled : ℕ → Bool
  -- bcrypt.CompareHashAndPassword returns nil
  pub compare_hash_and_password : Bytes → Bytes → Bool
  -- bcrypt.GenerateFromPassword
  pub generate_from_password : ℕ → Bytes → Option Bytes
  -- proto.Marshal and proto.Unmarshal of a request
  pub marshal : SubmitCertificateRequest → Option Bytes
  pub unmarshal : Bytes → Option SubmitCertificateRequest
  -- json.Marshal
  pub json_marshal : Json → Option Bytes
  -- grpc.NewClient accepts the address: it opens no connection, so that a backend that is down shows
  -- only in the calls
  pub can_connect : Bytes → Bool
  -- the remote calls, with the address of the backend
  pub submit_certificate : ℕ → Bytes → SubmitCertificateRequest → Option SubmitCertificateResponse
  pub get_certificate_header :
      ℕ → Bytes → GetCertificateHeaderRequest → Option GetCertificateHeaderResponse

pub data Error : Type 0 where
  no_rows db_error bad_value marshal_failed unmarshal_failed connect_failed call_failed : Error
  hash_failed : Error

-- A call returns a value or an error, or panics.
pub data Outcome {ℓ} (A : Type ℓ) : Type ℓ where
  ok : A → Outcome A
  err : Error → Outcome A
  panicked : Outcome A

-- An error is kept by its caller as a value.
pub data Result {ℓ} (A : Type ℓ) : Type ℓ where
  fine : A → Result A
  failed : Error → Result A

abbrev pub M : Type 0 → Type 0
M A = World → Outcome A × World

-- An error or a panic leaves the function; what was done stays done.
abbrev pub continue : {A B : Type 0} → Outcome A → (A → M B) → M B
continue (ok a) f w = f a w
continue (err e) f w = (err e, w)
continue panicked f w = (panicked, w)

infixl 5 ◌>>=◌ ◌>>◌
abbrev pub ◌>>=◌ : {A B : Type 0} → M A → (A → M B) → M B
◌>>=◌ m f w = let r = m w in continue r.0 f r.1

abbrev pub ◌>>◌ : {A B : Type 0} → M A → M B → M B
◌>>◌ m n w = let r = m w in continue r.0 (λ _. n) r.1

abbrev pub return : {A : Type 0} → A → M A
return a w = (ok a, w)

abbrev pub fail : {A : Type 0} → Error → M A
fail e w = (err e, w)

abbrev pub panic : {A : Type 0} → M A
panic w = (panicked, w)

abbrev pub or_fail : {A : Type 0} → Option A → Error → M A
or_fail none e w = (err e, w)
or_fail (some a) e w = (ok a, w)

-- A nil pointer is followed, or an index is out of range.
abbrev pub or_panic : {A : Type 0} → Option A → M A
or_panic none w = (panicked, w)
or_panic (some a) w = (ok a, w)

abbrev pub kept : {A : Type 0} → Outcome A → Outcome (Result A)
kept (ok a) = ok (fine a)
kept (err e) = ok (failed e)
kept panicked = panicked

-- `x, err := f()`, with the error looked at by what follows.
abbrev pub attempt : {A : Type 0} → M A → M (Result A)
attempt m w = let r = m w in (kept r.0, r.1)

abbrev pub tick : World → World
tick w = record w { ticks = suc w.ticks }

abbrev pub time_now : Env → M ℕ
time_now env w = (ok (env.clock w.ticks), tick w)

-- One statement: the driver's error, or its effect.
abbrev pub statement : {A : Type 0} → Env → (World → A × World) → M A
statement env effect w =
    let r = effect (tick w) in
    if env.db_fails w.ticks then (err db_error, tick w) else (ok r.0, r.1)

-- A statement that writes, and one that reads.
abbrev pub exec : Env → (World → World) → M (Unit {0})
exec env f = statement env (λ w. (tt, f w))

abbrev pub query : {A : Type 0} → Env → (World → A) → M A
query env f = statement env (λ w. (f w, w))

abbrev pub when : Bool → M (Unit {0}) → M (Unit {0})
when true m = m
when false m = return tt

-- The check of the context that the scheduler is given.
abbrev pub is_cancelled : Env → M Bool
is_cancelled env w = (ok (env.cancelled w.ticks), tick w)

-- The deferred call of Trigger (internal/metrics/updater.go): the channel holds 256 tokens, and a
-- token that finds it full is dropped.
abbrev pub trigger : World → World
trigger w = if ltb w.triggers 256 then record w { triggers = suc w.triggers } else w

-- `defer s.metricsUpdater.Trigger()`: it also runs when the function panics.
abbrev pub deferring_trigger : {A : Type 0} → M A → M A
deferring_trigger m w = let r = m w in (r.0, trigger r.1)
