-- ===== src/Proxy.antt =====
-- internal/certificate/proxy_handler.go and proxy.go: calls of services that the program does not
-- implement go on to the backend, frame by frame.
--
-- A forwarding goroutine is a record with what RecvMsg and SendMsg have done; the handler waits
-- for the two of them in its select. What the streams answer is chosen by the steps.
pub mod Relays
pub mod Order
pub mod Ending
use agg_certificate_proxy.Prelude.{
  ℕ, suc, ◌≡◌, Bool, true, false, List, [], ◌∷◌, ◌++◌, Option, none, some, Bytes, codes,
  if◌then◌else◌,
}
use agg_certificate_proxy.Api.{is_empty}

-- An error of a stream: io.EOF, or a status by its number.
pub data StreamError : Type 0 where
  eof : StreamError
  status : ℕ → StreamError

-- A raw frame.
pub record Frame : Type 0 where
  pub payload : Bytes

abbrev pub reset : Frame → Frame
reset f = record { payload = [] }

abbrev pub frame_marshal : Frame → Option Bytes
frame_marshal f = some f.payload

abbrev pub frame_unmarshal : Bytes → Frame → Option Frame
frame_unmarshal bytes f = some (record { payload = bytes })

-- What a codec is given: a frame, or a message of another type.
pub data Message (A : Type 0) : Type 0 where
  raw : Frame → Message A
  other : A → Message A

-- grpc.Codec
pub record Codec (A : Type 0) : Type 0 where
  pub marshal : A → Option Bytes
  pub unmarshal : Bytes → A → Option A
  pub name : Bytes

abbrev as_raw : {A : Type 0} → Option Frame → Option (Message A)
as_raw none = none
as_raw (some f) = some (raw f)

abbrev as_other : {A : Type 0} → Option A → Option (Message A)
as_other none = none
as_other (some a) = some (other a)

-- A frame is taken as it is; anything else goes to the parent. The program does not install it.
abbrev pub codec_with_parent : {A : Type 0} → Codec A → Codec (Message A)
codec_with_parent parent = record {
  marshal = λ m. elim m [ raw f ↦ frame_marshal f | other a ↦ parent.marshal a ];
  unmarshal = λ bytes m. elim m [
    | raw f ↦ as_raw (frame_unmarshal bytes f)
    | other a ↦ as_other (parent.unmarshal bytes a)
  ];
  name = codes "proxy>" ++ parent.name;
}

-- Where a goroutine stands: before RecvMsg, before SendMsg, with its error in the channel, or with
-- the error taken from there.
pub data Point : Type 0 where
  receiving sending : Point
  reported taken : StreamError → Point

-- A goroutine, with the frames of the wire that it received and that it sent.
pub record Forwarder : Type 0 where
  pub frame : Frame
  pub received : List Bytes
  pub sent : List Bytes
  pub point : Point

abbrev pub new_forwarder : Forwarder
new_forwarder = record {
  frame = record { payload = [] };
  received = [];
  sent = [];
  point = receiving;
}

abbrev pub report : StreamError → Forwarder → Forwarder
report e f = record f { point = reported e }

-- codes.Internal, the status of a message that cannot be read or written, and of the handler's own
-- errors.
abbrev pub internal : StreamError
internal = status 13

abbrev after_recv : Bytes → Forwarder → Option Frame → Forwarder
after_recv bytes f (some g) = record f {
  frame = g;
  received = f.received ++ bytes ∷ [];
  point = sending;
}
after_recv bytes f none = report internal f

-- RecvMsg delivers the bytes; the codec of the library calls the method of the frame.
unfoldable pub recv_msg : Bytes → Forwarder → Forwarder
recv_msg bytes f = after_recv bytes f (frame_unmarshal bytes f.frame)

abbrev after_send : Forwarder → Option Bytes → Forwarder
after_send f none = report internal f
after_send f (some bytes) = record f { sent = f.sent ++ bytes ∷ []; point = receiving }

-- SendMsg returns nil.
unfoldable pub send_msg : Forwarder → Forwarder
send_msg f = after_send f (frame_marshal f.frame)

-- What the handler returns: nil, the error of the backend, or Internal for an error towards it.
pub data Answer : Type 0 where
  succeeded : Answer
  backend_error : StreamError → Answer
  forwarding_failed : StreamError → Answer

-- A call in progress. `to_backend` is the code's s2c, from its own server stream to the client
-- stream of the backend; `to_caller` is c2s.
pub record Call : Type 0 where
  pub to_backend : Forwarder
  pub to_caller : Forwarder
  pub send_closed : Bool
  pub cancelled : Bool
  pub trailer_set : Bool
  pub answer : Option Answer
  -- the rounds of the select
  pub rounds : ℕ

abbrev pub new_call : Call
new_call = record {
  to_backend = new_forwarder;
  to_caller = new_forwarder;
  send_closed = false;
  cancelled = false;
  trailer_set = false;
  answer = none;
  rounds = 0;
}

-- The case of the select for the error of forwardServerToClient.
unfoldable pub on_to_backend : StreamError → Call → Call
on_to_backend eof c = record c {
  to_backend = record c.to_backend { point = taken eof };
  send_closed = true;
  rounds = suc c.rounds;
}
on_to_backend (status n) c = record c {
  to_backend = record c.to_backend { point = taken (status n) };
  cancelled = true;
  answer = some (forwarding_failed (status n));
  rounds = suc c.rounds;
}

abbrev answer_of : StreamError → Answer
answer_of eof = succeeded
answer_of (status n) = backend_error (status n)

-- The case for the error of forwardClientToServer.
unfoldable pub on_to_caller : StreamError → Call → Call
on_to_caller e c = record c {
  to_caller = record c.to_caller { point = taken e };
  cancelled = true;
  trailer_set = true;
  answer = some (answer_of e);
  rounds = suc c.rounds;
}

-- A step of one of the goroutines, or of the handler while it has not returned. `CanRefuse` tells
-- the errors that SendMsg of the caller's stream can return.
pub data Step (CanRefuse : StreamError → Type 0) : Call → Call → Type 0 where
  backend_recv :
      (c : Call) (bytes : Bytes)
      → c.to_backend.point ≡ receiving
      → Step CanRefuse c (record c { to_backend = recv_msg bytes c.to_backend })
  backend_recv_error :
      (c : Call) (e : StreamError)
      → c.to_backend.point ≡ receiving
      → Step CanRefuse c (record c { to_backend = report e c.to_backend })
  backend_send :
      (c : Call)
      → c.to_backend.point ≡ sending
      → Step CanRefuse c (record c { to_backend = send_msg c.to_backend })
  backend_send_error :
      (c : Call) (e : StreamError)
      → c.to_backend.point ≡ sending
      → Step CanRefuse c (record c { to_backend = report e c.to_backend })
  caller_recv :
      (c : Call) (bytes : Bytes)
      → c.to_caller.point ≡ receiving
      → Step CanRefuse c (record c { to_caller = recv_msg bytes c.to_caller })
  caller_recv_error :
      (c : Call) (e : StreamError)
      → c.to_caller.point ≡ receiving
      → Step CanRefuse c (record c { to_caller = report e c.to_caller })
  caller_send :
      (c : Call)
      → c.to_caller.point ≡ sending
      → Step CanRefuse c (record c { to_caller = send_msg c.to_caller })
  caller_send_error :
      (c : Call) (e : StreamError)
      → c.to_caller.point ≡ sending
      → CanRefuse e
      → Step CanRefuse c (record c { to_caller = report e c.to_caller })
  select_to_backend :
      (c : Call) (e : StreamError)
      → c.answer ≡ none
      → c.to_backend.point ≡ reported e
      → Step CanRefuse c (on_to_backend e c)
  select_to_caller :
      (c : Call) (e : StreamError)
      → c.answer ≡ none
      → c.to_caller.point ≡ reported e
      → Step CanRefuse c (on_to_caller e c)

pub data Reach (CanRefuse : StreamError → Type 0) : Call → Type 0 where
  begun : Reach CanRefuse new_call
  next : {c d : Call} → Reach CanRefuse c → Step CanRefuse c d → Reach CanRefuse d

-- How the handler begins: it returns an error, or the call is in progress.
pub data Opened : Type 0 where
  refused : StreamError → Opened
  in_progress : Call → Opened

-- A result of the director and of grpc.NewClientStream.
pub data OrError (A : Type 0) : Type 0 where
  right : A → OrError A
  wrong : StreamError → OrError A

abbrev with_stream : {S : Type 0} → OrError S → Opened
with_stream (wrong e) = refused e
with_stream (right s) = in_progress new_call

abbrev with_director : {C S : Type 0} → (C → Bytes → OrError S) → Bytes → OrError C → Opened
with_director new_client_stream method (wrong e) = refused e
with_director new_client_stream method (right conn) = with_stream (new_client_stream conn method)

-- The handler up to its select. The context of the call names its method, unless it is not of gRPC.
unfoldable pub handler :
    {C S : Type 0} → (Bytes → OrError C) → (C → Bytes → OrError S) → Option Bytes → Opened
handler director new_client_stream none = refused internal
handler director new_client_stream (some method) =
    with_director new_client_stream method (director method)

-- The director of the proxy: always the one backend, with the metadata of the incoming call.
abbrev pub default_director : {C D : Type 0} → D → C → Bytes → OrError (C × D)
default_director backend_conn incoming method = right (incoming, backend_conn)

-- proxy.go: the handler of the unknown services.
abbrev pub unknown_service_handler :
    {C D S : Type 0} → D → (C × D → Bytes → OrError S) → C → Option Bytes → Opened
unknown_service_handler backend_conn new_client_stream incoming =
    handler (default_director backend_conn incoming) new_client_stream

-- `new_client` is grpc.NewClient with its options.
unfoldable pub new_transparent_proxy : {D : Type 0} → (Bytes → Option D) → Bytes → Option D
new_transparent_proxy new_client backend_addr =
    if is_empty backend_addr then none else new_client backend_addr
