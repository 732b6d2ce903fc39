-- ===== src/NativeTransport/State.antt =====
-- NativeTransport of native_transport.py: its state, and the operations that its owner calls. A request that is
-- reserved is in `requests` for good, as its waiter holds it; `pending` says whether it is in `_pending`.
use acp_proxy.Prelude.{
  ℕ, suc, String, ℤ, Bool, true, false, not, ◌&&◌, ◌||◌, Option, none, some, is_some, List, [], ◌∷◌,
  ◌++◌, length, ltb, eqb, if◌then◌else◌, Result, ok, err,
}
use acp_proxy.Json.{JsonValue, JsonObject}
use acp_proxy.NativeTransport.Frames.{Bytes, max_frame_bytes, frame}
use acp_proxy.NativeTransport.Frames.Writing.{
  WriteAnswer, Sending, sent, still_sending, bad_count, input_closed, not_drained, write_loop,
}

-- NativeTransportError, NativeProtocolError, and what a handler of the owner raises.
pub data TransportError : Type 0 where
  transport_error protocol_error handler_error : String → TransportError

abbrev pub text_of : TransportError → String
text_of (transport_error s) = s
text_of (protocol_error s) = s
text_of (handler_error s) = s

-- A future, which `set_result` and `set_exception` end.
pub data Future : Type 0 where
  unset : Future
  value : JsonValue → Future
  rpc_failed : JsonObject → Future
  failed : TransportError → Future

abbrev pub is_done : Future → Bool
is_done unset = false
is_done (value v) = true
is_done (rpc_failed e) = true
is_done (failed e) = true

-- PendingRequest
pub record PendingRequest : Type 0 where
  pub id : ℕ
  pub method : String
  pub params : JsonValue
  pub future : Future
  pub observed : Bool
  pub sent : Bool
  pub pending : Bool

-- The id of a callback.
pub data Identity : Type 0 where
  number : ℤ → Identity
  name : String → Identity

-- `reading` says whether the task of `_read_loop` is running, `closures` what each call of the
-- handlers in `_closed` was given.
pub record Transport : Type 0 where
  pub process : Bool
  pub exit_code : Option ℤ
  pub failure : Option TransportError
  pub stopping : Bool
  pub expected_exit : Bool
  pub reading : Bool
  pub next_id : ℕ
  pub requests : List PendingRequest
  pub callbacks : List Identity
  pub callback_ids : List Identity
  pub max_callbacks : ℕ
  pub closures : List String

unfoldable pub new_transport : ℕ → Transport
new_transport max_callbacks = record {
  process = false;
  exit_code = none;
  failure = none;
  stopping = false;
  expected_exit = false;
  reading = false;
  next_id = 0;
  requests = [];
  callbacks = [];
  callback_ids = [];
  max_callbacks = max_callbacks;
  closures = [];
}

-- Requests by their ids.
unfoldable pub find : ℕ → List PendingRequest → Option PendingRequest
find n [] = none
find n (r ∷ rs) = if eqb r.id n then some r else find n rs

unfoldable pub update :
    ℕ → (PendingRequest → PendingRequest) → List PendingRequest → List PendingRequest
update n f [] = []
update n f (r ∷ rs) = if eqb r.id n then f r ∷ rs else r ∷ update n f rs

unfoldable pub each : (PendingRequest → PendingRequest) → List PendingRequest → List PendingRequest
each f [] = []
each f (r ∷ rs) = f r ∷ each f rs

abbrev pub is_open : Transport → Bool
is_open t = t.process && not (is_some t.exit_code) && not (is_some t.failure) && not t.stopping

-- `self._failure or NativeTransportError(text)`
abbrev pub failure_or : Transport → String → TransportError
failure_or t text = elim t.failure [ none ↦ transport_error text | some e ↦ e ]

-- One turn of the loops over `_pending` of `abort` and `_stop_owned`, and `_pending.clear()`.
abbrev pub revoke : TransportError → PendingRequest → PendingRequest
revoke e r =
    if r.pending
    then record r { pending = false; future = if is_done r.future then r.future else failed e }
    else r

unfoldable pub abort : String → Transport → Transport
abort reason t = if is_some t.failure || t.stopping then t else record t {
  failure = some (transport_error reason);
  requests = each (revoke (transport_error reason)) t.requests;
  closures = t.closures ++ (reason ∷ []);
}

-- What an operation raises, and the state that it leaves.
abbrev pub Raised : Type 0
Raised = Option TransportError × Transport

-- `start`, once the process and the capture are there.
unfoldable pub start : Transport → Raised
start t =
    if t.process || is_some t.failure || t.stopping
    then (some (transport_error "A transport generation cannot be restarted"), t)
    else (none, record t { process = true; reading = true })

unfoldable pub reserve : String → JsonValue → Bool → Transport → Result TransportError ℕ × Transport
reserve method params observed t =
    let request : PendingRequest = record {
      id = suc t.next_id;
      method = method;
      params = params;
      future = unset;
      observed = observed;
      sent = false;
      pending = true;
    } in
    if not (is_open t)
    then (err (failure_or t "Native transport is not open"), t)
    else (ok (suc t.next_id), record t { next_id = suc t.next_id; requests = request ∷ t.requests })

-- What `_send` makes of the end of its loop; one that has not ended is left at its await.
abbrev pub after_writing : Sending → Transport → Raised
after_writing sent t = (none, t)
after_writing still_sending t = (none, t)
after_writing bad_count t = (some (protocol_error "Invalid native pipe write count"), t)
after_writing not_drained t = (
  some (transport_error "Native dispatch did not drain before its deadline"),
  abort "Native dispatch did not drain before its deadline" t,
)
after_writing input_closed t = (
  some (transport_error "Native input closed during dispatch"),
  abort "Native input closed during dispatch" t,
)

-- `_send`, of the text of a message.
unfoldable pub send : Bytes → List WriteAnswer → Transport → Raised
send body answers t =
    if ltb max_frame_bytes (length body)
    then (some (protocol_error "Native outbound frame exceeds its limit"), t)
    else if not t.process || is_some t.failure || t.stopping
    then (some (failure_or t "Native input is closed"), t)
    else after_writing (write_loop (frame body) answers).1 t

abbrev pub can_dispatch : Option PendingRequest → Bool
can_dispatch none = false
can_dispatch (some r) = r.pending && not r.sent

abbrev pub mark_sent : PendingRequest → PendingRequest
mark_sent r = record r { sent = true }

-- `dispatch` to its first await.
unfoldable pub begin_dispatch : ℕ → Transport → Raised
begin_dispatch n t =
    if can_dispatch (find n t.requests)
    then (none, record t { requests = update n mark_sent t.requests })
    else (some (protocol_error "Unknown or repeated native request dispatch"), t)

abbrev pub unless_raised : Raised → (Transport → Raised) → Raised
unless_raised (none, t) next = next t
unless_raised (some e, t) next = (some e, t)

-- `dispatch`, where nothing else happens at its awaits; `body` is the text of the request.
unfoldable pub dispatch : ℕ → Bytes → List WriteAnswer → Transport → Raised
dispatch n body answers t = unless_raised (begin_dispatch n t) (send body answers)

unfoldable pub expect_exit : Transport → Transport
expect_exit t = record t { expected_exit = true }

-- `_stop_owned` to its first await.
unfoldable pub stop : Transport → Transport
stop t = record t {
  stopping = true;
  requests = each (revoke (transport_error "Native transport stopped")) t.requests;
}

-- The rest of `_stop_owned`, once the tasks have ended; `polled` is what `poll` gives, if it is
-- reached.
unfoldable pub stop_end : Option (Option ℤ) → Transport → Transport
stop_end polled t = record t {
  callbacks = [];
  reading = false;
  exit_code = elim polled [ none ↦ t.exit_code | some code ↦ code ];
}
