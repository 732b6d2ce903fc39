-- ===== src/NativeTransport/Admit.antt =====
-- `_admit`, `_read_loop` and the callbacks of native_transport.py. The owner's handlers are an argument: they
-- act on the owner's state, and may raise.
use acp_proxy.Prelude.{
  ℕ, String, ℤ, pos, negsuc, Bool, true, false, not, ◌&&◌, ◌||◌, Option, none, some, is_some, List,
  [], ◌∷◌, length, leb, eqb, ◌==◌, if◌then◌else◌, member,
}
use Prim.Native.String.{◌++◌ as ◌⧺◌}
use acp_proxy.Json.{JsonValue, null, int, str, obj, Fields, end, field, get}
use acp_proxy.NativeTransport.State.{
  TransportError, protocol_error, handler_error, text_of, Future, value, rpc_failed, failed,
  is_done, PendingRequest, Identity, number, name, Transport, find, update, abort, Raised, send,
}
use acp_proxy.NativeTransport.Frames.{Bytes}
use acp_proxy.NativeTransport.Frames.Writing.{WriteAnswer}

pub record NativeRequest : Type 0 where
  pub id : Identity
  pub method : String
  pub params : JsonValue

pub record NativeNotification : Type 0 where
  pub method : String
  pub params : JsonValue

pub record RpcResponse : Type 0 where
  pub value : JsonValue
  pub is_error : Bool

-- What a handler raises, and the owner's state after it.
abbrev pub Handled : Type 0 → Type 0
Handled C = Option String × C

-- The handlers that an owner with state `C` registers.
pub record Owner (C : Type 0) : Type 0 where
  pub notification : Option (C → NativeNotification → Handled C)
  pub request : Option (C → NativeRequest → Handled C)
  pub observer : C → ℕ → RpcResponse → Handled C

abbrev pub same_int : ℤ → ℤ → Bool
same_int (pos a) (pos b) = eqb a b
same_int (negsuc a) (negsuc b) = eqb a b
same_int _ _ = false

abbrev pub same_identity : Identity → Identity → Bool
same_identity (number a) (number b) = same_int a b
same_identity (name a) (name b) = a == b
same_identity _ _ = false

abbrev pub among : Identity → List Identity → Bool
among i [] = false
among i (j ∷ js) = same_identity j i || among i js

-- self._callbacks.discard, of the task of one identity.
abbrev pub discard : Identity → List Identity → List Identity
discard i [] = []
discard i (j ∷ js) = if same_identity j i then js else j ∷ discard i js

-- `not set(message) - set(keys)`
abbrev pub only_keys : List String → Fields → Bool
only_keys ks end = true
only_keys ks (field k v r) = member k ks && only_keys ks r

abbrev pub identity_of : JsonValue → Option Identity
identity_of (int n) = some (number n)
identity_of (str s) = some (name s)
identity_of _ = none

abbrev pub is_text : JsonValue → String → Bool
is_text (str s) t = s == t
is_text _ t = false

abbrev pub or_null : Option JsonValue → JsonValue
or_null none = null
or_null (some v) = v

abbrev pub raised_text : Option String → Option TransportError
raised_text none = none
raised_text (some s) = some (handler_error s)

-- What an admission raises, and what it leaves.
abbrev pub Admission : Type 0 → Type 0
Admission C = Option TransportError × Transport × C

abbrev pub protocol_failure : {C : Type 0} → String → Transport → C → Admission C
protocol_failure text t c = (some (protocol_error text), t, c)

abbrev pub settle : ℕ → Future → Transport → Transport
settle n f t = record t { requests = update n (λ r. record r { future = f }) t.requests }

abbrev pub pop : ℕ → Transport → Transport
pop n t = record t { requests = update n (λ r. record r { pending = false }) t.requests }

-- The outcome of the future of a response, and what is raised besides.
abbrev pub error_object : Fields → Option Fields
error_object fs = elim (get "code" fs) [
  | some (int n) ↦ elim (get "message" fs) [ some (str s) ↦ some fs | _ ↦ none ]
  | _ ↦ none
]

abbrev pub rpc_outcome : JsonValue → Future × Option TransportError
rpc_outcome (obj fs) = elim (error_object fs) [
  | some e ↦ (rpc_failed e, none)
  | none ↦ (
    failed (protocol_error "Malformed native RPC error"),
    some (protocol_error "Malformed native RPC error"),
  )
]
rpc_outcome _ = (
  failed (handler_error "RPC error must be an object"),
  some (handler_error "RPC error must be an object"),
)

abbrev pub outcome_of : RpcResponse → Option String → Future × Option TransportError
outcome_of response (some text) = (failed (handler_error text), some (handler_error text))
outcome_of response none =
    if response.is_error then rpc_outcome response.value else (value response.value, none)

-- request.future.done() or not request.sent
abbrev pub refuses : Option PendingRequest → Bool
refuses none = true
refuses (some r) = not r.pending || is_done r.future || not r.sent

abbrev pub is_observed : Option PendingRequest → Bool
is_observed none = false
is_observed (some r) = r.observed

abbrev pub finish : {C : Type 0} → ℕ → Transport → C → Future × Option TransportError → Admission C
finish n t c (f, e) = (e, settle n f t, c)

module _ {C : Type 0} (owner : Owner C) where
  open owner use {notification, request, observer}

  abbrev pub observe : Bool → C → ℕ → RpcResponse → Handled C
  observe observed c n response = if observed then observer c n response else (none, c)

  unfoldable pub admit_response : ℕ → RpcResponse → Transport → C → Admission C
  admit_response n response t c =
      if refuses (find n t.requests)
      then protocol_failure "Unknown or duplicate native response id" (pop n t) c
      else let (raised, c') = observe (is_observed (find n t.requests)) c n response in
        finish n (pop n t) c' (outcome_of response raised)

  unfoldable pub admit_notification : NativeNotification → Transport → C → Admission C
  admit_notification message t c = elim notification [
    | none ↦ protocol_failure "Native notification handler unavailable" t c
    | some handler ↦ let (raised, c') = handler c message in (raised_text raised, t, c')
  ]

  -- A callback whose handler returns has a task.
  abbrev pub start_callback : Identity → Handled C → Transport → Admission C
  start_callback i (some text, c) t = (some (handler_error text), t, c)
  start_callback i (none, c) t = (none, record t { callbacks = i ∷ t.callbacks }, c)

  unfoldable pub admit_request : NativeRequest → Transport → C → Admission C
  admit_request message t c =
      if among message.id t.callback_ids
        || leb t.max_callbacks (length t.callbacks)
        || leb 65536 (length t.callback_ids)
      then protocol_failure "Duplicate or excessive native callbacks" t c
      else elim request [
        | none ↦ protocol_failure "Native callback handler unavailable" t c
        | some handler ↦
            start_callback message.id (handler c message)
              (record t { callback_ids = message.id ∷ t.callback_ids })
      ]

  -- A message with a method; it is a notification if it has no id.
  abbrev pub admit_call : Option Identity → String → JsonValue → Transport → C → Admission C
  admit_call none method params t c =
      admit_notification (record { method = method; params = params }) t c
  admit_call (some i) method params t c =
      admit_request (record { id = i; method = method; params = params }) t c

  abbrev pub with_method : Option Identity → JsonValue → Fields → Transport → C → Admission C
  with_method i (str method) message t c =
      if only_keys ("jsonrpc" ∷ "id" ∷ "method" ∷ "params" ∷ []) message
      then admit_call i method (or_null (get "params" message)) t c
      else protocol_failure "Malformed native request/notification" t c
  with_method i _ message t c = protocol_failure "Malformed native request/notification" t c

  abbrev pub response_of : Fields → RpcResponse
  response_of message = record {
    value =
        or_null
          (if is_some (get "error" message) then get "error" message else get "result" message);
    is_error = is_some (get "error" message);
  }

  abbrev pub one_outcome : Bool → Bool → Bool
  one_outcome true true = false
  one_outcome true false = true
  one_outcome false true = true
  one_outcome false false = false

  abbrev pub by_number : ℤ → RpcResponse → Transport → C → Admission C
  by_number (pos k) response t c = admit_response k response t c
  by_number (negsuc k) response t c = protocol_failure "Unknown or duplicate native response id" t c

  abbrev pub without_method : Option Identity → Fields → Transport → C → Admission C
  without_method (some (number n)) message t c =
      if only_keys ("jsonrpc" ∷ "id" ∷ "result" ∷ "error" ∷ []) message
        && one_outcome (is_some (get "result" message)) (is_some (get "error" message))
      then by_number n (response_of message) t c
      else protocol_failure "Malformed native response" t c
  without_method _ message t c = protocol_failure "Malformed native response" t c

  abbrev pub by_method : Option JsonValue → Option Identity → Fields → Transport → C → Admission C
  by_method (some method) i message t c = with_method i method message t c
  by_method none i message t c = without_method i message t c

  abbrev pub checked : Option Identity → Fields → Transport → C → Admission C
  checked none message t c = protocol_failure "Invalid native JSON-RPC identity" t c
  checked (some i) message t c = by_method (get "method" message) (some i) message t c

  abbrev pub by_identity : Option JsonValue → Fields → Transport → C → Admission C
  by_identity none message t c = by_method (get "method" message) none message t c
  by_identity (some v) message t c = checked (identity_of v) message t c

  unfoldable pub admit : Fields → Transport → C → Admission C
  admit message t c =
      if is_text (or_null (get "jsonrpc" message)) "2.0"
      then by_identity (get "id" message) message t c
      else protocol_failure "Invalid native JSON-RPC version" t c

  -- The `except Exception` of `_read_loop`, which ends it.
  unfoldable pub read_fails : TransportError → Transport → Transport
  read_fails e t =
      let ended = record t { reading = false } in
      if t.stopping || t.expected_exit then ended else abort (text_of e) ended

  abbrev pub after_admission : Admission C → Transport × C
  after_admission (none, t, c) = (t, c)
  after_admission (some e, t, c) = (read_fails e t, c)

  -- One round of `_read_loop` that has read a message.
  unfoldable pub read_message : Fields → Transport → C → Transport × C
  read_message message t c = after_admission (admit message t c)

-- `read_stdout` that finds the process gone.
unfoldable pub root_exits : ℤ → Transport → Transport
root_exits code t = record t { exit_code = some code }

-- `_run_callback` whose work has ended sends its result; then `_callback_done`. `raised` is what the
-- work has raised.
abbrev pub callback_done : Identity → Raised → Transport
callback_done i (none, t) = record t { callbacks = discard i t.callbacks }
callback_done i (some e, t) =
    abort ("Native callback failed: " ⧺ text_of e) (record t { callbacks = discard i t.callbacks })

unfoldable pub callback_ends :
    Identity → Option TransportError → Bytes → List WriteAnswer → Transport → Transport
callback_ends i (some e) body answers t = callback_done i (some e, t)
callback_ends i none body answers t = callback_done i (send body answers t)
