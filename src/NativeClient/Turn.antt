-- ===== src/NativeClient/Turn.antt =====
-- `_Turn` of native_client.py, and what the client records in it. The binding is that of the turn's
-- session, which the two share.
use acp_proxy.Prelude.{
  ℕ, ◌+◌, String, Bool, true, false, not, ◌&&◌, ◌||◌, Option, none, some, List, [], ◌∷◌, ◌++◌, ltb,
  ◌==◌, if◌then◌else◌, Result, ok, err, or_raise,
}
use Prim.Native.String.{len, ◌++◌ as ◌⧺◌}
use acp_proxy.Prelude.Dict.{Dict, lookup, insert, values}
use acp_proxy.Json.{JsonValue, obj, str, Fields, get}
use acp_proxy.Json.Checked.{required_string}
use acp_proxy.NativeTypes.{
  NativeBinding, allocated_binding, conversation_binding, NativeEvent, Scope, server, bridge,
  NativeToolObservation, NativePermissionObservation, NativeEffectObservation, NativeObservation,
}

pub record Turn : Type 0 where
  pub binding : NativeBinding
  pub token : String
  pub event_byte_limit : ℕ
  pub response_byte_limit : ℕ
  pub begun : Bool
  pub ended : Bool
  pub rpc_ended : Bool
  pub cancel_requested : Bool
  pub cancel_reason : Option String
  pub native_error : Option String
  pub overflow : Bool
  pub event_bytes : ℕ
  pub response_bytes : ℕ
  pub response : List String
  pub events : List NativeEvent
  pub tools : Dict NativeToolObservation
  pub permissions : List NativePermissionObservation
  pub effects : List NativeEffectObservation
  pub callback_phases : List (String × Bool)
  pub callback_inputs : Dict String
  pub cancellation : Bool

unfoldable pub new_turn : NativeBinding → String → ℕ → ℕ → Turn
new_turn binding token event_byte_limit response_byte_limit = record {
  binding = binding;
  token = token;
  event_byte_limit = event_byte_limit;
  response_byte_limit = response_byte_limit;
  begun = false;
  ended = false;
  rpc_ended = false;
  cancel_requested = false;
  cancel_reason = none;
  native_error = none;
  overflow = false;
  event_bytes = 0;
  response_bytes = 0;
  response = [];
  events = [];
  tools = [];
  permissions = [];
  effects = [];
  callback_phases = [];
  callback_inputs = [];
  cancellation = false;
}

-- "".join(texts)
abbrev pub join : List String → String
join [] = ""
join (t ∷ ts) = t ⧺ join ts

unfoldable pub observation_of : Bool → Turn → NativeObservation
observation_of is_settled t = record {
  binding = t.binding;
  response_text = join t.response;
  events = t.events;
  tools = values t.tools;
  permissions = t.permissions;
  effects = t.effects;
  complete = is_settled && not t.overflow;
}

-- What a step raises, and the turn that it leaves: what came before an exception stays.
abbrev pub Recorded : Type 0
Recorded = Option String × Turn

abbrev pub raising : String → Turn → Recorded
raising text t = (some text, t)

abbrev pub unless_raised : Recorded → (Turn → Recorded) → Recorded
unless_raised (none, t) next = next t
unless_raised (some text, t) next = (some text, t)

-- A check that has no effect, before what needs its value.
abbrev pub given : {A : Type 0} → Result String A → (A → Turn → Recorded) → Turn → Recorded
given (ok a) next t = next a t
given (err text) next t = (some text, t)

-- json_object(value) and required_string(fields, key)
abbrev pub object_or : String → Option JsonValue → Result String Fields
object_or text (some (obj fs)) = ok fs
object_or text _ = err text

abbrev pub text_at : String → Fields → Result String String
text_at key fs = or_raise (required_string key fs) (key ⧺ " must be a nonempty string")

-- `_schedule_cancel`
abbrev pub schedule_cancel : Turn → Turn
schedule_cancel t = record t { cancellation = true }

abbrev pub overflows : Turn → Turn
overflows t = record t { overflow = true; cancellation = true }

-- `_identity`
abbrev pub is_text : Option JsonValue → String → Bool
is_text (some (str s)) t = s == t
is_text _ t = false

abbrev pub same_turn : NativeBinding → Fields → Bool
same_turn (allocated_binding s m) fields = false
same_turn (conversation_binding s m c t) fields =
    is_text (get "conversationId" fields) c && is_text (get "turnId" fields) t

unfoldable pub identity : Fields → Turn → Recorded
identity fields t =
    if same_turn t.binding fields
    then (none, t)
    else raising "Native conversation/turn identity changed" t

-- `_observe_tool`
abbrev pub same_scope : Scope → Scope → Bool
same_scope server server = true
same_scope bridge bridge = true
same_scope _ _ = false

abbrev pub other_tool : Option NativeToolObservation → NativeToolObservation → Bool
other_tool none tool = false
other_tool (some prior) tool =
    not (prior.name == tool.name) || not (same_scope prior.scope tool.scope)

unfoldable pub observe_tool : NativeToolObservation → Turn → Recorded
observe_tool tool t =
    if other_tool (lookup tool.tool_call_id t.tools) tool
    then raising "Native tool identity changed" t
    else (none, record t { tools = insert tool.tool_call_id tool t.tools })

-- The text that `json.dumps` gives of a value; it is ASCII.
module _ (json_text : JsonValue → String) where
  -- `_retain`: whether the event was kept, and the turn.
  unfoldable pub retain : String → JsonValue → Turn → Bool × Turn
  retain kind value t =
      let encoded = json_text value in
      if t.overflow || ltb t.event_byte_limit (t.event_bytes + len encoded)
      then (false, overflows t)
      else (
        true,
        record t {
          events = t.events ++ (record { kind = kind; payload_json = encoded } ∷ []);
          event_bytes = t.event_bytes + len encoded;
        },
      )

-- One reply of `_observe_report`.
unfoldable pub observe_reply : String → Turn → Turn
observe_reply reply t =
    if ltb t.response_byte_limit (t.response_bytes + len reply)
    then overflows t
    else if t.overflow
    then t
    else record t {
      response = t.response ++ (reply ∷ []);
      response_bytes = t.response_bytes + len reply;
    }
