-- ===== src/DirectService/Evidence.antt =====
-- The evidence that `DirectService` attaches to an outcome: `_ordered_events`, `_retained_evidence`,
-- `_has_tool_evidence` and `_normalize_result` of direct_service.py.
use acp_proxy.Prelude.{
  ℕ, zero, ◌+◌, String, pos, Bool, true, false, not, ◌||◌, Option, none, some, List, [], ◌∷◌, map,
  Result, ok, err, ◌>>=◌, ◌>>◌, raise_if, or_raise, member, ◌==◌, if◌then◌else◌,
}
use acp_proxy.Json.{
  JsonValue, null, bool, int, float, str, arr, obj, Items, nil, cons, end, JsonObject, object,
  array, get,
}
use acp_proxy.DirectState.{DirectError, value_error, runtime_error, OperationRecord, DirectSession}
use acp_proxy.DirectProtocol.{Platform, optional, PromptRequest, PromptPhase, initial}
use acp_proxy.NativeTypes.{
  NativeBinding, allocated_binding, conversation_binding, conversation_id, NativeEvent, Scope,
  server, bridge, NativeToolObservation, NativePermissionObservation, NativeEffectObservation,
  NativeObservation,
}

pub record OrderedEvent : Type 0 where
  pub sequence : ℕ
  pub update_type : String
  pub raw : JsonObject

abbrev json_object : JsonValue → Result DirectError JsonObject
json_object (obj fields) = ok fields
json_object _ = err value_error

-- Python's `bool(value)`.
abbrev truthy : JsonValue → Bool
truthy null = false
truthy (bool b) = b
truthy (int (pos zero)) = false
truthy (float (pos zero) e) = false
truthy (str t) = not (t == "")
truthy (arr nil) = false
truthy (obj end) = false
truthy _ = true

-- bool(fields.get(key))
abbrev truthy_at : String → JsonObject → Bool
truthy_at k fields = elim (get k fields) [ none ↦ false | some v ↦ truthy v ]

-- list(dict.fromkeys(ids)): the first occurrence of each.
unfoldable pub from_keys : List String → List String → List String
from_keys seen [] = []
from_keys seen (x ∷ xs) = elim (member x seen) [
  | true ↦ from_keys seen xs
  | false ↦ x ∷ from_keys (x ∷ seen) xs
]

module _ (p : Platform) where
  parse_json : String → Result DirectError JsonValue
  parse_json text = or_raise (p.loads text) value_error

  events_from : ℕ → List NativeEvent → Result DirectError (List OrderedEvent)
  unfolding parse_json
  events_from n [] = ok []
  events_from n (e ∷ es) = do
    value ← parse_json e.payload_json
    raw ← json_object value
    rest ← events_from (n + 1) es
    ok (record { sequence = n; update_type = e.kind; raw = raw } ∷ rest)

  unfoldable pub ordered_events : NativeObservation → Result DirectError (List OrderedEvent)
  unfolding events_from
  ordered_events o = events_from 0 o.events

  -- [parse_json(effect.result_json) for effect in effects], each with its tool call.
  receipts : List NativeEffectObservation → Result DirectError (List (String × JsonValue))
  unfolding parse_json
  receipts [] = ok []
  receipts (e ∷ es) = do
    receipt ← parse_json e.result_json
    rest ← receipts es
    ok ((e.tool_call_id, receipt) ∷ rest)

abbrev scope_value : Scope → String
scope_value server = "server"
scope_value bridge = "bridge"

dump_event : OrderedEvent → JsonValue
dump_event e = obj (
    object (
      ("sequence", int (pos e.sequence))
      ∷ ("update_type", str e.update_type)
      ∷ ("raw", obj e.raw)
      ∷ []))

dump_tool : NativeToolObservation → JsonValue
dump_tool t = obj (
    object (
      ("tool_call_id", str t.tool_call_id)
      ∷ ("name", str t.name)
      ∷ ("status", str t.status)
      ∷ ("scope", str (scope_value t.scope))
      ∷ []))

dump_decision : NativePermissionObservation → JsonValue
dump_decision d = obj (
    object (
      ("tool_call_id", str d.tool_call_id)
      ∷ ("allowed", bool d.allowed)
      ∷ ("policy_digest", str d.policy_digest)
      ∷ []))

dump_effect : String × JsonValue → JsonValue
dump_effect e = obj (object (("tool_call_id", str e.0) ∷ ("receipt", e.1) ∷ []))

abbrev pub tool_call_ids : NativeObservation → List String
tool_call_ids o = from_keys [] (map (λ t. t.tool_call_id) o.tools)

abbrev is_empty {ℓ} : {A : Type ℓ} → List A → Bool
is_empty [] = true
is_empty (x ∷ xs) = false

abbrev pub effect_evidence : NativeObservation → String
effect_evidence o = if is_empty o.effects then "unavailable" else "observed"

module _ (p : Platform) where
  unfoldable pub retained_evidence :
      DirectSession → String → String → NativeObservation → Result DirectError JsonObject
  unfolding ordered_events receipts dump_event dump_tool dump_decision dump_effect
  retained_evidence session invocation_id generation_id o = do
    events ← ordered_events p o
    effects ← receipts p o.effects
    ok (
        object (
          ("logical_session_id", str session.logical_session_id)
          ∷ ("backend_session_id", optional (conversation_id o.binding))
          ∷ ("invocation_id", str invocation_id)
          ∷ ("continuity_generation_id", str generation_id)
          ∷ (
            "retained_evidence",
            obj (
                object (
                  ("ordered_events", array (map dump_event events))
                  ∷ ("events_complete", bool o.complete)
                  ∷ ("observed_tool_call_ids", array (map str (tool_call_ids o)))
                  ∷ ("calls", array (map dump_tool o.tools))
                  ∷ ("tool_activity_complete", bool o.complete)
                  ∷ ("effect_evidence", str (effect_evidence o))
                  ∷ ("effects", array (map dump_effect effects))
                  ∷ ("decisions", array (map dump_decision o.permissions))
                  ∷ ("usage_evidence", str "unavailable")
                  ∷ [])),
          )
          ∷ []))

-- any(isinstance(r, dict) and bool(r.get("toolCalls")) for r in rounds)
any_calls : Items → Bool
any_calls nil = false
any_calls (cons (obj fields) rest) = truthy_at "toolCalls" fields || any_calls rest
any_calls (cons _ rest) = any_calls rest

abbrev rounds_have_calls : Option JsonValue → Bool
rounds_have_calls (some (arr rounds)) = any_calls rounds
rounds_have_calls _ = false

unfoldable pub has_tool_evidence : OrderedEvent → Bool
unfolding any_calls
has_tool_evidence e =
    if e.update_type == "native.client_tool.invocation"
      || e.update_type == "native.client_tool.result"
    then true
    else if not (e.update_type == "native.progress.report")
    then false
    else if truthy_at "toolCalls" e.raw
    then true
    else rounds_have_calls (get "editAgentRounds" e.raw)

abbrev keep {ℓ} : {A : Type ℓ} → (A → Bool) → List A → List A
keep t [] = []
keep t (x ∷ xs) = let rest = keep t xs in if t x then x ∷ rest else rest

-- `PromptResult`, with the fields of its evidence models side by side. The availabilities, which are
-- the same in every result, stand in `dump_result`.
pub record PromptResult : Type 0 where
  pub logical_session_id : String
  pub backend_session_id : String
  pub invocation_id : String
  pub operation_id : String
  pub continuity_generation_id : String
  pub model_id : String
  pub response_text : String
  pub stop_reason : String
  pub events : List OrderedEvent
  pub tool_call_ids : List String
  pub calls : List NativeToolObservation
  pub tool_events : List OrderedEvent
  pub permission_events : List OrderedEvent
  pub decisions : List NativePermissionObservation
  pub effect_evidence : String
  pub effect_events : List OrderedEvent
  pub effects : List (String × JsonObject)
  pub instruction_submission : String
  pub stable_instruction_digest : String
  pub output_contract_digest : String

-- `event.update_type == kind`.
abbrev of_kind : String → OrderedEvent → Bool
of_kind kind e = e.update_type == kind

object_receipts : List (String × JsonValue) → Result DirectError (List (String × JsonObject))
object_receipts [] = ok []
object_receipts ((id, v) ∷ r) = do
  fields ← json_object v
  rest ← object_receipts r
  ok ((id, fields) ∷ rest)

abbrev submission : PromptPhase → String
submission initial = "submitted_once"
submission _ = "not_resubmitted_same_session"

-- The conversation of a binding that belongs to the session and its model.
bound_conversation : NativeBinding → DirectSession → Result DirectError String
bound_conversation (allocated_binding l m) session = err runtime_error
bound_conversation (conversation_binding l m c t) session = do
  raise_if (not (l == session.logical_session_id) || not (m == session.model_id)) runtime_error
  ok c

-- `valid` is pydantic's validation of the finished model.
module _ (p : Platform) (valid : PromptResult → Bool) where
  unfoldable pub normalize_result :
      OperationRecord
      → DirectSession
      → PromptRequest
      → NativeObservation
      → String
      → Result DirectError PromptResult
  unfolding ordered_events receipts object_receipts bound_conversation has_tool_evidence
  normalize_result r session request o generation_id = do
    backend ← bound_conversation o.binding session
    ordered ← ordered_events p o
    values ← receipts p o.effects
    effects ← object_receipts values
    let result : PromptResult = record {
      logical_session_id = session.logical_session_id;
      backend_session_id = backend;
      invocation_id = request.invocation_id;
      operation_id = r.operation_id;
      continuity_generation_id = generation_id;
      model_id = session.model_id;
      response_text = o.response_text;
      stop_reason = "completed";
      events = ordered;
      tool_call_ids = tool_call_ids o;
      calls = o.tools;
      tool_events = keep has_tool_evidence ordered;
      permission_events = keep (of_kind "native.client_tool.confirmation") ordered;
      decisions = o.permissions;
      effect_evidence = effect_evidence o;
      effect_events = keep (of_kind "native.client_tool.result") ordered;
      effects = effects;
      instruction_submission = submission request.phase;
      stable_instruction_digest = session.stable_instruction_digest;
      output_contract_digest = request.output_contract_digest;
    }
    raise_if (not (valid result)) value_error
    ok result

dump_receipt : String × JsonObject → JsonValue
dump_receipt e = obj (object (("tool_call_id", str e.0) ∷ ("receipt", obj e.1) ∷ []))

-- result.model_dump(mode="json")
unfoldable pub dump_result : PromptResult → JsonObject
unfolding dump_event dump_tool dump_decision dump_receipt
dump_result r = object (
    ("logical_session_id", str r.logical_session_id)
    ∷ ("backend_session_id", str r.backend_session_id)
    ∷ ("invocation_id", str r.invocation_id)
    ∷ ("operation_id", str r.operation_id)
    ∷ ("continuity_generation_id", str r.continuity_generation_id)
    ∷ ("model_id", str r.model_id)
    ∷ ("response_text", str r.response_text)
    ∷ ("stop_reason", str r.stop_reason)
    ∷ ("events", array (map dump_event r.events))
    ∷ (
      "tool_evidence",
      obj (
          object (
            ("availability", str "observed")
            ∷ ("tool_call_ids", array (map str r.tool_call_ids))
            ∷ ("calls", array (map dump_tool r.calls))
            ∷ ("events", array (map dump_event r.tool_events))
            ∷ [])),
    )
    ∷ (
      "permission_evidence",
      obj (
          object (
            ("availability", str "observed")
            ∷ ("decisions", array (map dump_decision r.decisions))
            ∷ ("events", array (map dump_event r.permission_events))
            ∷ [])),
    )
    ∷ ("effect_evidence", str r.effect_evidence)
    ∷ ("effect_events", array (map dump_event r.effect_events))
    ∷ ("effects", array (map dump_receipt r.effects))
    ∷ ("usage", obj (object (("availability", str "unavailable") ∷ ("values", null) ∷ [])))
    ∷ ("instruction_submission", str r.instruction_submission)
    ∷ ("stable_instruction_digest", str r.stable_instruction_digest)
    ∷ ("output_contract_digest", str r.output_contract_digest)
    ∷ [])
