-- ===== src/NativeClient/Callback.antt =====
-- `_callback`, `_execute_owned` and `_effect` of native_client.py.
pub mod Envelope
unfoldable pub use Envelope.*
use acp_proxy.Prelude.{
  pos, String, Bool, true, false, not, ◌&&◌, ◌||◌, Option, none, some, is_some, List, [], ◌∷◌, ◌++◌,
  ◌==◌, if◌then◌else◌, member, Result, ok, err, ◌>>=◌, ◌>>◌, raise_if,
}
use Prim.Native.String.{◌++◌ as ◌⧺◌}
use acp_proxy.Prelude.Dict.{lookup, insert}
use acp_proxy.Json.{JsonValue, null, bool, int, str, obj, Fields, end, field, get, object, array}
use acp_proxy.NativeTypes.{NativeToolObservation, bridge}
use acp_proxy.PermissionPolicy.{PermissionDecision}
use acp_proxy.WorkspaceTools.{WorkspaceOperation, ToolError, decode}
use acp_proxy.WorkspaceTools.Running.{file_outcome, WorkspaceResult}
use acp_proxy.NativeTransport.Admit.{NativeRequest, only_keys}
use acp_proxy.NativeClient.Turn.{Turn, Recorded, object_or, text_at, identity, observe_tool, retain}

module _ (x : Texts) where
  open x use {json_text, sorted_text, result_json, result_text, decision_json}

  -- The call and the tool of a callback.
  abbrev pub named_of : Bool → Fields → Result String (String × String)
  named_of confirmation params = do
    raise_if (not (envelope_ok confirmation params)) "Malformed native tool callback envelope"
    identifier ← text_at "toolCallId" params
    name ← text_at "name" params
    ok (identifier, name)

  abbrev pub call_of : Bool → Fields → String → String → Result String Call
  call_of confirmation params identifier name = do
    input ← object_or "native tool input must be an object" (get "input" params)
    fields ← input_of confirmation input
    ok (record {
      identifier = identifier;
      name = name;
      input = fields;
      fingerprint = name ⧺ sorted_text (obj fields);
    })

  -- The checks of the input and the tool.
  abbrev pub call_raises : Call → Turn → Option String
  call_raises c t =
      if other_input (lookup c.identifier t.callback_inputs) c.fingerprint
      then some "Native tool input changed between phases"
      else if not (member c.name tool_names)
      then some "Unregistered native client tool"
      else none

  abbrev pub count_call : Bool → Call → Turn → Turn
  count_call confirmation c t = record t {
    callback_phases = (c.identifier, confirmation) ∷ t.callback_phases;
    callback_inputs = insert c.identifier c.fingerprint t.callback_inputs;
  }

  abbrev pub tool_observed :
      String → Option NativeToolObservation → WorkspaceResult → Turn → Recorded
  tool_observed identifier none result t = (none, t)
  tool_observed identifier (some tool) result t =
      observe_tool
        (record {
          tool_call_id = identifier;
          name = tool.name;
          status = status_of result "completed";
          scope = tool.scope;
        })
        t

  abbrev pub keep_effect : String → WorkspaceResult → Bool × Turn → Recorded
  keep_effect identifier result (false, t) = (none, t)
  keep_effect identifier result (true, t) =
      tool_observed identifier (lookup identifier t.tools) result (record t {
        effects =
            t.effects
            ++ (record { tool_call_id = identifier; result_json = json_text (result_json result) }
                ∷ []);
      })

  -- `_effect`
  unfoldable pub effect : String → WorkspaceResult → Turn → Recorded
  effect identifier result t = keep_effect identifier result (
      retain json_text "native.client_tool.result"
        (obj (object (("toolCallId", str identifier) ∷ ("result", result_json result) ∷ []))) t)

  abbrev pub invalid : WorkspaceResult
  invalid = record { outcome = file_outcome []; error = some "invalid_arguments" }

  abbrev pub refuse_call : Bool → String → Turn → Called
  refuse_call true identifier t = (
    ok (replies (choice false)),
    (retain json_text "native.client_tool.confirmation"
        (obj (
          object (("toolCallId", str identifier) ∷ ("validation_error", result_json invalid) ∷ [])))
        t).1,
  )
  refuse_call false identifier t =
      called (effect identifier invalid t) (λ u. (ok (replies (tool_reply x invalid "error")), u))

  abbrev pub keep_decision : String → PermissionDecision → Bool × Turn → Called
  keep_decision identifier d (false, t) = (ok (replies (choice false)), t)
  keep_decision identifier d (true, t) = (
    ok (replies (choice d.allowed)),
    record t {
      permissions =
          t.permissions
          ++ (record {
            tool_call_id = identifier;
            allowed = d.allowed;
            policy_digest = d.policy_digest;
          }
              ∷ []);
    },
  )

  abbrev pub decide : String → Result String PermissionDecision → Turn → Called
  decide identifier (err text) t = (err text, t)
  decide identifier (ok d) t = keep_decision identifier d (
      retain json_text "native.client_tool.confirmation"
        (obj (object (("toolCallId", str identifier) ∷ ("decision", decision_json d) ∷ []))) t)

  -- `confirm` is what the tools of the session decide of an operation.
  abbrev pub answer_call :
      (WorkspaceOperation → Result String PermissionDecision)
      → Bool
      → Call
      → Result ToolError WorkspaceOperation
      → Turn
      → Called
  answer_call confirm confirmation c (err e) t = refuse_call confirmation c.identifier t
  answer_call confirm true c (ok op) t = decide c.identifier (confirm op) t
  answer_call confirm false c (ok op) t = (ok (executes c.identifier op), t)

  abbrev pub observe_call : Bool → Call → Fields → Turn → Recorded
  observe_call true c params t = (none, t)
  observe_call false c params t =
      let (kept, u) = retain json_text "native.client_tool.invocation" (obj params) t in
      if kept
      then observe_tool
          (record {
            tool_call_id = c.identifier;
            name = c.name;
            status = "running";
            scope = bridge;
          })
          u
      else (none, u)

  abbrev pub counted_call :
      (WorkspaceOperation → Result String PermissionDecision)
      → Bool
      → Fields
      → Call
      → Option String
      → Turn
      → Called
  counted_call confirm confirmation params c (some text) t = (err text, t)
  counted_call confirm confirmation params c none t =
      called (observe_call confirmation c params (count_call confirmation c t))
        (answer_call confirm confirmation c (decode c.name c.input))

  -- A call whose phase is new.
  abbrev pub new_call :
      (WorkspaceOperation → Result String PermissionDecision)
      → Bool
      → Fields
      → Result String Call
      → Turn
      → Called
  new_call confirm confirmation params (err text) t = (err text, t)
  new_call confirm confirmation params (ok c) t =
      counted_call confirm confirmation params c (call_raises c t) t

  abbrev pub named_call :
      (WorkspaceOperation → Result String PermissionDecision)
      → Bool
      → Fields
      → String × String
      → Turn
      → Called
  named_call confirm confirmation params (identifier, name) t =
      if has_phase (identifier, confirmation) t.callback_phases
      then (err "Repeated native tool callback phase", t)
      else new_call confirm confirmation params (call_of confirmation params identifier name) t

  -- A callback of a tool, of the active turn.
  unfoldable pub tool_callback :
      (WorkspaceOperation → Result String PermissionDecision) → Bool → JsonValue → Turn → Called
  tool_callback confirm confirmation value t =
      if not (admits_calls t)
      then (err "Native effect callback outside its active turn", t)
      else with_value (object_or "native tool callback must be an object" (some value)) t (λ params.
        called (identity params t) (λ u.
          with_value (named_of confirmation params) u
            (λ named. named_call confirm confirmation params named u)))

  abbrev pub cancelled : WorkspaceResult
  cancelled = record { outcome = file_outcome []; error = some "cancelled" }

  -- `_execute_owned` to `self.session.tools.execute`: a reply if the call is not admitted any more.
  unfoldable pub begin_execution : Bool → String → Turn → Option (Called)
  begin_execution is_open identifier t =
      if t.overflow || t.cancel_requested || not is_open
      then some (
          called (effect identifier cancelled t)
            (λ u. (ok (replies (tool_reply x cancelled "cancelled")), u)))
      else none

  -- The rest of it, with the result of the operation.
  unfoldable pub end_execution : String → WorkspaceResult → Turn → Called
  unfolding effect
  end_execution identifier result t =
      called (effect identifier result t)
        (λ u. (ok (replies (tool_reply x result (status_of result "success"))), u))

  -- "window/workDoneProgress/create", of its parameters; a bool is an int.
  abbrev pub is_token : Option JsonValue → Bool
  is_token (some (str s)) = true
  is_token (some (int n)) = true
  is_token (some (bool b)) = true
  is_token _ = false

  abbrev pub create_progress : JsonValue → Result String Reply
  create_progress (obj params) =
      if only_keys ("token" ∷ []) params && is_token (get "token" params)
      then ok (replies null)
      else err "Invalid native progress creation"
  create_progress _ = err "progress creation must be an object"

  abbrev pub on_turn : Option Turn → (Turn → Called) → Result String Reply × Option Turn
  on_turn none f = (err "Native effect callback outside its active turn", none)
  on_turn (some t) f = let (r, u) = f t in (r, some u)

  -- `_callback`; `folders` is the workspace of the client.
  unfoldable pub callback :
      JsonValue
      → (WorkspaceOperation → Result String PermissionDecision)
      → NativeRequest
      → Option Turn
      → Result String Reply × Option Turn
  unfolding tool_callback
  callback folders confirm request turn =
      if request.method == "workspace/workspaceFolders"
      then (ok (replies folders), turn)
      else if request.method == "window/workDoneProgress/create"
      then (create_progress request.params, turn)
      else if request.method == "conversation/invokeClientToolConfirmation"
      then on_turn turn (tool_callback confirm true request.params)
      else if request.method == "conversation/invokeClientTool"
      then on_turn turn (tool_callback confirm false request.params)
      else (err ("Unadvertised native callback: " ⧺ request.method), turn)
