-- ===== src/NativeClient/Report.antt =====
-- `_notification` and `_observe_report` of native_client.py.
use acp_proxy.Prelude.{
  String, Bool, true, false, not, ◌||◌, Option, none, some, List, [], ◌∷◌, ◌==◌, if◌then◌else◌,
  Result, ok, err, ◌>>=◌,
}
use Prim.Native.String.{◌++◌ as ◌⧺◌}
use acp_proxy.Json.{JsonValue, str, arr, obj, Items, nil, cons, Fields, end, field, get}
use acp_proxy.NativeTypes.{
  NativeBinding, allocated_binding, conversation_binding, Scope, server, bridge,
  NativeToolObservation,
}
use acp_proxy.NativeTransport.Admit.{NativeNotification}
use acp_proxy.NativeClient.Turn.{
  Turn, Recorded, raising, unless_raised, given, object_or, text_at, schedule_cancel, is_text,
  identity, observe_tool, retain, observe_reply,
}

-- [json_object(item) for item in items]
abbrev pub objects : String → Items → Result String (List Fields)
objects text nil = ok []
objects text (cons v r) = do fs ← object_or text (some v); rest ← objects text r; ok (fs ∷ rest)

-- value.get(key, []), which must be a list.
abbrev pub list_at : String → Option JsonValue → Result String Items
list_at text none = ok nil
list_at text (some (arr items)) = ok items
list_at text (some _) = err text

abbrev pub scope_of : Fields → Scope
scope_of tool = if is_text (get "toolType" tool) "client" then bridge else server

abbrev pub tool_of : JsonValue → Result String NativeToolObservation
tool_of item = do
  tool ← object_or "native tool call must be an object" (some item)
  identifier ← text_at "id" tool
  name ← text_at "name" tool
  status ← text_at "status" tool
  ok (record { tool_call_id = identifier; name = name; status = status; scope = scope_of tool })

unfoldable pub observe_tools : Items → Turn → Recorded
observe_tools nil t = (none, t)
observe_tools (cons item r) t =
    unless_raised (given (tool_of item) observe_tool t) (observe_tools r)

abbrev pub reply_of : Option JsonValue → Turn → Recorded
reply_of none t = (none, t)
reply_of (some (str reply)) t = (none, observe_reply reply t)
reply_of (some _) t = raising "Native reply must be text" t

unfoldable pub observe_chunk : Fields → Turn → Recorded
unfolding observe_tools
observe_chunk chunk t =
    unless_raised (reply_of (get "reply" chunk) t)
      (given (list_at "Native toolCalls must be an array" (get "toolCalls" chunk)) observe_tools)

unfoldable pub observe_chunks : List Fields → Turn → Recorded
observe_chunks [] t = (none, t)
observe_chunks (chunk ∷ r) t = unless_raised (observe_chunk chunk t) (observe_chunks r)

abbrev pub chunks_of : Fields → Result String (List Fields)
chunks_of value = do
  rounds ← list_at "Native editAgentRounds must be an array" (get "editAgentRounds" value)
  rest ← objects "native round must be an object" rounds
  ok (value ∷ rest)

-- `_observe_report`
unfoldable pub observe_report : Fields → Turn → Recorded
observe_report value t = given (chunks_of value) observe_chunks t

-- The binding that a turn's begin gives, unless it is of another conversation or of the turn before.
abbrev pub bind : NativeBinding → String → String → Option NativeBinding
bind (allocated_binding s m) conversation turn = some (conversation_binding s m conversation turn)
bind (conversation_binding s m c t) conversation turn =
    if not (c == conversation) || t == turn
    then none
    else some (conversation_binding s m conversation turn)

abbrev pub bound : Option NativeBinding → Turn → Recorded
bound none t = raising "Native continuation changed conversation or reused a turn" t
bound (some b) t = (none, record t { binding = b; begun = true })

unfoldable pub begin : Fields → Turn → Recorded
begin value t =
    if t.begun
    then raising "Repeated native turn begin" t
    else given (text_at "conversationId" value)
        (λ conversation.
          given (text_at "turnId" value) (λ turn u. bound (bind u.binding conversation turn) u))
        t

abbrev pub cancel_end : Option JsonValue → Fields → Turn → Recorded
cancel_end none value t = (none, t)
cancel_end (some v) value t =
    given (text_at "cancellationReason" value)
      (λ reason u. (none, schedule_cancel (record u { cancel_reason = some reason }))) t

module _ (json_text : JsonValue → String) where
  abbrev pub error_end : Option JsonValue → Turn → Recorded
  error_end none t = (none, t)
  error_end (some v) t = (none, record t { native_error = some (json_text v) })

  unfoldable pub end_turn : Fields → Turn → Recorded
  end_turn value t =
      unless_raised (cancel_end (get "cancellationReason" value) value (record t { ended = true }))
        (error_end (get "error" value))

  -- `_retain` and `_observe_report` of one progress.
  unfoldable pub observe_progress : String → Fields → Turn → Recorded
  observe_progress kind value t =
      let kept = (retain json_text ("native.progress." ⧺ kind) (obj value) t).1 in
      if kept.overflow then (none, kept) else observe_report value kept

  abbrev pub progress_of : String → Fields → Turn → Recorded
  progress_of kind value t =
      if kind == "begin"
      then unless_raised (begin value t) (observe_progress kind value)
      else if kind == "report"
      then unless_raised (identity value t) (observe_progress kind value)
      else if kind == "end"
      then unless_raised (unless_raised (identity value t) (observe_progress kind value))
          (end_turn value)
      else raising "Unknown native progress kind" t

  abbrev pub by_kind : Option JsonValue → Fields → Turn → Recorded
  by_kind (some (str kind)) value t = progress_of kind value t
  by_kind _ value t = raising "Unknown native progress kind" t

  -- A progress notification, of the active turn.
  unfoldable pub progress : Fields → Turn → Recorded
  progress params t =
      if not (is_text (get "token" params) t.token) || t.rpc_ended || t.ended
      then raising "Stale or uncorrelated native progress" t
      else given (object_or "native progress value must be an object" (get "value" params))
          (λ value. by_kind (get "kind" value) value) t

-- params == {"servers": []}
abbrev pub no_servers : JsonValue → Bool
no_servers (obj (field k (arr nil) end)) = k == "servers"
no_servers _ = false

-- `_notification`; without an active turn nothing is recorded.
module _ (json_text : JsonValue → String) where
  abbrev pub active_progress : Result String Fields → Option Turn → Option String × Option Turn
  active_progress (err text) turn = (some text, turn)
  active_progress (ok params) none = (some "Stale or uncorrelated native progress", none)
  active_progress (ok params) (some t) =
      let (raised, u) = progress json_text params t in (raised, some u)

  unfoldable pub notification : NativeNotification → Option Turn → Option String × Option Turn
  unfolding progress
  notification n turn =
      if n.method == "copilot/mcpTools"
      then (
        if no_servers n.params
            then none
            else some "Native MCP tools appeared during the generation",
        turn,
      )
      else if n.method == "$/cancelRequest"
      then (some "Native server cancelled a client callback", turn)
      else if not (n.method == "$/progress")
      then (none, turn)
      else active_progress (object_or "native progress params must be an object" (some n.params))
          turn
