-- ===== src/NativeClient/Terminal.antt =====
-- `_terminal_rpc`, `_signal_cancel` and the end of `run_turn` of native_client.py.
use acp_proxy.Prelude.{
  String, Bool, true, not, ◌&&◌, ◌||◌, Option, none, some, List, [], ◌∷◌, ◌==◌, if◌then◌else◌,
  Result, ok, err,
}
use acp_proxy.Json.{JsonValue, Fields, get}
use acp_proxy.NativeTypes.{
  NativeModel, NativeBinding, allocated_binding, conversation_binding, NativeTerminal,
  native_completed, native_cancelled, native_failed,
}
use acp_proxy.NativeTransport.Admit.{RpcResponse}
use acp_proxy.NativeClient.Turn.{
  Turn, observation_of, Recorded, raising, unless_raised, given, object_or, is_text, identity,
}

abbrev pub model_id : NativeBinding → String
model_id (allocated_binding s m) = m
model_id (conversation_binding s m c t) = m

-- next(model for model in models if model.id == id)
abbrev pub model_of : List NativeModel → String → Option NativeModel
model_of [] id = none
model_of (m ∷ ms) id = if m.id == id then some m else model_of ms id

abbrev pub of_model : Option NativeModel → Fields → Fields → Turn → Recorded
of_model none info value t = raising "StopIteration" t
of_model (some m) info value t =
    if not (is_text (get "id" info) m.id) || not (is_text (get "modelName" value) m.name)
    then raising "Native result model differs from the admitted model" t
    else (none, t)

abbrev pub set_rpc_ended : Turn → Recorded
set_rpc_ended t = (none, record t { rpc_ended = true })

module _ (json_text : JsonValue → String) (models : List NativeModel) where
  abbrev pub prompt_result : RpcResponse → Turn → Recorded
  prompt_result response t =
      if response.is_error
      then (none, record t { native_error = some (json_text response.value) })
      else given (object_or "native prompt result must be an object" (some response.value))
          (λ value u. unless_raised (identity value u) (
            given (object_or "result modelInfo must be an object" (get "modelInfo" value))
              (λ info v. of_model (model_of models (model_id v.binding)) info value v)))
          t

  -- `_terminal_rpc`, of the active turn.
  unfoldable pub terminal_rpc : RpcResponse → Turn → Recorded
  terminal_rpc response t =
      if t.rpc_ended
      then raising "Uncorrelated native terminal RPC" t
      else if not t.ended
      then raising "Native terminal RPC overtook terminal progress" t
      else unless_raised (prompt_result response t) set_rpc_ended

-- `_signal_cancel` to its first await: whether it notifies the server, and the turn. `dispatched` is
-- whether the request of the turn has been sent.
unfoldable pub signal_cancel : (dispatched is_open : Bool) → Turn → Bool × Turn
signal_cancel dispatched is_open t = (
  not t.cancel_requested && dispatched && not t.rpc_ended && is_open,
  record t { cancel_requested = true },
)

-- `run_turn` after its waits: the request has its response, and the cancellation and the callbacks have
-- settled. `no_mcp` is whether the MCP catalog is still empty; `err` is what becomes an unsettled turn.
unfoldable pub conclude : Bool → Turn → Result String NativeTerminal
unfolding observation_of
conclude no_mcp t =
    let o = observation_of true t in
    if not t.ended || not t.rpc_ended
    then err "Native prompt did not fully terminate"
    else if not no_mcp
    then err "Native MCP catalog is not empty"
    else elim t.cancel_reason [
      | some reason ↦ ok (native_cancelled o (if t.overflow then "evidence_limit" else reason))
      | none ↦
          if t.overflow || t.cancel_requested
          then err "Native request did not acknowledge requested cancellation"
          else elim t.native_error [
            | some e ↦ ok (native_failed o e)
            | none ↦ ok (native_completed o)
          ]
    ]
