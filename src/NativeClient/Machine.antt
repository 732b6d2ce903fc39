-- ===== src/NativeClient/Machine.antt =====
-- A turn as a machine: what happens to the active turn, one event after another. An event that raises aborts
-- the transport, but the calls that are running go on to record in the turn, so any event may follow it.
use acp_proxy.Prelude.{String, Bool, Option, none, some, List, [], ◌∷◌, Result, ok, err}
use acp_proxy.Json.{JsonValue, Fields}
use acp_proxy.NativeTypes.{NativeModel}
use acp_proxy.PermissionPolicy.{PermissionDecision}
use acp_proxy.WorkspaceTools.{WorkspaceOperation}
use acp_proxy.WorkspaceTools.Running.{WorkspaceResult}
use acp_proxy.NativeTransport.Admit.{RpcResponse}
use acp_proxy.NativeClient.Turn.{Turn, Recorded}
use acp_proxy.NativeClient.Report.{progress}
use acp_proxy.NativeClient.Callback.{
  Texts, Called, replies, executes, tool_callback, begin_execution, end_execution,
}
use acp_proxy.NativeClient.Terminal.{terminal_rpc, signal_cancel}

-- A result of a call is of one that was admitted, or was refused at its start.
pub data TurnEvent : Type 0 where
  progresses : Fields → TurnEvent
  calls : (confirmation : Bool) → JsonValue → TurnEvent
  starts_call : (is_open : Bool) → String → TurnEvent
  ends_call : String → WorkspaceResult → TurnEvent
  responds : RpcResponse → TurnEvent
  cancels : (dispatched is_open : Bool) → TurnEvent

-- Whether the event raised, the call that is executed for it, and the turn.
abbrev pub Acted : Type 0
Acted = Option String × Option String × Turn

abbrev pub recorded : Recorded → Acted
recorded (raised, t) = (raised, none, t)

abbrev pub of_call : Called → Acted
of_call (err text, t) = (some text, none, t)
of_call (ok (replies v), t) = (none, none, t)
of_call (ok (executes identifier op), t) = (none, some identifier, t)

abbrev pub of_start : Option Called → Turn → Acted
of_start none t = (none, none, t)
of_start (some c) t = of_call c

module _ (x : Texts) (models : List NativeModel)
    (confirm : WorkspaceOperation → Result String PermissionDecision) where
  unfoldable pub act : TurnEvent → Turn → Acted
  act (progresses params) t = recorded (progress x.json_text params t)
  act (calls confirmation value) t = of_call (tool_callback x confirm confirmation value t)
  act (starts_call is_open identifier) t = of_start (begin_execution x is_open identifier t) t
  act (ends_call identifier result) t = of_call (end_execution x identifier result t)
  act (responds response) t = recorded (terminal_rpc x.json_text models response t)
  act (cancels dispatched is_open) t = (none, none, (signal_cancel dispatched is_open t).1)

  abbrev pub add : Option String → List String × Turn → List String × Turn
  add none r = r
  add (some identifier) (ids, t) = (identifier ∷ ids, t)

  -- The calls that are executed in a turn, in order, and the turn that is left.
  unfoldable pub run_events : List TurnEvent → Turn → List String × Turn
  run_events [] t = ([], t)
  run_events (e ∷ es) t = add (act e t).1 (run_events es (act e t).2)
