-- ===== src/Tests/Turns.antt =====
-- A turn that begins, replies, and runs one tool call.
use acp_proxy.Prelude.{pos, ◌≡◌, refl, String, true, false, List, [], ◌∷◌, none, Result, err}
use acp_proxy.Prelude.Dict.{lookup, insert}
use acp_proxy.Json.{JsonValue, null, str, int, obj, arr, cons, nil, Fields, object, get}
use acp_proxy.Json.Checked.{required_string}
use acp_proxy.DirectState.{distinct}
use acp_proxy.NativeTypes.{allocated_binding}
use acp_proxy.PermissionPolicy.{PermissionDecision, has_exactly}
use acp_proxy.WorkspaceTools.{
  WorkspaceOperation, decode, decode_batch, decode_all, decode_new_file, fields_named, items_of,
  path_of, text_of, has_nul, constructor_ok,
}
use acp_proxy.WorkspaceTools.Running.{WorkspaceResult, file_outcome}
use acp_proxy.NativeClient.Turn.{Turn, new_turn, identity, observe_tool, retain, observe_reply}
use acp_proxy.NativeClient.Report.{
  progress, begin, observe_progress, observe_report, observe_chunks, observe_chunk, observe_tools,
}
use acp_proxy.NativeClient.Callback.{Texts, tool_callback, input_of, effect, end_execution}
use acp_proxy.NativeClient.Machine.{TurnEvent, progresses, calls, ends_call, act, run_events}
use acp_proxy.NativeClient.Evidence.{Bounded, run_events-Within, run_events-distinct}

abbrev texts : Texts
texts = record {
  json_text = λ v. "{}";
  sorted_text = λ v. "{}";
  result_json = λ r. null;
  result_text = λ r. "";
  decision_json = λ d. null;
}

abbrev refuse : WorkspaceOperation → Result String PermissionDecision
refuse op = err "workspace tools are closed"

abbrev of_kind : String → List (String × JsonValue) → Fields
of_kind kind fields = object (
    ("token", str "t")
    ∷ (
      "value",
      obj (
          object (("kind", str kind) ∷ ("conversationId", str "c") ∷ ("turnId", str "u") ∷ fields)),
    )
    ∷ [])

abbrev new_file : Fields
new_file = object (("path", str "a.txt") ∷ ("content", str "x") ∷ [])

abbrev call : JsonValue
call = obj (
    object (
      ("name", str "workspace_create_files")
      ∷ ("input", obj (object (("files", arr (cons (obj new_file) nil)) ∷ [])))
      ∷ ("conversationId", str "c")
      ∷ ("turnId", str "u")
      ∷ ("roundId", int (pos 0))
      ∷ ("toolCallId", str "call1")
      ∷ []))

abbrev done : WorkspaceResult
done = record { outcome = file_outcome []; error = none }

-- A reply and a call, which is asked for again, and whose result comes after that has raised.
abbrev events : List TurnEvent
events =
    progresses (of_kind "begin" [])
    ∷ progresses (of_kind "report" (("reply", str "hi") ∷ []))
    ∷ calls false call
    ∷ calls false call
    ∷ ends_call "call1" done
    ∷ []

abbrev t0 : Turn
t0 = new_turn (allocated_binding "s" "m") "t" 100 10

replied : (run_events texts [] refuse events t0).1.response ≡ "hi" ∷ []
unfolding run_events act new_turn progress begin identity observe_progress retain observe_report
    observe_chunks observe_chunk observe_tools observe_reply tool_callback get required_string
    input_of lookup observe_tool decode effect insert end_execution
replied = refl

executed_once : (run_events texts [] refuse events t0).0 ≡ "call1" ∷ []
unfolding run_events act new_turn progress begin identity observe_progress retain observe_report
    observe_chunks observe_chunk observe_tools observe_reply tool_callback get required_string
    input_of lookup observe_tool decode decode_batch decode_all decode_new_file fields_named
    items_of path_of text_of has_nul has_exactly constructor_ok effect insert end_execution
executed_once = refl

run_events-Within_example :
    Bounded 100 10
      (run_events texts [] refuse events (new_turn (allocated_binding "s" "m") "t" 100 10)).1
run_events-Within_example =
    run_events-Within texts [] refuse events (allocated_binding "s" "m") "t" 100 10

run_events-distinct_example : distinct (run_events texts [] refuse events t0).0 ≡ true
run_events-distinct_example = run_events-distinct texts [] refuse events t0
