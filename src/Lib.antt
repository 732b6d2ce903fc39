-- ===== src/Lib.antt =====
-- Meadow Bridge: the direct service that stands between Meadow and a Copilot language server.
--
-- The bridge admits operations (create a session, prompt it, cancel a prompt, retire a session) under
-- ids that the caller chooses, runs each as a task against the native client, and settles each once.
-- When the outcome of native work is uncertain, the whole continuity generation is given up: admission
-- closes at once, every other task is cancelled, and what was not settled is published as in doubt.
--
-- Which file models what, by paths from the repository's root:
--   DirectState.antt, DirectState/: src/meadow_bridge/direct_state.py. OperationRecord, DirectSession and
--     InstructionsSubmitted are records; `set_terminal` and `admit` return what they raise. Laws.antt
--     tells the ways that an admission ends, Trace.antt runs a ledger through any events.
--   DirectProtocol.antt: src/meadow_bridge/direct_protocol.py, the requests, their layers and digests.
--   NativeTransport/: src/meadow_bridge/native_transport.py. Frames has `read_frame`, `_PipeReader` and the
--     writing loop of `_send`; State has the transport and what its owner calls; Admit has `_admit`,
--     `_read_loop` and the callbacks; Machine puts them together in any order. A reader and an owner are
--     interfaces: records of functions that the code is given.
--   NativeClient/: src/meadow_bridge/native_client.py, one turn of a conversation. Turn has `_Turn`, `_retain`
--     and `_observe_tool`, Report has `_notification` and `_observe_report`, Callback has `_callback`,
--     `_execute_owned` and `_effect`, Terminal has `_terminal_rpc`, `_signal_cancel` and the end of `run_turn`;
--     Machine lets them happen in any order. `json_text`, a sorted JSON text and the JSON of a result
--     are the fields of Texts. An event that raises aborts the transport, but running calls go on
--     to record in the turn: Machine lets any event follow.
--   RawEvents.antt: src/meadow_bridge/raw_events.py, from the end of `start` on: `record`, the task that
--     writes, up to each await, and `close`. A line is its record, and its JSON text is a parameter.
--   Discovery.antt: src/meadow_bridge/discovery.py, the probe of a version and the admission; Discovery/Select
--     has `_select_best_binary`. What the machine answers is a Host: canonical paths, executable files and
--     the runs of `--version`. An error is told by its kind.
--   NativeTypes.antt: src/meadow_bridge/native_types.py.
--   Json.antt, Json/Checked.antt: src/meadow_bridge/json_types.py, the JSON domain and the admission to it.
--   PermissionPolicy.antt: src/meadow_bridge/permission_policy.py and permission_handler.py.
--   WorkspaceTools.antt: src/meadow_bridge/workspace_tools.py, its checked operations and `decode`; below
--     it Admitted has what a decoded operation satisfies, and Edits has the exact edits of `_file_batch`,
--     Batch has `_file_batch`, `_admit_path` and `_publish`,
--     and Running has `execute`, `cancel` and `close`.
--   OwnedCommands.antt: src/meadow_bridge/owned_commands.py, `ShellSpec`, `CommandSpec`, `_Capture` and `_run`;
--     Owner has `execute`, `cancel` and `close`; Captured and Ran tell what a result has of its run.
--   DirectService/: src/meadow_bridge/direct_service.py. State.antt has the service and its generation;
--     Create, Prompt, Cancel and Retire have the four `admit_*` handlers and the segments of their tasks;
--     Evidence has `_retained_evidence` and `_normalize_result`; Settle has `_settle_terminal`,
--     `_settle_deadline` and the `finally` of `_execute_prompt`; Quarantine has `mark_generation_lost` and
--     `_quarantine_uncertain`; Tasks puts the segments together at the awaits of each coroutine.
--   DirectService/Machine.antt: the steps of the service, in any order that the event loop may choose.
--     Below it are the invariant (Fits, Ok), the lemmas on how a segment ends (Ends, Loss, Additions) and,
--     for every kind of step, that it keeps the invariant. Touches.antt and Accounts.antt carry them.
--   Tests.antt, Tests/: small runs. Prelude.antt: shared names, errors as values, Python's ordered dictionary.
--
-- How the code is read:
--   The state lock is never held across an await, so a handler is one function on the whole service.
--   A coroutine is the list of its segments between awaits; a task is the point at which it stands.
--   Records and sessions, which the source shares by reference, are referred to by their ids.
--   `admitted` is the generation that the callers hold, `fresh` the one that replaces it after a loss;
--   no request is admitted to a fresh one, since admission never opens again.
--   A collector is pending or has ended in one of the ways that a task can. The native client answers
--   in any way: what it is asked for is an argument of each step.
--   SHA-256, `json.dumps`, `json.loads` and `os.path.realpath` are the fields of Platform; the validation of
--   a finished result by pydantic is the parameter `valid`.
--   Texts are UTF-8, and their length is counted in bytes. A duration is a natural number of 2^-1074 s,
--   of which every positive finite float is a multiple. The reservation counter is an integer that may
--   fall below zero. All loops are structural; no fuel is used.
--
-- What is not modelled: the field patterns and lengths that pydantic checks before a handler runs, error
-- texts, logging, the exclusion of the prompt lock (the machine lets more orders happen than it does),
-- the HTTP server, the processes of each platform, the start-up and the sessions of the native client, the lists of processes and files that discovery makes, and the files that only do input and output.
pub mod Prelude
pub mod Json
pub mod DirectState
pub mod DirectProtocol
pub mod PermissionPolicy
pub mod WorkspaceTools
pub mod OwnedCommands
pub mod NativeTypes
pub mod NativeTransport
pub mod RawEvents
pub mod NativeClient
pub mod Discovery
pub mod DirectService
pub mod Tests
