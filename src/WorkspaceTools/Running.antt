-- ===== src/WorkspaceTools/Running.antt =====
-- `execute`, `cancel` and `close` of workspace_tools.py: one operation of a session at a time, and the result
-- of a command or a batch of files.
pub mod Reported
use acp_proxy.Prelude.{
  ℤ, pos, zero, String, ◌≡◌, Bool, true, false, not, ◌&&◌, ◌||◌, Option, none, some, is_some, List,
  [], Result, ok, err, ◌>>=◌, ◌>>◌, raise_if, or_raise, if◌then◌else◌,
}
use acp_proxy.PermissionPolicy.{PermissionAction, Policy, PermissionDecision, confirm, authorize}
use acp_proxy.DirectProtocol.{Platform}
use acp_proxy.WorkspaceTools.{WorkspaceOperation, create_files, edit_files, run_command, action_of}
use acp_proxy.WorkspaceTools.Batch.{
  Answers, FileError, FileReceipt, BatchResult, code_of, admit_path, FileWork, file_batch,
}
use acp_proxy.OwnedCommands.{
  CommandError, CommandSpec, command_spec, CommandResult, Round, new_running, run_loop, Cleanup,
  finish_run,
}
use acp_proxy.OwnedCommands.Owner.{
  Commands, Active, Settlement, settled, command_cancelled, raised, cancel as cancel_commands,
  begin_close as close_commands, settlement, end_execute,
}

-- RuntimeError, PermissionError, and what OwnedCommands raises.
pub data ToolsError : Type 0 where
  closed_error active_error permission_error : ToolsError
  command_error : CommandError → ToolsError

pub record Tools : Type 0 where
  pub policy : Policy
  pub active : Option WorkspaceOperation
  pub stop : Bool
  pub closed : Bool
  pub commands : Commands

pub data Outcome : Type 0 where
  file_outcome : List FileReceipt → Outcome
  command_outcome : WorkspaceOperation → CommandResult → Outcome

-- WorkspaceResult; the error is the code of its ToolFailure.
pub record WorkspaceResult : Type 0 where
  pub outcome : Outcome
  pub error : Option String

-- How `_execute_owned` ends.
pub data OwnedEnd : Type 0 where
  workspace_result : WorkspaceResult → OwnedEnd
  owned_raises : ToolsError → OwnedEnd

abbrev pub cancelled_result : List FileReceipt → WorkspaceResult
cancelled_result receipts = record { outcome = file_outcome receipts; error = some "cancelled" }

abbrev pub is_zero : ℤ → Bool
is_zero (pos zero) = true
is_zero _ = false

abbrev pub command_error_of : CommandResult → Option String
command_error_of r =
    if r.timed_out
    then some "timeout"
    else if not (is_zero r.exit_code)
    then some "command_failed"
    else none

-- `_execute_owned` after `self._commands.execute`.
unfoldable pub command_end : WorkspaceOperation → Settlement → OwnedEnd
command_end op (settled r) =
    workspace_result (record { outcome = command_outcome op r; error = command_error_of r })
command_end op (command_cancelled r) =
    workspace_result (record { outcome = command_outcome op r; error = some "cancelled" })
command_end op (raised e) = owned_raises (command_error e)

-- What `_command_spec` gives: a specification, a _FileFailure, an exception of CommandSpec, or a
-- CancelledError that came before it.
pub data Specified : Type 0 where
  specified : CommandSpec → Specified
  not_admitted : FileError → Specified
  no_spec : CommandError → Specified
  cancelled_before : Specified

-- `_command_spec`, of a path that `_admit_path` has admitted or not; the flags are those of CommandSpec.
abbrev pub specify_at :
    String → ℤ × ℤ → Result FileError String → (absolute is_dir : Bool) → Specified
specify_at command timeout (err e) absolute is_dir = not_admitted e
specify_at command timeout (ok cwd) absolute is_dir =
    elim (command_spec command cwd timeout absolute is_dir) [
      | ok spec ↦ specified spec
      | err e ↦ no_spec e
    ]

unfoldable pub specify : String → String → ℤ × ℤ → Answers → (absolute is_dir : Bool) → Specified
unfolding admit_path
specify workspace command timeout a absolute is_dir =
    specify_at command timeout (admit_path workspace true a) absolute is_dir

abbrev pub execution :
    WorkspaceOperation → Option (Settlement × Commands) → Option (OwnedEnd × Commands)
execution op none = none
execution op (some (s, c)) = some (command_end op s, c)

-- The command of `_execute_owned`; in `c` it is the active one of its owner. `none` while it runs.
unfoldable pub execute_command :
    WorkspaceOperation → Specified → (stop_set : Bool) → Commands → Option (OwnedEnd × Commands)
unfolding command_end
execute_command op (not_admitted e) stop_set c =
    some (workspace_result (record { outcome = file_outcome []; error = some (code_of e) }), c)
execute_command op (no_spec e) stop_set c = some (owned_raises (command_error e), c)
execute_command op cancelled_before stop_set c = some (workspace_result (cancelled_result []), c)
execute_command op (specified spec) true c = some (workspace_result (cancelled_result []), c)
execute_command op (specified spec) false c = execution op (end_execute c)

-- A batch of files in `_execute_owned`; `interrupted` says whether a CancelledError has reached it.
unfoldable pub files_end : Bool → BatchResult → WorkspaceResult
files_end interrupted (receipts, code) = record {
  outcome = file_outcome receipts;
  error = if interrupted then some "cancelled" else code;
}

module _ (platform : Platform) where
  unfoldable pub confirm_operation :
      WorkspaceOperation → Tools → Result ToolsError PermissionDecision
  confirm_operation op t =
      raise_if t.closed closed_error >> ok (confirm platform t.policy (action_of op))

  -- `execute` to its first await.
  unfoldable pub begin_execute : WorkspaceOperation → Tools → Result ToolsError Tools
  begin_execute op t = do
    raise_if t.closed closed_error
    raise_if (is_some t.active) active_error
    decision ← or_raise (authorize platform t.policy (action_of op)) permission_error
    ok (record t { active = some op; stop = false })

-- What `execute` gives its caller.
pub data Executed : Type 0 where
  gives : WorkspaceResult → Executed
  workspace_cancelled : WorkspaceResult → Executed
  executed_raises : ToolsError → Executed

abbrev pub executed : Bool → OwnedEnd → Executed
executed interrupted (owned_raises e) = executed_raises e
executed true (workspace_result r) = workspace_cancelled r
executed false (workspace_result r) = gives r

-- A CancelledError reaches `execute`: it stops its operation, and waits for it.
unfoldable pub interrupt : Tools → Tools
unfolding cancel_commands
interrupt t = record t { stop = true; commands = cancel_commands t.commands }

-- The rest of `execute`, with its `finally`.
unfoldable pub end_execution : Bool → OwnedEnd → Tools → Executed × Tools
end_execution interrupted e t = (executed interrupted e, record t { active = none; stop = false })

-- `cancel` and `close` to their awaits.
unfoldable pub cancel : Tools → Tools
unfolding interrupt
cancel t = elim t.active [ none ↦ t | some op ↦ interrupt t ]

unfoldable pub begin_close : Tools → Tools
unfolding cancel
begin_close t = cancel (record t { closed = true })

-- The rest of `close`, once what it has cancelled has ended.
unfoldable pub close_owner : Tools → Tools
unfolding close_commands
close_owner t = record t { commands = close_commands t.commands }
