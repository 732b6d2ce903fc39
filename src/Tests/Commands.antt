-- ===== src/Tests/Commands.antt =====
-- Runs of a command: output in two chunks, an exit, and a tree that is gone a round later.
use acp_proxy.Prelude.{pos, ◌≡◌, ◌≢◌, refl, true, false, Option, none, some, List, [], ◌∷◌, ok}
use acp_proxy.NativeTransport.Frames.{Bytes, codes}
use acp_proxy.OwnedCommands.{
  CommandSpec, CommandResult, new_capture, Round, answers, new_running, goes_on, returned,
  run_round, run_loop, settles, finish_run,
}
use acp_proxy.OwnedCommands.Captured.{read_all, at_eof, feed, Holds, feed-new}
use acp_proxy.OwnedCommands.Ran.{Ran}
use acp_proxy.OwnedCommands.Ran.Loop.{run_loop-Ran, run_loop-ends}
use acp_proxy.OwnedCommands.Owner.{Active, owned_commands, settlement, end_execute}
use acp_proxy.WorkspaceTools.{WorkspaceOperation, run_command}
use acp_proxy.WorkspaceTools.Running.{
  command_outcome, WorkspaceResult, workspace_result, specified, command_end, execute_command,
}
use acp_proxy.WorkspaceTools.Running.Reported.{Reported, execute_command-Reported}

abbrev r1 : Round
r1 = answers (some (codes "ab")) none none false false false none false

abbrev r2 : Round
r2 = answers (some (codes "cd")) (some []) (some (pos 0)) false true false none false

abbrev r3 : Round
r3 = answers (some []) (some (codes "x")) none true true true (some (pos 0)) true

abbrev rounds : List Round
rounds = r1 ∷ r2 ∷ r3 ∷ []

abbrev result : CommandResult
result = record {
  stdout = codes "abc";
  stderr = [];
  stdout_truncated = true;
  stderr_truncated = false;
  exit_code = pos 0;
  timed_out = false;
}

run : run_loop rounds (new_running 3) ≡ returned result
unfolding run_loop run_round
run = refl

run_loop-Ran_example : Ran 3 rounds result
run_loop-Ran_example = run_loop-Ran 3 rounds result run

-- After the exit of `r2`, a tree that is gone with its pipes open.
abbrev open_pipes : Round
open_pipes = answers none none none false false true none true

run_loop-ends_example :
    run_loop (r2 ∷ open_pipes ∷ open_pipes ∷ []) (new_running 3) ≢ goes_on (new_running 3)
run_loop-ends_example =
    run_loop-ends r2 open_pipes open_pipes [] (new_running 3) (new_running 3) refl refl refl refl

abbrev reads : List (Option Bytes)
reads = some (codes "ab") ∷ none ∷ some (codes "cd") ∷ some [] ∷ some (codes "e") ∷ []

feed-new_example :
    Holds 3 (read_all reads) (feed reads (new_capture 3))
    × ((feed reads (new_capture 3)).eof ≡ at_eof reads)
feed-new_example = feed-new 3 reads

abbrev spec : CommandSpec
spec = record { command = "ls"; cwd = "/w"; timeout = (pos 1, pos 0) }

abbrev op : WorkspaceOperation
op = run_command "ls" "/w" (pos 1) (pos 0)

-- The command has been cancelled after it ended.
abbrev active : Active
active = record { spec = spec; stop = true; worker = some (ok result); cancelled = false }

abbrev reported : WorkspaceResult
reported = record { outcome = command_outcome op result; error = some "cancelled" }

worker_done : active.worker ≡ finish_run (run_loop rounds (new_running 3)) settles
unfolding run_loop run_round finish_run
worker_done = refl

reported_so :
    execute_command op (specified spec) false (record owned_commands { active = some active })
    ≡ some (workspace_result reported, owned_commands)
unfolding execute_command end_execute command_end settlement
reported_so = refl

execute_command-Reported_example : Reported 3 rounds op true reported
execute_command-Reported_example =
    execute_command-Reported 3 rounds settles op spec active owned_commands owned_commands reported
      worker_done reported_so
