-- ===== src/WorkspaceTools/Running/Reported.antt =====
-- What the tools report of a command that has run.
use acp_proxy.Prelude.{
  ℕ, ◌≡◌, refl, sym, ◌∙◌, Bool, true, false, ◌||◌, Option, none, some, List, ok, err, if◌then◌else◌,
  arith, ◌⊎◌, ◌≢◌, inl, inr, Bool-cases, not, ℤ, pos, negsuc, zero, suc, String,
}
use acp_proxy.WorkspaceTools.{WorkspaceOperation}
use acp_proxy.OwnedCommands.{
  CommandSpec, CommandResult, Round, new_running, Ended, goes_on, returned, failed, run_loop,
  Cleanup, settling, settles, cleanup_fails, finish_run,
}
use acp_proxy.OwnedCommands.Ran.{Ran}
use acp_proxy.OwnedCommands.Ran.Loop.{run_loop-Ran}
use acp_proxy.OwnedCommands.Owner.{
  Commands, Active, WorkerResult, settlement, end_execute, end_active,
}
use acp_proxy.WorkspaceTools.Running.{
  command_outcome, WorkspaceResult, workspace_result, command_error_of, is_zero, command_end,
  specified, execution, execute_command,
}

-- How a command that has this result is reported: as cancelled if it was interrupted; if not, as out of
-- time if its deadline ended it; if not, as failed if its exit code is not zero; if not, without an error.
abbrev pub IsReportedAs : (interrupted : Bool) → CommandResult → Option String → Type 0
IsReportedAs interrupted result error =
    (interrupted ≡ true) × (error ≡ some "cancelled")
    ⊎ (interrupted ≡ false) × (result.timed_out ≡ true) × (error ≡ some "timeout")
    ⊎ (interrupted ≡ false)
      × (result.timed_out ≡ false)
      × (result.exit_code ≢ pos 0)
      × (error ≡ some "command_failed")
    ⊎ (interrupted ≡ false)
      × (result.timed_out ≡ false)
      × (result.exit_code ≡ pos 0)
      × (error ≡ none)

-- What is reported of a command by its rounds: all that it has done, and how it has ended.
pub record Reported (limit : ℕ) (rounds : List Round) (op : WorkspaceOperation) (interrupted : Bool)
    (reported : WorkspaceResult) : Type 0 where
  pub result : CommandResult
  pub ran : Ran limit rounds result
  pub outcome : reported.outcome ≡ command_outcome op result
  pub error : IsReportedAs interrupted result reported.error

error_reported :
    (interrupted : Bool) (result : CommandResult) (error : Option String)
    → error ≡ (if interrupted then some "cancelled" else command_error_of result)
    → IsReportedAs interrupted result error
error_reported true result error e = inl (refl, e)
error_reported false result error e = elim (Bool-cases result.timed_out) [
  | inl late ↦ inr (inl (refl, late, ground (arith, e, late)))
  | inr in_time ↦ by_exit result.exit_code refl in_time (ground (arith, e, in_time))
]
  where
    by_exit :
        (code : ℤ)
        → result.exit_code ≡ code
        → result.timed_out ≡ false
        → error ≡ (if not (is_zero code) then some "command_failed" else none)
        → IsReportedAs false result error
    by_exit (pos zero) is in_time f = inr (inr (inr (refl, in_time, is, f)))
    by_exit (pos (suc n)) is in_time f = inr (inr (inl (refl, in_time, λ z. cc, f)))
    by_exit (negsuc n) is in_time f = inr (inr (inl (refl, in_time, λ z. cc, f)))

worker_returned :
    (e : Ended) (cleanup : Cleanup) (result : CommandResult)
    → finish_run e cleanup ≡ some (ok result)
    → e ≡ returned result
unfolding finish_run
worker_returned (goes_on r) cleanup result h = ground arith
worker_returned (returned r) settling result h = ground arith
worker_returned (returned r) settles result h = ground arith
worker_returned (returned r) (cleanup_fails x) result h = ground arith
worker_returned (failed e) settling result h = ground arith
worker_returned (failed e) settles result h = ground arith
worker_returned (failed e) (cleanup_fails x) result h = ground arith

abbrev Reports : WorkspaceOperation → Active → WorkspaceResult → Type 0
Reports op a reported =
    (result : CommandResult) × (a.worker ≡ some (ok result))
    × (reported.outcome ≡ command_outcome op result)
    × (reported.error
        ≡ (if a.stop || a.cancelled then some "cancelled" else command_error_of result))

reports :
    (op : WorkspaceOperation) (a : Active) (worker : Option WorkerResult) (stop cancelled : Bool)
    (c d : Commands) (reported : WorkspaceResult)
    → a.worker ≡ worker
    → a.stop ≡ stop
    → a.cancelled ≡ cancelled
    → execution op (end_active (record a { worker = worker; stop = stop; cancelled = cancelled }) c)
      ≡ some (workspace_result reported, d)
    → Reports op a reported
unfolding settlement command_end
reports op a none stop cancelled c d reported w s x h = absurd (ground arith)
reports op a (some (err e)) stop cancelled c d reported w s x h = absurd (ground arith)
reports op a (some (ok result)) stop true c d reported w s x h =
    (result, w, ground arith, ground arith)
reports op a (some (ok result)) true false c d reported w s x h =
    (result, w, ground arith, ground arith)
reports op a (some (ok result)) false false c d reported w s x h =
    (result, w, ground arith, ground arith)

executed_active :
    (op : WorkspaceOperation) (spec : CommandSpec) (a : Active) (c : Commands)
    → execute_command op (specified spec) false (record c { active = some a })
      ≡ execution op (end_active a (record c { active = some a }))
unfolding execute_command end_execute
executed_active op spec a c = refl

-- A command that was started, and whose worker ran through these rounds and cleaned up, is reported
-- with all that it has done, also where it was cancelled: its result is that of its run. It is reported
-- as cancelled exactly if it was asked to stop or its caller was cancelled; if not, as out of time
-- exactly if its deadline ended it; if not, as failed exactly if its exit code is not zero.
pub execute_command-Reported :
    (limit : ℕ) (rounds : List Round) (cleanup : Cleanup) (op : WorkspaceOperation)
    (spec : CommandSpec) (a : Active) (c d : Commands) (reported : WorkspaceResult)
    → a.worker ≡ finish_run (run_loop rounds (new_running limit)) cleanup
    → execute_command op (specified spec) false (record c { active = some a })
      ≡ some (workspace_result reported, d)
    → Reported limit rounds op (a.stop || a.cancelled) reported
execute_command-Reported limit rounds cleanup op spec a c d reported worker h =
    let (result, is, outcome, error) =
      reports op a a.worker a.stop a.cancelled (record c { active = some a }) d reported refl refl
        refl (sym (executed_active op spec a c) ∙ h) in
    record {
      result = result;
      ran =
          run_loop-Ran limit rounds result (
            worker_returned (run_loop rounds (new_running limit)) cleanup result (sym worker ∙ is));
      outcome = outcome;
      error = error_reported (a.stop || a.cancelled) result reported.error error;
    }
