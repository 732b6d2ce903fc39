-- ===== src/OwnedCommands/Owner.antt =====
-- OwnedCommands of owned_commands.py: one command at a time, and the result that its caller has of it.
use acp_proxy.Prelude.{
  Bool, true, false, ◌||◌, Option, none, some, is_some, Result, ok, err, if◌then◌else◌,
}
use acp_proxy.OwnedCommands.{CommandError, runtime_error, CommandSpec, CommandResult}

abbrev pub WorkerResult : Type 0
WorkerResult = Result CommandError CommandResult

-- `worker` is the outcome of the future, once it is done; `cancelled` says whether a CancelledError
-- has reached the `execute` that waits for it.
pub record Active : Type 0 where
  pub spec : CommandSpec
  pub stop : Bool
  pub worker : Option WorkerResult
  pub cancelled : Bool

pub record Commands : Type 0 where
  pub active : Option Active
  pub closed : Bool
  pub failure : Option CommandError

abbrev pub owned_commands : Commands
owned_commands = record { active = none; closed = false; failure = none }

-- `execute` to its first await.
unfoldable pub begin_execute : CommandSpec → Commands → Result CommandError Commands
begin_execute spec c =
    if c.closed || is_some c.active
    then err runtime_error
    else ok (record c {
      active = some (record { spec = spec; stop = false; worker = none; cancelled = false });
    })

abbrev pub modify_active : (Active → Active) → Commands → Commands
modify_active f c = elim c.active [ none ↦ c | some a ↦ record c { active = some (f a) } ]

-- The worker has ended.
unfoldable pub worker_ends : WorkerResult → Commands → Commands
worker_ends r =
    modify_active (λ a. record a { worker = if is_some a.worker then a.worker else some r })

-- A CancelledError reaches `_settle` for `execute`.
unfoldable pub interrupt_execute : Commands → Commands
interrupt_execute = modify_active (λ a. record a { stop = true; cancelled = true })

-- `cancel` to its await.
unfoldable pub cancel : Commands → Commands
cancel = modify_active (λ a. record a { stop = true })

-- `close` to its await.
unfoldable pub begin_close : Commands → Commands
unfolding cancel
begin_close c = cancel (record c { closed = true })

-- How `_settle` ends for a caller, where `interrupted` says whether a CancelledError has reached it.
pub data Settlement : Type 0 where
  settled command_cancelled : CommandResult → Settlement
  raised : CommandError → Settlement

unfoldable pub settlement : Bool → WorkerResult → Settlement
settlement interrupted (err e) = raised e
settlement true (ok result) = command_cancelled result
settlement false (ok result) = settled result

-- The rest of `execute`, after its `_settle`.
abbrev pub after_settle : Bool → Settlement → Commands → Settlement × Commands
after_settle stop (raised e) c =
    (raised e, record c { active = none; closed = true; failure = some e })
after_settle stop (command_cancelled result) c =
    (command_cancelled result, record c { active = none })
after_settle stop (settled result) c =
    (if stop then command_cancelled result else settled result, record c { active = none })

abbrev pub end_active : Active → Commands → Option (Settlement × Commands)
end_active a c = elim a.worker [
  | none ↦ none
  | some r ↦ some (after_settle a.stop (settlement a.cancelled r) c)
]

-- `none` while the worker runs, or with no command.
unfoldable pub end_execute : Commands → Option (Settlement × Commands)
unfolding settlement
end_execute c = elim c.active [ none ↦ none | some a ↦ end_active a c ]

-- What `close` raises after its await; `other` is the outcome of the worker that it has waited for.
unfoldable pub end_close : Option WorkerResult → Bool → Commands → Option Settlement
unfolding settlement
end_close none interrupted c = elim c.failure [ none ↦ none | some e ↦ some (raised e) ]
end_close (some (err e)) interrupted c = some (raised e)
end_close (some (ok result)) true c = some (command_cancelled result)
end_close (some (ok result)) false c = elim c.failure [ none ↦ none | some e ↦ some (raised e) ]
