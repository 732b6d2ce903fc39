-- ===== src/DirectService/Tasks.antt =====
-- What each task of the service does between two awaits, by the coroutines `_execute_prompt`,
-- `_settle_deadline`, `_execute_cancel`, `_execute_retire` and `_quarantine_uncertain` of
-- direct_service.py.
use acp_proxy.Prelude.{
  String, Bool, true, false, not, Option, none, some, is_some, List, [], ◌∷◌, map, Result, ok, err,
  ◌==◌, if◌then◌else◌,
}
use acp_proxy.Prelude.Dict.{lookup, insert, remove}
use acp_proxy.Json.{JsonObject}
use acp_proxy.DirectState.{DirectError, cancelling, in_doubt, OperationRecord, DirectSession}
use acp_proxy.DirectProtocol.{Platform, PromptRequest}
use acp_proxy.NativeTypes.{NativeBinding, NativeObservation, NativeTerminal}
use acp_proxy.DirectService.State.{
  NativeView, Collector, pending, returned, unsettled, raised, collector_cancelled, Deferred, Work,
  execute_prompt, execute_cancel, execute_retire, Quarantine, Point, collecting, deadline_sending,
  deadline_waiting, cancel_sending, cancel_waiting, native_retiring, quarantining, finishing,
  Generation, Service, current, require_current_generation, on_admitted, on_record, on_task,
  at_point, set_state,
}
use acp_proxy.DirectService.Evidence.{PromptResult, retained_evidence}
use acp_proxy.DirectService.Settle as SettleModule
use acp_proxy.DirectService.Settle.{
  Outcome, settles, raises, quarantines, Settlement, Start, already_settled, generation_changed,
  dispatches, dispatch, deferred, settle_terminal, settle_deadline, deadline_unsettled,
  end_deadline, finish_prompt,
}
use acp_proxy.DirectService.Cancel.{
  start_cancel, end_cancel, spoil_session, cancel_unsettled, cancel_failed,
}
use acp_proxy.DirectService.Retire.{start_retire, end_retire, retire_unsettled, finish_retire}
use acp_proxy.DirectService.Quarantine.{begin_loss, settle_deferred}

abbrev pub put : String → Point → Service → Service
put id point = on_admitted (on_task id (at_point point))

-- The callback of a task that is done.
unfoldable pub drop : String → Service → Service
unfolding remove
drop id = on_admitted (λ g. record g { execution_tasks = remove id g.execution_tasks })

-- `_quarantine_uncertain` until its first await; `uuid` names the generation that replaces this one.
unfoldable pub enter_quarantine : String → List Deferred → Bool → String → Service → Service
unfolding begin_loss
enter_quarantine id settlements inner uuid s =
    let q : Quarantine = record {
      settlements = settlements;
      old = not (is_some s.fresh);
      collectors = (current s).collector_tasks;
      inner = inner;
    } in
    begin_loss (some id) (map (λ d. d.operation_id) settlements) uuid (put id (quarantining q) s)

-- The settlement of the two `except` clauses of `_execute_prompt`.
unfoldable pub prompt_in_doubt : String → Option JsonObject → Deferred
prompt_in_doubt id result =
    deferred id in_doubt result "prompt_in_doubt" "native prompt outcome is uncertain"

abbrev pub discard : String → List String → List String
discard id [] = []
discard id (x ∷ xs) = let rest = discard id xs in if x == id then rest else x ∷ rest

-- generation.collector_tasks.pop(id, None)
abbrev pub pop : String → Generation → Generation
pop id g = record g { collector_tasks = discard id g.collector_tasks }

abbrev pub is_done : Option Collector → Bool
is_done none = false
is_done (some pending) = false
is_done (some _) = true

-- if collector.done(): collector_tasks.pop(id, None)
abbrev pub pop_done : String → Service → Service
pop_done id s = if is_done (lookup id s.collectors) then on_admitted (pop id) s else s

-- What a prompt's task does with the prompt lock.
unfoldable pub prompt_started : Start → String → String → Service → Service
unfolding dispatch enter_quarantine prompt_in_doubt
prompt_started already_settled id uuid s = put id finishing s
prompt_started generation_changed id uuid s =
    enter_quarantine id (prompt_in_doubt id none ∷ []) false uuid s
prompt_started dispatches id uuid s =
    record (on_admitted
      (λ g. on_task id (λ t. record t { point = collecting; dispatched = true }) (dispatch id g))
      s) { collectors = insert id pending s.collectors }

-- The prompt lock is taken.
unfoldable pub prompt_start : String → String → Service → Service
unfolding SettleModule.start prompt_started
prompt_start id uuid s = prompt_started (SettleModule.start id s) id uuid s

-- `execution_timeout_s` has passed.
unfoldable pub prompt_timeout : String → Service → Service
prompt_timeout id s = put id deadline_sending (on_admitted (on_record id (set_state cancelling)) s)

-- After a settlement in `_execute_prompt` itself.
unfoldable pub after_terminal : String → String → Settlement → Service → Service
unfolding enter_quarantine prompt_in_doubt
after_terminal id uuid (settles, g) s = put id finishing (record s { admitted = g })
after_terminal id uuid (raises e, g) s =
    enter_quarantine id (prompt_in_doubt id none ∷ []) false uuid (record s { admitted = g })
after_terminal id uuid (quarantines d, g) s =
    enter_quarantine id (d ∷ []) false uuid (record s { admitted = g })

-- After one in `_settle_deadline`, whose `finally` waits for a quarantine.
unfoldable pub after_deadline : String → String → String → Settlement → Service → Service
unfolding enter_quarantine prompt_in_doubt end_deadline
after_deadline id sid uuid (settles, g) s =
    put id finishing (record s { admitted = end_deadline id sid g })
after_deadline id sid uuid (raises e, g) s =
    enter_quarantine id (prompt_in_doubt id none ∷ []) false uuid
      (record s { admitted = end_deadline id sid g })
after_deadline id sid uuid (quarantines d, g) s =
    enter_quarantine id (d ∷ []) true uuid (record s { admitted = g })

-- The objects that a prompt's task holds: it does `k` with them.
unfoldable pub with_objects :
    Option OperationRecord
    → Option DirectSession
    → String
    → (OperationRecord → DirectSession → Service → Service)
    → Service
    → Service
with_objects (some r) (some d) id k s = k r d s
with_objects _ _ id k s = put id finishing s

abbrev pub with_prompt :
    String → String → (OperationRecord → DirectSession → Service → Service) → Service → Service
with_prompt id sid k s =
    with_objects (lookup id s.admitted.ledger.records) (lookup sid s.admitted.sessions) id k s

-- `except NativeUnsettledError` of `_execute_prompt`, once the evidence is built.
unfoldable pub unsettled_with : Result DirectError JsonObject → String → String → Service → Service
unfolding enter_quarantine prompt_in_doubt
unsettled_with (err e) id uuid s = put id finishing s
unsettled_with (ok evidence) id uuid s =
    enter_quarantine id (prompt_in_doubt id (some evidence) ∷ []) false uuid s

module _ (p : Platform) (valid : PromptResult → Bool) where
  unfoldable pub prompt_unsettled :
      String → PromptRequest → DirectSession → NativeObservation → String → Service → Service
  unfolding retained_evidence unsettled_with
  prompt_unsettled id request d o uuid s =
      unsettled_with (retained_evidence p d request.invocation_id s.admitted.generation_id o) id
        uuid s

  -- The terminal of a prompt, if its generation is still current.
  unfoldable pub returned_terminal :
      Result DirectError (Unit {0})
      → String
      → PromptRequest
      → NativeTerminal
      → String
      → OperationRecord
      → DirectSession
      → Service
      → Service
  unfolding after_terminal settle_terminal enter_quarantine prompt_in_doubt
  returned_terminal (err e) id request t uuid r d s =
      enter_quarantine id (prompt_in_doubt id none ∷ []) false uuid s
  returned_terminal (ok _) id request t uuid r d s =
      after_terminal id uuid (settle_terminal p valid id r d request t s.admitted) s

  -- The collector of a prompt has ended.
  unfoldable pub collected :
      String
      → PromptRequest
      → Collector
      → String
      → OperationRecord
      → DirectSession
      → Service
      → Service
  unfolding prompt_unsettled returned_terminal require_current_generation enter_quarantine
      prompt_in_doubt
  collected id request pending uuid r d s = s
  collected id request (returned t) uuid r d s =
      returned_terminal (require_current_generation s) id request t uuid r d s
  collected id request (unsettled o) uuid r d s = prompt_unsettled id request d o uuid s
  collected id request raised uuid r d s =
      enter_quarantine id (prompt_in_doubt id none ∷ []) false uuid s
  collected id request collector_cancelled uuid r d s = put id finishing s

  unfoldable pub prompt_collected :
      String → String → PromptRequest → Collector → String → Service → Service
  unfolding collected
  prompt_collected id sid request c uuid s =
      with_prompt id sid (collected id request c uuid) (on_admitted (pop id) s)

  -- The collector has ended within the grace of a deadline.
  unfoldable pub deadline_ended :
      String
      → String
      → PromptRequest
      → Collector
      → String
      → OperationRecord
      → DirectSession
      → Service
      → Service
  unfolding prompt_unsettled after_deadline settle_deadline end_deadline enter_quarantine
      prompt_in_doubt
  deadline_ended id sid request pending uuid r d s = s
  deadline_ended id sid request (returned t) uuid r d s =
      after_deadline id sid uuid (settle_deadline p valid id d request t s.admitted) s
  deadline_ended id sid request (unsettled o) uuid r d s =
      prompt_unsettled id request d o uuid (on_admitted (end_deadline id sid) s)
  deadline_ended id sid request raised uuid r d s =
      enter_quarantine id (prompt_in_doubt id none ∷ []) false uuid
        (on_admitted (end_deadline id sid) s)
  deadline_ended id sid request collector_cancelled uuid r d s =
      put id finishing (on_admitted (end_deadline id sid) s)

  unfoldable pub deadline_collected :
      String → String → PromptRequest → Collector → String → Service → Service
  unfolding deadline_ended
  deadline_collected id sid request c uuid s =
      with_prompt id sid (deadline_ended id sid request c uuid) (on_admitted (pop id) s)

-- The cancellation of a deadline has been sent, or has failed.
unfoldable pub deadline_sent : Bool → String → String → Service → Service
unfolding enter_quarantine prompt_in_doubt
deadline_sent true id uuid s = put id deadline_waiting s
deadline_sent false id uuid s =
    enter_quarantine id (prompt_in_doubt id none ∷ []) false uuid (pop_done id s)

-- The grace of a deadline has passed.
unfoldable pub deadline_grace_over : String → String → Service → Service
unfolding enter_quarantine deadline_unsettled
deadline_grace_over id uuid s = enter_quarantine id (deadline_unsettled id ∷ []) true uuid s

-- The end of a prompt's task. Whatever its release raises, the task is done.
unfoldable pub prompt_finish : String → String → Bool → Service → Service
unfolding finish_prompt drop
prompt_finish id sid dispatched s =
    drop id (on_admitted (λ g. (finish_prompt id sid dispatched g).1) s)

-- `_execute_cancel` starts, and sends its notification.
unfoldable pub cancel_start : String → Service → Service
unfolding start_cancel
cancel_start id s = put id cancel_sending (on_admitted (start_cancel id) s)

unfoldable pub cancel_sent : Bool → String → String → String → String → Service → Service
unfolding enter_quarantine spoil_session cancel_failed
cancel_sent true id target sid uuid s = put id cancel_waiting s
cancel_sent false id target sid uuid s =
    enter_quarantine id (cancel_failed id target) false uuid (on_admitted (spoil_session sid) s)

-- The target of a cancellation has settled, or its grace has passed.
unfoldable pub cancel_settled : Bool → String → String → String → String → Service → Service
unfolding enter_quarantine spoil_session cancel_unsettled end_cancel drop
cancel_settled true id target sid uuid s = drop id (on_admitted (end_cancel id target) s)
cancel_settled false id target sid uuid s =
    enter_quarantine id (cancel_unsettled id target) true uuid (on_admitted (spoil_session sid) s)

-- `_execute_retire` starts, with the binding that it reads.
unfoldable pub retire_start : String → Option NativeBinding → String → Service → Service
unfolding start_retire enter_quarantine retire_unsettled
retire_start id none uuid s =
    enter_quarantine id (retire_unsettled id ∷ []) false uuid (on_admitted (start_retire id) s)
retire_start id (some b) uuid s = put id (native_retiring b) (on_admitted (start_retire id) s)

-- The native client has retired the session: if the generation is still current, it is done.
unfoldable pub retire_returned :
    Result DirectError (Unit {0}) → String → String → NativeBinding → String → Service → Service
unfolding end_retire finish_retire drop enter_quarantine retire_unsettled
retire_returned (err e) id sid b uuid s =
    enter_quarantine id (retire_unsettled id ∷ []) false uuid s
retire_returned (ok _) id sid b uuid s =
    drop id (on_admitted (λ g. finish_retire id sid (end_retire id sid b g)) s)

-- The native client has retired the session, or has failed to.
unfoldable pub retire_settled : Bool → String → String → NativeBinding → String → Service → Service
unfolding require_current_generation retire_returned enter_quarantine retire_unsettled
retire_settled false id sid b uuid s = enter_quarantine id (retire_unsettled id ∷ []) false uuid s
retire_settled true id sid b uuid s = retire_returned (require_current_generation s) id sid b uuid s

-- A task leaves its quarantine: what its coroutine still does.
unfoldable pub leave_quarantine : String → Work → Bool → Bool → String → Service → Service
unfolding end_deadline end_cancel finish_retire drop enter_quarantine spoil_session cancel_failed
leave_quarantine id (execute_prompt sid request) inner broke uuid s =
    put id finishing (if inner then on_admitted (end_deadline id sid) s else s)
leave_quarantine id (execute_cancel target sid) true true uuid s =
    enter_quarantine id (cancel_failed id target) false uuid (on_admitted (spoil_session sid) s)
leave_quarantine id (execute_cancel target sid) true false uuid s =
    drop id (on_admitted (end_cancel id target) s)
leave_quarantine id (execute_cancel target sid) false broke uuid s = drop id s
leave_quarantine id (execute_retire sid) inner broke uuid s =
    drop id (on_admitted (finish_retire id sid) s)

abbrev pub is_err {ℓ} : {A : Type ℓ} → Result DirectError A → Bool
is_err (ok a) = false
is_err (err e) = true

module _ (p : Platform) (n : NativeView) where
  unfoldable pub quarantine_end : String → Work → Quarantine → String → Service → Service
  unfolding settle_deferred leave_quarantine
  quarantine_end id work q uuid s =
      let (r, t) = settle_deferred p n q.settlements q.old q.collectors s in
      leave_quarantine id work q.inner (is_err r) uuid t

-- `CancelledError` reaches a task that the closing of the generation has cancelled.
unfoldable pub cancelled_task : String → Work → Point → Service → Service
unfolding end_deadline finish_retire drop
cancelled_task id (execute_prompt sid request) deadline_waiting s =
    put id finishing (on_admitted (λ g. end_deadline id sid (pop id g)) s)
cancelled_task id (execute_prompt sid request) _ s = put id finishing s
cancelled_task id (execute_cancel target sid) _ s = drop id s
cancelled_task id (execute_retire sid) (native_retiring b) s =
    drop id (on_admitted (finish_retire id sid) s)
cancelled_task id (execute_retire sid) _ s = drop id s
