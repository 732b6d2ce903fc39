-- ===== src/DirectService/Machine/OtherSteps.antt =====
-- The steps of cancellations, retirements, quarantines and cancelled tasks keep the invariant of the
-- machine.
use acp_proxy.Prelude.{
  String, ◌≡◌, Bool, true, false, Option, none, some, [], ◌∷◌, Result, ok, err, arith,
}
use acp_proxy.Prelude.Dict.{lookup}
use acp_proxy.DirectState.{DirectError, non_reusable, running}
use acp_proxy.DirectProtocol.{Platform}
use acp_proxy.NativeTypes.{NativeBinding}
use acp_proxy.DirectService.State.{
  NativeView, Work, execute_prompt, execute_cancel, execute_retire, Quarantine, Point, scheduled,
  collecting, deadline_sending, deadline_waiting, cancel_sending, cancel_waiting, native_retiring,
  quarantining, finishing, Generation, Service, on_admitted, at_point, require_current_generation,
}
use acp_proxy.DirectService.Settle.{end_deadline}
use acp_proxy.DirectService.Cancel.{
  start_cancel, end_cancel, spoil_session, cancel_unsettled, cancel_failed,
}
use acp_proxy.DirectService.Cancel.Touched.{end_cancel-Touches}
use acp_proxy.DirectService.Retire.{start_retire, end_retire, retire_unsettled, finish_retire}
use acp_proxy.DirectService.Retire.Touched.{end_retire-Touches, finish_retire-Touches}
use acp_proxy.DirectService.Quarantine.{settle_deferred}
use acp_proxy.DirectService.Tasks.{
  pop, put, drop, cancel_start, cancel_sent, cancel_settled, retire_start, retire_returned,
  retire_settled, leave_quarantine, quarantine_end, is_err, cancelled_task,
}
use acp_proxy.DirectService.Touches.{Touches, Touches-refl, Touches-session, Touches-set_state}
use acp_proxy.DirectService.Machine.Ok.{Ok, Progress, Progress-trans}
use acp_proxy.DirectService.Machine.Ends.{moves-Progress, finishing-Progress, drops-Progress}
use acp_proxy.DirectService.Machine.Loss.{quarantine-Progress}
use acp_proxy.DirectService.Machine.PromptSteps.{spoiled-Touches, popped-Touches}
use acp_proxy.DirectService.Machine.ClosingSteps.{settle_deferred-Progress}

spoil-Touches : (id sid : String) (g : Generation) → Touches id g (spoil_session sid g)
unfolding spoil_session
spoil-Touches id sid g =
    Touches-session id sid (λ d. record d { state = non_reusable }) g g (Touches-refl id g)

-- A task that is not cancelled, at a point.
abbrev WorkAt : Service → String → Work → Point → Bool → Type 0
WorkAt s id w point b =
    lookup id s.admitted.execution_tasks
    ≡ some (record { work = w; point = point; dispatched = b; cancelled = false })

module _ (id : String) (s : Service) (good : Ok s) where
  module _ (target sid : String) (b : Bool) where
    pub cancel_start-Progress :
        WorkAt s id (execute_cancel target sid) scheduled b → Progress s (cancel_start id s)
    unfolding cancel_start start_cancel Touches-set_state
    cancel_start-Progress e =
        moves-Progress id s (start_cancel id s.admitted)
          (Touches-set_state id running s.admitted
            (λ r er. let (r', er', f) = good.fit.at id _ e in ground arith))
          s.collectors good (at_point cancel_sending) (λ t r et er f. ground arith)

    pub cancel_sent-Progress :
        (sent : Bool) (uuid : String)
        → WorkAt s id (execute_cancel target sid) cancel_sending b
        → Progress s (cancel_sent sent id target sid uuid s)
    unfolding cancel_sent Touches-refl
    cancel_sent-Progress true uuid e =
        moves-Progress id s s.admitted (Touches-refl id s.admitted) s.collectors good
          (at_point cancel_waiting) (λ t r et er f. ground arith)
    cancel_sent-Progress false uuid e =
        quarantine-Progress id s (spoil_session sid s.admitted) (spoil-Touches id sid s.admitted)
          (cancel_failed id target) false uuid good

    pub cancel_settled-Progress :
        (done : Bool) (uuid : String) → Progress s (cancel_settled done id target sid uuid s)
    unfolding cancel_settled
    cancel_settled-Progress true uuid =
        drops-Progress id s (end_cancel id target s.admitted)
          (end_cancel-Touches id target s.admitted) s.collectors good
    cancel_settled-Progress false uuid =
        quarantine-Progress id s (spoil_session sid s.admitted) (spoil-Touches id sid s.admitted)
          (cancel_unsettled id target) true uuid good

  pub retire_start-Progress :
      (sid uuid : String) (b : Bool) (binding : Option NativeBinding)
      → WorkAt s id (execute_retire sid) scheduled b
      → Progress s (retire_start id binding uuid s)
  unfolding retire_start start_retire Touches-set_state
  retire_start-Progress sid uuid b binding e = start binding
    where
      begun : Touches id s.admitted (start_retire id s.admitted)
      begun =
          Touches-set_state id running s.admitted
            (λ r er. let (r', er', f) = good.fit.at id _ e in ground arith)

      start : (o : Option NativeBinding) → Progress s (retire_start id o uuid s)
      start none =
          quarantine-Progress id s (start_retire id s.admitted) begun (retire_unsettled id ∷ [])
            false uuid good
      start (some n) =
          moves-Progress id s (start_retire id s.admitted) begun s.collectors good
            (at_point (native_retiring n)) (λ t r et er f. ground arith)

  retire_returned-Progress :
      (x : Result DirectError (Unit {0})) (sid uuid : String) (n : NativeBinding)
      → Progress s (retire_returned x id sid n uuid s)
  unfolding retire_returned
  retire_returned-Progress (err x) sid uuid n =
      quarantine-Progress id s s.admitted (Touches-refl id s.admitted) (retire_unsettled id ∷ [])
        false uuid good
  retire_returned-Progress (ok x) sid uuid n =
      drops-Progress id s (finish_retire id sid (end_retire id sid n s.admitted))
        (finish_retire-Touches id sid s.admitted (end_retire id sid n s.admitted)
          (end_retire-Touches id sid s.admitted s.admitted (Touches-refl id s.admitted) n))
        s.collectors good

  pub retire_settled-Progress :
      (done : Bool) (sid uuid : String) (n : NativeBinding)
      → Progress s (retire_settled done id sid n uuid s)
  unfolding retire_settled
  retire_settled-Progress true sid uuid n =
      retire_returned-Progress (require_current_generation s) sid uuid n
  retire_settled-Progress false sid uuid n =
      quarantine-Progress id s s.admitted (Touches-refl id s.admitted) (retire_unsettled id ∷ [])
        false uuid good

  pub never_starts-Progress : Progress s (drop id s)
  never_starts-Progress =
      drops-Progress id s s.admitted (Touches-refl id s.admitted) s.collectors good

  finished-Progress : (sid : String) → Progress s (drop id (on_admitted (finish_retire id sid) s))
  finished-Progress sid =
      drops-Progress id s (finish_retire id sid s.admitted)
        (finish_retire-Touches id sid s.admitted s.admitted (Touches-refl id s.admitted))
        s.collectors good

  leave_quarantine-Progress :
      (w : Work) (inner broke : Bool) (uuid : String)
      → Progress s (leave_quarantine id w inner broke uuid s)
  unfolding leave_quarantine
  leave_quarantine-Progress (execute_prompt sid r) true broke uuid =
      finishing-Progress id s (end_deadline id sid s.admitted)
        (spoiled-Touches id sid s.admitted s.admitted (Touches-refl id s.admitted)) s.collectors
        good
  leave_quarantine-Progress (execute_prompt sid r) false broke uuid =
      finishing-Progress id s s.admitted (Touches-refl id s.admitted) s.collectors good
  leave_quarantine-Progress (execute_cancel target sid) true true uuid =
      quarantine-Progress id s (spoil_session sid s.admitted) (spoil-Touches id sid s.admitted)
        (cancel_failed id target) false uuid good
  leave_quarantine-Progress (execute_cancel target sid) true false uuid =
      drops-Progress id s (end_cancel id target s.admitted)
        (end_cancel-Touches id target s.admitted) s.collectors good
  leave_quarantine-Progress (execute_cancel target sid) false broke uuid = never_starts-Progress
  leave_quarantine-Progress (execute_retire sid) inner broke uuid = finished-Progress sid

  -- A cancellation reaches a task.
  cancelled_prompt-Progress :
      (sid : String)
      → Progress s (put id finishing (on_admitted (λ g. end_deadline id sid (pop id g)) s))
  cancelled_prompt-Progress sid =
      finishing-Progress id s (end_deadline id sid (pop id s.admitted))
        (spoiled-Touches id sid s.admitted (pop id s.admitted) (popped-Touches id s.admitted))
        s.collectors good

  ends-Progress : Progress s (put id finishing s)
  ends-Progress = finishing-Progress id s s.admitted (Touches-refl id s.admitted) s.collectors good

  pub cancelled_task-Progress :
      (w : Work) (point : Point) → Progress s (cancelled_task id w point s)
  unfolding cancelled_task
  cancelled_task-Progress (execute_prompt sid r) deadline_waiting = cancelled_prompt-Progress sid
  cancelled_task-Progress (execute_prompt sid r) scheduled = ends-Progress
  cancelled_task-Progress (execute_prompt sid r) collecting = ends-Progress
  cancelled_task-Progress (execute_prompt sid r) deadline_sending = ends-Progress
  cancelled_task-Progress (execute_prompt sid r) cancel_sending = ends-Progress
  cancelled_task-Progress (execute_prompt sid r) cancel_waiting = ends-Progress
  cancelled_task-Progress (execute_prompt sid r) (native_retiring b) = ends-Progress
  cancelled_task-Progress (execute_prompt sid r) (quarantining q) = ends-Progress
  cancelled_task-Progress (execute_prompt sid r) finishing = ends-Progress
  cancelled_task-Progress (execute_cancel target sid) point = never_starts-Progress
  cancelled_task-Progress (execute_retire sid) (native_retiring b) = finished-Progress sid
  cancelled_task-Progress (execute_retire sid) scheduled = never_starts-Progress
  cancelled_task-Progress (execute_retire sid) collecting = never_starts-Progress
  cancelled_task-Progress (execute_retire sid) deadline_sending = never_starts-Progress
  cancelled_task-Progress (execute_retire sid) deadline_waiting = never_starts-Progress
  cancelled_task-Progress (execute_retire sid) cancel_sending = never_starts-Progress
  cancelled_task-Progress (execute_retire sid) cancel_waiting = never_starts-Progress
  cancelled_task-Progress (execute_retire sid) (quarantining q) = never_starts-Progress
  cancelled_task-Progress (execute_retire sid) finishing = never_starts-Progress

pub quarantine_end-Progress :
    (p : Platform) (n : NativeView) (id uuid : String) (s : Service) (good : Ok s) (w : Work)
    (q : Quarantine) (b c : Bool)
    → lookup id s.admitted.execution_tasks
      ≡ some (record { work = w; point = quarantining q; dispatched = b; cancelled = c })
    → Progress s (quarantine_end p n id w q uuid s)
unfolding quarantine_end
quarantine_end-Progress p n id uuid s good w q b c e =
    let (r, er, f) = good.fit.at id _ e in
    let t = (settle_deferred p n q.settlements q.old q.collectors s).1 in
    let broke = is_err (settle_deferred p n q.settlements q.old q.collectors s).0 in
    let first =
      settle_deferred-Progress p n q.settlements q.old q.collectors s (ground arith) good in
    Progress-trans s t (leave_quarantine id w q.inner broke uuid t) first
      (leave_quarantine-Progress id t first.ok w q.inner broke uuid)
