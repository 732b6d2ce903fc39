-- ===== src/DirectService/Machine.antt =====
-- The service as a machine: requests, task steps, native events and the closing of the generation, in
-- any order that the event loop may choose. `uuid` is the fresh name of a replacement generation.
pub mod Fits
pub mod Ok
pub mod Ends
pub mod Loss
pub mod PromptSteps
pub mod PromptEnds
pub mod ClosingSteps
pub mod OtherSteps
pub mod Additions
pub mod AdmitCreate
pub mod Reachable
pub mod AdmitPrompt
pub mod AdmitRetire
pub mod AdmitCancel
use acp_proxy.Prelude.{
  String, ◌≡◌, ◌⊎◌, ◌≢◌, Bool, true, false, Option, none, some, List, [], ◌∷◌, ◌&&◌, not,
}
use acp_proxy.Prelude.Dict.{Dict, lookup, modify}
use acp_proxy.DirectState.{OperationRecord}
use acp_proxy.DirectProtocol.{
  Platform, CreateSessionRequest, PromptRequest, CancelRequest, RetireSessionRequest,
}
use acp_proxy.NativeTypes.{NativeBinding}
use acp_proxy.DirectService.State.{
  NativeView, Collector, pending, Work, execute_prompt, execute_cancel, execute_retire, Quarantine,
  Point, scheduled, collecting, deadline_sending, deadline_waiting, cancel_sending, cancel_waiting,
  native_retiring, quarantining, finishing, Task, Service,
}
use acp_proxy.DirectService.Evidence.{PromptResult}
use acp_proxy.DirectService.Create.{admit_create}
use acp_proxy.DirectService.Prompt.{admit_prompt}
use acp_proxy.DirectService.Cancel.{admit_cancel}
use acp_proxy.DirectService.Retire.{admit_retire}
use acp_proxy.DirectService.Quarantine.{begin_loss, end_loss}
use acp_proxy.DirectService.Tasks.{
  drop, prompt_start, prompt_timeout, prompt_collected, deadline_collected, deadline_sent,
  deadline_grace_over, prompt_finish, cancel_start, cancel_sent, cancel_settled, retire_start,
  retire_settled, quarantine_end, cancelled_task,
}

-- A task of the service, at a point.
pub record At (s : Service) (id : String) (work : Work) (point : Point)
    (dispatched cancelled : Bool) : Type 0 where
  pub found :
      lookup id s.admitted.execution_tasks
      ≡ some (record { work = work; point = point; dispatched = dispatched; cancelled = cancelled })

-- `record.done` is set.
abbrev pub is_done : Option OperationRecord → Bool
is_done none = false
is_done (some r) = r.done

-- A quarantine ends by its settlements and a finishing task by its `finally`, cancelled or not.
abbrev pub interruptible : Point → Bool
interruptible (quarantining q) = false
interruptible finishing = false
interruptible _ = true

-- `gather` waits until no cancelled task is left.
abbrev pub joined : Dict Task → Bool
joined [] = true
joined ((id, t) ∷ d) = not t.cancelled && joined d

module _ (p : Platform) (valid : PromptResult → Bool) where
  pub data Step (s : Service) : Service → Type 0 where
    -- Requests.
    creates : (n : NativeView) (r : CreateSessionRequest) → Step s (admit_create p n r s).1
    prompts :
        (n : NativeView) (id : String) (r : PromptRequest) → Step s (admit_prompt p n id r s).1
    cancels : (n : NativeView) (r : CancelRequest) → Step s (admit_cancel p n r s).1
    retires : (n : NativeView) (r : RetireSessionRequest) → Step s (admit_retire p n r s).1
    -- A collector ends, in any way.
    collector_ends :
        (id : String) (c : Collector)
        → lookup id s.collectors ≡ some pending
        → Step s (record s { collectors = modify id (λ _. c) s.collectors })
    -- Tasks of prompts.
    starts_prompt :
        (id sid uuid : String) (r : PromptRequest) (b : Bool)
        → At s id (execute_prompt sid r) scheduled b false
        → Step s (prompt_start id uuid s)
    times_out :
        (id sid : String) (r : PromptRequest) (b : Bool)
        → At s id (execute_prompt sid r) collecting b false
        → Step s (prompt_timeout id s)
    collects :
        (id sid uuid : String) (r : PromptRequest) (b : Bool) (c : Collector)
        → At s id (execute_prompt sid r) collecting b false
        → lookup id s.collectors ≡ some c
        → c ≢ pending
        → Step s (prompt_collected p valid id sid r c uuid s)
    sends_deadline :
        (id sid uuid : String) (r : PromptRequest) (b sent : Bool)
        → At s id (execute_prompt sid r) deadline_sending b false
        → Step s (deadline_sent sent id uuid s)
    collects_late :
        (id sid uuid : String) (r : PromptRequest) (b : Bool) (c : Collector)
        → At s id (execute_prompt sid r) deadline_waiting b false
        → lookup id s.collectors ≡ some c
        → c ≢ pending
        → Step s (deadline_collected p valid id sid r c uuid s)
    grace_ends :
        (id sid uuid : String) (r : PromptRequest) (b : Bool)
        → At s id (execute_prompt sid r) deadline_waiting b false
        → Step s (deadline_grace_over id uuid s)
    finishes_prompt :
        (id sid : String) (r : PromptRequest) (b c : Bool)
        → At s id (execute_prompt sid r) finishing b c
        → Step s (prompt_finish id sid b s)
    -- Tasks of cancellations.
    starts_cancel :
        (id target sid : String) (b : Bool)
        → At s id (execute_cancel target sid) scheduled b false
        → Step s (cancel_start id s)
    sends_cancel :
        (id target sid uuid : String) (b sent : Bool)
        → At s id (execute_cancel target sid) cancel_sending b false
        → Step s (cancel_sent sent id target sid uuid s)
    settles_cancel :
        (id target sid uuid : String) (b done : Bool)
        → At s id (execute_cancel target sid) cancel_waiting b false
        → (done ≡ true → is_done (lookup target s.admitted.ledger.records) ≡ true)
        → Step s (cancel_settled done id target sid uuid s)
    -- Tasks of retirements.
    starts_retire :
        (id sid uuid : String) (b : Bool) (binding : Option NativeBinding)
        → At s id (execute_retire sid) scheduled b false
        → Step s (retire_start id binding uuid s)
    settles_retire :
        (id sid uuid : String) (b done : Bool) (binding : NativeBinding)
        → At s id (execute_retire sid) (native_retiring binding) b false
        → Step s (retire_settled done id sid binding uuid s)
    -- The closing of the generation, for a caller outside the tasks.
    loses : (uuid : String) → Step s (begin_loss none [] uuid s)
    cleanup_ends :
        (n : NativeView) (failed : Bool)
        → joined s.admitted.execution_tasks ≡ true
        → Step s (end_loss p n failed s).1
    leaves_quarantine :
        (n : NativeView) (id uuid : String) (w : Work) (q : Quarantine) (b c : Bool)
        → At s id w (quarantining q) b c
        → (s.closing ≡ none) ⊎ (c ≡ true)
        → Step s (quarantine_end p n id w q uuid s)
    is_cancelled :
        (id : String) (w : Work) (point : Point) (b : Bool)
        → At s id w point b true
        → interruptible point ≡ true
        → Step s (cancelled_task id w point s)
    never_starts :
        (id : String) (w : Work) (b : Bool) → At s id w scheduled b true → Step s (drop id s)

  pub data Reach (s : Service) : Service → Type 0 where
    here : Reach s s
    next : {t u : Service} → Reach s t → Step t u → Reach s u
