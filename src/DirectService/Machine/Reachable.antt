-- ===== src/DirectService/Machine/Reachable.antt =====
-- What holds in every state that the service reaches.
use acp_proxy.Prelude.{
  suc, subst, ◌≤◌, String, pos, ◌≡◌, refl, ◌∙◌, Bool, true, false, ap, ok, ◌⊎◌, some, length, arith,
}
use acp_proxy.Prelude.Dict.{lookup, modify}
use acp_proxy.DirectState.{prompt, terminal, OperationRecord}
use acp_proxy.DirectProtocol.{Platform, DirectLimits}
use acp_proxy.DirectService.State.{Service, direct_service, new_generation, Task}
use acp_proxy.DirectService.Machine.Fits.{fits, work_kind}
use acp_proxy.DirectService.Settle.{release_prompt_reservation}
use acp_proxy.DirectService.Settle as SettleModule
use acp_proxy.DirectService.Tasks.{prompt_start}
use acp_proxy.DirectService.Evidence.{PromptResult}
use acp_proxy.DirectService.Accounts.{outstanding, release-Accounts}
use acp_proxy.DirectService.Touches.{Touches-refl}
use acp_proxy.DirectService.Machine.{
  interruptible, Step, creates, prompts, cancels, retires, collector_ends, starts_prompt, times_out,
  collects, sends_deadline, collects_late, grace_ends, finishes_prompt, starts_cancel, sends_cancel,
  settles_cancel, starts_retire, settles_retire, loses, cleanup_ends, leaves_quarantine,
  is_cancelled, never_starts, Reach, here, next,
}
use acp_proxy.DirectService.Machine.Ok.{Ok, Later-refl, Later-trans, Progress}
use acp_proxy.DirectService.Machine.Ends.{plain-Progress}
use acp_proxy.DirectService.Machine.Loss.{outside-Progress}
use acp_proxy.DirectService.Machine.PromptSteps.{
  started-Progress, timeout-Progress, sent-Progress, grace-Progress,
}
use acp_proxy.DirectService.Machine.PromptEnds.{
  prompt_collected-Progress, deadline_collected-Progress, prompt_finish-Progress,
}
use acp_proxy.DirectService.Machine.OtherSteps.{
  cancel_start-Progress, cancel_sent-Progress, cancel_settled-Progress, retire_start-Progress,
  retire_settled-Progress, never_starts-Progress, cancelled_task-Progress, quarantine_end-Progress,
}
use acp_proxy.DirectService.Machine.ClosingSteps.{end_loss-Progress}
use acp_proxy.DirectService.Machine.AdmitCreate.{admit_create-Progress}
use acp_proxy.DirectService.Machine.AdmitPrompt.{admit_prompt-Progress}
use acp_proxy.DirectService.Machine.AdmitCancel.{admit_cancel-Progress}
use acp_proxy.DirectService.Machine.AdmitRetire.{admit_retire-Progress}

module _ (p : Platform) (valid : PromptResult → Bool) where
  Step-Progress : (s t : Service) → Ok s → Step p valid s t → Progress s t
  unfolding Touches-refl prompt_start
  Step-Progress s t good (creates n r) = admit_create-Progress p n r s good
  Step-Progress s t good (prompts n sid r) = admit_prompt-Progress p n sid r s good
  Step-Progress s t good (cancels n r) = admit_cancel-Progress p n r s good
  Step-Progress s t good (retires n r) = admit_retire-Progress p n r s good
  Step-Progress s t good (collector_ends id c e) =
      plain-Progress id s s.admitted (Touches-refl id s.admitted) (modify id (λ _. c) s.collectors)
        good (λ u r eu er f. f)
  Step-Progress s t good (starts_prompt id sid uuid r b at) =
      started-Progress id s good (SettleModule.start id s) uuid sid r b refl at.found
  Step-Progress s t good (times_out id sid r b at) = timeout-Progress id s good sid r b at.found
  Step-Progress s t good (collects id sid uuid r b c at e d) =
      prompt_collected-Progress id s good p valid sid uuid r c
  Step-Progress s t good (sends_deadline id sid uuid r b sent at) =
      sent-Progress id s good sent uuid sid r b at.found
  Step-Progress s t good (collects_late id sid uuid r b c at e d) =
      deadline_collected-Progress id s good p valid sid uuid r c
  Step-Progress s t good (grace_ends id sid uuid r b at) = grace-Progress id s good uuid
  Step-Progress s t good (finishes_prompt id sid r b c at) =
      prompt_finish-Progress id s good sid b c r at.found
  Step-Progress s t good (starts_cancel id target sid b at) =
      cancel_start-Progress id s good target sid b at.found
  Step-Progress s t good (sends_cancel id target sid uuid b sent at) =
      cancel_sent-Progress id s good target sid b sent uuid at.found
  Step-Progress s t good (settles_cancel id target sid uuid b done at e) =
      cancel_settled-Progress id s good target sid b done uuid
  Step-Progress s t good (starts_retire id sid uuid b binding at) =
      retire_start-Progress id s good sid uuid b binding at.found
  Step-Progress s t good (settles_retire id sid uuid b done binding at) =
      retire_settled-Progress id s good done sid uuid binding
  Step-Progress s t good (loses uuid) = outside-Progress uuid s good
  Step-Progress s t good (cleanup_ends n failed j) = end_loss-Progress p n s failed good
  Step-Progress s t good (leaves_quarantine n id uuid w q b c at e) =
      quarantine_end-Progress p n id uuid s good w q b c at.found
  Step-Progress s t good (is_cancelled id w point b at i) =
      cancelled_task-Progress id s good w point
  Step-Progress s t good (never_starts id w b at) = never_starts-Progress id s good

  Reach-Progress : (s t : Service) → Ok s → Reach p valid s t → Progress s t
  Reach-Progress s t good here = record {
    kept = refl;
    later = Later-refl s.admitted.ledger.records;
    ok = good;
  }
  Reach-Progress s t good (next {t = u} r k) =
      let before = Reach-Progress s u good r in
      let last = Step-Progress u t before.ok k in
      record {
        kept = last.kept ∙ before.kept;
        later = Later-trans before.later last.later;
        ok = last.ok;
      }

  initial-Ok :
      (workspace generation_id : String) (limits : DirectLimits)
      → Ok (direct_service workspace limits generation_id)
  unfolding direct_service new_generation lookup outstanding
  initial-Ok workspace generation_id limits = record {
    fit = record { at = λ id t e. absurd cc };
    rest = record {
      closed = λ c. absurd cc;
      accounts = record { unique = tt; counted = refl; known = λ id m. absurd cc };
      named = λ id r e. absurd cc;
      bound = refl;
      ledger_fits = omega arith;
      sessions_fit = omega arith;
      queue_fits = omega arith;
    };
  }

  module _ (workspace generation_id : String) (limits : DirectLimits) (s : Service)
      (reach : Reach p valid (direct_service workspace limits generation_id) s) where
    Reach-Ok : Ok s
    Reach-Ok =
        (Reach-Progress (direct_service workspace limits generation_id) s
          (initial-Ok workspace generation_id limits) reach).ok

    -- An operation that has settled in a reachable state keeps its state, result and error in every
    -- state that is reached from it, whatever the requests, tasks, cancellations and losses between.
    pub Reach-settled :
        (t : Service) (id : String) (r : OperationRecord)
        → Reach p valid s t
        → lookup id s.admitted.ledger.records ≡ some r
        → terminal r.state ≡ true
        → lookup id t.admitted.ledger.records ≡ some r
    Reach-settled t id r more there done =
        let (r', there', later) = (Reach-Progress s t Reach-Ok more).later.at id r there in
        there' ∙ ap some (later.settled_stays done)

    -- In every reachable state the counter of prompt reservations is the number of prompts in the
    -- ledger that have not released theirs, and the release of any prompt of the ledger raises nothing.
    pub Reach-reservations :
        (s.admitted.prompt_reservations
          ≡ pos (outstanding s.admitted.released_reservations s.admitted.ledger.records))
        × ((id : String) (r : OperationRecord)
            → lookup id s.admitted.ledger.records ≡ some r
            → r.kind ≡ prompt
            → (release_prompt_reservation id s.admitted).0 ≡ ok tt)
    Reach-reservations = (
      Reach-Ok.accounts.counted,
      λ id r e k. (release-Accounts id s.admitted r Reach-Ok.accounts e (ground arith)).0,
    )

    -- In every reachable state the sessions, the operations and the prompts that hold a reservation are
    -- within the limits, where one prompt may run besides those that are queued.
    pub Reach-bounds :
        (length s.admitted.sessions ≤ limits.max_sessions)
        × (length s.admitted.ledger.records ≤ limits.max_operations)
        × (outstanding s.admitted.released_reservations s.admitted.ledger.records
            ≤ suc limits.max_queued_prompts)
    unfolding direct_service
    Reach-bounds =
        let all =
          Reach-Progress (direct_service workspace limits generation_id) s
            (initial-Ok workspace generation_id limits) reach in
        subst
          (λ l.
            (length s.admitted.sessions ≤ l.max_sessions)
            × (length s.admitted.ledger.records ≤ l.max_operations)
            × (outstanding s.admitted.released_reservations s.admitted.ledger.records
                ≤ suc l.max_queued_prompts))
          all.kept (all.ok.sessions_fit, all.ok.ledger_fits, all.ok.queue_fits)

    -- In every reachable state after the loss of the generation, a task is cancelled or stands in its
    -- quarantine or its `finally`; and every task, before and after, has an operation of its kind.
    pub Reach-tasks :
        (id : String) (t : Task)
        → lookup id s.admitted.execution_tasks ≡ some t
        → ((r : OperationRecord) × (lookup id s.admitted.ledger.records ≡ some r)
            × (work_kind t.work r.kind ≡ true))
          × (s.available ≡ false → (t.cancelled ≡ true) ⊎ (interruptible t.point ≡ false))
    Reach-tasks id t e =
        let (r, er, f) = Reach-Ok.fit.at id t e in
        ((r, er, ground arith), λ gone. idle_or_cancelled t r (ground arith))
      where
        idle_or_cancelled :
            (t : Task) (r : OperationRecord)
            → fits false t r ≡ true
            → (t.cancelled ≡ true) ⊎ (interruptible t.point ≡ false)
        idle_or_cancelled t r f = ground arith
