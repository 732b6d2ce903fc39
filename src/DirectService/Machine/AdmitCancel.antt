-- ===== src/DirectService/Machine/AdmitCancel.antt =====
-- The admission of a cancellation keeps the invariant of the machine.
use acp_proxy.Prelude.{
  ◌<◌, String, ◌≡◌, refl, sym, subst, Result-cases, true, false, Option, none, some, [], ◌∷◌, ok,
  arith, length, inl, inr, Option-cases, eq_iff,
}
use acp_proxy.Prelude.Dict.{lookup, lookup-insert, lookup-modify}
use acp_proxy.Json.{JsonObject, bool, object}
use acp_proxy.DirectService.Machine.Fits.{is_live, fits}
use acp_proxy.DirectState.{
  cancel, prompt, OperationState, accepted, running, timed_out, in_doubt, queued, cancelling,
  completed, failed, cancelled, ready, OperationRecord, operation_record, terminal, settled,
}
use acp_proxy.DirectState.Ledger.{DirectLedger, Admission, admit}
use acp_proxy.DirectState.Ledger.Laws.{
  Admits, replayed, conflicting, exhausted, added, admit-Admits,
}
use acp_proxy.DirectProtocol.{Platform, CancelRequest}
use acp_proxy.DirectService.State.{
  NativeView, Service, on_admitted, on_record, on_session, schedule, execute_cancel, Task,
  set_state, check_pin, require_current_generation, ensure_available,
}
use acp_proxy.DirectService.Cancel.{
  session_key, cancel_result, state_value, pre_dispatch, cancel_target, cancel_checks,
  cancel_identity, cancel_admitted, admit_cancel,
}
use acp_proxy.DirectService.Settle.{release_prompt_reservation}
use acp_proxy.DirectState.Ledger as LedgerModule
use acp_proxy.DirectService.Accounts.{release-ledger}
use acp_proxy.DirectService.Touches.{
  Touches-refl, Touches-session, Touches-settled, Touches-set_state, kind-settled,
}
use acp_proxy.DirectService.Machine.Ok.{Ok, Progress, Progress-refl, Progress-trans}
use acp_proxy.DirectService.Machine.Ends.{plain-Progress}
use acp_proxy.DirectService.Machine.Additions.{
  Progress-check, with_record, record-Progress, schedule-Progress, release-Progress,
}

-- A cancellation ends at once.
completed-Progress :
    (id : String) (c : OperationRecord) (s : Service)
    → Ok s
    → lookup id s.admitted.ledger.records ≡ some c
    → c.kind ≡ cancel
    → lookup id s.admitted.execution_tasks ≡ none
    → (result : Option JsonObject)
    → Progress s (on_admitted (on_record id (settled completed result none)) s)
completed-Progress id c s good own kind idle result =
    plain-Progress id s (on_record id (settled completed result none) s.admitted)
      (Touches-settled id completed result none s.admitted s.admitted (Touches-refl id s.admitted))
      s.collectors good (λ t r et er f. absurd cc)

-- An operation that is new has no task.
no_task :
    (id : String) (s : Service)
    → Ok s
    → lookup id s.admitted.ledger.records ≡ none
    → lookup id s.admitted.execution_tasks ≡ none
no_task id s good new = elim (Option-cases (lookup id s.admitted.execution_tasks)) [
  | inl absent ↦ absent
  | inr (t, there) ↦ let (r, er, f) = good.fit.at id t there in absurd cc
]

-- A cancellation of which only the record is in the ledger, and its target, a prompt.
module _ (id : String) (target : OperationRecord) (s : Service) (good : Ok s) (c : OperationRecord)
    (own : lookup id s.admitted.ledger.records ≡ some c) (kind : c.kind ≡ cancel)
    (there : lookup target.operation_id s.admitted.ledger.records ≡ some target)
    (is : target.kind ≡ prompt) (idle : lookup id s.admitted.execution_tasks ≡ none) where
  -- It is scheduled, against a target that runs.
  sent-Progress :
      (sid : String)
      → c.state ≡ OperationState.accepted
      → s.available ≡ true
      → terminal target.state ≡ false
      → Progress s (
          on_admitted
            (λ g.
              schedule id
                (execute_cancel target.operation_id sid)
                (on_record target.operation_id (set_state cancelling) g))
            s)
  unfolding Touches-set_state
  sent-Progress sid fresh open_ live =
      let tid = target.operation_id in
      let s1 = on_admitted (on_record tid (set_state cancelling)) s in
      let first =
        plain-Progress tid s s1.admitted
          (Touches-set_state tid cancelling s.admitted (λ r e. ground arith)) s.collectors good
          (λ t r et er f. ground arith) in
      Progress-trans s s1 _ first (
        schedule-Progress id (execute_cancel tid sid) s1 c first.ok
          (ground (
            arith,
            lookup-modify tid id (set_state cancelling) s.admitted.ledger.records,
            eq_iff tid id,
          ))
          (ground arith))

  -- The target is cancelled before its dispatch.
  freed : Service
  freed =
      on_admitted
        (λ g.
          on_session (session_key target.logical_session_id)
            (λ d. record d { active_operation_id = none; state = ready })
            (on_record target.operation_id
              (settled cancelled (some (object (("cancelled_pre_dispatch", bool true) ∷ []))) none)
              g))
        s

  keep_freed :
      (t : Task) (r : OperationRecord)
      → (is_live r.state ≡ false) × (r.kind ≡ prompt)
      → fits s.available t r ≡ true
      → fits s.available t
          (settled cancelled (some (object (("cancelled_pre_dispatch", bool true) ∷ []))) none r)
        ≡ true
  unfolding settled
  keep_freed t r h f = ground arith

  freed-Progress : is_live target.state ≡ false → Progress s freed
  unfolding freed Touches-session Touches-refl Touches-settled settled
  freed-Progress before =
      let tid = target.operation_id in
      let result = some (object (("cancelled_pre_dispatch", bool true) ∷ [])) in
      plain-Progress tid s freed.admitted
        (Touches-session tid (session_key target.logical_session_id)
          (λ d. record d { active_operation_id = none; state = ready }) s.admitted
          (on_record tid (settled cancelled result none) s.admitted)
          (Touches-settled tid cancelled result none s.admitted s.admitted
            (Touches-refl tid s.admitted)))
        s.collectors good (λ t r et er f. keep_freed t r (ground arith) f)

  released : Service
  unfolding freed
  released = on_admitted (λ g. (release_prompt_reservation target.operation_id g).1) freed

  released-Progress : is_live target.state ≡ false → Progress s released
  unfolding released freed
  released-Progress before =
      let tid = target.operation_id in
      let result = some (object (("cancelled_pre_dispatch", bool true) ∷ [])) in
      let first = freed-Progress before in
      Progress-trans s freed released first (
        release-Progress tid freed (settled cancelled result none target) first.ok
          (ground (
            arith,
            lookup-modify tid tid (settled cancelled result none) s.admitted.ledger.records,
            eq_iff tid tid,
          ))
          (ground (arith, kind-settled cancelled result none target)))

  -- What is left of the cancellation and of its tasks.
  released_own :
      (lookup id released.admitted.ledger.records ≡ some c)
      × (lookup id released.admitted.execution_tasks ≡ none)
  unfolding released freed
  released_own =
      let tid = target.operation_id in
      let result = some (object (("cancelled_pre_dispatch", bool true) ∷ [])) in
      let (ledger, sessions, tasks) = release-ledger tid freed.admitted in
      (
        rw ledger (
            ground (
              arith,
              lookup-modify tid id (settled cancelled result none) s.admitted.ledger.records,
              eq_iff tid id,
            )),
        rw tasks idle,
      )

  pre_dispatch-Progress :
      is_live target.state ≡ false
      → Progress s (record s { admitted = (pre_dispatch id target s.admitted).1 })
  unfolding pre_dispatch released freed
  pre_dispatch-Progress before =
      let done = released-Progress before in
      elim (Option-cases (lookup (session_key target.logical_session_id) s.admitted.sessions)) [
        | inl absent ↦
            subst (λ g. Progress s (record s { admitted = g })) (ground arith)
              (Progress-refl s good)
        | inr (d, e) ↦
            elim (Result-cases (release_prompt_reservation target.operation_id freed.admitted).0) [
              | inr (x, k) ↦ subst (λ g. Progress s (record s { admitted = g })) (ground arith) done
              | inl (u, k) ↦
                  subst (λ g. Progress s (record s { admitted = g })) (ground arith)
                    (Progress-trans s released _ done (
                      completed-Progress id c released done.ok released_own.0 kind released_own.1
                        (some (cancel_result "cancelled" false))))
            ]
      ]

  cancel_target-Progress :
      (st : OperationState)
      → target.state ≡ st
      → c.state ≡ OperationState.accepted
      → s.available ≡ true
      → Progress s (record s { admitted = (cancel_target st id target s.admitted).1 })
  unfolding cancel_target
  cancel_target-Progress st e fresh open_ = by_state st e
    where
      at_once :
          (state : OperationState)
          → Progress s (
              on_admitted
                (on_record id
                  (settled completed (some (cancel_result (state_value state) false)) none))
                s)
      at_once state =
          completed-Progress id c s good own kind idle
            (some (cancel_result (state_value state) false))

      by_state :
          (st : OperationState)
          → target.state ≡ st
          → Progress s (record s { admitted = (cancel_target st id target s.admitted).1 })
      by_state accepted e = pre_dispatch-Progress (ground arith)
      by_state queued e = pre_dispatch-Progress (ground arith)
      by_state running e =
          sent-Progress (session_key target.logical_session_id) fresh open_ (ground arith)
      by_state cancelling e =
          sent-Progress (session_key target.logical_session_id) fresh open_ (ground arith)
      by_state completed e = at_once completed
      by_state failed e = at_once failed
      by_state cancelled e = at_once cancelled
      by_state timed_out e = at_once timed_out
      by_state in_doubt e = at_once in_doubt

module _ (p : Platform) (n : NativeView) (request : CancelRequest) (s : Service) (good : Ok s) where
  cancel_added-Progress :
      (target : OperationRecord)
      → lookup request.operation_id s.admitted.ledger.records ≡ none
      → length s.admitted.ledger.records < s.admitted.ledger.max_operations
      → s.available ≡ true
      → lookup target.operation_id s.admitted.ledger.records ≡ some target
      → target.kind ≡ prompt
      → Progress s
          (cancel_admitted request.operation_id target
            (
              ok (operation_record request.operation_id (cancel_identity p request target), true),
              with_record request.operation_id (cancel_identity p request target) s.admitted.ledger,
            )
            s).1
  unfolding cancel_admitted cancel_identity
  cancel_added-Progress target new room open_ there is =
      let id = request.operation_id in
      let c = cancel_identity p request target in
      let r = operation_record id c in
      let s1 = on_admitted (λ g. record g { ledger = with_record id c s.admitted.ledger }) s in
      let first = record-Progress id c s good new room refl in
      Progress-trans s s1 _ first (
        cancel_target-Progress id target s1 first.ok r
          (ground (arith, lookup-insert id id r s.admitted.ledger.records, eq_iff id id)) refl
          (ground (
            arith,
            lookup-insert id target.operation_id r s.admitted.ledger.records,
            eq_iff id target.operation_id,
          ))
          is (no_task id s good new) target.state refl refl open_)

  cancel_admitted-Progress :
      (target : OperationRecord) (a : Admission × DirectLedger)
      → Admits request.operation_id (cancel_identity p request target) s.admitted.ledger a
      → s.available ≡ true
      → lookup target.operation_id s.admitted.ledger.records ≡ some target
      → target.kind ≡ prompt
      → Progress s (cancel_admitted request.operation_id target a s).1
  unfolding cancel_admitted
  cancel_admitted-Progress target a (replayed r h q u) open_ there is =
      subst (λ x. Progress s (cancel_admitted request.operation_id target x s).1) (sym u)
        (Progress-refl s good)
  cancel_admitted-Progress target a (conflicting r h q u) open_ there is =
      subst (λ x. Progress s (cancel_admitted request.operation_id target x s).1) (sym u)
        (Progress-refl s good)
  cancel_admitted-Progress target a (exhausted h q u) open_ there is =
      subst (λ x. Progress s (cancel_admitted request.operation_id target x s).1) (sym u)
        (Progress-refl s good)
  cancel_admitted-Progress target a (added h q u) open_ there is =
      subst (λ x. Progress s (cancel_admitted request.operation_id target x s).1) (sym u)
        (cancel_added-Progress target h q open_ there is)

  checked :
      (target : OperationRecord)
      → cancel_checks n request s ≡ ok target
      → (s.available ≡ true)
        × (lookup target.operation_id s.admitted.ledger.records ≡ some target)
        × (target.kind ≡ prompt)
  unfolding cancel_checks check_pin ensure_available require_current_generation LedgerModule.get
  checked target e =
      elim (Option-cases (lookup request.target_operation_id s.admitted.ledger.records)) [
        | inl absent ↦ absurd (ground arith)
        | inr (r, there) ↦
            let named = good.named request.target_operation_id r there in
            (ground arith, ground arith, ground arith)
      ]

  pub admit_cancel-Progress : Progress s (admit_cancel p n request s).1
  unfolding admit_cancel
  admit_cancel-Progress =
      Progress-check s (cancel_checks n request s)
        (λ target.
          cancel_admitted request.operation_id target
            (admit request.operation_id (cancel_identity p request target) s.admitted.ledger) s)
        good
        (λ target e.
          let (open_, there, is) = checked target e in
          cancel_admitted-Progress target
            (admit request.operation_id (cancel_identity p request target) s.admitted.ledger)
            (admit-Admits request.operation_id (cancel_identity p request target) s.admitted.ledger)
            open_ there is)
