-- ===== src/DirectService/Machine/AdmitPrompt.antt =====
-- The admission of a prompt keeps the invariant of the machine.
use acp_proxy.Prelude.{
  ℤ, ◌<◌, String, ◌≡◌, refl, sym, subst, Bool, true, false, none, some, is_some, ok, arith, length,
  if◌then◌else◌, inl, inr, Option-cases, eq_iff,
}
use acp_proxy.Prelude.Dict.{lookup, lookup-insert, lookup-modify}
use acp_proxy.DirectState.{
  prompt, OperationState, queued, busy, Identity, OperationRecord, operation_record, DirectSession,
}
use acp_proxy.DirectState.Ledger.{DirectLedger, Admission, admit}
use acp_proxy.DirectState.Ledger.Laws.{
  Admits, replayed, conflicting, exhausted, added, admit-Admits,
}
use acp_proxy.DirectProtocol.{Platform, PromptRequest}
use acp_proxy.DirectService.State.{
  NativeView, Generation, Service, on_admitted, on_record, on_session, schedule, execute_prompt,
  increment, is_positive, set_state, check_pin, ensure_available, require_current_generation,
}
use acp_proxy.DirectService.Prompt.{
  prompt_entry, prompt_checks, prompt_identity, prompt_admitted, prompt_known, prompt_new,
  prompt_locked, admit_prompt, reserve,
}
use acp_proxy.DirectService.Touches.{Touches-refl, Touches-session, Touches-set_state}
use acp_proxy.DirectService.Machine.Ok.{Ok, Progress, Progress-refl, Progress-trans}
use acp_proxy.DirectService.Machine.Ends.{plain-Progress}
use acp_proxy.DirectService.Machine.Additions.{
  Progress-check, Progress-branch, with_record, reservation-Progress, schedule-Progress,
}

-- The admission of an operation that the ledger has leaves the ledger.
pub known_ledger :
    (id : String) (c : Identity) (l : DirectLedger) (r : OperationRecord)
    → lookup id l.records ≡ some r
    → (admit id c l).1 ≡ l
known_ledger id c l r e = known (admit id c l) (admit-Admits id c l)
  where
    known : (a : Admission × DirectLedger) → Admits id c l a → a.1 ≡ l
    known a (replayed r' h q u) = ground arith
    known a (conflicting r' h q u) = ground arith
    known a (exhausted h q u) = ground arith
    known a (added h q u) = absurd (ground arith)

queued_first :
    (id : String) (b : Bool) (z : ℤ) (g : Generation)
    → record (if b then on_record id (set_state queued) g else g) { prompt_reservations = z } ≡ (
        if b
        then on_record id (set_state queued) (record g { prompt_reservations = z })
        else record g { prompt_reservations = z })
queued_first id true z g = refl
queued_first id false z g = refl

module _ (p : Platform) (n : NativeView) (sid : String) (request : PromptRequest) (s : Service)
    (good : Ok s) where
  reserved-Progress :
      (b : Bool) (s1 : Service) (r : OperationRecord)
      → Ok s1
      → s1.available ≡ true
      → lookup request.operation_id s1.admitted.ledger.records ≡ some r
      → r.state ≡ OperationState.accepted
      → r.kind ≡ prompt
      → Progress s1 (
          on_admitted
            (λ g. schedule request.operation_id (execute_prompt sid request) (
              on_session sid
                (λ d. record d { active_operation_id = some request.operation_id; state = busy })
                (if b then on_record request.operation_id (set_state queued) g else g)))
            s1)
  unfolding Touches-set_state Touches-refl Touches-session
  reserved-Progress true s1 r ok1 open_ there fresh is =
      let id = request.operation_id in
      let enter = λ (d : DirectSession). record d { active_operation_id = some id; state = busy } in
      let g2 = on_session sid enter (on_record id (set_state queued) s1.admitted) in
      let s2 = record s1 { admitted = g2 } in
      let first =
        plain-Progress id s1 g2
          (Touches-session id sid enter s1.admitted (on_record id (set_state queued) s1.admitted)
            (Touches-set_state id queued s1.admitted (λ q e. ground arith)))
          s1.collectors ok1 (λ t q et eq f. ground arith) in
      Progress-trans s1 s2 (on_admitted (schedule id (execute_prompt sid request)) s2) first (
        schedule-Progress id (execute_prompt sid request) s2 (set_state queued r) first.ok
          (ground (
            arith,
            lookup-modify id id (set_state queued) s1.admitted.ledger.records,
            eq_iff id id,
          ))
          (ground arith))
  reserved-Progress false s1 r ok1 open_ there fresh is =
      let id = request.operation_id in
      let enter = λ (d : DirectSession). record d { active_operation_id = some id; state = busy } in
      let g2 = on_session sid enter s1.admitted in
      let s2 = record s1 { admitted = g2 } in
      let first =
        plain-Progress id s1 g2
          (Touches-session id sid enter s1.admitted s1.admitted (Touches-refl id s1.admitted))
          s1.collectors ok1 (λ t q et eq f. f) in
      Progress-trans s1 s2 (on_admitted (schedule id (execute_prompt sid request)) s2) first
        (schedule-Progress id (execute_prompt sid request) s2 r first.ok there (ground arith))

  -- A new prompt: its record and reservation, its session, its task.
  prompt_added-Progress :
      lookup request.operation_id s.admitted.ledger.records ≡ none
      → length s.admitted.ledger.records < s.admitted.ledger.max_operations
      → s.available ≡ true
      → prompt_checks p sid request s ≡ ok tt
      → Progress s
          (prompt_admitted p sid request
            (
              ok (operation_record request.operation_id (prompt_identity p sid request), true),
              with_record request.operation_id (prompt_identity p sid request) s.admitted.ledger,
            )
            s).1
  unfolding prompt_checks prompt_admitted reserve prompt_identity
  prompt_added-Progress new room open_ checks =
      let id = request.operation_id in
      let c = prompt_identity p sid request in
      let s1 =
        on_admitted
          (λ g. record g {
            ledger = with_record id c s.admitted.ledger;
            prompt_reservations = increment s.admitted.prompt_reservations;
          })
          s in
      let first = reservation-Progress id c s good new room refl (ground arith) in
      let second =
        reserved-Progress (is_positive s.admitted.prompt_reservations) s1 (operation_record id c)
          first.ok open_
          (ground (
            arith,
            lookup-insert id id (operation_record id c) s.admitted.ledger.records,
            eq_iff id id,
          ))
          refl refl in
      Progress-trans s s1 _ first (
        subst
          (λ g. Progress s1 (record s1 {
            admitted =
                schedule id (execute_prompt sid request) (
                  on_session sid (λ d. record d { active_operation_id = some id; state = busy }) g);
          }))
          (sym (
            queued_first id (is_positive s.admitted.prompt_reservations)
              (increment s.admitted.prompt_reservations)
              (record s.admitted { ledger = with_record id c s.admitted.ledger })))
          second)

  -- By what the ledger does with the operation.
  prompt_admitted-Progress :
      (a : Admission × DirectLedger)
      → Admits request.operation_id (prompt_identity p sid request) s.admitted.ledger a
      → lookup request.operation_id s.admitted.ledger.records ≡ none
      → s.available ≡ true
      → prompt_checks p sid request s ≡ ok tt
      → Progress s (prompt_admitted p sid request a s).1
  unfolding prompt_admitted
  prompt_admitted-Progress a (replayed r h q u) new open_ k = absurd (ground arith)
  prompt_admitted-Progress a (conflicting r h q u) new open_ k = absurd (ground arith)
  prompt_admitted-Progress a (exhausted h q u) new open_ k =
      subst (λ x. Progress s (prompt_admitted p sid request x s).1) (sym u) (Progress-refl s good)
  prompt_admitted-Progress a (added h q u) new open_ k =
      subst (λ x. Progress s (prompt_admitted p sid request x s).1) (sym u)
        (prompt_added-Progress h q open_ k)

  prompt_known-Progress :
      (r : OperationRecord)
      → lookup request.operation_id s.admitted.ledger.records ≡ some r
      → Progress s (prompt_known p sid request s).1
  unfolding prompt_known
  prompt_known-Progress r e =
      let l =
        known_ledger request.operation_id (prompt_identity p sid request) s.admitted.ledger r e in
      subst (λ x. Progress s (record s { admitted = record s.admitted { ledger = x } })) (sym l)
        (Progress-refl s good)

  pub admit_prompt-Progress : Progress s (admit_prompt p n sid request s).1
  unfolding admit_prompt prompt_locked prompt_entry check_pin ensure_available prompt_new
  admit_prompt-Progress =
      let id = request.operation_id in
      let c = prompt_identity p sid request in
      Progress-check s (prompt_entry p n request s) (λ x. prompt_locked p sid request s) good
        (λ x e.
          Progress-check s (require_current_generation s)
            (λ y.
              if is_some (lookup id s.admitted.ledger.records)
              then prompt_known p sid request s
              else prompt_new p sid request s)
            good
            (λ y k.
              Progress-branch s (is_some (lookup id s.admitted.ledger.records))
                (prompt_known p sid request s) (prompt_new p sid request s)
                (λ old. elim (Option-cases (lookup id s.admitted.ledger.records)) [
                  | inl absent ↦ absurd (ground arith)
                  | inr (r, er) ↦ prompt_known-Progress r er
                ])
                (λ new.
                  Progress-check s (prompt_checks p sid request s)
                    (λ z. prompt_admitted p sid request (admit id c s.admitted.ledger) s) good
                    (λ z q.
                      prompt_admitted-Progress (admit id c s.admitted.ledger)
                        (admit-Admits id c s.admitted.ledger) (ground arith) (ground arith) q))))
