-- ===== src/DirectService/Machine/AdmitRetire.antt =====
-- The admission of a retirement keeps the invariant of the machine.
use acp_proxy.Prelude.{
  ◌<◌, ◌≡◌, refl, sym, subst, true, none, some, is_some, ok, err, arith, length, if◌then◌else◌, inl,
  inr, Option-cases, eq_iff,
}
use acp_proxy.Prelude.Dict.{lookup, lookup-insert}
use acp_proxy.DirectState.{retiring, operation_record, DirectSession}
use acp_proxy.DirectState.Ledger.{DirectLedger, Admission, admit}
use acp_proxy.DirectState.Ledger.Laws.{
  Admits, replayed, conflicting, exhausted, added, admit-Admits,
}
use acp_proxy.DirectProtocol.{Platform, RetireSessionRequest}
use acp_proxy.DirectService.State.{
  NativeView, Service, on_admitted, on_session, execute_retire, check_pin, ensure_available,
}
use acp_proxy.DirectService.Retire.{
  retire_entry, retire_checks, retire_identity, retire_admitted, retire_known, retire_new,
  admit_retire,
}
use acp_proxy.DirectService.Touches.{Touches-refl, Touches-session}
use acp_proxy.DirectService.Machine.Ok.{Ok, Progress, Progress-refl, Progress-trans}
use acp_proxy.DirectService.Machine.Ends.{plain-Progress}
use acp_proxy.DirectService.Machine.Additions.{
  Progress-check, Progress-branch, with_record, record-Progress, schedule-Progress,
}
use acp_proxy.DirectService.Machine.AdmitPrompt.{known_ledger}

module _ (p : Platform) (n : NativeView) (request : RetireSessionRequest) (s : Service)
    (good : Ok s) where
  retire_added-Progress :
      lookup request.operation_id s.admitted.ledger.records ≡ none
      → length s.admitted.ledger.records < s.admitted.ledger.max_operations
      → s.available ≡ true
      → Progress s
          (retire_admitted request.operation_id request.logical_session_id
            (
              ok (operation_record request.operation_id (retire_identity p request), true),
              with_record request.operation_id (retire_identity p request) s.admitted.ledger,
            )
            s).1
  unfolding retire_admitted retire_identity Touches-session Touches-refl
  retire_added-Progress new room open_ =
      let id = request.operation_id in
      let sid = request.logical_session_id in
      let c = retire_identity p request in
      let enter =
        λ (d : DirectSession). record d { state = retiring; active_operation_id = some id } in
      let s1 = on_admitted (λ g. record g { ledger = with_record id c s.admitted.ledger }) s in
      let s2 = on_admitted (on_session sid enter) s1 in
      let first = record-Progress id c s good new room refl in
      let second =
        plain-Progress id s1 s2.admitted
          (Touches-session id sid enter s1.admitted s1.admitted (Touches-refl id s1.admitted))
          s1.collectors first.ok (λ t r et er f. f) in
      Progress-trans s s1 _ first (
        Progress-trans s1 s2 _ second (
          schedule-Progress id (execute_retire sid) s2 (operation_record id c) second.ok
            (ground (
              arith,
              lookup-insert id id (operation_record id c) s.admitted.ledger.records,
              eq_iff id id,
            ))
            (ground arith)))

  retire_admitted-Progress :
      (a : Admission × DirectLedger)
      → Admits request.operation_id (retire_identity p request) s.admitted.ledger a
      → lookup request.operation_id s.admitted.ledger.records ≡ none
      → s.available ≡ true
      → Progress s (retire_admitted request.operation_id request.logical_session_id a s).1
  unfolding retire_admitted
  retire_admitted-Progress a (replayed r h q u) new open_ = absurd (ground arith)
  retire_admitted-Progress a (conflicting r h q u) new open_ = absurd (ground arith)
  retire_admitted-Progress a (exhausted h q u) new open_ =
      subst
        (λ x. Progress s (retire_admitted request.operation_id request.logical_session_id x s).1)
        (sym u) (Progress-refl s good)
  retire_admitted-Progress a (added h q u) new open_ =
      subst
        (λ x. Progress s (retire_admitted request.operation_id request.logical_session_id x s).1)
        (sym u) (retire_added-Progress h q open_)

  retire_known-Progress :
      (a : Admission × DirectLedger) → a.1 ≡ s.admitted.ledger → Progress s (retire_known a s).1
  unfolding retire_known
  retire_known-Progress (ok (r, b), l) e =
      subst (λ x. Progress s (record s { admitted = record s.admitted { ledger = x } })) (sym e)
        (Progress-refl s good)
  retire_known-Progress (err x, l) e =
      subst (λ x. Progress s (record s { admitted = record s.admitted { ledger = x } })) (sym e)
        (Progress-refl s good)

  pub admit_retire-Progress : Progress s (admit_retire p n request s).1
  unfolding admit_retire retire_entry retire_new check_pin ensure_available
  admit_retire-Progress =
      let id = request.operation_id in
      let c = retire_identity p request in
      let a = admit id c s.admitted.ledger in
      Progress-check s (retire_entry n request s)
        (λ x.
          if is_some (lookup id s.admitted.ledger.records)
          then retire_known a s
          else retire_new p request s)
        good
        (λ x e.
          Progress-branch s (is_some (lookup id s.admitted.ledger.records)) (retire_known a s)
            (retire_new p request s)
            (λ old. elim (Option-cases (lookup id s.admitted.ledger.records)) [
              | inl absent ↦ absurd (ground arith)
              | inr (r, er) ↦ retire_known-Progress a (known_ledger id c s.admitted.ledger r er)
            ])
            (λ new.
              Progress-check s (retire_checks request.logical_session_id s)
                (λ z. retire_admitted id request.logical_session_id a s) good
                (λ z q.
                  retire_admitted-Progress a (admit-Admits id c s.admitted.ledger) (ground arith)
                    (ground arith))))
