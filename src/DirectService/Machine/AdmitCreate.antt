-- ===== src/DirectService/Machine/AdmitCreate.antt =====
-- The creation of a session keeps the invariant of the machine.
use acp_proxy.Prelude.{
  ◌<◌, ◌≡◌, refl, sym, subst, Bool, true, false, none, ok, arith, length, eq_iff,
}
use acp_proxy.Prelude.Dict.{lookup, insert, lookup-insert}
use acp_proxy.DirectState.{
  completed, failed, ready, non_reusable, OperationRecord, operation_record, DirectSession,
}
use acp_proxy.DirectState.Ledger.{DirectLedger, Admission, admit}
use acp_proxy.DirectState.Ledger.Laws.{
  Admits, replayed, conflicting, exhausted, added, admit-Admits,
}
use acp_proxy.DirectProtocol.{Platform, CreateSessionRequest}
use acp_proxy.DirectService.State.{
  NativeView, Generation, Service, on_admitted, require_current_generation,
}
use acp_proxy.DirectService.Create.{
  create_entry, create_checks, create_identity, create_admitted, create_locked, admit_create,
  open_session, session_room, new_session, allocate,
}
use acp_proxy.DirectService.Touches.{Touches, Touches-refl, Touches-session, Touches-settled}
use acp_proxy.DirectService.Machine.Ok.{Ok, Progress, Progress-refl, Progress-trans}
use acp_proxy.DirectService.Machine.Ends.{plain-Progress}
use acp_proxy.DirectService.Machine.Additions.{
  Progress-check, with_record, record-Progress, session-Progress,
}

module _ (p : Platform) (n : NativeView) where
  module _ (request : CreateSessionRequest) (s : Service) (good : Ok s) where
    allocated-Touches :
        (b : Bool) (session : DirectSession) (r : OperationRecord) (g : Generation)
        → Touches r.operation_id g (allocate p b session r g)
    unfolding allocate
    allocated-Touches true session r g = Touches-settled r.operation_id completed _ none g _ (
        Touches-session r.operation_id session.logical_session_id (λ d. record d { state = ready })
          g g (Touches-refl r.operation_id g))
    allocated-Touches false session r g = Touches-settled r.operation_id failed none _ g _ (
        Touches-session r.operation_id session.logical_session_id
          (λ d. record d { state = non_reusable }) g g (Touches-refl r.operation_id g))

    -- A new operation, with its session.
    added-Progress :
        lookup request.operation_id s.admitted.ledger.records ≡ none
        → length s.admitted.ledger.records < s.admitted.ledger.max_operations
        → create_checks p request s ≡ ok tt
        → Progress s (
            on_admitted
              (λ g.
                open_session p n request
                  (operation_record request.operation_id (create_identity p request))
                  (record g {
                    ledger =
                        with_record request.operation_id
                          (create_identity p request)
                          s.admitted.ledger;
                  }))
              s)
    unfolding create_checks require_current_generation session_room create_identity open_session
        new_session
    added-Progress new room checks =
        let id = request.operation_id in
        let c = create_identity p request in
        let session = new_session p request in
        let s1 = on_admitted (λ g. record g { ledger = with_record id c s.admitted.ledger }) s in
        let s2 =
          on_admitted
            (λ g. record g { sessions = insert session.logical_session_id session g.sessions })
            s1 in
        let g3 =
          allocate p (n.allocates session.logical_session_id) session (operation_record id c)
            s2.admitted in
        let first = record-Progress id c s good new room refl in
        let second =
          session-Progress session.logical_session_id session s1 first.ok (ground arith)
            (ground arith) in
        let third =
          plain-Progress id s2 g3
            (allocated-Touches (n.allocates session.logical_session_id) session
              (operation_record id c) s2.admitted)
            s2.collectors second.ok
            (λ t r et er f. absurd (
              ground (
                arith,
                lookup-insert id id (operation_record id c) s.admitted.ledger.records,
                eq_iff id id,
              ))) in
        Progress-trans s s1 (record s2 { admitted = g3 }) first
          (Progress-trans s1 s2 (record s2 { admitted = g3 }) second third)

    create_admitted-Progress :
        (a : Admission × DirectLedger)
        → Admits request.operation_id (create_identity p request) s.admitted.ledger a
        → create_checks p request s ≡ ok tt
        → Progress s (create_admitted p n request a s).1
    unfolding create_admitted
    create_admitted-Progress a (replayed r h q u) k =
        subst (λ x. Progress s (create_admitted p n request x s).1) (sym u) (Progress-refl s good)
    create_admitted-Progress a (conflicting r h q u) k =
        subst (λ x. Progress s (create_admitted p n request x s).1) (sym u) (Progress-refl s good)
    create_admitted-Progress a (exhausted h q u) k =
        subst (λ x. Progress s (create_admitted p n request x s).1) (sym u) (Progress-refl s good)
    create_admitted-Progress a (added h q u) k =
        subst (λ x. Progress s (create_admitted p n request x s).1) (sym u) (added-Progress h q k)

    pub admit_create-Progress : Progress s (admit_create p n request s).1
    unfolding admit_create create_locked
    admit_create-Progress =
        Progress-check s (create_entry p n request s) (λ x. create_locked p n request s) good
          (λ x e.
            Progress-check s (create_checks p request s)
              (λ y.
                create_admitted p n request
                  (admit request.operation_id (create_identity p request) s.admitted.ledger) s)
              good
              (λ y k.
                create_admitted-Progress
                  (admit request.operation_id (create_identity p request) s.admitted.ledger)
                  (admit-Admits request.operation_id (create_identity p request) s.admitted.ledger)
                  k))
