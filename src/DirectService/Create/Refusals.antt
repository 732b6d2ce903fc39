-- ===== src/DirectService/Create/Refusals.antt =====
-- What `admit_create` leaves when it refuses.
use acp_proxy.Prelude.{◌≡◌, err, arith}
use acp_proxy.DirectState.{DirectError, Identity}
use acp_proxy.DirectState.Ledger.{DirectLedger, Admission, admit}
use acp_proxy.DirectState.Ledger.Laws.{
  Admits, replayed, conflicting, exhausted, added, admit-Admits,
}
use acp_proxy.DirectProtocol.{Platform, CreateSessionRequest}
use acp_proxy.DirectService.Refused.{Refuses-check}
use acp_proxy.DirectService.State.{NativeView, Service}
use acp_proxy.DirectService.Create.{
  create_entry, create_checks, create_identity, create_admitted, create_locked, admit_create,
}

module _ (p : Platform) (n : NativeView) (request : CreateSessionRequest) (s : Service) where
  refused :
      (e : DirectError) (c : Identity) (a : Admission × DirectLedger)
      → Admits request.operation_id c s.admitted.ledger a
      → (create_admitted p n request a s).0 ≡ err e
      → (create_admitted p n request a s).1 ≡ s
  unfolding create_admitted
  refused e c a (replayed r h q u) k = ground arith
  refused e c a (conflicting r h q u) k = ground arith
  refused e c a (exhausted h q u) k = ground arith
  refused e c a (added h q u) k = ground arith

  -- A refused session creation leaves the whole service as it was.
  pub admit_create-refused :
      (e : DirectError)
      → (admit_create p n request s).0 ≡ err e
      → (admit_create p n request s).1 ≡ s
  unfolding admit_create create_locked
  admit_create-refused =
      let c = create_identity p request in
      let a = admit request.operation_id c s.admitted.ledger in
      Refuses-check s (create_entry p n request s) (λ x. create_locked p n request s)
        (λ x k.
          Refuses-check s (create_checks p request s) (λ y. create_admitted p n request a s)
            (λ y q e. refused e c a (admit-Admits request.operation_id c s.admitted.ledger)))
