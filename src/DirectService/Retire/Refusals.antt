-- ===== src/DirectService/Retire/Refusals.antt =====
-- What `admit_retire` leaves when it refuses.
use acp_proxy.Prelude.{◌≡◌, err, arith}
use acp_proxy.DirectState.{DirectError, Identity}
use acp_proxy.DirectState.Ledger.{DirectLedger, Admission, admit}
use acp_proxy.DirectState.Ledger.Laws.{
  Admits, replayed, conflicting, exhausted, added, admit-Admits,
}
use acp_proxy.DirectProtocol.{Platform, RetireSessionRequest}
use acp_proxy.DirectService.Refused.{Refuses, Refuses-check, by_branch}
use acp_proxy.Prelude.{is_some, if◌then◌else◌}
use acp_proxy.Prelude.Dict.{lookup}
use acp_proxy.DirectService.State.{NativeView, Service}
use acp_proxy.DirectService.Retire.{
  retire_entry, retire_checks, retire_identity, retire_admitted, retire_known, retire_new,
  admit_retire,
}

module _ (p : Platform) (n : NativeView) (request : RetireSessionRequest) (s : Service) where
  refused_new :
      (e : DirectError) (c : Identity) (a : Admission × DirectLedger)
      → Admits request.operation_id c s.admitted.ledger a
      → (retire_admitted request.operation_id request.logical_session_id a s).0 ≡ err e
      → (retire_admitted request.operation_id request.logical_session_id a s).1 ≡ s
  unfolding retire_admitted
  refused_new e c a (replayed r h q u) k = ground arith
  refused_new e c a (conflicting r h q u) k = ground arith
  refused_new e c a (exhausted h q u) k = ground arith
  refused_new e c a (added h q u) k = ground arith

  refused_known :
      (e : DirectError) (c : Identity) (a : Admission × DirectLedger)
      → Admits request.operation_id c s.admitted.ledger a
      → (retire_known a s).0 ≡ err e
      → (retire_known a s).1 ≡ s
  unfolding retire_known
  refused_known e c a (replayed r h q u) k = ground arith
  refused_known e c a (conflicting r h q u) k = ground arith
  refused_known e c a (exhausted h q u) k = ground arith
  refused_known e c a (added h q u) k = ground arith

  new-Refuses : Refuses s (retire_new p request s)
  unfolding retire_new
  new-Refuses =
      let c = retire_identity p request in
      let a = admit request.operation_id c s.admitted.ledger in
      Refuses-check s (retire_checks request.logical_session_id s)
        (λ z. retire_admitted request.operation_id request.logical_session_id a s)
        (λ z q e. refused_new e c a (admit-Admits request.operation_id c s.admitted.ledger))

  -- A refused retirement leaves the whole service as it was.
  pub admit_retire-refused :
      (e : DirectError)
      → (admit_retire p n request s).0 ≡ err e
      → (admit_retire p n request s).1 ≡ s
  unfolding admit_retire
  admit_retire-refused =
      let c = retire_identity p request in
      let a = admit request.operation_id c s.admitted.ledger in
      let m = admit-Admits request.operation_id c s.admitted.ledger in
      Refuses-check s (retire_entry n request s)
        (λ x.
          if is_some (lookup request.operation_id s.admitted.ledger.records)
          then retire_known a s
          else retire_new p request s)
        (λ x k.
          by_branch (Refuses s) (is_some (lookup request.operation_id s.admitted.ledger.records))
            (retire_known a s) (retire_new p request s) (λ old e. refused_known e c a m)
            (λ new. new-Refuses))
