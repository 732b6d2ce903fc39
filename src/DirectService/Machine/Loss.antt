-- ===== src/DirectService/Machine/Loss.antt =====
-- The revocation of a generation keeps the invariant of the machine.
use acp_proxy.Prelude.{
  String, ◌≡◌, refl, ap, Bool, true, false, not, Option, none, some, is_some, List, [], map, arith,
  eq_iff, inl, inr, Option-cases,
}
use acp_proxy.Prelude.Dict.{Dict, lookup, modify, lookup-modify, length-modify_all}
use acp_proxy.DirectState.{OperationRecord}
use acp_proxy.DirectService.State.{
  Deferred, quarantining, Task, Generation, Service, on_task, at_point, current,
}
use acp_proxy.DirectService.Quarantine.{begin_loss, revoke, cancel_tasks, is_owner, lose_session}
use acp_proxy.DirectService.Tasks.{enter_quarantine}
use acp_proxy.DirectService.Touches.{Touches}
use acp_proxy.DirectService.Machine.Fits.{fits, of_kind, Fit, Fit-own, Fit-weaken, Fit-transport}
use acp_proxy.DirectService.Machine.Ok.{
  Ok, Rest, Progress, Progress-if, Progress-refl, Later-refl, Touches-Later,
}
use acp_proxy.DirectService.Machine.Ends.{lookup-cancel_tasks, moves-Progress, touched-Rest}

-- An owner's task is quarantining.
OwnerWaits : Option String → Dict Task → Type 0
OwnerWaits o T =
    (j : String) (t : Task) (r : OperationRecord)
    → lookup j T ≡ some t
    → is_owner o j ≡ true
    → of_kind t r ≡ true
    → fits false t r ≡ true

revoked-Fit :
    (o : Option String) (T : Dict Task) (R : Dict OperationRecord)
    → OwnerWaits o T
    → Fit of_kind T R
    → Fit (fits false) (cancel_tasks o T) R
unfolding OwnerWaits
revoked-Fit o T R w s = record {
  at = λ j u e. elim (Option-cases (lookup j T)) [
    | inl absent ↦ absurd (ground (arith, lookup-cancel_tasks o j T))
    | inr (t, there) ↦
        let (r, er, k) = s.at j t there in
        (r, er, ground (arith, lookup-cancel_tasks o j T, w j t r))
  ];
}

-- A loss from a state whose tasks have records of their kinds, the rest of the invariant holding.
module _ (o : Option String) (defer : List String) (uuid : String) (s : Service)
    (waits : OwnerWaits o s.admitted.execution_tasks)
    (kinds : Fit of_kind s.admitted.execution_tasks s.admitted.ledger.records) where
  revoke-Ok : Rest s → Ok (revoke o defer uuid s)
  unfolding revoke
  revoke-Ok k = record {
    fit = revoked-Fit o s.admitted.execution_tasks s.admitted.ledger.records waits kinds;
    rest = record {
      closed = λ c. refl;
      accounts = record {
        unique = k.accounts.unique;
        counted = k.accounts.counted;
        known = k.accounts.known;
      };
      named = k.named;
      bound = k.bound;
      ledger_fits = k.ledger_fits;
      sessions_fit = rw (length-modify_all lose_session s.admitted.sessions) k.sessions_fit;
      queue_fits = k.queue_fits;
    };
  }

-- A loss that a caller outside the tasks begins.
pub outside-Progress : (uuid : String) (s : Service) → Ok s → Progress s (begin_loss none [] uuid s)
unfolding begin_loss OwnerWaits
outside-Progress uuid s k =
    Progress-if s s.available (revoke none [] uuid s) s
      (λ open_. record {
        kept = refl;
        later = Later-refl s.admitted.ledger.records;
        ok =
            revoke-Ok none [] uuid s (λ j t r e q. cc)
              (Fit-weaken s.admitted.execution_tasks s.admitted.ledger.records
                (λ t r f. ground arith) k.fit)
              k.rest;
      })
      (λ gone. Progress-refl s k)

-- A task enters quarantine from a segment that touches its own record only.
module _ (id : String) (s : Service) (h : Generation) (touch : Touches id s.admitted h)
    (settlements : List Deferred) (inner : Bool) (uuid : String) (ok : Ok s) where
  waiting : Task → Task
  waiting = at_point (
      quarantining (record {
        settlements = settlements;
        old = not (is_some s.fresh);
        collectors = (current (record s { admitted = h })).collector_tasks;
        inner = inner;
      }))

  waiting_kind :
      (t : Task) (r r' : OperationRecord)
      → r'.kind ≡ r.kind
      → of_kind t r ≡ true
      → of_kind (waiting t) r' ≡ true
  unfolding waiting
  waiting_kind t r r' e k = ground arith

  entered : Service
  unfolding waiting
  entered = record s { admitted = on_task id waiting h }

  entered_kinds : Fit of_kind entered.admitted.execution_tasks entered.admitted.ledger.records
  unfolding entered
  entered_kinds = Fit-transport (ap (modify id waiting) touch.tasks) touch.records (
      Fit-own id waiting touch.change s.admitted.execution_tasks s.admitted.ledger.records
        (λ t r et er k. waiting_kind t r (touch.change r) (touch.kinds r) k)
        (Fit-weaken s.admitted.execution_tasks s.admitted.ledger.records (λ t r f. ground arith)
          ok.fit))

  entered_waits : OwnerWaits (some id) entered.admitted.execution_tasks
  unfolding OwnerWaits entered
  entered_waits j t r e q k = elim (Option-cases (lookup id h.execution_tasks)) [
    | inl absent ↦
        absurd (ground (arith, lookup-modify id j waiting h.execution_tasks, eq_iff id j))
    | inr (u, there) ↦ ground (arith, lookup-modify id j waiting h.execution_tasks, eq_iff id j)
  ]

  pub quarantine-Progress :
      Progress s (enter_quarantine id settlements inner uuid (record s { admitted = h }))
  unfolding enter_quarantine entered
  quarantine-Progress =
      let lost = revoke (some id) (map (λ d. d.operation_id) settlements) uuid entered in
      Progress-if s s.available lost entered
        (λ open_. record {
          kept = refl;
          later = Touches-Later id s.admitted h touch;
          ok =
              revoke-Ok (some id) (map (λ d. d.operation_id) settlements) uuid entered entered_waits
                entered_kinds
                (touched-Rest id s h entered.admitted.execution_tasks s.collectors touch ok.rest);
        })
        (λ gone.
          moves-Progress id s h touch s.collectors ok waiting
            (λ t r et er f. ground (arith, touch.kinds r)))
