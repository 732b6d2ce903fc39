-- ===== src/DirectService/Machine/Ends.antt =====
-- The ways in which a segment of a task ends that touches no record but its own: at a point of its own,
-- done, or in quarantine.
use acp_proxy.Prelude.{
  String, ◌≡◌, refl, ◌∙◌, ap, true, Option, none, some, [], ◌∷◌, arith, eq_iff, if◌then◌else◌, inl,
  inr, Option-cases,
}
use acp_proxy.Prelude.Dict.{Dict, lookup, modify, remove, map_option, lookup-modify}
use acp_proxy.DirectState.{OperationRecord}
use acp_proxy.DirectService.State.{
  Collector, finishing, Task, Generation, Service, on_task, at_point,
}
use acp_proxy.DirectService.Quarantine.{cancel_tasks, is_owner}
use acp_proxy.DirectService.Tasks.{drop}
use acp_proxy.DirectService.Touches.{Touches}
use acp_proxy.DirectService.Machine.Fits.{fits, Fit-own, Fit-end, Fit-record, Fit-transport}
use acp_proxy.DirectService.Machine.Ok.{
  Ok, Rest, Progress, Touches-Later, Touches-outstanding, Touches-Accounts, Touches-length,
}

touched-absent :
    (id j : String) (s : Service) (h : Generation)
    → Touches id s.admitted h
    → lookup j s.admitted.ledger.records ≡ none
    → (r : OperationRecord) → ¬ (lookup j h.ledger.records ≡ some r)
touched-absent id j s h touch absent r e = ground (
  arith,
  touch.records,
  lookup-modify id j touch.change s.admitted.ledger.records,
  ap (lookup j) touch.records,
)

-- The rest of the invariant, whatever the tasks and the collectors.
pub touched-Rest :
    (id : String) (s : Service) (h : Generation) (T : Dict Task) (c : Dict Collector)
    → Touches id s.admitted h
    → Rest s
    → Rest (record s { admitted = record h { execution_tasks = T }; collectors = c })
touched-Rest id s h T c touch k = record {
  closed = k.closed;
  accounts =
      let a = Touches-Accounts id s.admitted h touch k.accounts in
      record { unique = a.unique; counted = a.counted; known = a.known };
  named = λ j r e. elim (Option-cases (lookup j s.admitted.ledger.records)) [
    | inl absent ↦ absurd (touched-absent id j s h touch absent r e)
    | inr (o, there) ↦
        let (r', e', next) = (Touches-Later id s.admitted h touch).at j o there in
        ground (arith, next.same_id, k.named j o there)
  ];
  bound = touch.bound ∙ k.bound;
  ledger_fits = rw (Touches-length id s.admitted h touch) k.ledger_fits;
  sessions_fit = rw touch.session_count k.sessions_fit;
  queue_fits = rw (Touches-outstanding id s.admitted h touch) k.queue_fits;
}

module _ (id : String) (s : Service) (h : Generation) (touch : Touches id s.admitted h)
    (c : Dict Collector) (ok : Ok s) where
  pub moves-Progress :
      (g : Task → Task)
      → ((t : Task) (r : OperationRecord)
          → lookup id s.admitted.execution_tasks ≡ some t
          → lookup id s.admitted.ledger.records ≡ some r
          → fits s.available t r ≡ true
          → fits s.available (g t) (touch.change r) ≡ true)
      → Progress s (record s { admitted = on_task id g h; collectors = c })
  moves-Progress g keep = record {
    kept = refl;
    later = Touches-Later id s.admitted h touch;
    ok = record {
      fit =
          rw (touch.tasks, touch.records)
            (Fit-own id g touch.change s.admitted.execution_tasks s.admitted.ledger.records keep
              ok.fit);
      rest = touched-Rest id s h (modify id g h.execution_tasks) c touch ok.rest;
    };
  }

  -- The tasks stay where they are.
  pub plain-Progress :
      ((t : Task) (r : OperationRecord)
        → lookup id s.admitted.execution_tasks ≡ some t
        → lookup id s.admitted.ledger.records ≡ some r
        → fits s.available t r ≡ true
        → fits s.available t (touch.change r) ≡ true)
      → Progress s (record s { admitted = h; collectors = c })
  plain-Progress keep = record {
    kept = refl;
    later = Touches-Later id s.admitted h touch;
    ok = record {
      fit = Fit-transport touch.tasks touch.records (
          Fit-record id touch.change s.admitted.execution_tasks s.admitted.ledger.records keep
            ok.fit);
      rest = touched-Rest id s h h.execution_tasks c touch ok.rest;
    };
  }

  pub finishing-Progress :
      Progress s (record s { admitted = on_task id (at_point finishing) h; collectors = c })
  finishing-Progress =
      moves-Progress (at_point finishing) (λ t r et er f. ground (arith, touch.kinds r))

  pub drops-Progress : Progress s (drop id (record s { admitted = h; collectors = c }))
  unfolding drop
  drops-Progress = record {
    kept = refl;
    later = Touches-Later id s.admitted h touch;
    ok = record {
      fit =
          rw (touch.tasks, touch.records)
            (Fit-end id touch.change s.admitted.execution_tasks s.admitted.ledger.records ok.fit);
      rest = touched-Rest id s h (remove id h.execution_tasks) c touch ok.rest;
    };
  }

pub lookup-cancel_tasks :
    (o : Option String) (j : String) (T : Dict Task)
    → lookup j (cancel_tasks o T)
      ≡ map_option (λ t. if is_owner o j then t else record t { cancelled = true }) (lookup j T)
unfolding lookup cancel_tasks
lookup-cancel_tasks o j [] = refl
lookup-cancel_tasks o j ((i, t) ∷ T) = ground (arith, lookup-cancel_tasks o j T, eq_iff i j)
