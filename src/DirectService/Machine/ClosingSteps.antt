-- ===== src/DirectService/Machine/ClosingSteps.antt =====
-- The publications at the end of a closing and of a quarantine keep the invariant of the machine.
use acp_proxy.Prelude.{
  String, ◌≡◌, refl, Bool, true, false, Option, none, some, List, [], ◌∷◌, ok, arith, subst, sym,
  Result-cases, if◌then◌else◌, inl, inr, Option-cases, Bool-cases, >>=-eq-ok, or_raise,
}
use acp_proxy.Prelude.Dict.{Dict, lookup}
use acp_proxy.Json.{JsonObject}
use acp_proxy.DirectState.{in_doubt, terminal}
use acp_proxy.DirectProtocol.{Platform}
use acp_proxy.DirectService.State.{
  NativeView, Collector, Deferred, Generation, Closing, Service, on_record,
}
use acp_proxy.DirectService.Create.{error_body}
use acp_proxy.DirectService.Quarantine.{
  publish_record, publish_records, end_loss, publish_deferred, settle_deferred, deferred_outcome,
  deferred_result, lost_prompt_evidence,
}
use acp_proxy.DirectService.Touches.{Touches, Touches-refl, Touches-settled}
use acp_proxy.DirectService.Machine.Ok.{Ok, Later-refl, Progress, Progress-refl, Progress-trans}
use acp_proxy.DirectService.Machine.Ends.{plain-Progress}

-- Once admission is closed, a segment that touches one record keeps the invariant.
pub closed-Progress :
    (id : String) (s : Service) (h : Generation)
    → Touches id s.admitted h
    → s.available ≡ false
    → Ok s
    → Progress s (record s { admitted = h })
closed-Progress id s h t gone good =
    plain-Progress id s h t s.collectors good (λ u r eu er f. ground (arith, t.kinds r))

-- The closing ends.
closed_ends :
    (s : Service) (failed shut : Bool)
    → Ok s
    → Progress s (record s { closing = none; shutdown_error = failed; shutdown_done = shut })
closed_ends s failed shut good = record {
  kept = refl;
  later = Later-refl s.admitted.ledger.records;
  ok = record {
    fit = good.fit;
    rest = record {
      closed = λ c. cc;
      accounts = good.accounts;
      named = good.named;
      bound = good.bound;
      ledger_fits = good.ledger_fits;
      sessions_fit = good.sessions_fit;
      queue_fits = good.queue_fits;
    };
  };
}

module _ (p : Platform) (n : NativeView) where
  outcome-Touches :
      (failed : Bool) (d : Deferred) (v : Option JsonObject) (g : Generation)
      → Touches d.operation_id g (on_record d.operation_id (deferred_outcome p n failed d v) g)
  unfolding deferred_outcome
  outcome-Touches true d v g =
      Touches-settled d.operation_id in_doubt v
        (some (error_body "cleanup_settlement_unknown" "native owned cleanup did not settle")) g g
        (Touches-refl d.operation_id g)
  outcome-Touches false d v g =
      Touches-settled d.operation_id d.state v d.error g g (Touches-refl d.operation_id g)

  publish_record-Touches :
      (id : String) (ids : List String) (c : Dict Collector) (g h : Generation)
      → publish_record p n id ids c g ≡ ok h
      → Touches id g h
  unfolding publish_record
  publish_record-Touches id ids c g h e =
      let (r, k, er) = >>=-eq-ok _ (or_raise (lookup id g.ledger.records) _) e in
      let (v, k', ev) = >>=-eq-ok _ (lost_prompt_evidence p n r g ids c) k in
      subst (λ x. Touches id g x) (ground arith)
        (Touches-settled id in_doubt v
          (some (error_body "continuity_lost" "native continuity generation was lost")) g g
          (Touches-refl id g))

  publish_records-Progress :
      (rs ids : List String) (c : Dict Collector) (s : Service)
      → s.available ≡ false
      → Ok s
      → Progress s (record s { admitted = (publish_records p n rs ids c s.admitted).1 })
  unfolding publish_records
  publish_records-Progress [] ids c s gone good = Progress-refl s good
  publish_records-Progress (id ∷ rs) ids c s gone good =
      elim (Result-cases (publish_record p n id ids c s.admitted)) [
        | inr (x, e) ↦ rw (publish_records, e) (Progress-refl s good)
        | inl (h, e) ↦
            let s' = record s { admitted = h } in
            let first =
              closed-Progress id s h (publish_record-Touches id ids c s.admitted h e) gone good in
            rw (publish_records, e)
              (Progress-trans s s' (record s { admitted = (publish_records p n rs ids c h).1 })
                first (publish_records-Progress rs ids c s' gone first.ok))
      ]

  end_loss-cases :
      (s : Service) (failed : Bool) (c : Closing)
      → s.closing ≡ some c
      → (shut : Bool) × ((end_loss p n failed s).1 ≡ record s {
        admitted = (publish_records p n c.records c.collectors s.collectors s.admitted).1;
        closing = none;
        shutdown_error = failed;
        shutdown_done = shut;
      })
  unfolding end_loss
  end_loss-cases s failed c e =
      elim (Result-cases (publish_records p n c.records c.collectors s.collectors s.admitted).0) [
        | inl (t, k) ↦ (true, ground arith)
        | inr (x, k) ↦ (s.shutdown_done, ground arith)
      ]

  pub end_loss-Progress :
      (s : Service) (failed : Bool) → Ok s → Progress s (end_loss p n failed s).1
  unfolding end_loss
  end_loss-Progress s failed good = elim (Option-cases s.closing) [
    | inl e ↦ subst (λ t. Progress s t) (ground arith) (Progress-refl s good)
    | inr (c, e) ↦
        let (shut, k) = end_loss-cases s failed c e in
        let h = (publish_records p n c.records c.collectors s.collectors s.admitted).1 in
        let s' = record s { admitted = h } in
        let all =
          publish_records-Progress c.records c.collectors s.collectors s
            (good.closed (ground arith)) good in
        subst (λ t. Progress s t) (sym k)
          (Progress-trans s s'
            (record s' { closing = none; shutdown_error = failed; shutdown_done = shut }) all
            (closed_ends s' failed shut all.ok))
  ]

  publish_deferred-Touches :
      (failed : Bool) (d : Deferred) (g : Generation) (ids : List String) (c : Dict Collector)
      (t h : Generation)
      → publish_deferred p n failed d g ids c t ≡ ok h
      → Touches d.operation_id t h
  unfolding publish_deferred deferred_outcome
  publish_deferred-Touches failed d g ids c t h e =
      elim (Option-cases (lookup d.operation_id t.ledger.records)) [
        | inl absent ↦ absurd (ground arith)
        | inr (r, er) ↦ elim (Bool-cases (terminal r.state)) [
          | inl settled_already ↦
              subst (λ x. Touches d.operation_id t x) (ground arith) (Touches-refl d.operation_id t)
          | inr live ↦ elim (Result-cases (deferred_result p n d r g ids c)) [
            | inr (x, k) ↦ absurd (ground arith)
            | inl (v, k) ↦
                subst (λ x. Touches d.operation_id t x) (ground arith)
                  (outcome-Touches failed d v t)
          ]
        ]
      ]

  pub settle_deferred-Progress :
      (ds : List Deferred) (old : Bool) (ids : List String) (s : Service)
      → s.available ≡ false
      → Ok s
      → Progress s (settle_deferred p n ds old ids s).1
  unfolding settle_deferred
  settle_deferred-Progress [] old ids s gone good = Progress-refl s good
  settle_deferred-Progress (d ∷ ds) old ids s gone good =
      elim (Option-cases (if old then some s.admitted else s.fresh)) [
        | inl e ↦ subst (λ t. Progress s t) (ground arith) (Progress-refl s good)
        | inr (g, e) ↦
            elim (Result-cases
              (publish_deferred p n s.shutdown_error d g ids s.collectors s.admitted)) [
                | inr (x, k) ↦ subst (λ t. Progress s t) (ground arith) (Progress-refl s good)
                | inl (h, k) ↦
                    let s' = record s { admitted = h } in
                    let first =
                      closed-Progress d.operation_id s h
                        (publish_deferred-Touches s.shutdown_error d g ids s.collectors s.admitted h
                          k)
                        gone good in
                    subst (λ t. Progress s t) (ground arith)
                      (Progress-trans s s' (settle_deferred p n ds old ids s').1 first
                        (settle_deferred-Progress ds old ids s' gone first.ok))
              ]
      ]
