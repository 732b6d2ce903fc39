-- ===== src/DirectService/Cancel.antt =====
-- `admit_cancel` of direct_service.py, and `_execute_cancel` between its awaits.
pub mod Touched
use acp_proxy.Prelude.{
  ℕ, String, Bool, true, false, not, ◌&&◌, ◌||◌, Option, none, some, is_some, List, [], ◌∷◌, Result,
  ok, err, ◌>>=◌, ◌>>◌, raise_if, or_raise, member, ◌==◌, if◌then◌else◌,
}
use acp_proxy.Prelude.Dict.{Dict, lookup}
use acp_proxy.Json.{JsonObject, bool, str, object}
use acp_proxy.DirectState.{
  DirectError, direct_conflict, key_error, OperationKind, prompt, cancel, ready, non_reusable,
  OperationState, accepted, queued, running, cancelling, completed, failed, cancelled, timed_out,
  in_doubt, terminal, Identity, OperationRecord, DirectSession, settled,
}
use acp_proxy.DirectState.Ledger as LedgerModule
use acp_proxy.DirectState.Ledger.{DirectLedger, Admission, admit}
use acp_proxy.DirectProtocol.{Platform, CancelRequest, dump_cancel, canonical_request_digest}
use acp_proxy.DirectService.State.{
  NativeView, Generation, Service, Answer, Deferred, execute_cancel, schedule, check_pin,
  require_current_generation, on_admitted, on_record, on_session, set_state,
}
use acp_proxy.DirectService.Settle.{release_prompt_reservation, deferred}

abbrev pub state_value : OperationState → String
state_value accepted = "accepted"
state_value queued = "queued"
state_value running = "running"
state_value cancelling = "cancelling"
state_value completed = "completed"
state_value failed = "failed"
state_value cancelled = "cancelled"
state_value timed_out = "timed_out"
state_value in_doubt = "in_doubt"

-- {"target_state": state, "cancel_sent": sent}
abbrev pub cancel_result : String → Bool → JsonObject
cancel_result target_state sent =
    object (("target_state", str target_state) ∷ ("cancel_sent", bool sent) ∷ [])

abbrev pub is_prompt : OperationKind → Bool
is_prompt prompt = true
is_prompt _ = false

-- `logical_session_id or ""`
abbrev pub session_key : Option String → String
session_key none = ""
session_key (some id) = id

-- A prompt that has not been dispatched is cancelled on the spot.
unfoldable pub pre_dispatch : String → OperationRecord → Generation → Answer × Generation
unfolding release_prompt_reservation settled
pre_dispatch id target g = elim (lookup (session_key target.logical_session_id) g.sessions) [
  | none ↦ (err key_error, g)
  | some session ↦
      let freed =
        on_session (session_key target.logical_session_id)
          (λ d. record d { active_operation_id = none; state = ready })
          (on_record target.operation_id
            (settled cancelled (some (object (("cancelled_pre_dispatch", bool true) ∷ []))) none)
            g) in
      let (released, h) = release_prompt_reservation target.operation_id freed in
      elim released [
        | err e ↦ (err e, h)
        | ok _ ↦ (
          ok (id, true),
          on_record id (settled completed (some (cancel_result "cancelled" false)) none) h,
        )
      ]
]

-- What a new cancellation does, by the state of its target.
unfoldable pub cancel_target :
    OperationState → String → OperationRecord → Generation → Answer × Generation
unfolding pre_dispatch settled
cancel_target accepted id target g = pre_dispatch id target g
cancel_target queued id target g = pre_dispatch id target g
cancel_target state id target g =
    if terminal state
    then (
      ok (id, true),
      on_record id (settled completed (some (cancel_result (state_value state) false)) none) g,
    )
    else (
      ok (id, true),
      schedule id (execute_cancel target.operation_id (session_key target.logical_session_id))
          (on_record target.operation_id (set_state cancelling) g),
    )

unfoldable pub cancel_admitted :
    String → OperationRecord → Admission × DirectLedger → Service → Answer × Service
unfolding cancel_target
cancel_admitted id target (ok (r, true), l) s =
    let (a, g) = cancel_target target.state id target (record s.admitted { ledger = l }) in
    (a, record s { admitted = g })
cancel_admitted id target (ok (r, false), l) s =
    (ok (r.operation_id, false), on_admitted (λ g. record g { ledger = l }) s)
cancel_admitted id target (err e, l) s = (err e, on_admitted (λ g. record g { ledger = l }) s)

-- The pin, the generation, and a target that is a prompt.
unfoldable pub cancel_checks :
    NativeView → CancelRequest → Service → Result DirectError OperationRecord
unfolding check_pin require_current_generation LedgerModule.get
cancel_checks n request s = do
  check_pin n request.pinned s
  require_current_generation s
  target ← LedgerModule.get request.target_operation_id s.admitted.ledger
  raise_if (not (is_prompt target.kind)) direct_conflict
  ok target

module _ (p : Platform) where
  unfoldable pub cancel_identity : CancelRequest → OperationRecord → Identity
  unfolding dump_cancel canonical_request_digest
  cancel_identity request target = record {
    digest = canonical_request_digest p (dump_cancel request);
    kind = cancel;
    logical_session_id = target.logical_session_id;
    invocation_id = none;
    target_operation_id = some target.operation_id;
  }

  unfoldable pub admit_cancel : NativeView → CancelRequest → Service → Answer × Service
  unfolding cancel_checks cancel_admitted
  admit_cancel n request s = elim (cancel_checks n request s) [
    | err e ↦ (err e, s)
    | ok target ↦
        cancel_admitted request.operation_id target
          (admit request.operation_id (cancel_identity request target) s.admitted.ledger) s
  ]

-- The start of `_execute_cancel`.
unfoldable pub start_cancel : String → Generation → Generation
start_cancel id g = on_record id (set_state running) g

end_cancel_of : Option OperationRecord → String → Generation → Generation
unfolding settled
end_cancel_of none id g = g
end_cancel_of (some target) id g =
    on_record id (settled completed (some (cancel_result (state_value target.state) true)) none) g

-- The end of `_execute_cancel`, once its target has settled.
unfoldable pub end_cancel : String → String → Generation → Generation
unfolding end_cancel_of
end_cancel id target g = end_cancel_of (lookup target g.ledger.records) id g

-- The session of a cancellation that failed is not used again.
unfoldable pub spoil_session : String → Generation → Generation
spoil_session sid g = on_session sid (λ d. record d { state = non_reusable }) g

-- What `_execute_cancel` defers if its target does not settle, and if the transport fails.
unfoldable pub cancel_unsettled : String → String → List Deferred
cancel_unsettled id target =
    deferred target in_doubt none "cancellation_settlement_unknown"
      "native prompt did not settle after cancellation grace"
    ∷ record {
      operation_id = id;
      state = completed;
      result = some (cancel_result "in_doubt" true);
      error = none;
    }
    ∷ []

unfoldable pub cancel_failed : String → String → List Deferred
cancel_failed id target =
    deferred target in_doubt none "cancel_transport_failed" "native cancellation transport failed"
    ∷ deferred id failed none "cancel_failed" "native cancellation failed"
    ∷ []
