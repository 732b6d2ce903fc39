-- ===== src/DirectService/Retire.antt =====
-- `admit_retire` of direct_service.py, and `_execute_retire` between its awaits.
pub mod Touched
pub mod Refusals
use acp_proxy.Prelude.{
  String, Bool, true, false, not, Option, none, some, is_some, List, [], ◌∷◌, Result, ok, err,
  ◌>>=◌, ◌>>◌, raise_if, or_raise, ◌==◌, if◌then◌else◌,
}
use acp_proxy.Prelude.Dict.{lookup}
use acp_proxy.Json.{JsonObject, str, object}
use acp_proxy.DirectState.{
  DirectError, direct_conflict, direct_not_found, retire, SessionState, retiring, retired, running,
  completed, in_doubt, Identity, OperationRecord, DirectSession, settled,
}
use acp_proxy.DirectState.Ledger.{DirectLedger, Admission, admit}
use acp_proxy.DirectProtocol.{
  Platform, optional, RetireSessionRequest, dump_retire, canonical_request_digest,
}
use acp_proxy.NativeTypes.{NativeBinding, allocated_binding, conversation_binding, conversation_id}
use acp_proxy.DirectService.State.{
  NativeView, Generation, Service, Answer, Deferred, execute_retire, schedule, check_pin,
  require_current_generation, on_admitted, on_record, on_session, set_state,
}
use acp_proxy.DirectService.Settle.{deferred, deactivate}

abbrev is_retired : SessionState → Bool
is_retired retired = true
is_retired _ = false

-- The session of a new retirement: known, not retired, and without active work.
unfoldable pub retire_checks : String → Service → Result DirectError (Unit {0})
retire_checks sid s = do
  session ← or_raise (lookup sid s.admitted.sessions) direct_not_found
  raise_if (is_retired session.state) direct_conflict
  raise_if (is_some session.active_operation_id) direct_conflict

unfoldable pub retire_admitted :
    String → String → Admission × DirectLedger → Service → Answer × Service
retire_admitted id sid (ok (r, created), l) s = (
  ok (r.operation_id, true),
  on_admitted
      (λ g. schedule id (execute_retire sid) (
        on_session sid
          (λ d. record d { state = retiring; active_operation_id = some r.operation_id })
          (record g { ledger = l })))
      s,
)
retire_admitted id sid (err e, l) s = (err e, on_admitted (λ g. record g { ledger = l }) s)

-- An operation id that is known: a replay or a conflict.
unfoldable pub retire_known : Admission × DirectLedger → Service → Answer × Service
retire_known (ok (r, created), l) s =
    (ok (r.operation_id, false), on_admitted (λ g. record g { ledger = l }) s)
retire_known (err e, l) s = (err e, on_admitted (λ g. record g { ledger = l }) s)

unfoldable pub retire_entry :
    NativeView → RetireSessionRequest → Service → Result DirectError (Unit {0})
unfolding check_pin require_current_generation
retire_entry n request s = do check_pin n request.pinned s; require_current_generation s

module _ (p : Platform) where
  unfoldable pub retire_identity : RetireSessionRequest → Identity
  unfolding dump_retire canonical_request_digest
  retire_identity request = record {
    digest = canonical_request_digest p (dump_retire request);
    kind = retire;
    logical_session_id = some request.logical_session_id;
    invocation_id = none;
    target_operation_id = none;
  }

  unfoldable pub retire_new : RetireSessionRequest → Service → Answer × Service
  unfolding retire_checks retire_admitted
  retire_new request s = elim (retire_checks request.logical_session_id s) [
    | err e ↦ (err e, s)
    | ok _ ↦
        retire_admitted request.operation_id request.logical_session_id
          (admit request.operation_id (retire_identity request) s.admitted.ledger) s
  ]

  unfoldable pub admit_retire : NativeView → RetireSessionRequest → Service → Answer × Service
  unfolding retire_entry retire_known retire_new
  admit_retire n request s = elim (retire_entry n request s) [
    | err e ↦ (err e, s)
    | ok _ ↦
        if is_some (lookup request.operation_id s.admitted.ledger.records)
        then retire_known (admit request.operation_id (retire_identity request) s.admitted.ledger) s
        else retire_new request s
  ]

-- The start of `_execute_retire`.
unfoldable pub start_retire : String → Generation → Generation
start_retire id g = on_record id (set_state running) g

abbrev backend_close : NativeBinding → String
backend_close (allocated_binding s m) = "not_created"
backend_close (conversation_binding s m c t) = "destroyed"

retired_result : String → NativeBinding → JsonObject
retired_result sid binding = object (
    ("logical_session_id", str sid)
    ∷ ("backend_session_id", optional (conversation_id binding))
    ∷ ("backend_close", str (backend_close binding))
    ∷ [])

-- The native client has retired the session.
unfoldable pub end_retire : String → String → NativeBinding → Generation → Generation
unfolding settled retired_result
end_retire id sid binding g =
    on_record id (settled completed (some (retired_result sid binding)) none)
      (on_session sid (λ d. record d { state = retired }) g)

unfoldable pub retire_unsettled : String → Deferred
retire_unsettled id =
    deferred id in_doubt none "retirement_in_doubt" "native retirement did not settle"

-- The `finally` of `_execute_retire`.
unfoldable pub finish_retire : String → String → Generation → Generation
finish_retire id sid g = on_session sid (deactivate id) g
