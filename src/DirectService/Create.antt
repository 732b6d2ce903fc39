-- ===== src/DirectService/Create.antt =====
-- `admit_create` of direct_service.py.
pub mod Refusals
use acp_proxy.Prelude.{
  String, Bool, true, false, not, Option, none, some, is_some, List, [], ◌∷◌, Result, ok, err, pos,
  ◌>>=◌, ◌>>◌, raise_if, member, map, length, leb, ◌==◌, if◌then◌else◌,
}
use acp_proxy.Prelude.Dict.{lookup, insert}
use acp_proxy.Json.{null, str, obj, object, JsonObject, int}
use acp_proxy.DirectState.{
  DirectError, direct_conflict, direct_limit_exceeded, direct_workspace_mismatch, create, creating,
  ready, non_reusable, completed, failed, SessionState, instructions_pending, Identity,
  OperationRecord, DirectSession, OperationState, settled,
}
use acp_proxy.DirectState.Ledger.{DirectLedger, Admission, admit}
use acp_proxy.DirectProtocol.{
  Platform, CreateSessionRequest, dump_create, dump_policy, canonical_request_digest,
}
use acp_proxy.DirectService.State.{
  NativeView, Generation, Service, Answer, check_pin, require_current_generation, on_admitted,
  on_record, on_session,
}

-- {"code": code, "message": message}
abbrev pub error_body : String → String → JsonObject
error_body code message = object (("code", str code) ∷ ("message", str message) ∷ [])

-- Of a generation: no session has the id, and there is room for one more.
unfoldable pub session_room : String → Service → Result DirectError (Unit {0})
session_room logical_session_id s = do
  raise_if (is_some (lookup logical_session_id s.admitted.sessions)) direct_conflict
  raise_if (leb s.limits.max_sessions (length s.admitted.sessions)) direct_limit_exceeded

module _ (p : Platform) where
  unfoldable pub create_identity : CreateSessionRequest → Identity
  unfolding dump_create canonical_request_digest
  create_identity request = record {
    digest = canonical_request_digest p (dump_create request);
    kind = create;
    logical_session_id = some request.logical_session_id;
    invocation_id = none;
    target_operation_id = none;
  }

  -- DirectSession(...)
  unfoldable pub new_session : CreateSessionRequest → DirectSession
  unfolding dump_policy canonical_request_digest
  new_session request = record {
    logical_session_id = request.logical_session_id;
    actor_ref = request.actor_ref;
    title = request.title;
    model_id = request.model_id;
    stable_instruction_digest = request.stable_instruction_digest;
    permission_policy_digest = canonical_request_digest p (dump_policy request.permission_policy);
    state = creating;
    active_operation_id = none;
    instructions = instructions_pending;
  }

  created_result : String → DirectSession → JsonObject
  created_result generation_id session = object (
      ("logical_session_id", str session.logical_session_id)
      ∷ ("backend_session_id", null)
      ∷ ("binding_state", str "allocated")
      ∷ ("model_id", str session.model_id)
      ∷ ("stable_instruction_digest", str session.stable_instruction_digest)
      ∷ ("permission_policy_digest", str session.permission_policy_digest)
      ∷ ("continuity_generation_id", str generation_id)
      ∷ [])

  -- The session and the record after `allocate_session` has returned or raised.
  unfoldable pub allocate : Bool → DirectSession → OperationRecord → Generation → Generation
  unfolding created_result settled
  allocate true session r g =
      on_record r.operation_id
        (settled completed (some (created_result g.generation_id session)) none)
        (on_session session.logical_session_id (λ d. record d { state = ready }) g)
  allocate false session r g =
      on_record r.operation_id
        (settled failed none
          (some (error_body "session_allocation_failed" "native session allocation failed")))
        (on_session session.logical_session_id (λ d. record d { state = non_reusable }) g)

  -- The session of a new operation, entered and allocated.
  unfoldable pub open_session :
      NativeView → CreateSessionRequest → OperationRecord → Generation → Generation
  unfolding new_session allocate
  open_session n request r g =
      let session = new_session request in
      allocate (n.allocates session.logical_session_id) session r
        (record g { sessions = insert session.logical_session_id session g.sessions })

  -- After the admission of the operation: a replay changes nothing more.
  unfoldable pub create_admitted :
      NativeView → CreateSessionRequest → Admission × DirectLedger → Service → Answer × Service
  unfolding open_session
  create_admitted n request (ok (r, true), l) s = (
    ok (r.operation_id, true),
    on_admitted (λ g. open_session n request r (record g { ledger = l })) s,
  )
  create_admitted n request (ok (r, false), l) s =
      (ok (r.operation_id, false), on_admitted (λ g. record g { ledger = l }) s)
  create_admitted n request (err e, l) s = (err e, on_admitted (λ g. record g { ledger = l }) s)

  -- What is checked before the ledger: the generation, and the room of an operation that is new.
  unfoldable pub create_checks : CreateSessionRequest → Service → Result DirectError (Unit {0})
  unfolding require_current_generation session_room
  create_checks request s = do
    require_current_generation s
    let known = is_some (lookup request.operation_id s.admitted.ledger.records)
    if known then ok tt else session_room request.logical_session_id s

  -- Under the state lock.
  unfoldable pub create_locked : NativeView → CreateSessionRequest → Service → Answer × Service
  unfolding create_checks create_admitted
  create_locked n request s = elim (create_checks request s) [
    | err e ↦ (err e, s)
    | ok _ ↦
        create_admitted n request
          (admit request.operation_id (create_identity request) s.admitted.ledger) s
  ]

  -- Before the state lock.
  unfoldable pub create_entry :
      NativeView → CreateSessionRequest → Service → Result DirectError (Unit {0})
  unfolding check_pin
  create_entry n request s = do
    check_pin n request.pinned s
    raise_if (not (p.realpath request.expected_canonical_workspace == s.canonical_workspace))
        direct_workspace_mismatch
    raise_if (not (member request.model_id (map (λ m. m.id) n.models))) direct_conflict

  unfoldable pub admit_create : NativeView → CreateSessionRequest → Service → Answer × Service
  unfolding create_entry create_locked
  admit_create n request s = elim (create_entry n request s) [
    | err e ↦ (err e, s)
    | ok _ ↦ create_locked n request s
  ]
