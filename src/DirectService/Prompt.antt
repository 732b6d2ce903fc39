-- ===== src/DirectService/Prompt.antt =====
-- `admit_prompt` of direct_service.py, with the checks of a prompt's limits and lifetime.
pub mod Refusals
pub mod Exclusion
pub mod Lifetime
use acp_proxy.Prelude.{
  ℕ, String, Bool, true, false, not, ◌&&◌, ◌||◌, Option, none, some, is_some, List, [], ◌∷◌, ◌++◌,
  Result, ok, err, ◌>>=◌, ◌>>◌, raise_if, or_raise, member, leb, ltb, ◌==◌, if◌then◌else◌,
}
use Prim.Native.String.{len, ◌++◌ as str_append}
use acp_proxy.Prelude.Dict.{Dict, lookup}
use acp_proxy.DirectState.{
  DirectError, direct_conflict, direct_not_found, direct_limit_exceeded, direct_busy,
  assertion_error, prompt, SessionState, creating, ready, busy, non_reusable, lost, retiring,
  retired, InstructionState, instructions_pending, submitted, InstructionsSubmitted,
  instructions_submitted, contract_for, Identity, OperationRecord, DirectSession, OperationState,
  queued,
}
use acp_proxy.DirectState.Ledger.{DirectLedger, Admission, admit, same_text}
use acp_proxy.DirectProtocol.{
  Platform, DirectLimits, PromptRequest, PromptPhase, initial, invocation, correction, continuation,
  dump_prompt, canonical_request_digest, sha256_text,
}
use acp_proxy.DirectService.State.{
  NativeView, Generation, Service, Answer, execute_prompt, schedule, check_pin,
  require_current_generation, on_admitted, on_record, on_session, set_state, increment, is_positive,
  queued_count,
}

infixr 65 ◌⧺◌
abbrev pub ◌⧺◌ : String → String → String
a ⧺ b = str_append a b

-- The layers of a phase, where a missing layer fails an assertion.
unfoldable pub render_layers : PromptPhase → PromptRequest → Result DirectError String
render_layers initial r = do
  instructions ← or_raise r.stable_instructions assertion_error
  text ← or_raise r.prompt assertion_error
  contract ← or_raise r.output_contract assertion_error
  ok (instructions ⧺ "\n\n" ⧺ text ⧺ "\n\n" ⧺ contract)
render_layers invocation r = do
  text ← or_raise r.prompt assertion_error
  contract ← or_raise r.output_contract assertion_error
  ok (text ⧺ "\n\n" ⧺ contract)
render_layers _ r = or_raise r.delta assertion_error

unfoldable pub render_prompt : PromptRequest → Result DirectError String
unfolding render_layers
render_prompt r = render_layers r.phase r

unfoldable pub check_prompt_limits : DirectLimits → PromptRequest → Result DirectError (Unit {0})
unfolding render_prompt
check_prompt_limits limits r = do
  raise_if (ltb limits.max_execution_timeout_s r.execution_timeout_s) direct_limit_exceeded
  text ← render_prompt r
  raise_if (ltb limits.max_prompt_bytes (len text)) direct_limit_exceeded

unfoldable pub is_ready : SessionState → Bool
is_ready ready = true
is_ready _ = false

unfoldable pub is_busy : SessionState → Bool
is_busy busy = true
is_busy _ = false

unfoldable pub find_session : String → Service → Result DirectError DirectSession
find_session id s = or_raise (lookup id s.admitted.sessions) direct_not_found

unfoldable pub session_for_new_work : String → Service → Result DirectError DirectSession
unfolding find_session is_ready
session_for_new_work id s = do
  session ← find_session id s
  raise_if (not (is_ready session.state)) direct_conflict
  ok session

module _ (p : Platform) where
  -- The checks of a phase against the instructions that the session has settled.
  unfoldable pub phase_lifetime :
      PromptPhase → InstructionState → DirectSession → PromptRequest → Result DirectError (Unit {0})
  unfolding sha256_text contract_for
  phase_lifetime initial (submitted i) session r = err direct_conflict
  phase_lifetime initial instructions_pending session r = do
    instructions ← or_raise r.stable_instructions assertion_error
    raise_if (not (sha256_text p instructions == session.stable_instruction_digest)) direct_conflict
  phase_lifetime _ instructions_pending session r = err direct_conflict
  phase_lifetime invocation (submitted i) session r =
      raise_if (is_some (contract_for i r.invocation_id)) direct_conflict
  phase_lifetime _ (submitted i) session r = do
    raise_if (not (is_some (contract_for i r.invocation_id))) direct_conflict
    raise_if (not (r.invocation_id == i.active_invocation_id)) direct_conflict
    raise_if (not (same_text (contract_for i r.invocation_id) (some r.output_contract_digest)))
        direct_conflict

  unfoldable pub contract_matches : Option String → PromptRequest → Result DirectError (Unit {0})
  unfolding sha256_text
  contract_matches none r = ok tt
  contract_matches (some contract) r =
      raise_if (not (sha256_text p contract == r.output_contract_digest)) direct_conflict

  unfoldable pub validate_prompt_lifetime :
      DirectSession → PromptRequest → Result DirectError (Unit {0})
  unfolding phase_lifetime contract_matches
  validate_prompt_lifetime session r = do
    raise_if (not (r.stable_instruction_digest == session.stable_instruction_digest))
        direct_conflict
    phase_lifetime r.phase session.instructions session r
    contract_matches r.output_contract r

  unfoldable pub prompt_identity : String → PromptRequest → Identity
  unfolding dump_prompt canonical_request_digest
  prompt_identity logical_session_id r = record {
    digest = canonical_request_digest p (dump_prompt r);
    kind = prompt;
    logical_session_id = some logical_session_id;
    invocation_id = some r.invocation_id;
    target_operation_id = none;
  }

  -- No active prompt, a session for new work, a valid lifetime, and room in the queue.
  unfoldable pub prompt_checks : String → PromptRequest → Service → Result DirectError (Unit {0})
  unfolding find_session is_busy session_for_new_work validate_prompt_lifetime
  prompt_checks id r s = do
    candidate ← find_session id s
    raise_if (is_some candidate.active_operation_id || is_busy candidate.state) direct_busy
    session ← session_for_new_work id s
    validate_prompt_lifetime session r
    let reservations = s.admitted.prompt_reservations
    raise_if
        (is_positive reservations && leb s.limits.max_queued_prompts (queued_count reservations))
        direct_limit_exceeded

  -- The reservation of an admitted prompt: its session is busy, and it is queued behind others.
  unfoldable pub reserve : String → String → Generation → Generation
  reserve id operation_id g =
      let waiting =
        if is_positive g.prompt_reservations
        then on_record operation_id (set_state queued) g
        else g in
      on_session id (λ d. record d { active_operation_id = some operation_id; state = busy })
        (record waiting { prompt_reservations = increment g.prompt_reservations })

  unfoldable pub prompt_admitted :
      String → PromptRequest → Admission × DirectLedger → Service → Answer × Service
  unfolding reserve
  prompt_admitted id r (ok (o, created), l) s = (
    ok (o.operation_id, created),
    on_admitted
        (λ g.
          schedule r.operation_id (execute_prompt id r)
            (reserve id r.operation_id (record g { ledger = l })))
        s,
  )
  prompt_admitted id r (err e, l) s = (err e, on_admitted (λ g. record g { ledger = l }) s)

  -- An operation id that is known: a replay or a conflict.
  unfoldable pub prompt_known : String → PromptRequest → Service → Answer × Service
  prompt_known id r s =
      let (a, l) = admit r.operation_id (prompt_identity id r) s.admitted.ledger in
      (
        elim a [ ok (o, created) ↦ ok (o.operation_id, false) | err e ↦ err e ],
        on_admitted (λ g. record g { ledger = l }) s,
      )

  -- An operation id that is not.
  unfoldable pub prompt_new : String → PromptRequest → Service → Answer × Service
  unfolding prompt_checks prompt_admitted
  prompt_new id r s = elim (prompt_checks id r s) [
    | err e ↦ (err e, s)
    | ok _ ↦ prompt_admitted id r (admit r.operation_id (prompt_identity id r) s.admitted.ledger) s
  ]

  -- Under the state lock.
  unfoldable pub prompt_locked : String → PromptRequest → Service → Answer × Service
  unfolding require_current_generation prompt_known prompt_new
  prompt_locked id r s = elim (require_current_generation s) [
    | err e ↦ (err e, s)
    | ok _ ↦
        if is_some (lookup r.operation_id s.admitted.ledger.records)
        then prompt_known id r s
        else prompt_new id r s
  ]

  unfoldable pub prompt_entry : NativeView → PromptRequest → Service → Result DirectError (Unit {0})
  unfolding check_pin check_prompt_limits
  prompt_entry n r s = do check_pin n r.pinned s; check_prompt_limits s.limits r

  unfoldable pub admit_prompt : NativeView → String → PromptRequest → Service → Answer × Service
  unfolding prompt_entry prompt_locked
  admit_prompt n id r s = elim (prompt_entry n r s) [
    | err e ↦ (err e, s)
    | ok _ ↦ prompt_locked id r s
  ]

-- `_record_instruction_submission`: a delta submits nothing.
unfoldable pub submit :
    PromptPhase → InstructionState → PromptRequest → Result DirectError InstructionState
unfolding instructions_submitted
submit initial _ r = do
  i ← instructions_submitted r.invocation_id ((r.invocation_id, r.output_contract_digest) ∷ [])
  ok (submitted i)
submit invocation instructions_pending r = err assertion_error
submit invocation (submitted old) r = do
  i ←
      instructions_submitted r.invocation_id
        (old.contract_digests ++ (r.invocation_id, r.output_contract_digest) ∷ [])
  ok (submitted i)
submit _ i r = ok i

unfoldable pub record_instruction_submission :
    DirectSession → PromptRequest → Result DirectError DirectSession
unfolding submit
record_instruction_submission session r = do
  i ← submit r.phase session.instructions r
  ok (record session { instructions = i })
