-- ===== src/DirectService/Settle.antt =====
-- `_execute_prompt` of direct_service.py between its awaits: the start under the prompt lock, the
-- settlement of a native terminal or of a deadline, and the end.
pub mod Touched
use acp_proxy.Prelude.{
  ℕ, String, Bool, true, false, not, ◌&&◌, ◌||◌, Option, none, some, is_some, List, [], ◌∷◌, Result,
  ok, err, ◌>>=◌, ◌>>◌, raise_if, or_raise, member, leb, ltb, ◌==◌, if◌then◌else◌,
}
use acp_proxy.Prelude.Dict.{Dict, lookup, insert, modify}
use acp_proxy.Json.{JsonObject}
use acp_proxy.DirectState.{
  DirectError, runtime_error, SessionState, ready, non_reusable, lost, OperationState, running,
  cancelling, completed, failed, cancelled, timed_out, in_doubt, accepted, queued, terminal,
  OperationRecord, DirectSession, settled,
}
use acp_proxy.DirectProtocol.{Platform, PromptRequest}
use acp_proxy.NativeTypes.{
  NativeObservation, NativeTerminal, native_completed, native_cancelled, native_failed, observation,
}
use acp_proxy.DirectService.State.{
  Generation, Service, Deferred, on_admitted, on_record, on_session, set_state, decrement,
  is_negative, require_current_generation,
}
use acp_proxy.DirectService.Evidence.{
  PromptResult, retained_evidence, normalize_result, dump_result,
}
use acp_proxy.DirectService.Prompt.{record_instruction_submission}
use acp_proxy.DirectService.Create.{error_body}

-- How a segment of a task ends: it is through, it raised, or it goes into quarantine with a
-- settlement to publish after it.
pub data Outcome : Type 0 where
  settles : Outcome
  raises : DirectError → Outcome
  quarantines : Deferred → Outcome

-- `_release_prompt_reservation`: once for an operation, and never below zero.
unfoldable pub release_prompt_reservation :
    String → Generation → Result DirectError (Unit {0}) × Generation
release_prompt_reservation id g =
    if member id g.released_reservations
    then (ok tt, g)
    else let left = decrement g.prompt_reservations in
      (
        raise_if (is_negative left) runtime_error,
        record g {
          released_reservations = id ∷ g.released_reservations;
          prompt_reservations = left;
        },
      )

-- What the start of a prompt finds, once it holds the prompt lock.
pub data Start : Type 0 where
  already_settled generation_changed dispatches : Start

abbrev start_of : Bool → Result DirectError (Unit {0}) → Start
start_of true current = already_settled
start_of false (err e) = generation_changed
start_of false (ok _) = dispatches

abbrev is_terminal : Option OperationRecord → Bool
is_terminal none = false
is_terminal (some r) = terminal r.state

unfoldable pub start : String → Service → Start
unfolding require_current_generation
start id s =
    start_of (is_terminal (lookup id s.admitted.ledger.records)) (require_current_generation s)

-- A dispatch: the record runs, and its collector is entered.
unfoldable pub dispatch : String → Generation → Generation
dispatch id g = record (on_record id (set_state running) g) {
  collector_tasks = id ∷ g.collector_tasks;
}

-- An error body with a settlement to publish under it.
abbrev pub deferred : String → OperationState → Option JsonObject → String → String → Deferred
deferred id state result code message = record {
  operation_id = id;
  state = state;
  result = result;
  error = some (error_body code message);
}

abbrev pub set_session_state : SessionState → DirectSession → DirectSession
set_session_state state d = record d { state = state }

-- The record settled, and the session put in a state.
abbrev settle :
    String
    → String
    → SessionState
    → OperationState
    → Option JsonObject
    → Option JsonObject
    → Generation
    → Generation
settle id sid session state result error g =
    on_record id (settled state result error) (on_session sid (set_session_state session) g)

-- An outcome, and the generation that it leaves.
abbrev pub Settlement : Type 0
Settlement = Outcome × Generation

abbrev pub or_raises {ℓ} :
    {A : Type ℓ} → Result DirectError A → (A → Generation → Settlement) → Generation → Settlement
or_raises (ok a) k g = k a g
or_raises (err e) k g = (raises e, g)

-- The continuations of the settlements, after what they attach has been built.
finish_completed : String → DirectSession → PromptResult → DirectSession → Generation → Settlement
unfolding dump_result settled
finish_completed id session result submitted g = (
  settles,
  settle id session.logical_session_id ready completed (some (dump_result result)) none (
      on_session session.logical_session_id
        (λ d. record d { instructions = submitted.instructions }) g),
)

submit_completed : String → DirectSession → PromptRequest → PromptResult → Generation → Settlement
unfolding record_instruction_submission finish_completed
submit_completed id session request result g =
    or_raises (record_instruction_submission session request) (finish_completed id session result) g

finish_failed : String → String → String → JsonObject → Generation → Settlement
unfolding settled
finish_failed id code message evidence g =
    (settles, on_record id (settled failed (some evidence) (some (error_body code message))) g)

finish_cancelled : String → JsonObject → Generation → Settlement
unfolding settled
finish_cancelled id evidence g = (settles, on_record id (settled cancelled (some evidence) none) g)

finish_mismatch : String → String → String → JsonObject → Generation → Settlement
finish_mismatch id code message evidence g =
    (quarantines (deferred id in_doubt (some evidence) code message), g)

module _ (p : Platform) (valid : PromptResult → Bool) where
  -- A completed turn, by the state of its record: a cancellation that was asked for is not met.
  -- Otherwise the result, the settled instructions, and the session ready.
  settle_completed :
      OperationState
      → String
      → OperationRecord
      → DirectSession
      → PromptRequest
      → NativeObservation
      → Generation
      → Settlement
  unfolding retained_evidence normalize_result finish_mismatch submit_completed
  settle_completed cancelling id r session request o g =
      or_raises (retained_evidence p session request.invocation_id g.generation_id o)
        (finish_mismatch id "cancellation_stop_mismatch"
          "native cancellation did not settle as cancelled")
        g
  settle_completed _ id r session request o g =
      or_raises (normalize_result p valid r session request o g.generation_id)
        (submit_completed id session request) g

  -- The end of a turn whose evidence is complete.
  settle_complete :
      String
      → OperationRecord
      → DirectSession
      → PromptRequest
      → NativeTerminal
      → Generation
      → Settlement
  unfolding retained_evidence settle_completed finish_failed finish_cancelled
  settle_complete id r session request (native_failed o reason) g =
      or_raises (retained_evidence p session request.invocation_id g.generation_id o)
        (finish_failed id "native_turn_failed" "native turn failed after settlement")
        (on_session session.logical_session_id (set_session_state non_reusable) g)
  settle_complete id r session request (native_cancelled o reason) g =
      or_raises (retained_evidence p session request.invocation_id g.generation_id o)
        (finish_cancelled id)
        (on_session session.logical_session_id (set_session_state non_reusable) g)
  settle_complete id r session request (native_completed o) g =
      settle_completed r.state id r session request o g

  -- The end of a turn whose evidence is not.
  settle_incomplete :
      String → DirectSession → PromptRequest → NativeObservation → Generation → Settlement
  unfolding retained_evidence finish_failed
  settle_incomplete id session request o g =
      or_raises (retained_evidence p session request.invocation_id g.generation_id o)
        (finish_failed id "evidence_limit" "native evidence exceeded a negotiated limit")
        (on_session session.logical_session_id (set_session_state non_reusable) g)

  unfoldable pub settle_terminal :
      String
      → OperationRecord
      → DirectSession
      → PromptRequest
      → NativeTerminal
      → Generation
      → Settlement
  unfolding settle_complete settle_incomplete
  settle_terminal id r session request t g =
      let free =
        on_session session.logical_session_id (λ d. record d { active_operation_id = none }) g in
      if (observation t).complete
      then settle_complete id r session request t free
      else settle_incomplete id session request (observation t) free

  deadline_terminal : NativeTerminal → String → JsonObject → Generation → Settlement
  unfolding settled finish_mismatch
  deadline_terminal (native_cancelled o reason) id evidence g = (
    settles,
    on_record id
        (settled timed_out (some evidence)
          (some (error_body "execution_deadline" "prompt timed out")))
        g,
  )
  deadline_terminal _ id evidence g =
      finish_mismatch id "deadline_stop_mismatch"
        "deadline cancellation did not settle as cancelled" evidence g

  -- `_settle_deadline`, when the collector ends within the grace.
  unfoldable pub settle_deadline :
      String → DirectSession → PromptRequest → NativeTerminal → Generation → Settlement
  unfolding retained_evidence deadline_terminal
  settle_deadline id session request t g =
      or_raises (retained_evidence p session request.invocation_id g.generation_id (observation t))
        (deadline_terminal t id) g

-- `_settle_deadline`, when the grace runs out.
unfoldable pub deadline_unsettled : String → Deferred
deadline_unsettled id =
    deferred id in_doubt none "deadline_settlement_unknown"
      "native prompt did not settle after cancellation grace"

-- The `finally` of `_settle_deadline`.
unfoldable pub end_deadline : String → String → Generation → Generation
end_deadline id sid g = on_session sid (set_session_state non_reusable) g

abbrev lost_turn : OperationState → Bool
lost_turn cancelled = true
lost_turn timed_out = true
lost_turn in_doubt = true
lost_turn _ = false

abbrev is_lost_turn : Option OperationRecord → Bool
is_lost_turn none = false
is_lost_turn (some r) = lost_turn r.state

-- session.active_operation_id = None, if it is this operation's.
abbrev pub deactivate : String → DirectSession → DirectSession
deactivate id d = elim d.active_operation_id [
  | none ↦ d
  | some active ↦ if active == id then record d { active_operation_id = none } else d
]

-- The `finally` of `_execute_prompt`.
unfoldable pub finish_prompt :
    String → String → Bool → Generation → Result DirectError (Unit {0}) × Generation
unfolding release_prompt_reservation
finish_prompt id sid dispatched g =
    let lost_here = dispatched && is_lost_turn (lookup id g.ledger.records) in
    let state = λ (d : DirectSession).
      if g.quarantined
      then record d { state = lost }
      else if lost_here
      then record d { state = non_reusable }
      else d in
    release_prompt_reservation id (on_session sid (λ d. state (deactivate id d)) g)
