-- ===== src/DirectService/Settle/Touched.antt =====
-- The settlements of a prompt's task touch, of the ledger, its own record only.
use acp_proxy.Prelude.{String, Bool, some, none}
use acp_proxy.Json.{JsonObject}
use acp_proxy.DirectState.{
  SessionState, OperationState, cancelling, completed, OperationRecord, DirectSession,
}
use acp_proxy.DirectProtocol.{Platform, PromptRequest}
use acp_proxy.NativeTypes.{
  NativeTerminal, native_completed, native_cancelled, native_failed, NativeObservation, observation,
}
use acp_proxy.DirectService.State.{Generation, on_session}
use acp_proxy.DirectService.Evidence.{
  PromptResult, retained_evidence, normalize_result, dump_result,
}
use acp_proxy.DirectService.Prompt.{record_instruction_submission}
use acp_proxy.DirectService.Settle.{
  finish_completed, submit_completed, finish_failed, finish_cancelled, finish_mismatch,
  settle_completed, settle_complete, settle_incomplete, settle_terminal, deadline_terminal,
  settle_deadline, set_session_state,
}
use acp_proxy.DirectService.Touches.{
  Touches, Touches-refl, Touches-session, Touches-settled, Touches-or_raises, Touches-if, touches,
}

module _ (id : String) (g h : Generation) (t : Touches id g h) where
  completed-Touches :
      (d : DirectSession) (r : PromptResult) (e : DirectSession)
      → Touches id g (finish_completed id d r e h).1
  unfolding finish_completed
  completed-Touches d r e =
      let sid = d.logical_session_id in
      let keep = λ (x : DirectSession). record x { instructions = e.instructions } in
      Touches-settled id completed (some (dump_result r)) none g
        (on_session sid (set_session_state SessionState.ready) (on_session sid keep h))
        (Touches-session id sid (set_session_state SessionState.ready) g (on_session sid keep h)
          (Touches-session id sid keep g h t))

  submit-Touches :
      (d : DirectSession) (q : PromptRequest) (r : PromptResult)
      → Touches id g (submit_completed id d q r h).1
  unfolding submit_completed
  submit-Touches d q r =
      Touches-or_raises id g h (record_instruction_submission d q) (finish_completed id d r) t
        (completed-Touches d r)

  failed-Touches :
      (code message : String) (e : JsonObject) → Touches id g (finish_failed id code message e h).1
  unfolding finish_failed
  failed-Touches code message e = search (touches, t)

  cancelled-Touches : (e : JsonObject) → Touches id g (finish_cancelled id e h).1
  unfolding finish_cancelled
  cancelled-Touches e = search (touches, t)

  mismatch-Touches :
      (code message : String) (e : JsonObject)
      → Touches id g (finish_mismatch id code message e h).1
  unfolding finish_mismatch
  mismatch-Touches code message e = t

  deadline-Touches :
      (p : Platform) (valid : PromptResult → Bool) (n : NativeTerminal) (e : JsonObject)
      → Touches id g (deadline_terminal p valid n id e h).1
  unfolding deadline_terminal
  deadline-Touches p valid (native_cancelled o reason) e = search (touches, t)
  deadline-Touches p valid (native_completed o) e = t
  deadline-Touches p valid (native_failed o reason) e = t

module _ (p : Platform) (valid : PromptResult → Bool) (id : String) (d : DirectSession)
    (q : PromptRequest) (g : Generation) where
  settle_completed-Touches :
      (st : OperationState) (r : OperationRecord) (o : NativeObservation) (h : Generation)
      → Touches id g h
      → Touches id g (settle_completed p valid st id r d q o h).1
  unfolding settle_completed
  settle_completed-Touches cancelling r o h t =
      Touches-or_raises id g h (retained_evidence p d q.invocation_id h.generation_id o)
        (finish_mismatch id "cancellation_stop_mismatch"
          "native cancellation did not settle as cancelled")
        t
        (mismatch-Touches id g h t "cancellation_stop_mismatch"
          "native cancellation did not settle as cancelled")
  settle_completed-Touches _ r o h t =
      Touches-or_raises id g h (normalize_result p valid r d q o h.generation_id)
        (submit_completed id d q) t (submit-Touches id g h t d q)

  settle_complete-Touches :
      (n : NativeTerminal) (r : OperationRecord) (h : Generation)
      → Touches id g h
      → Touches id g (settle_complete p valid id r d q n h).1
  unfolding settle_complete
  settle_complete-Touches (native_completed o) r h t = settle_completed-Touches r.state r o h t
  settle_complete-Touches (native_cancelled o reason) r h t =
      let spoiled =
        on_session d.logical_session_id (set_session_state SessionState.non_reusable) h in
      let u =
        Touches-session id d.logical_session_id (set_session_state SessionState.non_reusable) g h
          t in
      Touches-or_raises id g spoiled (retained_evidence p d q.invocation_id h.generation_id o)
        (finish_cancelled id) u (cancelled-Touches id g spoiled u)
  settle_complete-Touches (native_failed o reason) r h t =
      let spoiled =
        on_session d.logical_session_id (set_session_state SessionState.non_reusable) h in
      let u =
        Touches-session id d.logical_session_id (set_session_state SessionState.non_reusable) g h
          t in
      Touches-or_raises id g spoiled (retained_evidence p d q.invocation_id h.generation_id o)
        (finish_failed id "native_turn_failed" "native turn failed after settlement") u
        (failed-Touches id g spoiled u "native_turn_failed" "native turn failed after settlement")

  settle_incomplete-Touches :
      (o : NativeObservation) (h : Generation)
      → Touches id g h
      → Touches id g (settle_incomplete p valid id d q o h).1
  unfolding settle_incomplete
  settle_incomplete-Touches o h t =
      let spoiled =
        on_session d.logical_session_id (set_session_state SessionState.non_reusable) h in
      let u =
        Touches-session id d.logical_session_id (set_session_state SessionState.non_reusable) g h
          t in
      Touches-or_raises id g spoiled (retained_evidence p d q.invocation_id h.generation_id o)
        (finish_failed id "evidence_limit" "native evidence exceeded a negotiated limit") u
        (failed-Touches id g spoiled u "evidence_limit"
          "native evidence exceeded a negotiated limit")

  pub settle_terminal-Touches :
      (r : OperationRecord) (n : NativeTerminal)
      → Touches id g (settle_terminal p valid id r d q n g).1
  unfolding settle_terminal
  settle_terminal-Touches r n =
      let free = on_session d.logical_session_id (λ e. record e { active_operation_id = none }) g in
      let t =
        Touches-session id d.logical_session_id (λ e. record e { active_operation_id = none }) g g
          (Touches-refl id g) in
      Touches-if id g (observation n).complete (settle_complete p valid id r d q n free)
        (settle_incomplete p valid id d q (observation n) free) (settle_complete-Touches n r free t)
        (settle_incomplete-Touches (observation n) free t)

  pub settle_deadline-Touches :
      (n : NativeTerminal) → Touches id g (settle_deadline p valid id d q n g).1
  unfolding settle_deadline
  settle_deadline-Touches n =
      Touches-or_raises id g g
        (retained_evidence p d q.invocation_id g.generation_id (observation n))
        (deadline_terminal p valid n id) (Touches-refl id g)
        (deadline-Touches id g g (Touches-refl id g) p valid n)
