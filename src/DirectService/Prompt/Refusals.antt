-- ===== src/DirectService/Prompt/Refusals.antt =====
-- What `admit_prompt` and the checks before it refuse.
use acp_proxy.Prelude.{
  String, ◌≡◌, refl, Bool, true, false, some, is_some, ok, err, arith, inl, inr, Result-cases,
  if◌then◌else◌,
}
use acp_proxy.Prelude.Dict.{lookup}
use acp_proxy.DirectState.{DirectError, OperationRecord, Identity}
use acp_proxy.DirectState.Ledger.{DirectLedger, Admission, admit}
use acp_proxy.DirectState.Ledger.Laws.{
  Admits, replayed, conflicting, exhausted, added, admit-Admits,
}
use acp_proxy.DirectProtocol.{
  Platform, PromptRequest, PromptPhase, initial, invocation, correction, continuation,
  validate_layers, layers_for,
}
use acp_proxy.DirectService.State.{Answer, NativeView, Service, require_current_generation}
use acp_proxy.DirectService.Refused.{Refuses, Refuses-check, by_check, by_branch}
use acp_proxy.DirectService.Prompt.{
  prompt_entry, prompt_checks, prompt_identity, prompt_admitted, prompt_known, prompt_new,
  prompt_locked, admit_prompt, render_prompt, render_layers,
}

module _ (p : Platform) (n : NativeView) (sid : String) (request : PromptRequest)
    (s : Service) where
  refused_new :
      (e : DirectError) (c : Identity) (a : Admission × DirectLedger)
      → Admits request.operation_id c s.admitted.ledger a
      → (prompt_admitted p sid request a s).0 ≡ err e
      → (prompt_admitted p sid request a s).1 ≡ s
  unfolding prompt_admitted
  refused_new e c a (replayed r h q u) k = ground arith
  refused_new e c a (conflicting r h q u) k = ground arith
  refused_new e c a (exhausted h q u) k = ground arith
  refused_new e c a (added h q u) k = ground arith

  -- An operation that the ledger has.
  known-Refuses :
      (c : Identity)
      → Admits request.operation_id c s.admitted.ledger
          (admit request.operation_id (prompt_identity p sid request) s.admitted.ledger)
      → is_some (lookup request.operation_id s.admitted.ledger.records) ≡ true
      → Refuses s (prompt_known p sid request s)
  unfolding prompt_known
  known-Refuses c (replayed r h q u) k e x = ground arith
  known-Refuses c (conflicting r h q u) k e x = ground arith
  known-Refuses c (exhausted h q u) k e x = ground arith
  known-Refuses c (added h q u) k e x = ground arith

  locked-Refuses : Refuses s (prompt_locked p sid request s)
  unfolding prompt_locked prompt_new
  locked-Refuses =
      let c = prompt_identity p sid request in
      let a = admit request.operation_id c s.admitted.ledger in
      let m = admit-Admits request.operation_id c s.admitted.ledger in
      Refuses-check s (require_current_generation s)
        (λ y.
          if is_some (lookup request.operation_id s.admitted.ledger.records)
          then prompt_known p sid request s
          else prompt_new p sid request s)
        (λ y k.
          by_branch (Refuses s) (is_some (lookup request.operation_id s.admitted.ledger.records))
            (prompt_known p sid request s) (prompt_new p sid request s) (known-Refuses c m)
            (λ new.
              Refuses-check s (prompt_checks p sid request s)
                (λ z. prompt_admitted p sid request a s) (λ z q e. refused_new e c a m)))

  -- A refused prompt leaves the whole service as it was: no record, no reservation, no task, and the
  -- session untouched.
  pub admit_prompt-refused :
      (e : DirectError)
      → (admit_prompt p n sid request s).0 ≡ err e
      → (admit_prompt p n sid request s).1 ≡ s
  unfolding admit_prompt
  admit_prompt-refused =
      Refuses-check s (prompt_entry p n request s) (λ x. prompt_locked p sid request s)
        (λ x k. locked-Refuses)

  -- A replay of a record, or a refusal: the service is as it was.
  abbrev Replays : OperationRecord → Answer × Service → Type 0
  Replays r x =
      (x.1 ≡ s)
      × ((a : String) (b : Bool)
          → x.0 ≡ ok (a, b)
          → (a ≡ r.operation_id) × (b ≡ false) × (r.identity ≡ prompt_identity p sid request))

  known-Replays :
      (r : OperationRecord)
      → lookup request.operation_id s.admitted.ledger.records ≡ some r
      → Admits request.operation_id
          (prompt_identity p sid request)
          s.admitted.ledger
          (admit request.operation_id (prompt_identity p sid request) s.admitted.ledger)
      → Replays r (prompt_known p sid request s)
  unfolding prompt_known
  known-Replays r h (replayed q there same u) = (ground arith, λ a b e. ground arith)
  known-Replays r h (conflicting q there other u) = (ground arith, λ a b e. absurd (ground arith))
  known-Replays r h (exhausted new full u) = absurd cc
  known-Replays r h (added new room u) = absurd cc

  locked-Replays :
      (r : OperationRecord)
      → lookup request.operation_id s.admitted.ledger.records ≡ some r
      → Replays r (prompt_locked p sid request s)
  unfolding prompt_locked
  locked-Replays r h =
      let m = admit-Admits request.operation_id (prompt_identity p sid request) s.admitted.ledger in
      by_check (Replays r) s (require_current_generation s)
        (λ y.
          if is_some (lookup request.operation_id s.admitted.ledger.records)
          then prompt_known p sid request s
          else prompt_new p sid request s)
        (λ e. (refl, λ a b k. absurd cc))
        (λ y k.
          by_branch (Replays r) (is_some (lookup request.operation_id s.admitted.ledger.records))
            (prompt_known p sid request s) (prompt_new p sid request s) (λ old. known-Replays r h m)
            (λ new. absurd (ground arith)))

  -- An operation id that the ledger has changes nothing, whether it is replayed or refused: the answer
  -- to a replay is the recorded operation, it is not new, and its identity is that of the request.
  pub admit_prompt-replayed :
      (r : OperationRecord)
      → lookup request.operation_id s.admitted.ledger.records ≡ some r
      → ((admit_prompt p n sid request s).1 ≡ s)
        × ((a : String) (b : Bool)
            → (admit_prompt p n sid request s).0 ≡ ok (a, b)
            → (a ≡ r.operation_id) × (b ≡ false) × (r.identity ≡ prompt_identity p sid request))
  unfolding admit_prompt
  admit_prompt-replayed r h =
      by_check (Replays r) s (prompt_entry p n request s) (λ x. prompt_locked p sid request s)
        (λ e. (refl, λ a b k. absurd cc)) (λ x k. locked-Replays r h)

-- A request whose layers pass the validation of its phase is rendered: no assertion of
-- `_render_prompt` fails.
pub render_prompt-validated :
    (r : PromptRequest) → validate_layers r ≡ ok tt → (text : String) × (render_prompt r ≡ ok text)
unfolding validate_layers render_prompt
render_prompt-validated r h = elim (Result-cases (render_layers r.phase r)) [
  | inl found ↦ found
  | inr (e, k) ↦ absurd (by_phase r.phase h e k)
]
  where
    by_phase :
        (phase : PromptPhase)
        → layers_for phase r ≡ ok tt
        → (e : DirectError) → ¬ (render_layers phase r ≡ err e)
    by_phase initial h e k = ground arith
    by_phase invocation h e k = ground arith
    by_phase correction h e k = ground arith
    by_phase continuation h e k = ground arith
