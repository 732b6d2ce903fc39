-- ===== src/DirectService/Prompt/Lifetime.antt =====
-- The lifetime of a session's instructions, and the exclusion of a second prompt.
use acp_proxy.Prelude.{
  String, ◌≡◌, refl, true, false, not, ◌||◌, none, some, is_some, ok, arith, inl, inr, Option-cases,
  eq_iff, ◌==◌, List, [], ◌∷◌, ◌++◌, member, raise_if, ◌>>◌, if◌then◌else◌,
}
use acp_proxy.Prelude.Dict.{lookup}
use acp_proxy.DirectState.{
  direct_conflict, DirectSession, InstructionState, instructions_pending, submitted,
  InstructionsSubmitted, instructions_submitted, contract_for, identities, distinct,
}
use acp_proxy.DirectState.Ledger.{same_text}
use acp_proxy.DirectProtocol.{
  Platform, PromptRequest, PromptPhase, initial, invocation, correction, continuation,
}
use acp_proxy.DirectService.Prompt.{
  validate_prompt_lifetime, phase_lifetime, submit, record_instruction_submission,
}

-- The instructions of a session are those of one submission after another.
abbrev pub Settled : InstructionState → Type 0
Settled instructions_pending = Unit
Settled (submitted i) =
    (distinct (identities i.contract_digests) ≡ true)
    × (member i.active_invocation_id (identities i.contract_digests) ≡ true)

member-append :
    (k : String) (ds : List (String × String)) (a b : String)
    → member k (identities (ds ++ (a, b) ∷ [])) ≡ (member k (identities ds) || a == k)
member-append k [] a b = ground arith
member-append k ((x, y) ∷ ds) a b = ground (arith, member-append k ds a b)

absent-member :
    (k : String) (ds : List (String × String))
    → lookup k ds ≡ none
    → member k (identities ds) ≡ false
unfolding lookup
absent-member k [] h = refl
absent-member k ((x, y) ∷ ds) h = ground (arith, absent-member k ds)

distinct-append :
    (ds : List (String × String)) (a b : String)
    → distinct (identities ds) ≡ true
    → member a (identities ds) ≡ false
    → distinct (identities (ds ++ (a, b) ∷ [])) ≡ true
distinct-append [] a b h k = refl
distinct-append ((x, y) ∷ ds) a b h k =
    ground (arith, distinct-append ds a b, member-append x ds a b, eq_iff x a, eq_iff a x)

lookup-append :
    (k : String) (ds : List (String × String)) (a b : String)
    → lookup k ds ≡ none
    → lookup k (ds ++ (a, b) ∷ []) ≡ (if a == k then some b else none)
unfolding lookup
lookup-append k [] a b h = refl
lookup-append k ((x, y) ∷ ds) a b h = ground (arith, lookup-append k ds a b)

-- A pair appended to well-formed instructions, for an invocation that they do not have.
appended :
    (a b : String) (ds : List (String × String))
    → distinct (identities ds) ≡ true
    → lookup a ds ≡ none
    → let i : InstructionsSubmitted = record {
      active_invocation_id = a;
      contract_digests = ds ++ (a, b) ∷ [];
    } in
      (instructions_submitted a (ds ++ (a, b) ∷ []) ≡ ok i)
      × Settled (submitted i)
      × (contract_for i a ≡ some b)
unfolding instructions_submitted contract_for
appended a b ds h k =
    let d = distinct-append ds a b h (absent-member a ds k) in
    let m : member a (identities (ds ++ (a, b) ∷ [])) ≡ true =
      ground (arith, member-append a ds a b, eq_iff a a) in
    (ground (arith, d, m), (d, m), ground (arith, lookup-append a ds a b k, eq_iff a a))

module _ (p : Platform) (session : DirectSession) (r : PromptRequest) where
  -- What a submission leaves: well-formed instructions whose active invocation is the request's, under
  -- the request's contract.
  abbrev Submits : PromptPhase → InstructionState → Type 0
  Submits phase st =
      (i : InstructionsSubmitted) × (submit phase st r ≡ ok (submitted i))
      × Settled (submitted i)
      × (i.active_invocation_id ≡ r.invocation_id)
      × (contract_for i r.invocation_id ≡ some r.output_contract_digest)

  abbrev instructions_with : List (String × String) → InstructionsSubmitted
  instructions_with ds = record {
    active_invocation_id = r.invocation_id;
    contract_digests = ds ++ (r.invocation_id, r.output_contract_digest) ∷ [];
  }

  delta-Submits :
      (i : InstructionsSubmitted) (phase : PromptPhase)
      → submit phase (submitted i) r ≡ ok (submitted i)
      → (do
        raise_if (not (is_some (contract_for i r.invocation_id))) direct_conflict
        raise_if (not (r.invocation_id == i.active_invocation_id)) direct_conflict
        raise_if
            (not (same_text (contract_for i r.invocation_id) (some r.output_contract_digest)))
            direct_conflict)
        ≡ ok tt
      → Settled (submitted i)
      → Submits phase (submitted i)
  delta-Submits i phase h k w = elim (Option-cases (contract_for i r.invocation_id)) [
    | inl absent ↦ absurd (ground arith)
    | inr (c, there) ↦ (
      i,
      h,
      w,
      ground (arith, eq_iff r.invocation_id i.active_invocation_id),
      ground (arith, eq_iff c r.output_contract_digest),
    )
  ]

  by_phase :
      (phase : PromptPhase) (st : InstructionState)
      → phase_lifetime p phase st session r ≡ ok tt
      → Settled st
      → Submits phase st
  unfolding phase_lifetime submit
  by_phase initial (submitted i) h w = absurd (ground arith)
  by_phase initial instructions_pending h w =
      let (made, settled_, contract) =
        appended r.invocation_id r.output_contract_digest [] refl refl in
      (instructions_with [], ground (arith, made), settled_, refl, contract)
  by_phase invocation instructions_pending h w = absurd (ground arith)
  by_phase invocation (submitted i) h w =
      let (made, settled_, contract) =
        appended r.invocation_id r.output_contract_digest i.contract_digests w.0 (ground arith) in
      (instructions_with i.contract_digests, ground (arith, made), settled_, refl, contract)
  by_phase correction instructions_pending h w = absurd (ground arith)
  by_phase correction (submitted i) h w = delta-Submits i correction refl h w
  by_phase continuation instructions_pending h w = absurd (ground arith)
  by_phase continuation (submitted i) h w = delta-Submits i continuation refl h w

  -- After a prompt whose lifetime was validated, the submission of its instructions raises nothing
  -- and leaves well-formed instructions, if the session's were: the request's invocation is the active
  -- one, and its contract is the request's.
  pub record_instruction_submission-validated :
      Settled session.instructions
      → validate_prompt_lifetime p session r ≡ ok tt
      → (d : DirectSession) × (i : InstructionsSubmitted) × (record_instruction_submission session r
          ≡ ok d)
        × (d.instructions ≡ submitted i)
        × Settled (submitted i)
        × (i.active_invocation_id ≡ r.invocation_id)
        × (contract_for i r.invocation_id ≡ some r.output_contract_digest)
  unfolding validate_prompt_lifetime record_instruction_submission
  record_instruction_submission-validated w h =
      let (i, made, settled_, active, contract) =
        by_phase r.phase session.instructions (ground arith) w in
      (
        record session { instructions = submitted i },
        i,
        ground arith,
        refl,
        settled_,
        active,
        contract,
      )
