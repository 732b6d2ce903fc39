-- ===== src/DirectService/Prompt/Exclusion.antt =====
-- A session runs one prompt at a time.
use acp_proxy.Prelude.{
  Option-cases, String, arith, eq_iff, err, false, if◌then◌else◌, inl, inr, is_some, ok, refl, some,
  true, ◌≡◌,
}
use acp_proxy.Prelude.Dict.{lookup, lookup-modify}
use acp_proxy.DirectState.{DirectError, DirectSession, busy, direct_busy}
use acp_proxy.DirectState.Ledger.{DirectLedger, Admission, admit}
use acp_proxy.DirectProtocol.{Platform, PromptRequest}
use acp_proxy.DirectService.State.{Answer, require_current_generation, NativeView, Service}
use acp_proxy.DirectService.Refused.{by_check, by_branch}
use acp_proxy.DirectService.Prompt.{
  prompt_entry, prompt_checks, prompt_identity, prompt_admitted, prompt_new, prompt_known,
  prompt_locked, admit_prompt, find_session, reserve,
}

module _ (p : Platform) (sid : String) (r : PromptRequest) (s : Service) where
  -- A session with an active operation refuses a prompt whose operation is new.
  busy_refuses :
      (d : DirectSession)
      → lookup sid s.admitted.sessions ≡ some d
      → is_some d.active_operation_id ≡ true
      → prompt_checks p sid r s ≡ err direct_busy
  unfolding prompt_checks find_session
  busy_refuses d e h = ground arith

  -- The session after an admission.
  entered :
      (a : Admission × DirectLedger) (id : String) (d : DirectSession)
      → (prompt_admitted p sid r a s).0 ≡ ok (id, true)
      → lookup sid s.admitted.sessions ≡ some d
      → lookup sid (prompt_admitted p sid r a s).1.admitted.sessions
        ≡ some (record d { active_operation_id = some r.operation_id; state = busy })
  unfolding prompt_admitted reserve
  entered (ok (o, b), l) id d h e = ground (
    arith,
    lookup-modify sid sid
        (λ d. record d { active_operation_id = some r.operation_id; state = busy })
        s.admitted.sessions,
    eq_iff sid sid,
  )
  entered (err x, l) id d h e = absurd (ground arith)

  -- An answer that an operation is new leaves the session with it.
  abbrev Occupies : Answer × Service → Type 0
  Occupies x =
      (id : String)
      → x.0 ≡ ok (id, true)
      → (d : DirectSession) × (lookup sid x.1.admitted.sessions ≡ some d)
        × (is_some d.active_operation_id ≡ true)

  -- An answer that is not new.
  abbrev NotNew : Answer × Service → Type 0
  NotNew x = (id : String) → ¬ (x.0 ≡ ok (id, true))

  known-NotNew : NotNew (prompt_known p sid r s)
  unfolding prompt_known
  known-NotNew id = known (admit r.operation_id (prompt_identity p sid r) s.admitted.ledger).0
    where
      known :
          (a : Admission)
          → ¬ (
              Path Answer
                (elim a [ ok (o, created) ↦ ok (o.operation_id, false) | err e ↦ err e ])
                (ok (id, true)))
      known (ok (o, b)) h = ground (arith, h)
      known (err e) h = ground (arith, h)

  new-Occupies : Occupies (prompt_new p sid r s)
  unfolding prompt_new prompt_checks find_session
  new-Occupies =
      let a = admit r.operation_id (prompt_identity p sid r) s.admitted.ledger in
      by_check Occupies s (prompt_checks p sid r s) (λ z. prompt_admitted p sid r a s)
        (λ e id k. absurd cc)
        (λ z q id k. elim (Option-cases (lookup sid s.admitted.sessions)) [
          | inl absent ↦ absurd (ground arith)
          | inr (d, there) ↦ (
            record d { active_operation_id = some r.operation_id; state = busy },
            entered a id d k there,
            refl,
          )
        ])

  -- The handler under its checks: a property of raised errors, of known operations and of new ones.
  admit_by :
      (P : Answer × Service → Type 0) (n : NativeView)
      → ((e : DirectError) → P (err e, s))
      → P (prompt_known p sid r s)
      → P (prompt_new p sid r s)
      → P (admit_prompt p n sid r s)
  unfolding admit_prompt prompt_locked
  admit_by P n f k g =
      by_check P s (prompt_entry p n r s) (λ x. prompt_locked p sid r s) f
        (λ x e.
          by_check P s (require_current_generation s)
            (λ y.
              if is_some (lookup r.operation_id s.admitted.ledger.records)
              then prompt_known p sid r s
              else prompt_new p sid r s)
            f
            (λ y q.
              by_branch P (is_some (lookup r.operation_id s.admitted.ledger.records))
                (prompt_known p sid r s) (prompt_new p sid r s) (λ old. k) (λ new. g)))

  admitted-Occupies : (n : NativeView) → Occupies (admit_prompt p n sid r s)
  admitted-Occupies n =
      admit_by Occupies n (λ e id k. absurd cc) (λ id k. absurd (known-NotNew id k)) new-Occupies

  busy-NotNew :
      (n : NativeView) (d : DirectSession)
      → lookup sid s.admitted.sessions ≡ some d
      → is_some d.active_operation_id ≡ true
      → NotNew (admit_prompt p n sid r s)
  unfolding prompt_new
  busy-NotNew n d there active =
      admit_by NotNew n (λ e id k. cc) known-NotNew
        (λ id k. ground (arith, busy_refuses d there active))

-- A session whose prompt was admitted takes no other: in the state that the admission leaves, no
-- request to the same session is answered as new.
pub admit_prompt-exclusive :
    (p : Platform) (n m : NativeView) (sid : String) (r q : PromptRequest) (s : Service)
    (id : String)
    → (admit_prompt p n sid r s).0 ≡ ok (id, true)
    → (x : String) → ¬ ((admit_prompt p m sid q (admit_prompt p n sid r s).1).0 ≡ ok (x, true))
admit_prompt-exclusive p n m sid r q s id h =
    let (d, there, active) = admitted-Occupies p sid r s n id h in
    busy-NotNew p sid q (admit_prompt p n sid r s).1 m d there active
