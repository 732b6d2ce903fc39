-- ===== src/DirectService/Quarantine/Closed.antt =====
-- What the loss of a generation closes, and what it leaves until the cleanup has ended.
use acp_proxy.Prelude.{String, ◌≡◌, false, Option, List, err, arith}
use acp_proxy.DirectState.{direct_generation_mismatch}
use acp_proxy.DirectProtocol.{
  Platform, CreateSessionRequest, PromptRequest, CancelRequest, RetireSessionRequest, PinnedRequest,
}
use acp_proxy.DirectService.State.{NativeView, Service, check_pin, ensure_available}
use acp_proxy.DirectService.Create.{create_entry, admit_create}
use acp_proxy.DirectService.Prompt.{prompt_entry, admit_prompt}
use acp_proxy.DirectService.Cancel.{cancel_checks, admit_cancel}
use acp_proxy.DirectService.Retire.{retire_entry, admit_retire}
use acp_proxy.DirectService.Quarantine.{begin_loss, revoke}

begin_loss-closed :
    (owner : Option String) (defer : List String) (uuid : String) (s : Service)
    → (begin_loss owner defer uuid s).available ≡ false
unfolding begin_loss revoke
begin_loss-closed owner defer uuid s = ground arith

module _ (p : Platform) (n : NativeView) (s : Service) (gone : s.available ≡ false) where
  refused : (r : PinnedRequest) → check_pin n r s ≡ err direct_generation_mismatch
  unfolding check_pin ensure_available
  refused r = ground arith

  closed_create :
      (r : CreateSessionRequest) → admit_create p n r s ≡ (err direct_generation_mismatch, s)
  unfolding admit_create create_entry
  closed_create r = ground (arith, refused r.pinned)

  closed_prompt :
      (sid : String) (r : PromptRequest)
      → admit_prompt p n sid r s ≡ (err direct_generation_mismatch, s)
  unfolding admit_prompt prompt_entry
  closed_prompt sid r = ground (arith, refused r.pinned)

  closed_cancel : (r : CancelRequest) → admit_cancel p n r s ≡ (err direct_generation_mismatch, s)
  unfolding admit_cancel cancel_checks
  closed_cancel r = ground (arith, refused r.pinned)

  closed_retire :
      (r : RetireSessionRequest) → admit_retire p n r s ≡ (err direct_generation_mismatch, s)
  unfolding admit_retire retire_entry
  closed_retire r = ground (arith, refused r.pinned)

-- From the moment that a loss begins, whoever begins it, all four requests are refused with a
-- generation mismatch and change nothing; a second loss changes nothing either; and the operations of
-- the ledger still stand as they stood.
pub begin_loss-closes :
    (p : Platform) (n : NativeView) (owner : Option String) (defer : List String) (uuid : String)
    (s : Service)
    → let t = begin_loss owner defer uuid s in
      ((r : CreateSessionRequest) → admit_create p n r t ≡ (err direct_generation_mismatch, t))
      × ((sid : String) (r : PromptRequest)
          → admit_prompt p n sid r t ≡ (err direct_generation_mismatch, t))
      × ((r : CancelRequest) → admit_cancel p n r t ≡ (err direct_generation_mismatch, t))
      × ((r : RetireSessionRequest) → admit_retire p n r t ≡ (err direct_generation_mismatch, t))
      × ((other : Option String) (later : List String) (id : String)
          → begin_loss other later id t ≡ t)
      × (t.admitted.ledger ≡ s.admitted.ledger)
unfolding begin_loss revoke
begin_loss-closes p n owner defer uuid s =
    let t = begin_loss owner defer uuid s in
    let gone = begin_loss-closed owner defer uuid s in
    (
      closed_create p n t gone,
      closed_prompt p n t gone,
      closed_cancel p n t gone,
      closed_retire p n t gone,
      λ other later id. again t gone other later id,
      ground arith,
    )
  where
    again :
        (t : Service)
        → t.available ≡ false
        → (other : Option String) (later : List String) (id : String)
        → begin_loss other later id t ≡ t
    again t gone other later id = ground arith
