-- ===== src/NativeTransport/Admissions.antt =====
-- The admission of a message keeps what is settled, and settles one request at most.
use acp_proxy.Prelude.{
  ℕ, ◌≡◌, refl, Bool, true, false, ◌||◌, Option, none, some, List, ◌∷◌, leb, ℤ, length,
  if◌then◌else◌, String, arith, Bool-cases, inl, inr,
}
use acp_proxy.Json.{JsonValue, obj, Fields}
use acp_proxy.NativeTransport.Frames.{Bytes}
use acp_proxy.NativeTransport.Frames.Writing.{WriteAnswer}
use acp_proxy.NativeTransport.State.{
  TransportError, text_of, Future, is_done, Identity, Transport, find, send,
}
use acp_proxy.NativeTransport.Requests.{update-update}
use acp_proxy.NativeTransport.Settled.{Moves, Moves-then, Moves-same, Moves_none, Moves-update}
use acp_proxy.NativeTransport.Operations.{abort-Moves, send-Moves}
use acp_proxy.NativeTransport.Dispatch.{admit-Reaches}
use acp_proxy.NativeTransport.Admit.{
  NativeRequest, RpcResponse, Handled, Owner, protocol_failure, among, discard, Admission, settle,
  pop, rpc_outcome, outcome_of, refuses, admit_response, start_callback, admit_request, admit,
  read_fails, after_admission, read_message, root_exits, callback_done, callback_ends,
}

error_outcome_done : (v : JsonValue) → is_done (rpc_outcome v).0 ≡ true
error_outcome_done (obj fs) = ground arith
error_outcome_done _ = refl

-- A response always settles a future.
pub outcome_done :
    (response : RpcResponse) (raised : Option String)
    → is_done (outcome_of response raised).0 ≡ true
outcome_done response (some text) = refl
outcome_done response none = ground (arith, error_outcome_done response.value)

pop-Moves : (n : ℕ) (t : Transport) → refuses (find n t.requests) ≡ true → Moves t (pop n t)
pop-Moves n t refused =
    Moves-update n (λ r. record r { pending = false }) t (λ r. refl) (λ r found p. ground arith)
      (λ r p. ground arith) (λ r found p d. refl)

settle-Moves :
    (n : ℕ) (f : Future) (t : Transport)
    → refuses (find n t.requests) ≡ false
    → is_done f ≡ true
    → Moves t (settle n f (pop n t))
settle-Moves n f t admitted done =
    rw
      (update-update n (λ r. record r { pending = false }) (λ r. record r { future = f }) t.requests
        (λ r. refl))
      (Moves-update n (λ r. record r { pending = false; future = f }) t (λ r. refl)
        (λ r found p. ground arith) (λ r p. ground arith) (λ r found p d. ground arith))

module _ {C : Type 0} (owner : Owner C) where
  admit_response-Moves :
      (n : ℕ) (response : RpcResponse) (t : Transport) (c : C)
      → Moves t (admit_response owner n response t c).1
  unfolding admit_response
  admit_response-Moves n response t c = elim (Bool-cases (refuses (find n t.requests))) [
    | inl refused ↦ rw refused (pop-Moves n t refused)
    | inr admitted ↦ rw admitted (settle-Moves n _ t admitted (outcome_done response _))
  ]

  started : (i : Identity) (h : Handled C) (t : Transport) → Moves t (start_callback owner i h t).1
  started i (some text, c) t = Moves_none t
  started i (none, c) t = Moves-same t _ refl refl refl refl refl

  admit_request-Moves :
      (m : NativeRequest) (t : Transport) (c : C) → Moves t (admit_request owner m t c).1
  unfolding admit_request
  admit_request-Moves m t c =
      cases
        (among m.id t.callback_ids
          || leb t.max_callbacks (length t.callbacks)
          || leb 65536 (length t.callback_ids))
        owner.request
    where
      cases :
          (refused : Bool) (handler : Option (C → NativeRequest → Handled C))
          → Moves t
              (if refused
                then protocol_failure "Duplicate or excessive native callbacks" t c
                else elim handler [
                  | none ↦ protocol_failure "Native callback handler unavailable" t c
                  | some h ↦
                      start_callback owner m.id
                        (h c m)
                        (record t { callback_ids = m.id ∷ t.callback_ids })
                ]).1
      cases true handler = Moves_none t
      cases false none = Moves_none t
      cases false (some h) =
          Moves-then
            (Moves-same t (record t { callback_ids = m.id ∷ t.callback_ids }) refl refl refl refl
              refl)
            (started m.id (h c m) _)

  pub admit-Moves : (message : Fields) (t : Transport) (c : C) → Moves t (admit owner message t c).1
  admit-Moves message t c =
      admit-Reaches owner t (Moves t) (Moves_none t) (λ n r c'. admit_response-Moves n r t c')
        (λ m c'. admit_request-Moves m t c') message c

  pub read_fails-Moves : (e : TransportError) (t : Transport) → Moves t (read_fails owner e t)
  unfolding read_fails
  read_fails-Moves e t = elim (Bool-cases (t.stopping || t.expected_exit)) [
    | inl ended ↦ rw ended (Moves-same t _ refl refl refl refl refl)
    | inr lost ↦ rw lost (
        Moves-then (Moves-same t (record t { reading = false }) refl refl refl refl refl)
          (abort-Moves (text_of e) _))
  ]

  after_admission-Moves :
      (t : Transport) (a : Admission C) → Moves t a.1 → Moves t (after_admission owner a).0
  after_admission-Moves t (none, u, c) m = m
  after_admission-Moves t (some e, u, c) m = Moves-then m (read_fails-Moves e u)

  pub read_message-Moves :
      (message : Fields) (t : Transport) (c : C) → Moves t (read_message owner message t c).0
  unfolding read_message
  read_message-Moves message t c =
      after_admission-Moves t (admit owner message t c) (admit-Moves message t c)

pub root_exits-Moves : (code : ℤ) (t : Transport) → Moves t (root_exits code t)
unfolding root_exits
root_exits-Moves code t = Moves-same t _ refl refl refl refl refl

callback_done-Moves :
    (i : Identity) (t : Transport) (r : Option TransportError × Transport)
    → Moves t r.1
    → Moves t (callback_done i r)
callback_done-Moves i t (none, u) m = Moves-then m (Moves-same u _ refl refl refl refl refl)
callback_done-Moves i t (some e, u) m = Moves-then m (
    Moves-then
      (Moves-same u (record u { callbacks = discard i u.callbacks }) refl refl refl refl refl)
      (abort-Moves _ _))

pub callback_ends-Moves :
    (i : Identity) (raised : Option TransportError) (body : Bytes) (answers : List WriteAnswer)
    (t : Transport)
    → Moves t (callback_ends i raised body answers t)
unfolding callback_ends
callback_ends-Moves i (some e) body answers t = callback_done-Moves i t (some e, t) (Moves_none t)
callback_ends-Moves i none body answers t =
    callback_done-Moves i t (send body answers t) (send-Moves body answers t)
