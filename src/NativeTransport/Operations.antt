-- ===== src/NativeTransport/Operations.antt =====
-- The operations of a transport keep what is settled.
use acp_proxy.Prelude.{
  ℕ, suc, ◌≡◌, refl, Bool, true, false, not, ◌||◌, none, some, is_some, List, [], ◌∷◌, ◌++◌,
  if◌then◌else◌, String, length, ltb, arith, Bool-cases, inl, inr,
}
use acp_proxy.Json.{JsonValue}
use acp_proxy.NativeTransport.Frames.{Bytes, max_frame_bytes, frame}
use acp_proxy.NativeTransport.Frames.Writing.{
  Sending, sent, still_sending, bad_count, input_closed, not_drained, WriteAnswer, write_loop,
}
use acp_proxy.NativeTransport.State.{
  transport_error, PendingRequest, Transport, find, each, is_open, failure_or, revoke, abort,
  protocol_error, start, reserve, after_writing, can_dispatch, mark_sent, begin_dispatch, stop,
  send,
}
use acp_proxy.NativeTransport.Requests.{every}
use acp_proxy.NativeTransport.Settled.{
  right, revoked, fits_one, Moves, Moves-same, Moves_none, Moves-update, Moves-revoke,
}

pub abort-Moves : (reason : String) (t : Transport) → Moves t (abort reason t)
unfolding abort
abort-Moves reason t = elim (Bool-cases (is_some t.failure || t.stopping)) [
  | inl over ↦ rw over (Moves_none t)
  | inr running ↦ rw running (
      Moves-revoke (transport_error reason) t
        (record t {
          failure = some (transport_error reason);
          requests = each (revoke (transport_error reason)) t.requests;
          closures = t.closures ++ (reason ∷ []);
        })
        refl refl (λ x p. ground arith) (λ s. s) refl (λ h. ground arith))
]

pub start-Moves : (t : Transport) → Moves t (start t).1
unfolding start
start-Moves t = elim (Bool-cases (t.process || is_some t.failure || t.stopping)) [
  | inl refused ↦ rw refused (Moves_none t)
  | inr starts ↦ rw starts (Moves-same t _ refl refl refl refl refl)
]

every_later :
    (over : Bool) (n : ℕ) (rs : List PendingRequest)
    → every (fits_one over n) rs ≡ true
    → every (fits_one over (suc n)) rs ≡ true
every_later over n [] h = refl
every_later over n (r ∷ rs) h = ground (arith, every_later over n rs)

-- A new request has a new id.
fresh :
    (over : Bool) (n : ℕ) (rs : List PendingRequest)
    → every (fits_one over n) rs ≡ true
    → find (suc n) rs ≡ none
unfolding find
fresh over n [] h = refl
fresh over n (r ∷ rs) h = ground (arith, fresh over n rs)

module _ (r : PendingRequest) (t : Transport) (new : r.id ≡ suc t.next_id)
    (running : revoked t ≡ false) (is_right : right r ≡ true) where
  added : Transport
  added = record t { next_id = suc t.next_id; requests = r ∷ t.requests }

  added-Moves : Moves t added
  unfolding added find
  added-Moves = record {
    fits = λ h. record {
      each_fits = ground (arith, every_later (revoked t) t.next_id t.requests h.each_fits);
      told = h.told;
    };
    kept = λ h. record {
      first_failure = λ e p. p;
      still_stopping = λ s. s;
      still_settled = λ k f p d. ground (arith, fresh (revoked t) t.next_id t.requests h.each_fits);
    };
  }

pub reserve-Moves :
    (method : String) (params : JsonValue) (observed : Bool) (t : Transport)
    → Moves t (reserve method params observed t).1
unfolding reserve added
reserve-Moves method params observed t = elim (Bool-cases (is_open t)) [
  | inl running ↦ rw running (added-Moves _ t refl (ground arith) refl)
  | inr refused ↦ rw refused (Moves_none t)
]

pub begin_dispatch-Moves : (n : ℕ) (t : Transport) → Moves t (begin_dispatch n t).1
unfolding begin_dispatch
begin_dispatch-Moves n t = elim (Bool-cases (can_dispatch (find n t.requests))) [
  | inl can ↦ rw can (
      Moves-update n mark_sent t (λ r. refl) (λ r found p. ground arith) (λ r p. p)
        (λ r found p d. refl))
  | inr refused ↦ rw refused (Moves_none t)
]

pub after_writing-Moves : (s : Sending) (t : Transport) → Moves t (after_writing s t).1
after_writing-Moves sent t = Moves_none t
after_writing-Moves still_sending t = Moves_none t
after_writing-Moves bad_count t = Moves_none t
after_writing-Moves not_drained t = abort-Moves _ t
after_writing-Moves input_closed t = abort-Moves _ t

pub send-Moves :
    (body : Bytes) (answers : List WriteAnswer) (t : Transport) → Moves t (send body answers t).1
unfolding send
send-Moves body answers t =
    cases (ltb max_frame_bytes (length body)) (not t.process || is_some t.failure || t.stopping)
  where
    cases :
        (large closed : Bool)
        → Moves t
            (if large
              then (some (protocol_error "Native outbound frame exceeds its limit"), t)
              else if closed
              then (some (failure_or t "Native input is closed"), t)
              else after_writing (write_loop (frame body) answers).1 t).1
    cases true closed = Moves_none t
    cases false true = Moves_none t
    cases false false = after_writing-Moves _ t

pub stop-Moves : (t : Transport) → Moves t (stop t)
unfolding stop
stop-Moves t =
    Moves-revoke (transport_error "Native transport stopped") t _ refl refl (λ x p. p) (λ s. refl)
      (ground arith) (λ h. h.told)
