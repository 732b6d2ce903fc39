-- ===== src/NativeTransport/Callbacks.antt =====
-- The callbacks of the language server are few, and none is started twice.
use acp_proxy.Prelude.{
  ℕ, ◌≡◌, refl, ◌≤◌, Bool, true, false, not, ◌&&◌, ◌||◌, Option, none, some, List, [], ◌∷◌, length,
  leb, arith, String, Bool-cases, inl, inr,
}
use acp_proxy.NativeTransport.Frames.{Bytes, frame}
use acp_proxy.NativeTransport.Frames.Writing.{
  Sending, sent, still_sending, bad_count, input_closed, not_drained, WriteAnswer, write_loop,
}
use acp_proxy.NativeTransport.State.{
  TransportError, text_of, Identity, Transport, new_transport, abort, start, reserve, after_writing,
  begin_dispatch, expect_exit, stop, stop_end, send,
}
use acp_proxy.NativeTransport.Admit.{
  NativeRequest, RpcResponse, Handled, Owner, among, discard, Admission, protocol_failure,
  start_callback, admit_response, admit_request, admit, read_fails, after_admission, read_message,
  root_exits, callback_done, callback_ends,
}
use acp_proxy.NativeTransport.Dispatch.{admit-Reaches}
use acp_proxy.NativeTransport.Machine.{
  Step, starts, reserves, dispatches, writes, reads, refuses_frame, loses_root, ends_callback,
  aborts, expects_exit, stops, ends_stop, owner_acts, Reach, here, next,
}

abbrev pub distinct : List Identity → Bool
distinct [] = true
distinct (i ∷ is) = not (among i is) && distinct is

-- The callbacks of a transport that admits `k` at a time.
pub record Bounded (k : ℕ) (t : Transport) : Type 0 where
  pub limit : t.max_callbacks ≡ k
  pub running : length t.callbacks ≤ k
  pub admitted : length t.callback_ids ≤ 65536
  pub once : distinct t.callback_ids ≡ true

-- The fields that callbacks have.
abbrev pub calls_of : Transport → ℕ × List Identity × List Identity
calls_of t = (t.max_callbacks, t.callbacks, t.callback_ids)

Bounded-same : (k : ℕ) (t u : Transport) → calls_of u ≡ calls_of t → Bounded k t → Bounded k u
Bounded-same k t u e b = record {
  limit = ground arith;
  running = ground arith;
  admitted = ground arith;
  once = ground arith;
}

abort-calls : (reason : String) (t : Transport) → calls_of (abort reason t) ≡ calls_of t
unfolding abort
abort-calls reason t = ground arith

after_writing-calls : (s : Sending) (t : Transport) → calls_of (after_writing s t).1 ≡ calls_of t
after_writing-calls sent t = refl
after_writing-calls still_sending t = refl
after_writing-calls bad_count t = refl
after_writing-calls not_drained t = abort-calls _ t
after_writing-calls input_closed t = abort-calls _ t

send-calls :
    (body : Bytes) (answers : List WriteAnswer) (t : Transport)
    → calls_of (send body answers t).1 ≡ calls_of t
unfolding send
send-calls body answers t =
    ground (arith, after_writing-calls (write_loop (frame body) answers).1 t)

discard_shrinks : (i : Identity) (is : List Identity) → length (discard i is) ≤ length is
discard_shrinks i [] = omega arith
discard_shrinks i (j ∷ is) = ground (arith, discard_shrinks i is)

module _ (k : ℕ) where
  Bounded-discard :
      (i : Identity) (t : Transport)
      → Bounded k t
      → Bounded k (record t { callbacks = discard i t.callbacks })
  Bounded-discard i t b = record {
    limit = b.limit;
    running = ground (arith, discard_shrinks i t.callbacks);
    admitted = b.admitted;
    once = b.once;
  }

  callback_done-Bounded :
      (i : Identity) (r : Option TransportError × Transport)
      → Bounded k r.1
      → Bounded k (callback_done i r)
  callback_done-Bounded i (none, t) b = Bounded-discard i t b
  callback_done-Bounded i (some e, t) b =
      Bounded-same k _ _ (abort-calls _ _) (Bounded-discard i t b)

  callback_ends-Bounded :
      (i : Identity) (raised : Option TransportError) (body : Bytes) (answers : List WriteAnswer)
      (t : Transport)
      → Bounded k t
      → Bounded k (callback_ends i raised body answers t)
  unfolding callback_ends
  callback_ends-Bounded i (some e) body answers t b = callback_done-Bounded i (some e, t) b
  callback_ends-Bounded i none body answers t b =
      callback_done-Bounded i (send body answers t)
        (Bounded-same k t _ (send-calls body answers t) b)

  module _ {C : Type 0} (owner : Owner C) where
    admit_response-calls :
        (n : ℕ) (response : RpcResponse) (t : Transport) (c : C)
        → calls_of (admit_response owner n response t c).1 ≡ calls_of t
    unfolding admit_response
    admit_response-calls n response t c = ground arith

    -- A callback that is not refused is a new one, and there is room for it.
    started-Bounded :
        (i : Identity) (h : Handled C) (t : Transport)
        → Bounded k t
        → (among i t.callback_ids
            || leb t.max_callbacks (length t.callbacks)
            || leb 65536 (length t.callback_ids))
          ≡ false
        → Bounded k (start_callback owner i h (record t { callback_ids = i ∷ t.callback_ids })).1
    started-Bounded i (some text, c) t b room = record {
      limit = b.limit;
      running = b.running;
      admitted = ground arith;
      once = ground arith;
    }
    started-Bounded i (none, c) t b room = record {
      limit = b.limit;
      running = ground arith;
      admitted = ground arith;
      once = ground arith;
    }

    admit_request-Bounded :
        (m : NativeRequest) (t : Transport) (c : C)
        → Bounded k t
        → Bounded k (admit_request owner m t c).1
    unfolding admit_request
    admit_request-Bounded m t c b =
        elim (Bool-cases (
          among m.id t.callback_ids
          || leb t.max_callbacks (length t.callbacks)
          || leb 65536 (length t.callback_ids))) [
            | inl refused ↦ rw refused b
            | inr room ↦ rw room (handled owner.request room)
          ]
      where
        handled :
            (handler : Option (C → NativeRequest → Handled C))
            → (among m.id t.callback_ids
                || leb t.max_callbacks (length t.callbacks)
                || leb 65536 (length t.callback_ids))
              ≡ false
            → Bounded k
                (elim handler as (λ x. Admission C) [
                  | none ↦ protocol_failure "Native callback handler unavailable" t c
                  | some h ↦
                      start_callback owner m.id
                        (h c m)
                        (record t { callback_ids = m.id ∷ t.callback_ids })
                ]).1
        handled none room = b
        handled (some h) room = started-Bounded m.id (h c m) t b room

    read_fails-calls :
        (e : TransportError) (t : Transport) → calls_of (read_fails owner e t) ≡ calls_of t
    unfolding read_fails
    read_fails-calls e t = ground (arith, abort-calls (text_of e) (record t { reading = false }))

    after_admission-Bounded :
        (a : Admission C) → Bounded k a.1 → Bounded k (after_admission owner a).0
    after_admission-Bounded (none, t, c) b = b
    after_admission-Bounded (some e, t, c) b = Bounded-same k t _ (read_fails-calls e t) b

    Step-Bounded :
        {t : Transport} {c : C} {u : Transport} {d : C}
        → Step owner t c u d
        → Bounded k t
        → Bounded k u
    unfolding start reserve begin_dispatch expect_exit stop stop_end root_exits read_message
    Step-Bounded (starts t c) b = Bounded-same k t _ (ground arith) b
    Step-Bounded (reserves method params observed t c) b = Bounded-same k t _ (ground arith) b
    Step-Bounded (dispatches n t c) b = Bounded-same k t _ (ground arith) b
    Step-Bounded (writes s t c) b = Bounded-same k t _ (after_writing-calls s t) b
    Step-Bounded (reads message t c h) b = after_admission-Bounded (admit owner message t c) (
        admit-Reaches owner t (Bounded k) b
          (λ n r c'. Bounded-same k t _ (admit_response-calls n r t c') b)
          (λ m c'. admit_request-Bounded m t c' b) message c)
    Step-Bounded (refuses_frame e t c h) b = Bounded-same k t _ (read_fails-calls e t) b
    Step-Bounded (loses_root code e t c h) b =
        Bounded-same k t _ (read_fails-calls e (root_exits code t)) b
    Step-Bounded (ends_callback i raised body answers t c h) b =
        callback_ends-Bounded i raised body answers t b
    Step-Bounded (aborts reason t c) b = Bounded-same k t _ (abort-calls reason t) b
    Step-Bounded (expects_exit t c) b = Bounded-same k t _ refl b
    Step-Bounded (stops t c) b = Bounded-same k t _ refl b
    Step-Bounded (ends_stop code t c h) b = record {
      limit = b.limit;
      running = omega arith;
      admitted = b.admitted;
      once = b.once;
    }
    Step-Bounded (owner_acts t c d) b = b

    -- In every state that a transport reaches, no more callbacks run than it admits at a time, no more
    -- than 65536 have ever been admitted, and no two of those have one identity.
    pub Reach-callbacks :
        {a : C} {t : Transport} {c : C} → Reach owner (new_transport k) a t c → Bounded k t
    unfolding new_transport
    Reach-callbacks here = record {
      limit = refl;
      running = omega arith;
      admitted = omega arith;
      once = refl;
    }
    Reach-callbacks (next r s) = Step-Bounded s (Reach-callbacks r)
