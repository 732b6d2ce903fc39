-- ===== src/NativeTransport/Machine.antt =====
-- A transport and its owner as a machine: requests, writes, messages, callbacks, deadlines and the stop, in any
-- order that the event loop may choose.
use acp_proxy.Prelude.{
  ℕ, ◌≡◌, refl, Bool, true, ◌||◌, Option, some, is_some, List, ℤ, String, arith,
}
use acp_proxy.Json.{JsonValue, Fields}
use acp_proxy.NativeTransport.Frames.{Bytes}
use acp_proxy.NativeTransport.Frames.Writing.{Sending, WriteAnswer}
use acp_proxy.NativeTransport.State.{
  TransportError, Future, is_done, PendingRequest, Identity, Transport, new_transport, find, abort,
  start, reserve, after_writing, begin_dispatch, expect_exit, stop, stop_end,
}
use acp_proxy.NativeTransport.Requests.{every-find}
use acp_proxy.NativeTransport.Settled.{
  revoked, fits_one, told_of, Fits, future_at, Moves, Moves-then, Moves-same, Moves_none,
}
use acp_proxy.NativeTransport.Operations.{
  abort-Moves, start-Moves, reserve-Moves, begin_dispatch-Moves, after_writing-Moves, stop-Moves,
}
use acp_proxy.NativeTransport.Admit.{
  Owner, among, read_fails, read_message, root_exits, callback_ends,
}
use acp_proxy.NativeTransport.Admissions.{
  read_fails-Moves, read_message-Moves, root_exits-Moves, callback_ends-Moves,
}

module _ {C : Type 0} (owner : Owner C) where
  -- The owner's own work is any change of its state.
  pub data Step : Transport → C → Transport → C → Type 0 where
    starts : (t : Transport) (c : C) → Step t c (start t).1 c
    reserves :
        (method : String) (params : JsonValue) (observed : Bool) (t : Transport) (c : C)
        → Step t c (reserve method params observed t).1 c
    dispatches : (n : ℕ) (t : Transport) (c : C) → Step t c (begin_dispatch n t).1 c
    writes : (s : Sending) (t : Transport) (c : C) → Step t c (after_writing s t).1 c
    reads :
        (message : Fields) (t : Transport) (c : C)
        → t.reading ≡ true
        → Step t c (read_message owner message t c).0 (read_message owner message t c).1
    refuses_frame :
        (e : TransportError) (t : Transport) (c : C)
        → t.reading ≡ true
        → Step t c (read_fails owner e t) c
    loses_root :
        (code : ℤ) (e : TransportError) (t : Transport) (c : C)
        → t.reading ≡ true
        → Step t c (read_fails owner e (root_exits code t)) c
    ends_callback :
        (i : Identity) (raised : Option TransportError) (body : Bytes) (answers : List WriteAnswer)
        (t : Transport) (c : C)
        → among i t.callbacks ≡ true
        → Step t c (callback_ends i raised body answers t) c
    aborts : (reason : String) (t : Transport) (c : C) → Step t c (abort reason t) c
    expects_exit : (t : Transport) (c : C) → Step t c (expect_exit t) c
    stops : (t : Transport) (c : C) → Step t c (stop t) c
    ends_stop :
        (code : Option (Option ℤ)) (t : Transport) (c : C)
        → t.stopping ≡ true
        → Step t c (stop_end code t) c
    owner_acts : (t : Transport) (c d : C) → Step t c t d

  pub data Reach (t : Transport) (c : C) : Transport → C → Type 0 where
    here : Reach t c t c
    next : {u v : Transport} {d e : C} → Reach t c u d → Step u d v e → Reach t c v e

  pub Reach-trans :
      {t : Transport} {c : C} {u : Transport} {d : C} {v : Transport} {e : C}
      → Reach t c u d
      → Reach u d v e
      → Reach t c v e
  Reach-trans r here = r
  Reach-trans r (next q s) = next (Reach-trans r q) s

  Step-Moves : {t : Transport} {c : C} {u : Transport} {d : C} → Step t c u d → Moves t u
  unfolding expect_exit stop_end
  Step-Moves (starts t c) = start-Moves t
  Step-Moves (reserves method params observed t c) = reserve-Moves method params observed t
  Step-Moves (dispatches n t c) = begin_dispatch-Moves n t
  Step-Moves (writes s t c) = after_writing-Moves s t
  Step-Moves (reads message t c h) = read_message-Moves owner message t c
  Step-Moves (refuses_frame e t c h) = read_fails-Moves owner e t
  Step-Moves (loses_root code e t c h) =
      Moves-then (root_exits-Moves code t) (read_fails-Moves owner e _)
  Step-Moves (ends_callback i raised body answers t c h) =
      callback_ends-Moves i raised body answers t
  Step-Moves (aborts reason t c) = abort-Moves reason t
  Step-Moves (expects_exit t c) = Moves-same t _ refl refl refl refl refl
  Step-Moves (stops t c) = stop-Moves t
  Step-Moves (ends_stop code t c h) = Moves-same t _ refl refl refl refl refl
  Step-Moves (owner_acts t c d) = Moves_none t

  Reach-Moves : {t : Transport} {c : C} {u : Transport} {d : C} → Reach t c u d → Moves t u
  Reach-Moves {t} here = Moves_none t
  Reach-Moves (next r s) = Moves-then (Reach-Moves r) (Step-Moves s)

  new-Fits : (k : ℕ) → Fits (new_transport k)
  unfolding new_transport
  new-Fits k = record { each_fits = refl; told = refl }

  -- A request whose future is set keeps that outcome: no later message, failure or stop sets it again.
  pub Reach-once :
      (k n : ℕ) {t u : Transport} {a c d : C} {f : Future}
      → Reach (new_transport k) a t c
      → Reach t c u d
      → future_at n t ≡ some f
      → is_done f ≡ true
      → future_at n u ≡ some f
  Reach-once k n {f = f} before later found done =
      ((Reach-Moves later).kept ((Reach-Moves before).fits (new-Fits k))).still_settled n f found
        done

  -- Nobody waits for a transport that has failed or is stopping: every request that was dispatched has
  -- its outcome.
  pub Reach-released :
      (k n : ℕ) {t : Transport} {a c : C} {r : PendingRequest}
      → Reach (new_transport k) a t c
      → (is_some t.failure || t.stopping) ≡ true
      → find n t.requests ≡ some r
      → r.sent ≡ true
      → is_done r.future ≡ true
  Reach-released k n {t} {r = r} before over found sent = ground (
    arith,
    every-find (fits_one (revoked t) t.next_id) n t.requests r
        ((Reach-Moves before).fits (new-Fits k)).each_fits,
  )

  -- The first failure is the one that stays, and the observers of a closed transport have been told of
  -- it and of nothing else, once; without a failure they have been told of nothing.
  pub Reach-told :
      (k : ℕ) {t u : Transport} {a c d : C}
      → Reach (new_transport k) a t c
      → Reach t c u d
      → (t.closures ≡ told_of t.failure)
        × ((e : TransportError) → t.failure ≡ some e → u.failure ≡ some e)
  Reach-told k before later =
      let fits = (Reach-Moves before).fits (new-Fits k) in
      (fits.told, ((Reach-Moves later).kept fits).first_failure)
