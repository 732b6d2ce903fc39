-- ===== src/RawEvents/Lossless.antt =====
-- A capture of raw_events.py that closes without a failure has written all that it recorded.
use acp_proxy.Prelude.{
  ◌≡◌, refl, sym, ap, subst, ◌∙◌, String, false, Option, none, some, List, [], ◌∷◌, ◌++◌, arith, ok,
}
use mathlib.Core.List.{append_assoc, append-nil}
use acp_proxy.RawEvents.{Entry, ended, Capture, started, run_writer, has_ended, end_close}
use acp_proxy.RawEvents.Machine.{CaptureEvent, records, writes, closes_with, keep, act, run_events}
use acp_proxy.RawEvents.Invariant.{Tracks}
use acp_proxy.RawEvents.Steps.{
  same-Tracks, record_event-Tracks, waits-eq, step_writer-Tracks, begin_close-Tracks,
}

module _ (text : Entry → String) where
  act-Tracks :
      {acc : List Entry} (e : CaptureEvent) (c : Capture)
      → Tracks text acc c
      → Tracks text (acc ++ keep (act text e c).0 []) (act text e c).1
  unfolding act run_writer
  act-Tracks (records timestamp kind fields) c t =
      record_event-Tracks text timestamp kind fields c t
  act-Tracks (writes written closes) c t =
      same-Tracks text (run_writer text written closes c)
        (step_writer-Tracks text c.writer written closes c refl t)
  act-Tracks (closes_with timestamp fields) c t = begin_close-Tracks text timestamp fields c t

  keep-append :
      (o : Option Entry) (acc es : List Entry) → (acc ++ keep o []) ++ es ≡ acc ++ keep o es
  keep-append none acc es = ap (λ r. r ++ es) (append-nil acc)
  keep-append (some e) acc es = append_assoc acc (e ∷ []) es

  run_events-Tracks_from :
      (es : List CaptureEvent) (acc : List Entry) (c : Capture)
      → Tracks text acc c
      → Tracks text (acc ++ (run_events text es c).0) (run_events text es c).1
  unfolding run_events
  run_events-Tracks_from [] acc c t = same-Tracks text c t
  run_events-Tracks_from (e ∷ es) acc c t =
      let rest = run_events text es (act text e c).1 in
      subst (λ r. Tracks text r rest.1) (keep-append (act text e c).0 acc rest.0)
        (run_events-Tracks_from es (acc ++ keep (act text e c).0 []) (act text e c).1
          (act-Tracks e c t))

  started-Tracks : (first : Entry) → Tracks text (first ∷ []) (started first)
  unfolding started
  started-Tracks first = record {
    whole = λ s. refl;
    records = refl;
    bytes = refl;
    records_fit = omega arith;
    bytes_fit = omega arith;
    marked = λ m. cc;
    tidy = refl;
    ended_why = λ e. cc;
    ended_empty = λ e. refl;
  }

  -- After any events, what was recorded and is not in the file waits to be written, unless the capture
  -- has failed; the counters are the number and the bytes of what waits, within their limits.
  pub run_events-Tracks :
      (es : List CaptureEvent) (first : Entry)
      → Tracks text
          (first ∷ (run_events text es (started first)).0)
          (run_events text es (started first)).1
  run_events-Tracks es first =
      run_events-Tracks_from es (first ∷ []) (started first) (started-Tracks first)

  end_close_sound : (c : Capture) → end_close c ≡ ok tt → c.failed ≡ false
  unfolding end_close
  end_close_sound c h = ground (arith, h)

  -- Where `close` returns after the task has ended, the file has all that was recorded, in order, and
  -- no more: the first line, and each record that was accepted.
  pub end_close-lines :
      (es : List CaptureEvent) (first : Entry)
      → (run_events text es (started first)).1.writer ≡ ended
      → end_close (run_events text es (started first)).1 ≡ ok tt
      → (run_events text es (started first)).1.lines
        ≡ first ∷ (run_events text es (started first)).0
  end_close-lines es first is_ended returned =
      let c = (run_events text es (started first)).1 in
      let t = run_events-Tracks es first in
      let nothing_waits =
        waits-eq text ended c.queue c is_ended refl ∙ t.ended_empty (ap has_ended is_ended) in
      sym (append-nil c.lines)
      ∙ ap (λ r. c.lines ++ r) (sym nothing_waits)
      ∙ t.whole (end_close_sound c returned)
