-- ===== src/Tests/Captures.antt =====
-- A capture that records two events and is closed.
use acp_proxy.Prelude.{◌≡◌, refl, String, true, List, [], ◌∷◌, ok}
use acp_proxy.Json.{JsonObject, object}
use acp_proxy.RawEvents.{
  Entry, Capture, first_entry, started, record_event, run_writer, finish, begin_close, ended,
  end_close,
}
use acp_proxy.RawEvents.Machine.{CaptureEvent, records, writes, closes_with, act, run_events}
use acp_proxy.RawEvents.Invariant.{Tracks}
use acp_proxy.RawEvents.Lossless.{run_events-Tracks, end_close-lines}

abbrev text : Entry → String
text e = "{}"

abbrev no_fields : JsonObject
no_fields = object []

abbrev first : Entry
first = first_entry "t0" no_fields

abbrev write : CaptureEvent
write = writes true true

abbrev events : List CaptureEvent
events =
    records "t1" "turn" no_fields
    ∷ write
    ∷ records "t2" "turn" no_fields
    ∷ write
    ∷ closes_with "t3" no_fields
    ∷ records "t4" "late" no_fields
    ∷ write
    ∷ write
    ∷ write
    ∷ write
    ∷ write
    ∷ []

abbrev last : Capture
last = (run_events text events (started first)).1

is_ended : last.writer ≡ ended
unfolding run_events act started record_event run_writer finish begin_close
is_ended = refl

returned : end_close last ≡ ok tt
unfolding run_events act started record_event run_writer finish begin_close end_close
returned = refl

run_events-Tracks_example :
    Tracks text
      (first ∷ (run_events text events (started first)).0)
      (run_events text events (started first)).1
run_events-Tracks_example = run_events-Tracks text events first

end_close-lines_example :
    (run_events text events (started first)).1.lines
    ≡ first ∷ (run_events text events (started first)).0
end_close-lines_example = end_close-lines text events first is_ended returned
