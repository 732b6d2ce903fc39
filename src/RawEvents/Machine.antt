-- ===== src/RawEvents/Machine.antt =====
-- The events of a capture of raw_events.py, in any order.
use acp_proxy.Prelude.{String, Bool, Option, none, some, List, [], ◌∷◌}
use acp_proxy.Json.{JsonObject}
use acp_proxy.RawEvents.{Entry, Capture, record_event, run_writer, begin_close}

pub data CaptureEvent : Type 0 where
  records : (timestamp kind : String) → JsonObject → CaptureEvent
  writes : (written closes : Bool) → CaptureEvent
  closes_with : (timestamp : String) → JsonObject → CaptureEvent

abbrev pub keep : Option Entry → List Entry → List Entry
keep none es = es
keep (some e) es = e ∷ es

abbrev pub kept : Option Entry × Capture → (Capture → List Entry × Capture) → List Entry × Capture
kept (e, c) next = (keep e (next c).0, (next c).1)

module _ (text : Entry → String) where
  unfoldable pub act : CaptureEvent → Capture → Option Entry × Capture
  act (records timestamp kind fields) c = record_event text timestamp kind fields c
  act (writes written closes) c = (none, run_writer text written closes c)
  act (closes_with timestamp fields) c = begin_close text timestamp fields c

  -- The entries that are queued, in order, and the capture that is left.
  unfoldable pub run_events : List CaptureEvent → Capture → List Entry × Capture
  run_events [] c = ([], c)
  run_events (e ∷ es) c = kept (act e c) (run_events es)
