-- ===== src/RawEvents.antt =====
-- The capture of raw events, of raw_events.py, from the end of `start` on.
pub mod Invariant
pub mod Lossless
pub mod Machine
pub mod Steps
use acp_proxy.Prelude.{
  ℕ, suc, ◌+◌, ◌-◌, ◌*◌, String, Bool, true, false, not, ◌&&◌, ◌||◌, Option, none, some, List, [],
  ◌∷◌, ◌++◌, Result, ok, err, ltb, leb, if◌then◌else◌,
}
use Prim.Native.String.{len}
use acp_proxy.Json.{JsonObject}

abbrev pub max_pending_bytes : ℕ
max_pending_bytes = 32 * 1024 * 1024

abbrev pub max_pending_records : ℕ
max_pending_records = 4096

-- The record of one line.
pub record Entry : Type 0 where
  pub sequence : ℕ
  pub timestamp : String
  pub kind : String
  pub fields : JsonObject

-- Where the task that writes stands: it waits for an item, or writes one, or has ended.
pub data Writer : Type 0 where
  waiting : Writer
  writing : Entry → Writer
  ended : Writer

-- RawEventCapture; `lines` is what the file has, `failures` counts the calls of `on_failure`.
pub record Capture : Type 0 where
  pub sequence : ℕ
  pub queue : List (Option Entry)
  pub pending_bytes : ℕ
  pub pending_records : ℕ
  pub writer : Writer
  pub failed : Bool
  pub closed : Bool
  pub lines : List Entry
  pub failures : ℕ

abbrev pub first_entry : String → JsonObject → Entry
first_entry timestamp fields = record {
  sequence = 0;
  timestamp = timestamp;
  kind = "capture_start";
  fields = fields;
}

-- A capture that `start` has opened: its first line is written, and its task is created.
unfoldable pub started : Entry → Capture
started first = record {
  sequence = 1;
  queue = [];
  pending_bytes = 0;
  pending_records = 0;
  writer = waiting;
  failed = false;
  closed = false;
  lines = first ∷ [];
  failures = 0;
}

-- `_fail`
abbrev pub fail : Capture → Capture
fail c = if c.failed then c else record c { failed = true; failures = suc c.failures }

-- The entry that `_serialize` numbers.
abbrev pub numbered : String → String → JsonObject → Capture → Entry
numbered timestamp kind fields c = record {
  sequence = c.sequence;
  timestamp = timestamp;
  kind = kind;
  fields = fields;
}

abbrev pub has_ended : Writer → Bool
has_ended ended = true
has_ended waiting = false
has_ended (writing e) = false

module _ (text : Entry → String) where
  abbrev pub size : Entry → ℕ
  size e = len (text e)

  -- The entry is queued, unless the queue is full.
  abbrev pub enqueue : Entry → Capture → Option Entry × Capture
  enqueue e c =
      if ltb max_pending_bytes (c.pending_bytes + size e)
        || leb max_pending_records c.pending_records
      then (none, fail c)
      else (
        some e,
        record c {
          queue = c.queue ++ (some e ∷ []);
          pending_bytes = c.pending_bytes + size e;
          pending_records = suc c.pending_records;
        },
      )

  -- `record`: the entry that is queued, or `none` where it raises.
  unfoldable pub record_event : String → String → JsonObject → Capture → Option Entry × Capture
  record_event timestamp kind fields c =
      if c.failed || c.closed
      then (none, c)
      else enqueue (numbered timestamp kind fields c) (record c { sequence = suc c.sequence })

  -- The `finally` of `_run`.
  unfoldable pub finish : (closes : Bool) → Capture → Capture
  finish closes c =
      let done = record c { queue = []; pending_bytes = 0; pending_records = 0; writer = ended } in
      if closes then done else fail done

  abbrev pub take_item : Bool → List (Option Entry) → Capture → Capture
  take_item closes [] c = c
  take_item closes (none ∷ items) c = finish closes (record c { queue = items })
  take_item closes (some e ∷ items) c = record c { queue = items; writer = writing e }

  abbrev pub ends_item : (written closes : Bool) → Entry → Capture → Capture
  ends_item false closes e c = finish closes (fail c)
  ends_item true closes e c =
      let next = record c {
        lines = c.lines ++ (e ∷ []);
        pending_bytes = c.pending_bytes - size e;
        pending_records = c.pending_records - 1;
        writer = waiting;
      } in
      if c.failed then finish closes next else next

  abbrev pub step_writer : Writer → (written closes : Bool) → Capture → Capture
  step_writer waiting written closes c = take_item closes c.queue c
  step_writer (writing e) written closes c = ends_item written closes e c
  step_writer ended written closes c = c

  -- `_run` up to its next await: an item is taken where one is there, or the item that is written is
  -- done or has failed; where the task ends by it, the file closes or fails to.
  unfoldable pub run_writer : (written closes : Bool) → Capture → Capture
  run_writer written closes c = step_writer c.writer written closes c

  abbrev pub last_record : String → JsonObject → Capture → Option Entry × Capture
  last_record timestamp fields c =
      if c.failed then (none, c) else record_event timestamp "capture_end" fields c

  abbrev pub set_closed : Option Entry × Capture → Option Entry × Capture
  set_closed (e, c) = (e, record c { closed = true; queue = c.queue ++ (none ∷ []) })

  -- `close` up to its wait for the task: what it has recorded, if anything.
  unfoldable pub begin_close : String → JsonObject → Capture → Option Entry × Capture
  begin_close timestamp fields c =
      if c.closed then (none, c) else set_closed (last_record timestamp fields c)

-- `close` when the task has ended.
unfoldable pub end_close : Capture → Result String (Unit {0})
end_close c = if c.failed then err "Raw native event capture is incomplete" else ok tt
