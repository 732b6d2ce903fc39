-- ===== src/RawEvents/Invariant.antt =====
-- What holds of a capture of raw_events.py after any events.
use acp_proxy.Prelude.{
  ℕ, suc, ◌+◌, ◌≡◌, refl, sym, ap, ◌∙◌, ◌≤◌, ◌<◌, String, Bool, true, false, ◌||◌, Option, none,
  some, List, [], ◌∷◌, ◌++◌, ltb, leb, if◌then◌else◌, length, length-append, arith,
}
use mathlib.Core.List.{append_assoc}
use acp_proxy.RawEvents.{
  Entry, Writer, waiting, writing, ended, Capture, max_pending_bytes, max_pending_records, fail,
  size, enqueue, has_ended,
}
use acp_proxy.RawEvents.Machine.{keep}

abbrev pub in_flight : Writer → List Entry
in_flight waiting = []
in_flight (writing e) = e ∷ []
in_flight ended = []

abbrev pub items : List (Option Entry) → List Entry
items [] = []
items (none ∷ queue) = items queue
items (some e ∷ queue) = e ∷ items queue

-- What is not written yet.
abbrev pub waits : Capture → List Entry
waits c = in_flight c.writer ++ items c.queue

abbrev pub is_marked : List (Option Entry) → Bool
is_marked [] = false
is_marked (none ∷ queue) = true
is_marked (some e ∷ queue) = is_marked queue

abbrev nothing : List (Option Entry) → Bool
nothing [] = true
nothing (o ∷ queue) = false

-- The mark of the end is the last in the queue.
abbrev pub is_tidy : List (Option Entry) → Bool
is_tidy [] = true
is_tidy (none ∷ queue) = nothing queue
is_tidy (some e ∷ queue) = is_tidy queue

pub items-append :
    (queue more : List (Option Entry)) → items (queue ++ more) ≡ items queue ++ items more
items-append [] more = refl
items-append (none ∷ queue) more = items-append queue more
items-append (some e ∷ queue) more = ap (λ r. e ∷ r) (items-append queue more)

pub is_marked-some :
    (e : Entry) (queue : List (Option Entry)) → is_marked (queue ++ (some e ∷ [])) ≡ is_marked queue
is_marked-some e [] = refl
is_marked-some e (none ∷ queue) = refl
is_marked-some e (some d ∷ queue) = is_marked-some e queue

pub is_tidy-append :
    (o : Option Entry) (queue : List (Option Entry))
    → is_marked queue ≡ false
    → is_tidy (queue ++ (o ∷ [])) ≡ true
is_tidy-append none [] h = refl
is_tidy-append (some e) [] h = refl
is_tidy-append o (none ∷ queue) h = cc
is_tidy-append o (some d ∷ queue) h = is_tidy-append o queue h

pub items_of_nothing : (queue : List (Option Entry)) → nothing queue ≡ true → items queue ≡ []
items_of_nothing [] h = refl
items_of_nothing (o ∷ queue) h = cc

module _ (text : Entry → String) where
  abbrev pub total : List Entry → ℕ
  total [] = 0
  total (e ∷ es) = size text e + total es

  pub total-append : (es fs : List Entry) → total (es ++ fs) ≡ total es + total fs
  total-append [] fs = omega arith
  total-append (e ∷ es) fs = omega (arith, total-append es fs)

  -- The capture after `acc` was recorded: nothing is lost before it fails, the counters are those of
  -- what waits, and it ends only when it has failed or is closed.
  pub record Tracks (acc : List Entry) (c : Capture) : Type 0 where
    pub whole : c.failed ≡ false → c.lines ++ waits c ≡ acc
    pub records : c.pending_records ≡ length (waits c)
    pub bytes : c.pending_bytes ≡ total (waits c)
    pub records_fit : c.pending_records ≤ max_pending_records
    pub bytes_fit : c.pending_bytes ≤ max_pending_bytes
    pub marked : is_marked c.queue ≡ true → c.closed ≡ true
    pub tidy : is_tidy c.queue ≡ true
    pub ended_why : has_ended c.writer ≡ true → c.failed || c.closed ≡ true
    pub ended_empty : has_ended c.writer ≡ true → items c.queue ≡ []

  -- A capture that has failed promises nothing of what it has recorded.
  failed-Tracks :
      {acc : List Entry} (c : Capture)
      → Tracks acc c
      → (more : List Entry) (failures : ℕ)
      → Tracks more (record c { failed = true; failures = failures })
  failed-Tracks c t more failures = record {
    whole = λ sound. cc;
    records = t.records;
    bytes = t.bytes;
    records_fit = t.records_fit;
    bytes_fit = t.bytes_fit;
    marked = t.marked;
    tidy = t.tidy;
    ended_why = λ e. refl;
    ended_empty = t.ended_empty;
  }

  if-Tracks :
      {acc : List Entry} (c : Capture) (failed : Bool)
      → Tracks acc c
      → (more : List Entry) → failed ≡ c.failed
      → Tracks more (if failed then c else record c { failed = true; failures = suc c.failures })
  if-Tracks c false t more eq = failed-Tracks c t more (suc c.failures)
  if-Tracks c true t more eq = record {
    whole = λ sound. absurd (ground (arith, eq, sound));
    records = t.records;
    bytes = t.bytes;
    records_fit = t.records_fit;
    bytes_fit = t.bytes_fit;
    marked = t.marked;
    tidy = t.tidy;
    ended_why = t.ended_why;
    ended_empty = t.ended_empty;
  }

  pub fail-Tracks :
      {acc : List Entry} (c : Capture) → Tracks acc c → (more : List Entry) → Tracks more (fail c)
  fail-Tracks c t more = if-Tracks c c.failed t more refl

  waits-some :
      (w : Writer) (e : Entry) (queue : List (Option Entry))
      → in_flight w ++ items (queue ++ (some e ∷ [])) ≡ (in_flight w ++ items queue) ++ (e ∷ [])
  waits-some w e queue =
      ap (λ r. in_flight w ++ r) (items-append queue (some e ∷ []))
      ∙ sym (append_assoc (in_flight w) (items queue) (e ∷ []))

  -- One more entry in the queue.
  enqueued-Tracks :
      {acc : List Entry} (e : Entry) (c : Capture)
      → Tracks acc c
      → c.failed ≡ false
      → c.closed ≡ false
      → c.pending_bytes + size text e ≤ max_pending_bytes
      → c.pending_records < max_pending_records
      → Tracks (acc ++ (e ∷ [])) (record c {
        queue = c.queue ++ (some e ∷ []);
        pending_bytes = c.pending_bytes + size text e;
        pending_records = suc c.pending_records;
      })
  enqueued-Tracks e c t sound unclosed bytes_room records_room =
      let waits_more = waits-some c.writer e c.queue in
      record {
        whole = λ s.
            ap (λ r. c.lines ++ r) waits_more
            ∙ sym (append_assoc c.lines (waits c) (e ∷ []))
            ∙ ap (λ r. r ++ (e ∷ [])) (t.whole s);
        records = omega (arith, t.records, length-append (waits c) (e ∷ []), ap length waits_more);
        bytes = omega (arith, t.bytes, total-append (waits c) (e ∷ []), ap total waits_more);
        records_fit = records_room;
        bytes_fit = bytes_room;
        marked = λ m. t.marked (sym (is_marked-some e c.queue) ∙ m);
        tidy = is_tidy-append (some e) c.queue (ground (arith, t.marked, unclosed));
        ended_why = t.ended_why;
        ended_empty = λ h. absurd (ground (arith, t.ended_why h, sound, unclosed));
      }

  pub enqueue-Tracks :
      {acc : List Entry} (e : Entry) (c : Capture) (full : Bool)
      → (ltb max_pending_bytes (c.pending_bytes + size text e)
          || leb max_pending_records c.pending_records)
        ≡ full
      → Tracks acc c
      → c.failed ≡ false
      → c.closed ≡ false
      → Tracks (acc ++ keep (enqueue text e c).0 []) (enqueue text e c).1
  enqueue-Tracks {acc} e c true is_full t sound unclosed = rw is_full (fail-Tracks c t (acc ++ []))
  enqueue-Tracks e c false is_full t sound unclosed =
      rw is_full
        (enqueued-Tracks e c t sound unclosed (ground (arith, is_full)) (ground (arith, is_full)))
