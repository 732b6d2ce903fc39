-- ===== src/RawEvents/Steps.antt =====
-- What each operation of a capture of raw_events.py keeps.
use acp_proxy.Prelude.{
  suc, ◌+◌, ◌-◌, ◌≡◌, refl, sym, ap, subst, ◌∙◌, String, Bool, true, false, ◌||◌, Option, none,
  some, List, [], ◌∷◌, ◌++◌, ltb, leb, if◌then◌else◌, length, arith,
}
use mathlib.Core.List.{append_assoc, append-nil}
use acp_proxy.Json.{JsonObject}
use acp_proxy.RawEvents.{
  Entry, Writer, waiting, writing, ended, Capture, max_pending_bytes, max_pending_records, numbered,
  fail, size, record_event, finish, take_item, ends_item, step_writer, last_record, set_closed,
  begin_close,
}
use acp_proxy.RawEvents.Machine.{keep}
use acp_proxy.RawEvents.Invariant.{
  in_flight, items, waits, is_marked, is_tidy, items-append, is_tidy-append, items_of_nothing,
  total, Tracks, fail-Tracks, enqueue-Tracks,
}

module _ (text : Entry → String) where
  numbered-Tracks :
      {acc : List Entry} (c : Capture)
      → Tracks text acc c
      → Tracks text acc (record c { sequence = suc c.sequence })
  numbered-Tracks c t = record {
    whole = t.whole;
    records = t.records;
    bytes = t.bytes;
    records_fit = t.records_fit;
    bytes_fit = t.bytes_fit;
    marked = t.marked;
    tidy = t.tidy;
    ended_why = t.ended_why;
    ended_empty = t.ended_empty;
  }

  pub same-Tracks : {acc : List Entry} (c : Capture) → Tracks text acc c → Tracks text (acc ++ []) c
  same-Tracks {acc} c t = subst (λ r. Tracks text r c) (sym (append-nil acc)) t

  open_event-Tracks :
      {acc : List Entry} (timestamp kind : String) (fields : JsonObject) (c : Capture) (shut : Bool)
      → c.failed || c.closed ≡ shut
      → Tracks text acc c
      → Tracks text
          (acc ++ keep (record_event text timestamp kind fields c).0 [])
          (record_event text timestamp kind fields c).1
  unfolding record_event
  open_event-Tracks timestamp kind fields c true is_shut t = rw is_shut (same-Tracks c t)
  open_event-Tracks timestamp kind fields c false is_shut t = rw is_shut (
      enqueue-Tracks text (numbered timestamp kind fields c)
        (record c { sequence = suc c.sequence })
        (ltb max_pending_bytes (c.pending_bytes + size text (numbered timestamp kind fields c))
          || leb max_pending_records c.pending_records)
        refl (numbered-Tracks c t) (ground (arith, is_shut)) (ground (arith, is_shut)))

  pub record_event-Tracks :
      {acc : List Entry} (timestamp kind : String) (fields : JsonObject) (c : Capture)
      → Tracks text acc c
      → Tracks text
          (acc ++ keep (record_event text timestamp kind fields c).0 [])
          (record_event text timestamp kind fields c).1
  record_event-Tracks timestamp kind fields c t =
      open_event-Tracks timestamp kind fields c (c.failed || c.closed) refl t

  -- The task ends with nothing in the queue, by a failure or by the mark of the end.
  done-Tracks :
      {acc : List Entry} (c : Capture)
      → (c.failed ≡ false → c.lines ≡ acc)
      → c.failed || c.closed ≡ true
      → Tracks text acc
          (record c { queue = []; pending_bytes = 0; pending_records = 0; writer = ended })
  done-Tracks c whole why = record {
    whole = λ s. append-nil c.lines ∙ whole s;
    records = refl;
    bytes = refl;
    records_fit = omega arith;
    bytes_fit = omega arith;
    marked = λ m. cc;
    tidy = refl;
    ended_why = λ e. why;
    ended_empty = λ e. refl;
  }

  finish-Tracks :
      {acc : List Entry} (closes : Bool) (c : Capture)
      → (c.failed ≡ false → c.lines ≡ acc)
      → c.failed || c.closed ≡ true
      → Tracks text acc (finish text closes c)
  unfolding finish
  finish-Tracks true c whole why = done-Tracks c whole why
  finish-Tracks {acc} false c whole why =
      fail-Tracks text
        (record c { queue = []; pending_bytes = 0; pending_records = 0; writer = ended })
        (done-Tracks c whole why) acc

  pub waits-eq :
      (w : Writer) (queue : List (Option Entry)) (c : Capture)
      → c.writer ≡ w
      → c.queue ≡ queue
      → waits c ≡ in_flight w ++ items queue
  waits-eq w queue c is_w is_queue =
      ap (λ v. in_flight v ++ items c.queue) is_w ∙ ap (λ q. in_flight w ++ items q) is_queue

  take_item-Tracks :
      {acc : List Entry} (closes : Bool) (queue : List (Option Entry)) (c : Capture)
      → c.queue ≡ queue
      → c.writer ≡ waiting
      → Tracks text acc c
      → Tracks text acc (take_item text closes queue c)
  take_item-Tracks closes [] c q w t = t
  take_item-Tracks closes (none ∷ queue) c q w t =
      let left =
        waits-eq waiting (none ∷ queue) c w q
        ∙ items_of_nothing queue (ap is_tidy (sym q) ∙ t.tidy) in
      finish-Tracks closes (record c { queue = queue })
        (λ s. sym (append-nil c.lines) ∙ ap (λ r. c.lines ++ r) (sym left) ∙ t.whole s)
        (ground (arith, t.marked (ap is_marked q)))
  take_item-Tracks closes (some e ∷ queue) c q w t =
      let same_waits = waits-eq waiting (some e ∷ queue) c w q in
      record {
        whole = λ s. ap (λ r. c.lines ++ r) (sym same_waits) ∙ t.whole s;
        records = t.records ∙ ap length same_waits;
        bytes = t.bytes ∙ ap (total text) same_waits;
        records_fit = t.records_fit;
        bytes_fit = t.bytes_fit;
        marked = λ m. t.marked (ap is_marked q ∙ m);
        tidy = ap is_tidy (sym q) ∙ t.tidy;
        ended_why = λ h. cc;
        ended_empty = λ h. cc;
      }

  -- The item is in the file, and no longer counted.
  written-Tracks :
      {acc : List Entry} (e : Entry) (c : Capture)
      → c.writer ≡ writing e
      → Tracks text acc c
      → Tracks text acc (record c {
        lines = c.lines ++ (e ∷ []);
        pending_bytes = c.pending_bytes - size text e;
        pending_records = c.pending_records - 1;
        writer = waiting;
      })
  written-Tracks e c w t =
      let same_waits = waits-eq (writing e) c.queue c w refl in
      record {
        whole = λ s.
            append_assoc c.lines (e ∷ []) (items c.queue)
            ∙ ap (λ r. c.lines ++ r) (sym same_waits)
            ∙ t.whole s;
        records = omega (arith, t.records, ap length same_waits);
        bytes = omega (arith, t.bytes, ap (total text) same_waits);
        records_fit = omega (arith, t.records_fit);
        bytes_fit = omega (arith, t.bytes_fit);
        marked = t.marked;
        tidy = t.tidy;
        ended_why = λ h. cc;
        ended_empty = λ h. cc;
      }

  fail-failed : (c : Capture) → (fail c).failed ≡ true
  fail-failed c = ground arith

  gone_on-Tracks :
      {acc : List Entry} (closes failed : Bool) (c : Capture)
      → c.failed ≡ failed
      → Tracks text acc c
      → Tracks text acc (if failed then finish text closes c else c)
  gone_on-Tracks closes false c f t = t
  gone_on-Tracks closes true c f t =
      finish-Tracks closes c (λ s. absurd (ground (arith, f, s))) (ground (arith, f))

  ends_item-Tracks :
      {acc : List Entry} (written closes : Bool) (e : Entry) (c : Capture)
      → c.writer ≡ writing e
      → Tracks text acc c
      → Tracks text acc (ends_item text written closes e c)
  ends_item-Tracks false closes e c w t =
      let f = fail-failed c in
      finish-Tracks closes (fail c) (λ s. absurd (ground (arith, f, s))) (ground (arith, f))
  ends_item-Tracks true closes e c w t =
      gone_on-Tracks closes c.failed
        (record c {
          lines = c.lines ++ (e ∷ []);
          pending_bytes = c.pending_bytes - size text e;
          pending_records = c.pending_records - 1;
          writer = waiting;
        })
        refl (written-Tracks e c w t)

  pub step_writer-Tracks :
      {acc : List Entry} (w : Writer) (written closes : Bool) (c : Capture)
      → c.writer ≡ w
      → Tracks text acc c
      → Tracks text acc (step_writer text w written closes c)
  step_writer-Tracks waiting written closes c w t = take_item-Tracks closes c.queue c refl w t
  step_writer-Tracks (writing e) written closes c w t = ends_item-Tracks written closes e c w t
  step_writer-Tracks ended written closes c w t = t

  -- The capture is closed, and the end of the queue is marked.
  set_closed-Tracks :
      {acc : List Entry} (c : Capture)
      → c.closed ≡ false
      → Tracks text acc c
      → Tracks text acc (record c { closed = true; queue = c.queue ++ (none ∷ []) })
  set_closed-Tracks c unclosed t =
      let same_items = items-append c.queue (none ∷ []) ∙ append-nil (items c.queue) in
      let same_waits = ap (λ r. in_flight c.writer ++ r) same_items in
      record {
        whole = λ s. ap (λ r. c.lines ++ r) same_waits ∙ t.whole s;
        records = t.records ∙ ap length (sym same_waits);
        bytes = t.bytes ∙ ap (total text) (sym same_waits);
        records_fit = t.records_fit;
        bytes_fit = t.bytes_fit;
        marked = λ m. refl;
        tidy = is_tidy-append none c.queue (ground (arith, t.marked, unclosed));
        ended_why = λ h. ground arith;
        ended_empty = λ h. same_items ∙ t.ended_empty h;
      }

  record_event-closed :
      (timestamp kind : String) (fields : JsonObject) (c : Capture)
      → (record_event text timestamp kind fields c).1.closed ≡ c.closed
  unfolding record_event
  record_event-closed timestamp kind fields c = ground arith

  -- What may be recorded by a test, whichever way it goes.
  if-Tracks :
      (acc : List Entry) (b : Bool) (x y : Option Entry × Capture)
      → (b ≡ true → Tracks text (acc ++ keep x.0 []) x.1)
      → (b ≡ false → Tracks text (acc ++ keep y.0 []) y.1)
      → Tracks text (acc ++ keep (if b then x else y).0 []) (if b then x else y).1
  if-Tracks acc true x y on_true on_false = on_true refl
  if-Tracks acc false x y on_true on_false = on_false refl

  last_record-Tracks :
      {acc : List Entry} (timestamp : String) (fields : JsonObject) (c : Capture)
      → Tracks text acc c
      → Tracks text
          (acc ++ keep (last_record text timestamp fields c).0 [])
          (last_record text timestamp fields c).1
  last_record-Tracks {acc} timestamp fields c t =
      if-Tracks acc c.failed (none, c) (record_event text timestamp "capture_end" fields c)
        (λ f. same-Tracks c t) (λ f. record_event-Tracks timestamp "capture_end" fields c t)

  last_record-closed :
      (timestamp : String) (fields : JsonObject) (c : Capture)
      → (last_record text timestamp fields c).1.closed ≡ c.closed
  last_record-closed timestamp fields c =
      ground (arith, record_event-closed timestamp "capture_end" fields c)

  pub begin_close-Tracks :
      {acc : List Entry} (timestamp : String) (fields : JsonObject) (c : Capture)
      → Tracks text acc c
      → Tracks text
          (acc ++ keep (begin_close text timestamp fields c).0 [])
          (begin_close text timestamp fields c).1
  unfolding begin_close
  begin_close-Tracks {acc} timestamp fields c t =
      if-Tracks acc c.closed (none, c) (set_closed text (last_record text timestamp fields c))
        (λ closed_. same-Tracks c t)
        (λ unclosed.
          set_closed-Tracks (last_record text timestamp fields c).1
            (last_record-closed timestamp fields c ∙ unclosed)
            (last_record-Tracks timestamp fields c t))
