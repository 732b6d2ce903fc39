-- ===== src/Tests/Transport.antt =====
-- Runs of the transport: one request, its response and a callback, and frames on the pipes.
use acp_proxy.Prelude.{
  ℕ, ◌≤◌, ◌≡◌, refl, pos, true, false, ◌||◌, ◌+◌, Option, none, some, is_some, List, [], ◌∷◌, ◌++◌,
  if◌then◌else◌, arith,
}
use acp_proxy.Json.{JsonValue, Fields, field, end, obj, str, int, null, get}
use acp_proxy.NativeTransport.Frames.{
  Bytes, codes, same, frame, spell, got, pipe_loop, header_loop, read_body, read_frame, chunk, Pipe,
  pipe_reader, content_length, split_lines, header_fields, partition, lstrip, rstrip, number,
  max_frame_bytes, max_header_bytes,
}
use acp_proxy.NativeTransport.Frames.Chunks.{
  open_end, flat, map_state, stream_reader, read_frame-chunks,
}
use acp_proxy.NativeTransport.Frames.Writing.{WriteAnswer, blocked, count, sent, write_loop}
use acp_proxy.NativeTransport.Frames.RoundTrip.{write_loop-read_frame}
use acp_proxy.NativeTransport.State.{
  TransportError, value, failed, transport_error, is_done, PendingRequest, Transport, new_transport,
  find, update, each, start, reserve, begin_dispatch, abort,
}
use acp_proxy.NativeTransport.Admit.{
  RpcResponse, Owner, admit, admit_request, admit_response, read_message,
}
use acp_proxy.NativeTransport.Settled.{future_at, told_of}
use acp_proxy.NativeTransport.Machine.{
  starts, reserves, dispatches, reads, aborts, Reach, Reach-trans, here, next, Reach-once,
  Reach-released, Reach-told,
}
use acp_proxy.NativeTransport.Callbacks.{Bounded, Reach-callbacks}

abbrev parse_empty : Bytes → Option JsonValue
parse_empty body = if same body (codes "{}") then some (obj end) else none

abbrev written : Bytes
written = codes "Content-Length: 2" ++ (13 ∷ 10 ∷ 13 ∷ 10 ∷ codes "{}")

frame_empty : frame (codes "{}") ≡ written
unfolding frame spell
frame_empty = refl

abbrev answers : List WriteAnswer
answers = count (pos 10) ∷ blocked ∷ count (pos 13) ∷ []

abbrev pipe : Pipe
pipe = (
  codes "Content-",
  chunk (codes "Length: 2" ++ (13 ∷ 10 ∷ [])) ∷ chunk (13 ∷ 10 ∷ codes "{}C") ∷ [],
)

read_frame_run : read_frame pipe_reader parse_empty pipe ≡ got end (codes "C", [])
unfolding read_frame header_loop pipe_loop content_length split_lines header_fields partition lstrip
    rstrip number read_body max_frame_bytes max_header_bytes
read_frame_run = refl

writes_all : (write_loop (frame (codes "{}")) answers).1 ≡ sent
unfolding frame spell write_loop
writes_all = refl

pipe_has_all : flat pipe ≡ ((write_loop (frame (codes "{}")) answers).0 ++ codes "C", open_end)
unfolding frame spell write_loop
pipe_has_all = refl

small : 2 ≤ max_frame_bytes
unfolding max_frame_bytes
small = omega arith

write_loop-read_frame_example :
    map_state flat (read_frame pipe_reader parse_empty pipe) ≡ got end (codes "C", open_end)
write_loop-read_frame_example =
    write_loop-read_frame parse_empty (codes "{}") (codes "C") open_end end answers pipe refl
      (omega arith) small (omega arith) writes_all pipe_has_all

read_frame-chunks_example :
    map_state flat (read_frame pipe_reader parse_empty pipe)
    ≡ read_frame stream_reader parse_empty (flat pipe)
read_frame-chunks_example = read_frame-chunks parse_empty pipe

-- An owner that counts what it is handed.
abbrev counter : Owner ℕ
counter = record {
  notification = some (λ c m. (none, c + 1));
  request = some (λ c m. (none, c + 1));
  observer = λ c n r. (none, c);
}

abbrev ok_response : RpcResponse
ok_response = record { value = str "OK"; is_error = false }

-- The request of `t3` after a failure.
abbrev lost : PendingRequest
lost = record {
  id = 1;
  method = "copilot/models";
  params = null;
  future = failed (transport_error "late");
  observed = false;
  sent = true;
  pending = false;
}

abbrev t0 : Transport
t0 = new_transport 2

abbrev t1 : Transport
t1 = (start t0).1

abbrev t2 : Transport
t2 = (reserve "copilot/models" null false t1).1

abbrev t3 : Transport
t3 = (begin_dispatch 1 t2).1

abbrev answer : Fields
answer = field "jsonrpc" (str "2.0") (field "id" (int (pos 1)) (field "result" (str "OK") end))

abbrev call : Fields
call = field "jsonrpc" (str "2.0") (field "id" (int (pos 1)) (field "method" (str "m") end))

abbrev t4 : Transport
t4 = (read_message counter answer t3 0).0

abbrev t5 : Transport
t5 = (read_message counter call t3 0).0

abbrev t6 : Transport
t6 = abort "late" t3

is_reading : t3.reading ≡ true
unfolding start reserve begin_dispatch new_transport find update
is_reading = refl

to_t3 : Reach counter t0 0 t3 0
to_t3 =
    next (next (next here (starts t0 0)) (reserves "copilot/models" null false t1 0))
      (dispatches 1 t2 0)

to_t4 : Reach counter t3 0 t4 0
unfolding start reserve begin_dispatch new_transport find update read_message admit admit_response
    get
to_t4 = next here (reads answer t3 0 is_reading)

answered : future_at 1 t4 ≡ some (value (str "OK"))
unfolding start reserve begin_dispatch new_transport find update read_message admit admit_response
    get
answered = refl

Reach-once_example : future_at 1 (abort "late" t4) ≡ some (value (str "OK"))
Reach-once_example =
    Reach-once counter 2 1 (Reach-trans counter to_t3 to_t4) (next here (aborts "late" t4 0))
      answered refl

released : find 1 t6.requests ≡ some lost
unfolding start reserve begin_dispatch new_transport find update abort each
released = refl

t6_failed : is_some t6.failure || t6.stopping ≡ true
unfolding start reserve begin_dispatch new_transport find update abort each
t6_failed = refl

Reach-released_example : is_done lost.future ≡ true
Reach-released_example =
    Reach-released counter 2 1 (next to_t3 (aborts "late" t3 0)) t6_failed released refl

Reach-told_example :
    (t6.closures ≡ told_of t6.failure)
    × ((e : TransportError) → t6.failure ≡ some e → (abort "later" t6).failure ≡ some e)
Reach-told_example =
    Reach-told counter 2 (next to_t3 (aborts "late" t3 0)) (next here (aborts "later" t6 0))

to_t5 : Reach counter t3 0 t5 1
unfolding start reserve begin_dispatch new_transport find update read_message admit admit_request
    get
to_t5 = next here (reads call t3 0 is_reading)

Reach-callbacks_example : Bounded 2 t5
Reach-callbacks_example = Reach-callbacks 2 counter (Reach-trans counter to_t3 to_t5)
