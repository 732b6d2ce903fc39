-- ===== src/NativeTransport/Frames/RoundTrip.antt =====
-- What `_send` writes is what `read_frame` reads.
use acp_proxy.Prelude.{
  ℕ, zero, suc, ◌+◌, ◌-◌, ◌≡◌, refl, sym, ap, ◌∙◌, ◌≤◌, ◌<◌, Bool, true, false, Option, some, List,
  [], ◌∷◌, ◌++◌, All, length, length-append, eqb, not, ok, arith,
}
use mathlib.Core.List.{append_assoc, append-nil}
use acp_proxy.Json.{JsonValue, obj, JsonObject}
use acp_proxy.NativeTransport.Frames.{
  Bytes, codes, max_frame_bytes, max_header_bytes, take, drop, got, ◌>>>◌, ends, onto, decimal,
  frame, content_length, header_loop, read_body, read_frame, Pipe, pipe_reader,
}
use acp_proxy.NativeTransport.Frames.Digits.{decimal-is_decimal, length-decimal}
use acp_proxy.NativeTransport.Frames.Header.{lacks, lacks-decimal, content_length-decimal}
use acp_proxy.NativeTransport.Frames.Chunks.{
  End, Stream, read_stream, stream_reader, flat, map_state, read_frame-chunks,
}
use acp_proxy.NativeTransport.Frames.Writing.{
  WriteAnswer, write_loop, sent, IsOffered, write_loop-Remains,
}

-- The last byte of a header so far is none of those at its end.
abbrev quiet : Bytes → Bool
quiet [] = true
quiet (x ∷ xs) = not (eqb x 10)

quiet_not_ends : (rev : Bytes) → quiet rev ≡ true → ends rev ≡ false
quiet_not_ends [] h = refl
quiet_not_ends (x ∷ xs) h = ground arith

quiet-onto : (xs rev : Bytes) → lacks 10 xs ≡ true → quiet rev ≡ true → quiet (onto xs rev) ≡ true
quiet-onto [] rev h q = q
quiet-onto (x ∷ xs) rev h q = quiet-onto xs (x ∷ rev) (ground arith) (ground arith)

onto-onto : (xs rev ys : Bytes) → onto (onto xs rev) ys ≡ onto rev (xs ++ ys)
onto-onto [] rev ys = refl
onto-onto (x ∷ xs) rev ys = onto-onto xs (x ∷ rev) ys

take_whole : (xs ys : Bytes) → take (length xs) (xs ++ ys) ≡ xs
take_whole [] ys = refl
take_whole (x ∷ xs) ys = ap (λ (t : Bytes). x ∷ t) (take_whole xs ys)

drop_whole : (xs ys : Bytes) → drop (length xs) (xs ++ ys) ≡ ys
drop_whole [] ys = refl
drop_whole (x ∷ xs) ys = drop_whole xs ys

-- A stream gives the bytes at its front.
front : (xs ys : Bytes) (e : End) → read_stream (length xs) (xs ++ ys, e) ≡ got xs (ys, e)
front xs ys e = ground (arith, take_whole xs ys, drop_whole xs ys, length-append {0} xs ys)

module _ (parse : Bytes → Option JsonValue) where
  -- One byte is read while the header has not ended.
  one_byte :
      (room : ℕ) (rev : Bytes) (x : ℕ) (t : Bytes) (e : End)
      → ends rev ≡ false
      → header_loop stream_reader parse (suc room) rev (x ∷ t, e)
        ≡ header_loop stream_reader parse room (x ∷ rev) (t, e)
  unfolding header_loop
  one_byte room rev x t e h = rw h (
      ap (λ o. o >>> λ bs s. header_loop stream_reader parse room (onto bs rev) s)
        (front (x ∷ []) t e))

  many_bytes :
      (xs : Bytes) (all room : ℕ) (rev t : Bytes) (e : End)
      → all ≡ length xs + room
      → lacks 10 xs ≡ true
      → quiet rev ≡ true
      → header_loop stream_reader parse all rev (xs ++ t, e)
        ≡ header_loop stream_reader parse room (onto xs rev) (t, e)
  many_bytes [] all room rev t e h l q =
      ap (λ n. header_loop stream_reader parse n rev (t, e)) (omega arith)
  many_bytes (x ∷ xs) zero room rev t e h l q = absurd (omega arith)
  many_bytes (x ∷ xs) (suc all) room rev t e h l q =
      one_byte all rev x (xs ++ t) e (quiet_not_ends rev q)
      ∙ many_bytes xs all room (x ∷ rev) t e (omega arith) (ground arith) (ground arith)

  blank_line :
      (room : ℕ) (rev t : Bytes) (e : End)
      → quiet rev ≡ true
      → header_loop stream_reader parse (suc (suc (suc (suc room)))) rev (13 ∷ 10 ∷ 13 ∷ 10 ∷ t, e)
        ≡ header_loop stream_reader parse room (10 ∷ 13 ∷ 10 ∷ 13 ∷ rev) (t, e)
  blank_line room rev t e q =
      one_byte _ rev 13 _ e (quiet_not_ends rev q)
      ∙ one_byte _ (13 ∷ rev) 10 _ e refl
      ∙ one_byte _ (10 ∷ 13 ∷ rev) 13 _ e (ground (arith, quiet_not_ends rev))
      ∙ one_byte _ (13 ∷ 10 ∷ 13 ∷ rev) 10 t e refl

  header_ends :
      (room : ℕ) (rev : Bytes) (s : Stream)
      → header_loop stream_reader parse room (10 ∷ 13 ∷ 10 ∷ 13 ∷ rev) s
        ≡ got (10 ∷ 13 ∷ 10 ∷ 13 ∷ rev) s
  unfolding header_loop
  header_ends zero rev s = refl
  header_ends (suc room) rev s = refl

  -- A header line that a blank line follows.
  header_line :
      (line t : Bytes) (e : End)
      → lacks 10 line ≡ true
      → length line + 4 ≤ max_header_bytes
      → header_loop stream_reader parse max_header_bytes [] (line ++ (13 ∷ 10 ∷ 13 ∷ 10 ∷ t), e)
        ≡ got (10 ∷ 13 ∷ 10 ∷ 13 ∷ onto line []) (t, e)
  header_line line t e h fits =
      let room = max_header_bytes - length line - 4 in
      many_bytes line max_header_bytes (suc (suc (suc (suc room)))) [] _ e (omega arith) h refl
      ∙ blank_line room (onto line []) t e (quiet-onto line [] h refl)
      ∙ header_ends room (onto line []) (t, e)

  -- The body that follows a header.
  read_header :
      (line : Bytes) (n : ℕ) (s t : Stream)
      → header_loop stream_reader parse max_header_bytes [] s
        ≡ got (10 ∷ 13 ∷ 10 ∷ 13 ∷ onto line []) t
      → content_length line ≡ ok n
      → read_frame stream_reader parse s ≡ read_body stream_reader parse n t
  unfolding read_frame
  read_header line n s t header announces =
      rw header (rw (onto-onto line [] []) (rw (append-nil line) (rw announces)))

  read_body-front :
      (body rest : Bytes) (e : End) (m : JsonObject)
      → parse body ≡ some (obj m)
      → read_body stream_reader parse (length body) (body ++ rest, e) ≡ got m (rest, e)
  unfolding read_body
  read_body-front body rest e m parses = ground (arith, front body rest e)

  -- A frame at the front of a stream.
  read_frame-front :
      (body rest : Bytes) (e : End) (m : JsonObject)
      → parse body ≡ some (obj m)
      → 0 < length body
      → length body ≤ max_frame_bytes
      → read_frame stream_reader parse (frame body ++ rest, e) ≡ got m (rest, e)
  unfolding frame max_frame_bytes max_header_bytes
  read_frame-front body rest e m parses filled fits =
      let ds = decimal (length body) in
      let line = codes "Content-Length: " ++ ds in
      let bytes : frame body ++ rest ≡ line ++ (13 ∷ 10 ∷ 13 ∷ 10 ∷ (body ++ rest)) =
        simp append_assoc in
      let short = length-decimal (length body) (omega arith) in
      rw bytes (
        read_header line (length body) _ (body ++ rest, e)
          (header_line line (body ++ rest) e
            (lacks-decimal 10 ds (omega arith) (decimal-is_decimal (length body))) (omega arith))
          (content_length-decimal (length body) filled fits)
        ∙ read_body-front body rest e m parses)

  -- The bytes of a message are framed and written by any number of writes, and read from a pipe that
  -- cuts them, and those of what follows them, into any chunks. If the writing has sent the frame and
  -- each of its counts is of bytes that were offered, then the frame that is read has the message, and
  -- what follows it is left in the pipe. The body is not empty, within the limit of a frame, and the
  -- text of the message.
  pub write_loop-read_frame :
      (body rest : Bytes) (e : End) (m : JsonObject) (answers : List WriteAnswer) (pipe : Pipe)
      → parse body ≡ some (obj m)
      → 0 < length body
      → length body ≤ max_frame_bytes
      → All IsOffered answers
      → (write_loop (frame body) answers).1 ≡ sent
      → flat pipe ≡ ((write_loop (frame body) answers).0 ++ rest, e)
      → map_state flat (read_frame pipe_reader parse pipe) ≡ got m (rest, e)
  write_loop-read_frame body rest e m answers pipe parses filled fits offered all_sent piped =
      let remains = write_loop-Remains (frame body) answers offered in
      let whole : (write_loop (frame body) answers).0 ≡ frame body =
        sym (append-nil (write_loop (frame body) answers).0)
        ∙ ap (λ (t : Bytes). (write_loop (frame body) answers).0 ++ t)
            (sym (remains.whole all_sent))
        ∙ remains.in_order in
      read_frame-chunks parse pipe
      ∙ ap (read_frame stream_reader parse) (piped ∙ ap (λ (t : Bytes). (t ++ rest, e)) whole)
      ∙ read_frame-front body rest e m parses filled fits
