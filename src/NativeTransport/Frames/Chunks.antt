-- ===== src/NativeTransport/Frames/Chunks.antt =====
-- How the bytes of a pipe are cut into chunks makes no difference to `read_frame`.
use acp_proxy.Prelude.{
  ℕ, zero, suc, ◌≡◌, refl, ap, ◌∙◌, ◌≤◌, false, Option, List, [], ◌∷◌, ◌++◌, Result, ok, err,
  length, length-append, leb, if◌then◌else◌, arith, Bool-cases, inl, inr, leb→le,
}
use mathlib.Core.List.{append_assoc, append-nil}
use acp_proxy.Json.{JsonValue}
use acp_proxy.NativeTransport.Frames.{
  Bytes, max_header_bytes, take, drop, FrameError, invalid_or_incomplete, lost, Outcome, got, waits,
  fails, ◌>>>◌, lift, Reader, onto, content_length, body_object, header_loop, read_body, read_frame,
  Chunk, chunk, root_lost, Pipe, pipe_loop, pipe_reader,
}

-- What follows the bytes that a pipe has given.
pub data End : Type 0 where
  open_end end_of_file root_gone : End

abbrev pub Stream : Type 0
Stream = Bytes × End

abbrev pub at_end : End → Outcome Stream Bytes
at_end open_end = waits
at_end end_of_file = fails invalid_or_incomplete
at_end root_gone = fails lost

abbrev pub read_stream : ℕ → Stream → Outcome Stream Bytes
read_stream n (bytes, e) =
    if leb n (length bytes) then got (take n bytes) (drop n bytes, e) else at_end e

abbrev pub stream_reader : Reader Stream
stream_reader = record { readexactly = read_stream }

abbrev pub prepend : Bytes → Stream → Stream
prepend xs (bytes, e) = (xs ++ bytes, e)

-- The bytes of chunks, to the first that ends them.
abbrev pub joined : List Chunk → Stream
joined [] = ([], open_end)
joined (chunk [] ∷ r) = ([], end_of_file)
joined (chunk (b ∷ bs) ∷ r) = prepend (b ∷ bs) (joined r)
joined (root_lost ∷ r) = ([], root_gone)

abbrev pub flat : Pipe → Stream
flat (buffer, chunks) = prepend buffer (joined chunks)

abbrev pub map_state : {S T A : Type 0} → (S → T) → Outcome S A → Outcome T A
map_state f (got a s) = got a (f s)
map_state f waits = waits
map_state f (fails e) = fails e

take-append : (n : ℕ) (xs ys : Bytes) → n ≤ length xs → take n (xs ++ ys) ≡ take n xs
take-append zero xs ys h = refl
take-append (suc n) [] ys h = absurd (omega arith)
take-append (suc n) (x ∷ xs) ys h = ap (λ (t : Bytes). x ∷ t) (take-append n xs ys (omega arith))

drop-append : (n : ℕ) (xs ys : Bytes) → n ≤ length xs → drop n (xs ++ ys) ≡ drop n xs ++ ys
drop-append zero xs ys h = refl
drop-append (suc n) [] ys h = absurd (omega arith)
drop-append (suc n) (x ∷ xs) ys h = drop-append n xs ys (omega arith)

-- A read that the buffer serves.
served :
    (n : ℕ) (buffer : Bytes) (s : Stream)
    → n ≤ length buffer
    → got (take n buffer) (prepend (drop n buffer) s) ≡ read_stream n (prepend buffer s)
served n buffer (bytes, e) h = ground (
  arith,
  take-append n buffer bytes h,
  drop-append n buffer bytes h,
  length-append {0} buffer bytes,
)

prepend_twice : (xs ys : Bytes) (s : Stream) → prepend (xs ++ ys) s ≡ prepend xs (prepend ys s)
prepend_twice xs ys (bytes, e) = ap (λ (t : Bytes). (t, e)) (append_assoc xs ys bytes)

-- A read that the buffer does not serve, where no more bytes come.
starved :
    (n : ℕ) (buffer : Bytes) (e : End)
    → leb n (length buffer) ≡ false
    → at_end e ≡ read_stream n (prepend buffer ([], e))
starved n buffer e h = ground (arith, append-nil buffer)

pipe_loop-stream :
    (n : ℕ) (buffer : Bytes) (chunks : List Chunk)
    → map_state flat (pipe_loop n buffer chunks) ≡ read_stream n (flat (buffer, chunks))
unfolding pipe_loop
pipe_loop-stream n buffer [] = elim (Bool-cases (leb n (length buffer))) [
  | inl h ↦ rw h (served n buffer _ (leb→le _ _ h))
  | inr h ↦ rw h (starved n buffer open_end h)
]
pipe_loop-stream n buffer (chunk [] ∷ r) = elim (Bool-cases (leb n (length buffer))) [
  | inl h ↦ rw h (served n buffer _ (leb→le _ _ h))
  | inr h ↦ rw h (starved n buffer end_of_file h)
]
pipe_loop-stream n buffer (chunk (b ∷ bs) ∷ r) = elim (Bool-cases (leb n (length buffer))) [
  | inl h ↦ rw h (served n buffer _ (leb→le _ _ h))
  | inr h ↦ rw h (
      pipe_loop-stream n (buffer ++ (b ∷ bs)) r
      ∙ ap (read_stream n) (prepend_twice buffer (b ∷ bs) (joined r)))
]
pipe_loop-stream n buffer (root_lost ∷ r) = elim (Bool-cases (leb n (length buffer))) [
  | inl h ↦ rw h (served n buffer _ (leb→le _ _ h))
  | inr h ↦ rw h (starved n buffer root_gone h)
]

module _ {S T : Type 0} (f : S → T) where
  then_map :
      {A B : Type 0} (m : Outcome S A) (k : A → S → Outcome S B) (l : A → T → Outcome T B)
      → ((a : A) (s : S) → map_state f (k a s) ≡ l a (f s))
      → map_state f (m >>> k) ≡ (map_state f m >>> l)
  then_map (got a s) k l h = h a s
  then_map waits k l h = refl
  then_map (fails e) k l h = refl

  lift-map : {A : Type 0} (r : Result FrameError A) (s : S) → map_state f (lift r s) ≡ lift r (f s)
  lift-map (ok a) s = refl
  lift-map (err e) s = refl

  module _ (reader : Reader S) (like : Reader T)
      (reads : (n : ℕ) (s : S) → map_state f (reader.readexactly n s) ≡ like.readexactly n (f s))
      (parse : Bytes → Option JsonValue) where
    header_loop-map :
        (room : ℕ) (rev : Bytes) (s : S)
        → map_state f (header_loop reader parse room rev s) ≡ header_loop like parse room rev (f s)
    unfolding header_loop
    header_loop-map zero rev s = ground arith
    header_loop-map (suc room) rev s = ground (
      arith,
      reads 1 s,
      then_map (reader.readexactly 1 s) (λ bs t. header_loop reader parse room (onto bs rev) t)
          (λ bs t. header_loop like parse room (onto bs rev) t)
          (λ bs t. header_loop-map room (onto bs rev) t),
    )

    read_body-map :
        (n : ℕ) (s : S) → map_state f (read_body reader parse n s) ≡ read_body like parse n (f s)
    unfolding read_body
    read_body-map n s =
        then_map (reader.readexactly n s) _ (λ body t. lift (body_object (parse body)) t)
          (λ body t. lift-map (body_object (parse body)) t)
        ∙ ap (λ (o : Outcome T Bytes). o >>> λ body t. lift (body_object (parse body)) t)
            (reads n s)

    pub read_frame-map :
        (s : S) → map_state f (read_frame reader parse s) ≡ read_frame like parse (f s)
    unfolding read_frame
    read_frame-map s =
        then_map (header_loop reader parse max_header_bytes [] s) _
          (λ rev t.
            lift (content_length (onto (drop 4 rev) [])) t >>> λ n u. read_body like parse n u)
          (λ rev t.
            then_map (lift (content_length (onto (drop 4 rev) [])) t)
              (λ n u. read_body reader parse n u) (λ n u. read_body like parse n u)
              (λ n u. read_body-map n u)
            ∙ ap (λ (o : Outcome T ℕ). o >>> λ n u. read_body like parse n u)
                (lift-map (content_length (onto (drop 4 rev) [])) t))
        ∙ ap
            (λ (o : Outcome T Bytes). o >>> λ rev t.
              lift (content_length (onto (drop 4 rev) [])) t >>> λ n u. read_body like parse n u)
            (header_loop-map max_header_bytes [] s)

-- A frame read from a pipe is the one read from its bytes in a row, however they are cut into chunks:
-- the same message, error or wait comes of them, and the same bytes are left.
pub read_frame-chunks :
    (parse : Bytes → Option JsonValue) (pipe : Pipe)
    → map_state flat (read_frame pipe_reader parse pipe)
      ≡ read_frame stream_reader parse (flat pipe)
read_frame-chunks parse pipe =
    read_frame-map flat pipe_reader stream_reader
      (λ n (buffer, chunks). pipe_loop-stream n buffer chunks) parse pipe
