-- ===== src/NativeTransport/Frames.antt =====
-- `read_frame`, `_PipeReader`, and the writing loop of `_send`, of native_transport.py. A byte is a number.
pub mod Chunks
pub mod Digits
pub mod Header
pub mod RoundTrip
pub mod Writing
use acp_proxy.Prelude.{
  ℕ, zero, suc, ◌+◌, ◌-◌, ◌*◌, String, Bool, true, false, not, ◌&&◌, ◌||◌, Option, none, some, List,
  [], ◌∷◌, ◌++◌, Result, ok, err, ◌>>=◌, ◌>>◌, raise_if, or_raise, length, ltb, leb, eqb,
  if◌then◌else◌,
}
use Prim.Native.Nat.{◌/◌, ◌%◌}
use Prim.Native.Char.{code}
use Prim.Native.String
use acp_proxy.Json.{JsonValue, obj, JsonObject}

abbrev pub Bytes : Type 0
Bytes = List ℕ

-- An ASCII text as bytes.
abbrev pub codes : String → Bytes
codes String.[] = []
codes (String.◌∷◌ c s) = code c ∷ codes s

unfoldable pub max_frame_bytes : ℕ
max_frame_bytes = 16777216

unfoldable pub max_header_bytes : ℕ
max_header_bytes = 8192

-- The limit of digits that Python's `int` reads.
abbrev pub max_int_digits : ℕ
max_int_digits = 4300

abbrev pub take : ℕ → Bytes → Bytes
take zero xs = []
take (suc n) [] = []
take (suc n) (x ∷ xs) = x ∷ take n xs

abbrev pub drop : ℕ → Bytes → Bytes
drop zero xs = xs
drop (suc n) [] = []
drop (suc n) (x ∷ xs) = drop n xs

-- The ways that a frame is refused; `lost` is the NativeTransportError of `read_stdout`.
pub data FrameError : Type 0 where
  header_limit bad_header bad_length invalid_or_incomplete lost : FrameError

-- `waits` stands for an await that what has arrived so far does not end.
pub data Outcome (S A : Type 0) : Type 0 where
  got : A → S → Outcome S A
  waits : Outcome S A
  fails : FrameError → Outcome S A

infixl 5 ◌>>>◌
abbrev pub ◌>>>◌ : {S A B : Type 0} → Outcome S A → (A → S → Outcome S B) → Outcome S B
got a s >>> f = f a s
waits >>> f = waits
fails e >>> f = fails e

abbrev pub lift : {S A : Type 0} → Result FrameError A → S → Outcome S A
lift (ok a) s = got a s
lift (err e) s = fails e

-- _Reader
pub record Reader (S : Type 0) : Type 0 where
  pub readexactly : ℕ → S → Outcome S Bytes

-- header.endswith(b"\r\n\r\n"), of a header that is held with its last byte first.
abbrev pub starts_with : Bytes → Bytes → Bool
starts_with [] xs = true
starts_with (p ∷ ps) [] = false
starts_with (p ∷ ps) (x ∷ xs) = eqb p x && starts_with ps xs

abbrev pub ends : Bytes → Bool
ends rev = starts_with (10 ∷ 13 ∷ 10 ∷ 13 ∷ []) rev

-- The bytes of `xs`, in reverse, before `rev`.
abbrev pub onto : Bytes → Bytes → Bytes
onto [] rev = rev
onto (x ∷ xs) rev = onto xs (x ∷ rev)

abbrev pub ascii : Bytes → Bool
ascii [] = true
ascii (x ∷ xs) = ltb x 128 && ascii xs

abbrev pub push : ℕ → List Bytes → List Bytes
push c [] = (c ∷ []) ∷ []
push c (l ∷ ls) = (c ∷ l) ∷ ls

-- text.split("\r\n")
unfoldable pub split_lines : Bytes → List Bytes
split_lines [] = [] ∷ []
split_lines (c ∷ []) = (c ∷ []) ∷ []
split_lines (c ∷ d ∷ r) =
    let line_ends = [] ∷ split_lines r in
    let goes_on = push c (split_lines (d ∷ r)) in
    if eqb c 13 && eqb d 10 then line_ends else goes_on

abbrev pub with_key : ℕ → Option (Bytes × Bytes) → Option (Bytes × Bytes)
with_key c none = none
with_key c (some (k, v)) = some (c ∷ k, v)

-- line.partition(":"), or `none` without a separator.
unfoldable pub partition : Bytes → Option (Bytes × Bytes)
partition [] = none
partition (c ∷ r) = if eqb c 58 then some ([], r) else with_key c (partition r)

abbrev pub lower : Bytes → Bytes
lower [] = []
lower (c ∷ r) = (if leb 65 c && leb c 90 then c + 32 else c) ∷ lower r

-- What str.strip removes from an ASCII text.
abbrev pub is_space : ℕ → Bool
is_space c = leb 9 c && leb c 13 || leb 28 c && leb c 32

unfoldable pub lstrip : Bytes → Bytes
lstrip [] = []
lstrip (c ∷ r) = if is_space c then lstrip r else c ∷ r

abbrev pub unless_blank : ℕ → Bytes → Bytes
unless_blank c [] = if is_space c then [] else c ∷ []
unless_blank c (d ∷ r) = c ∷ d ∷ r

unfoldable pub rstrip : Bytes → Bytes
rstrip [] = []
rstrip (c ∷ r) = unless_blank c (rstrip r)

abbrev pub same : Bytes → Bytes → Bool
same [] [] = true
same (a ∷ xs) (b ∷ ys) = eqb a b && same xs ys
same _ _ = false

abbrev pub HeaderFields : Type 0
HeaderFields = List (Bytes × Bytes)

abbrev pub field : Bytes → HeaderFields → Option Bytes
field k [] = none
field k ((j, v) ∷ fs) = if same j k then some v else field k fs

abbrev pub has_field : Bytes → HeaderFields → Bool
has_field k [] = false
has_field k ((j, v) ∷ fs) = same j k || has_field k fs

-- The loop over the header's lines.
unfoldable pub header_fields : List Bytes → HeaderFields → Result FrameError HeaderFields
header_fields [] fields = ok fields
header_fields (line ∷ lines) fields = do
  (key, value) ← or_raise (partition line) bad_header
  raise_if (has_field (lower key) fields) bad_header
  header_fields lines (fields ++ ((lower key, lstrip (rstrip value)) ∷ []))

abbrev pub is_decimal : Bytes → Bool
is_decimal [] = true
is_decimal (c ∷ r) = leb 48 c && leb c 57 && is_decimal r

abbrev pub is_empty : Bytes → Bool
is_empty [] = true
is_empty (c ∷ r) = false

-- int(text), of decimal digits
unfoldable pub number : ℕ → Bytes → ℕ
number n [] = n
number n (c ∷ r) = number (n * 10 + (c - 48)) r

abbrev pub or_empty : Option Bytes → Bytes
or_empty none = []
or_empty (some v) = v

-- The length that a header announces.
unfoldable pub content_length : Bytes → Result FrameError ℕ
content_length header = do
  raise_if (not (ascii header)) invalid_or_incomplete
  fields ← header_fields (split_lines header) []
  let text = or_empty (field (codes "content-length") fields)
  raise_if (is_empty text || not (is_decimal text)) bad_length
  raise_if (ltb max_int_digits (length text)) invalid_or_incomplete
  let n = number 0 text
  raise_if (eqb n 0 || ltb max_frame_bytes n) bad_length
  ok n

abbrev pub as_object : JsonValue → Option JsonObject
as_object (obj fs) = some fs
as_object _ = none

-- json_object(parse_json(body)), where both raise a ValueError.
abbrev pub body_object : Option JsonValue → Result FrameError JsonObject
body_object none = err invalid_or_incomplete
body_object (some v) = or_raise (as_object v) invalid_or_incomplete

-- `parse` is what `json.loads` makes of bytes.
module _ {S : Type 0} (reader : Reader S) (parse : Bytes → Option JsonValue) where
  open reader use {readexactly}

  -- `room` is MAX_HEADER_BYTES less the bytes of the header so far.
  unfoldable pub header_loop : ℕ → Bytes → S → Outcome S Bytes
  header_loop zero rev s = if ends rev then got rev s else fails header_limit
  header_loop (suc room) rev s =
      let more = readexactly 1 s >>> (λ bs t. header_loop room (onto bs rev) t) in
      if ends rev then got rev s else more

  unfoldable pub read_body : ℕ → S → Outcome S JsonObject
  read_body n s = readexactly n s >>> λ body t. lift (body_object (parse body)) t

  unfoldable pub read_frame : S → Outcome S JsonObject
  unfolding header_loop content_length read_body max_header_bytes
  read_frame s = header_loop max_header_bytes [] s >>> λ rev t.
      lift (content_length (onto (drop 4 rev) [])) t >>> λ n u. read_body n u

-- str(n), by rounds that take off the last digit.
unfoldable pub spell : ℕ → ℕ → Bytes → Bytes
spell zero n out = out
spell (suc rounds) n out =
    let more = spell rounds (n / 10) ((48 + n % 10) ∷ out) in
    if ltb n 10 then (48 + n) ∷ out else more

abbrev pub decimal : ℕ → Bytes
decimal n = spell (suc n) n []

-- The frame of `_send`, of the bytes of a message.
unfoldable pub frame : Bytes → Bytes
frame body =
    codes "Content-Length: " ++ (decimal (length body) ++ ((13 ∷ 10 ∷ 13 ∷ 10 ∷ []) ++ body))

-- What one `read_stdout` gives: a chunk, which is empty at the end of the file, or an exception.
pub data Chunk : Type 0 where
  chunk : Bytes → Chunk
  root_lost : Chunk

-- A _PipeReader: its buffer, and the chunks that are still to come.
abbrev pub Pipe : Type 0
Pipe = Bytes × List Chunk

-- The loop of `readexactly`, with `count` bytes wanted.
unfoldable pub pipe_loop : ℕ → Bytes → List Chunk → Outcome Pipe Bytes
pipe_loop count buffer [] =
    if leb count (length buffer) then got (take count buffer) (drop count buffer, []) else waits
pipe_loop count buffer (chunk [] ∷ r) =
    if leb count (length buffer)
    then got (take count buffer) (drop count buffer, chunk [] ∷ r)
    else fails invalid_or_incomplete
pipe_loop count buffer (chunk (b ∷ bs) ∷ r) =
    let more = pipe_loop count (buffer ++ (b ∷ bs)) r in
    if leb count (length buffer)
    then got (take count buffer) (drop count buffer, chunk (b ∷ bs) ∷ r)
    else more
pipe_loop count buffer (root_lost ∷ r) =
    if leb count (length buffer)
    then got (take count buffer) (drop count buffer, root_lost ∷ r)
    else fails lost

abbrev pub pipe_reader : Reader Pipe
pipe_reader = record { readexactly = λ n (buffer, chunks). pipe_loop n buffer chunks }
