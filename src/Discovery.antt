-- ===== src/Discovery.antt =====
-- The admission of a language server, of discovery.py. A text is its code points.
pub mod Better
pub mod Canonical
pub mod Least
pub mod Order
pub mod Probed
pub mod Select
pub mod Selection
pub mod Version
use acp_proxy.Prelude.{
  ℕ, zero, suc, ◌+◌, ◌-◌, Bool, true, false, not, ◌&&◌, ◌||◌, Option, none, some, List, [], ◌∷◌,
  ◌++◌, Result, ok, err, ◌>>=◌, ◌>>◌, raise_if, or_raise, ltb, leb, eqb, if◌then◌else◌, length, ℤ,
  pos, negsuc,
}
use acp_proxy.NativeTransport.Frames.{
  max_int_digits, Bytes, take, ascii, push, is_empty, number, decimal,
}

-- BinaryCompatibilityError, by what it says; `int_limit` is the ValueError of `int`, which no output
-- within the limit raises.
pub data BinaryError : Type 0 where
  not_canonical probe_failed timed_out output_limit : BinaryError
  bad_path not_executable below_minimum none_admitted int_limit : BinaryError

abbrev pub Version : Type 0
Version = ℕ × ℕ × ℕ

abbrev pub min_version : Version
min_version = (1, 518, 3)

abbrev pub version_output_limit : ℕ
version_output_limit = 256

-- BinaryAdmission
pub record BinaryAdmission : Type 0 where
  pub path : Bytes
  pub version : Version

unfoldable pub format_version : Version → Bytes
format_version (a, b, c) = decimal a ++ (46 ∷ (decimal b ++ (46 ∷ decimal c)))

abbrev pub digit : ℕ → Bool
digit c = leb 48 c && leb c 57

-- What follows `[0-9]*`.
unfoldable pub digits : Bytes → Bytes
digits [] = []
digits (c ∷ cs) = let rest = digits cs in if digit c then rest else c ∷ cs

-- What follows `0|[1-9][0-9]*`.
unfoldable pub part : Bytes → Option Bytes
part [] = none
part (c ∷ cs) = if eqb c 48 then some cs else if digit c then some (digits cs) else none

-- What follows `\.`.
abbrev pub dot : Bytes → Option Bytes
dot [] = none
dot (c ∷ cs) = if eqb c 46 then some cs else none

abbrev pub then_on : Option Bytes → (Bytes → Option Bytes) → Option Bytes
then_on none next = none
then_on (some cs) next = next cs

abbrev pub nothing_left : Option Bytes → Bool
nothing_left none = false
nothing_left (some cs) = is_empty cs

-- _VERSION_PATTERN.fullmatch(text) is not None
unfoldable pub is_version : Bytes → Bool
is_version text = nothing_left (then_on (then_on (then_on (then_on (part text) dot) part) dot) part)

-- text.split(".")
unfoldable pub split : ℕ → Bytes → List Bytes
split s [] = [] ∷ []
split s (c ∷ cs) = let rest = split s cs in if eqb c s then [] ∷ rest else push c rest

-- The tuple of the parts, of which the pattern leaves three.
abbrev pub tuple : List Bytes → Result BinaryError Version
tuple (a ∷ b ∷ c ∷ []) = do
  raise_if
      (ltb max_int_digits (length a)
        || ltb max_int_digits (length b)
        || ltb max_int_digits (length c))
      int_limit
  ok (number 0 a, number 0 b, number 0 c)
tuple other = err not_canonical

unfoldable pub parse_version : Bytes → Result BinaryError Version
parse_version text = if is_version text then tuple (split 46 text) else err not_canonical

-- What one `os.read` returns or raises.
pub data Read : Type 0 where
  given : Bytes → Read
  read_fails : Read

-- The reader thread has not ended in time, or it has, with or without a failure.
pub data Reading : Type 0 where
  pending : Reading
  ended : (failed : Bool) → Bytes → Reading

-- One turn of the reading loop: an empty chunk ends it.
abbrev pub read_next : Bytes → Read → (Bytes → Reading) → Reading
read_next out read_fails next = ended true out
read_next out (given []) next = ended false out
read_next out (given (c ∷ cs)) next =
    next (out ++ take (suc version_output_limit - length out) (c ∷ cs))

-- The reading thread, of what the reads give in time.
unfoldable pub read_stdout : Bytes → List Read → Reading
read_stdout out [] = if leb (length out) version_output_limit then pending else ended false out
read_stdout out (r ∷ rs) =
    if leb (length out) version_output_limit
    then read_next out r (λ more. read_stdout more rs)
    else ended false out

-- A process that was started: what its reads give, and its exit code if it exits in time.
pub record Probe : Type 0 where
  pub reads : List Read
  pub exit : Option ℤ

abbrev pub exit_ok : Option ℤ → Result BinaryError (Unit {0})
exit_ok none = err timed_out
exit_ok (some (pos zero)) = ok tt
exit_ok (some (pos (suc n))) = err probe_failed
exit_ok (some (negsuc n)) = err probe_failed

abbrev pub after_reading : Reading → Option ℤ → Result BinaryError Bytes
after_reading pending exit = err timed_out
after_reading (ended failed out) exit = do
  raise_if (ltb version_output_limit (length out)) output_limit
  raise_if failed probe_failed
  exit_ok exit
  ok out

-- `_read_bounded_version_output`; `none` is a process that did not start.
unfoldable pub bounded_output : Option Probe → Result BinaryError Bytes
bounded_output none = err probe_failed
bounded_output (some probe) = after_reading (read_stdout [] probe.reads) probe.exit

abbrev pub same : Bytes → Bytes → Bool
same [] [] = true
same [] (y ∷ ys) = false
same (x ∷ xs) [] = false
same (x ∷ xs) (y ∷ ys) = eqb x y && same xs ys

abbrev pub is_eol : Bytes → Bool
is_eol text = same text (13 ∷ 10 ∷ []) || same text (10 ∷ [])

-- The text without the end of its line, "\r\n" or "\n".
unfoldable pub strip_eol : Bytes → Bytes
strip_eol [] = []
strip_eol (c ∷ cs) = let rest = c ∷ strip_eol cs in if is_eol (c ∷ cs) then [] else rest

unfoldable pub probe_version : Option Probe → Result BinaryError Version
probe_version probe = do
  raw ← bounded_output probe
  raise_if (ltb version_output_limit (length raw)) output_limit
  raise_if (not (ascii raw)) not_canonical
  parse_version (strip_eol raw)

-- version < other, of tuples.
abbrev pub version_lt : Version → Version → Bool
version_lt (a, b, c) (d, e, f) = ltb a d || eqb a d && (ltb b e || eqb b e && ltb c f)

-- What the machine answers: the canonical form of a path, if it has one, whether a file is there that
-- may be executed, and the run of its `--version`.
pub record Host : Type 0 where
  pub realpath : Bytes → Option Bytes
  pub executable : Bytes → Bool
  pub run_version : Bytes → Option Probe

module _ (h : Host) where
  open h use {realpath, executable, run_version}

  -- `_inspect_binary`
  unfoldable pub inspect_binary : Bytes → Result BinaryError BinaryAdmission
  inspect_binary binary_path = do
    path ← or_raise (realpath binary_path) bad_path
    raise_if (not (executable path)) not_executable
    version ← probe_version (run_version path)
    raise_if (version_lt version min_version) below_minimum
    ok (record { path = path; version = version })

  -- `require_compatible_binary`
  unfoldable pub require_binary : Bytes → Result BinaryError Bytes
  require_binary binary_path = do admission ← inspect_binary binary_path; ok admission.path
