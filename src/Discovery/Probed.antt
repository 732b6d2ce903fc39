-- ===== src/Discovery/Probed.antt =====
-- The probe of a version, of discovery.py: what is read of `--version` and how it ends.
use acp_proxy.Prelude.{
  ℕ, zero, suc, ◌+◌, ◌-◌, ◌≡◌, refl, ap, ◌∙◌, ◌≤◌, Bool, true, false, not, ◌&&◌, some, List, [],
  ◌∷◌, ◌++◌, ok, ltb, leb, length, arith, pos, length-append, raise_if, ◌>>=◌, ◌>>◌,
}
use mathlib.Core.List.{append_assoc, append-nil}
use acp_proxy.NativeTransport.Frames.{Bytes, take, is_decimal, ascii, decimal}
use acp_proxy.NativeTransport.Frames.Digits.{decimal-is_decimal}
use acp_proxy.Discovery.{
  Version, format_version, Read, given, ended, read_stdout, is_eol, strip_eol, probe_version,
  bounded_output, after_reading, not_canonical, output_limit, parse_version,
}
use acp_proxy.Discovery.Version.{parse-format}

-- The chunks of a text, none of them empty, and the end of the file.
abbrev pub reads_of : List (ℕ × Bytes) → List Read
reads_of [] = given [] ∷ []
reads_of ((c, cs) ∷ chunks) = given (c ∷ cs) ∷ reads_of chunks

abbrev pub flat : List (ℕ × Bytes) → Bytes
flat [] = []
flat ((c, cs) ∷ chunks) = (c ∷ cs) ++ flat chunks

take_all : (n : ℕ) (xs : Bytes) → length xs ≤ n → take n xs ≡ xs
take_all zero [] h = refl
take_all zero (x ∷ xs) h = absurd (omega arith)
take_all (suc n) [] h = refl
take_all (suc n) (x ∷ xs) h = ap (λ r. x ∷ r) (take_all n xs (omega arith))

read_stdout_step :
    (out : Bytes) (c : ℕ) (cs : Bytes) (rs : List Read)
    → length out + suc (length cs) ≤ 256
    → read_stdout out (given (c ∷ cs) ∷ rs) ≡ read_stdout (out ++ (c ∷ cs)) rs
unfolding read_stdout
read_stdout_step out c cs rs h =
    rw (take_all (257 - length out) (c ∷ cs) (omega arith)) (ground arith)

-- What fits is read whole, in whatever chunks it comes.
read_stdout-flat :
    (chunks : List (ℕ × Bytes)) (out : Bytes)
    → length (out ++ flat chunks) ≤ 256
    → read_stdout out (reads_of chunks) ≡ ended false (out ++ flat chunks)
unfolding read_stdout
read_stdout-flat [] out h = rw (append-nil out) (ground arith)
read_stdout-flat ((c, cs) ∷ chunks) out h =
    read_stdout_step out c cs (reads_of chunks) (
      omega
        (arith, length-append out ((c ∷ cs) ++ flat chunks), length-append (c ∷ cs) (flat chunks)))
    ∙ read_stdout-flat chunks (out ++ (c ∷ cs))
        (omega (arith, ap length (append_assoc out (c ∷ cs) (flat chunks))))
    ∙ ap (ended false) (append_assoc out (c ∷ cs) (flat chunks))

-- How a line may end.
pub data LineEnd : Type 0 where
  open_line lf crlf : LineEnd

abbrev pub line_end : LineEnd → Bytes
line_end open_line = []
line_end lf = 10 ∷ []
line_end crlf = 13 ∷ 10 ∷ []

-- Digits and dots.
abbrev plain : Bytes → Bool
plain [] = true
plain (c ∷ cs) = leb 46 c && leb c 57 && plain cs

plain-append : (xs ys : Bytes) → plain xs ≡ true → plain ys ≡ true → plain (xs ++ ys) ≡ true
plain-append [] ys h i = i
plain-append (x ∷ xs) ys h i = ground (arith, plain-append xs ys)

is_decimal-plain : (xs : Bytes) → is_decimal xs ≡ true → plain xs ≡ true
is_decimal-plain [] h = refl
is_decimal-plain (x ∷ xs) h = ground (arith, is_decimal-plain xs)

decimal-plain : (n : ℕ) → plain (decimal n) ≡ true
decimal-plain n = is_decimal-plain (decimal n) (decimal-is_decimal n)

format_version-plain : (v : Version) → plain (format_version v) ≡ true
unfolding format_version
format_version-plain (a, b, c) =
    plain-append (decimal a) (46 ∷ (decimal b ++ (46 ∷ decimal c))) (decimal-plain a)
      (plain-append (decimal b) (46 ∷ decimal c) (decimal-plain b) (decimal-plain c))

strip_eol-line_end : (e : LineEnd) → strip_eol (line_end e) ≡ []
unfolding strip_eol
strip_eol-line_end open_line = refl
strip_eol-line_end lf = refl
strip_eol-line_end crlf = refl

is_eol-plain : (c : ℕ) (cs : Bytes) → 46 ≤ c → is_eol (c ∷ cs) ≡ false
is_eol-plain c cs h = ground arith

strip_eol-plain : (xs : Bytes) (e : LineEnd) → plain xs ≡ true → strip_eol (xs ++ line_end e) ≡ xs
unfolding strip_eol
strip_eol-plain [] e h = strip_eol-line_end e
strip_eol-plain (c ∷ cs) e h =
    rw (is_eol-plain c (cs ++ line_end e) (ground arith))
      (ap (λ r. c ∷ r) (strip_eol-plain cs e (ground arith)))

ascii-plain : (xs : Bytes) (e : LineEnd) → plain xs ≡ true → ascii (xs ++ line_end e) ≡ true
ascii-plain [] open_line h = refl
ascii-plain [] lf h = refl
ascii-plain [] crlf h = refl
ascii-plain (c ∷ cs) e h = ground (arith, ascii-plain cs e)

-- What is read, within the limit and in ASCII, is parsed.
decoded :
    (out : Bytes)
    → length out ≤ 256
    → ascii out ≡ true
    → (after_reading (ended false out) (some (pos 0)) >>= λ raw.
        raise_if (ltb 256 (length raw)) output_limit
        >> (raise_if (not (ascii raw)) not_canonical >> parse_version (strip_eol raw)))
      ≡ parse_version (strip_eol out)
decoded out fits a = ground (arith, fits, a)

-- A version that `--version` prints, alone or as a line, in any chunks, is the version that the probe
-- gives, if the process exits with 0 in time and its output is within the limit.
pub probe_version-format_version :
    (v : Version) (e : LineEnd) (chunks : List (ℕ × Bytes))
    → flat chunks ≡ format_version v ++ line_end e
    → length (flat chunks) ≤ 256
    → probe_version (some (record { reads = reads_of chunks; exit = some (pos 0) })) ≡ ok v
unfolding probe_version bounded_output
probe_version-format_version v e chunks printed fits = rw (read_stdout-flat chunks [] fits) (
    decoded (flat chunks) fits
      (ap ascii printed ∙ ascii-plain (format_version v) e (format_version-plain v))
    ∙ ap (λ t. parse_version (strip_eol t)) printed
    ∙ ap parse_version (strip_eol-plain (format_version v) e (format_version-plain v))
    ∙ parse-format v
        (omega (arith, fits, ap length printed, length-append (format_version v) (line_end e))))
