-- ===== src/NativeTransport/Frames/Header.antt =====
-- The header that `_send` writes, as `read_frame` reads it.
use acp_proxy.Prelude.{
  ℕ, ◌≡◌, refl, ap, ◌∙◌, ◌≤◌, ◌<◌, Bool, true, false, some, [], ◌∷◌, ◌++◌, ◌&&◌, ok, length, eqb,
  not, arith,
}
use acp_proxy.NativeTransport.Frames.{
  Bytes, codes, max_frame_bytes, is_decimal, is_empty, number, decimal, lstrip, rstrip, ascii,
  split_lines, partition, header_fields, content_length,
}
use acp_proxy.NativeTransport.Frames.Digits.{
  decimal-is_decimal, number-decimal, decimal_filled, length-decimal, lstrip-decimal,
  rstrip-decimal,
}

-- No byte of a text is `b`.
abbrev pub lacks : ℕ → Bytes → Bool
lacks b [] = true
lacks b (x ∷ xs) = not (eqb x b) && lacks b xs

pub lacks-decimal : (b : ℕ) (ds : Bytes) → b < 48 → is_decimal ds ≡ true → lacks b ds ≡ true
lacks-decimal b [] small h = refl
lacks-decimal b (d ∷ ds) small h = ground (arith, lacks-decimal b ds small)

ascii-decimal : (ds : Bytes) → is_decimal ds ≡ true → ascii ds ≡ true
ascii-decimal [] h = refl
ascii-decimal (d ∷ ds) h = ground (arith, ascii-decimal ds)

-- A text without a carriage return is one line.
split_lines_one : (xs : Bytes) → lacks 13 xs ≡ true → split_lines xs ≡ xs ∷ []
unfolding split_lines
split_lines_one [] h = refl
split_lines_one (x ∷ []) h = refl
split_lines_one (x ∷ y ∷ xs) h = ground (arith, split_lines_one (y ∷ xs))

stripped :
    (ds : Bytes) → is_decimal ds ≡ true → is_empty ds ≡ false → lstrip (rstrip (32 ∷ ds)) ≡ ds
unfolding lstrip rstrip
stripped [] h filled = cc
stripped (d ∷ ds) h filled = ground (arith, rstrip-decimal (d ∷ ds), lstrip-decimal (d ∷ ds))

named :
    (ds : Bytes)
    → partition (codes "Content-Length: " ++ ds) ≡ some (codes "Content-Length", 32 ∷ ds)
unfolding partition
named ds = refl

fields_of :
    (ds : Bytes)
    → is_decimal ds ≡ true
    → is_empty ds ≡ false
    → header_fields ((codes "Content-Length: " ++ ds) ∷ []) []
      ≡ ok ((codes "content-length", ds) ∷ [])
unfolding header_fields
fields_of ds h filled = rw (named ds) (rw (stripped ds h filled))

length_of :
    (ds : Bytes)
    → is_decimal ds ≡ true
    → is_empty ds ≡ false
    → length ds ≤ 8
    → 0 < number 0 ds
    → number 0 ds ≤ max_frame_bytes
    → content_length (codes "Content-Length: " ++ ds) ≡ ok (number 0 ds)
unfolding content_length
length_of ds h filled short positive fits = rw (ascii-decimal ds h) (
    rw (split_lines_one (codes "Content-Length: " ++ ds) (lacks-decimal 13 ds (omega arith) h))
      (rw (fields_of ds h filled) (ground arith)))

-- The length is read back from the header that announces it.
pub content_length-decimal :
    (n : ℕ)
    → 0 < n
    → n ≤ max_frame_bytes
    → content_length (codes "Content-Length: " ++ decimal n) ≡ ok n
unfolding max_frame_bytes
content_length-decimal n positive fits =
    let read = number-decimal n in
    length_of (decimal n) (decimal-is_decimal n) (decimal_filled n) (length-decimal n (omega arith))
      (omega (arith, read)) (omega (arith, read))
    ∙ ap ok read
