-- ===== src/OwnedCommands/Captured.antt =====
-- What a `_Capture` keeps of what is read from a pipe.
use acp_proxy.Prelude.{
  ℕ, zero, suc, ◌-◌, ◌≡◌, refl, sym, ap, subst, ◌∙◌, Bool, true, false, Option, none, some, List,
  [], ◌∷◌, ◌++◌, length, length-append, ltb, if◌then◌else◌, arith,
}
use mathlib.Core.List.{append_assoc, append-nil}
use acp_proxy.NativeTransport.Frames.{Bytes, take}
use acp_proxy.OwnedCommands.{Capture, new_capture, accept, read_into}

-- The bytes of reads, to the end of the file.
abbrev pub read_all : List (Option Bytes) → Bytes
read_all [] = []
read_all (none ∷ r) = read_all r
read_all (some [] ∷ r) = []
read_all (some (b ∷ bs) ∷ r) = b ∷ (bs ++ read_all r)

-- Whether the end of the file was read.
abbrev pub at_eof : List (Option Bytes) → Bool
at_eof [] = false
at_eof (none ∷ r) = at_eof r
at_eof (some [] ∷ r) = true
at_eof (some (b ∷ bs) ∷ r) = at_eof r

abbrev pub feed : List (Option Bytes) → Capture → Capture
feed [] c = c
feed (x ∷ xs) c = feed xs (read_into x c)

pub feed-append :
    (xs : List (Option Bytes)) (x : Option Bytes) (c : Capture)
    → feed (xs ++ (x ∷ [])) c ≡ read_into x (feed xs c)
feed-append [] x c = refl
feed-append (y ∷ xs) x c = feed-append xs x (read_into y c)

take_more :
    (limit room : ℕ) (xs ys : Bytes)
    → room ≡ limit - length (take limit xs)
    → take limit xs ++ take room ys ≡ take limit (xs ++ ys)
take_more zero room xs ys h = let none_left : room ≡ 0 = omega arith in rw none_left refl
take_more (suc n) room [] ys h = let all : room ≡ suc n = omega arith in rw all refl
take_more (suc n) room (x ∷ xs) ys h =
    ap (λ (t : Bytes). x ∷ t) (take_more n room xs ys (omega arith))

length-take :
    (n : ℕ) (xs : Bytes) → length (take n xs) ≡ (if ltb n (length xs) then n else length xs)
length-take zero xs = ground arith
length-take (suc n) [] = ground arith
length-take (suc n) (x ∷ xs) = ground (arith, length-take n xs)

-- What a capture has kept of the bytes `xs`.
pub record Holds (limit : ℕ) (xs : Bytes) (c : Capture) : Type 0 where
  pub same_limit : c.limit ≡ limit
  pub first : c.bytes ≡ take limit xs
  pub more : c.truncated ≡ ltb limit (length xs)

Holds-accept :
    (limit : ℕ) (xs : Bytes) (b : ℕ) (bs : Bytes) (c : Capture)
    → Holds limit xs c
    → Holds limit (xs ++ (b ∷ bs)) (accept (some (b ∷ bs)) c)
unfolding accept
Holds-accept limit xs b bs c h = record {
  same_limit = h.same_limit;
  first =
      rw (h.first, h.same_limit)
        (take_more limit (limit - length (take limit xs)) xs (b ∷ bs) refl);
  more = ground (
    arith,
    ap length h.first,
    h.same_limit,
    h.more,
    length-take limit xs,
    length-append {0} xs (b ∷ bs),
  );
}

read_closed : (x : Option Bytes) (c : Capture) → c.eof ≡ true → read_into x c ≡ c
read_closed x c h = ground arith

read_open : (x : Option Bytes) (c : Capture) → c.eof ≡ false → read_into x c ≡ accept x c
read_open x c h = ground arith

feed_closed : (reads : List (Option Bytes)) (c : Capture) → c.eof ≡ true → feed reads c ≡ c
feed_closed [] c h = refl
feed_closed (x ∷ r) c h = ap (feed r) (read_closed x c h) ∙ feed_closed r c h

abbrev Keeps : ℕ → Bytes → Bool → Capture → Type 0
Keeps limit xs ended c = Holds limit xs c × (c.eof ≡ ended)

-- Reads that go on from a capture that has not seen the end.
feed-Holds :
    (limit : ℕ) (xs : Bytes) (reads : List (Option Bytes)) (c : Capture)
    → c.eof ≡ false
    → Holds limit xs c
    → Keeps limit (xs ++ read_all reads) (at_eof reads) (feed reads c)
unfolding accept
feed-Holds limit xs [] c open_ h = (rw (append-nil xs) h, open_)
feed-Holds limit xs (none ∷ r) c open_ h =
    subst (λ d. Keeps limit (xs ++ read_all r) (at_eof r) (feed r d)) (sym (read_open none c open_))
      (feed-Holds limit xs r c open_ h)
feed-Holds limit xs (some [] ∷ r) c open_ h =
    subst (λ d. Keeps limit (xs ++ []) true (feed r d)) (sym (read_open (some []) c open_))
      (rw (feed_closed r (record c { eof = true }) refl) (
        rw (append-nil xs)
          (record { same_limit = h.same_limit; first = h.first; more = h.more }, refl)))
feed-Holds limit xs (some (b ∷ bs) ∷ r) c open_ h =
    subst (λ d. Keeps limit (xs ++ read_all (some (b ∷ bs) ∷ r)) (at_eof r) (feed r d))
      (sym (read_open (some (b ∷ bs)) c open_))
      (rw (← append_assoc xs (b ∷ bs) (read_all r)) (
        feed-Holds limit (xs ++ (b ∷ bs)) r (accept (some (b ∷ bs)) c) open_
          (Holds-accept limit xs b bs c h)))

new_capture-Holds : (limit : ℕ) → Holds limit [] (new_capture limit)
new_capture-Holds zero = record { same_limit = refl; first = refl; more = ground arith }
new_capture-Holds (suc n) = record { same_limit = refl; first = refl; more = ground arith }

-- Of what is read from a pipe, in any chunks, to the end of the file, a new capture keeps the first
-- bytes, as many as its limit; it is truncated exactly if there are more; and it has seen the end
-- exactly if that was read. What is read after the end changes nothing.
pub feed-new :
    (limit : ℕ) (reads : List (Option Bytes))
    → Holds limit (read_all reads) (feed reads (new_capture limit))
      × ((feed reads (new_capture limit)).eof ≡ at_eof reads)
feed-new limit reads = feed-Holds limit [] reads (new_capture limit) refl (new_capture-Holds limit)
