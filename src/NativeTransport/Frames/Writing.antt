-- ===== src/NativeTransport/Frames/Writing.antt =====
-- The writing loop of `_send` of native_transport.py.
use acp_proxy.Prelude.{
  ℕ, zero, suc, ◌≡◌, refl, ap, ◌∙◌, ◌≤◌, ℤ, pos, negsuc, List, [], ◌∷◌, ◌++◌, All, length, ltb,
  if◌then◌else◌, arith, Bool-cases, inl, inr,
}
use mathlib.Core.List.{append_assoc}
use acp_proxy.NativeTransport.Frames.{Bytes, take, drop}

-- What ends one `write_stdin`: its answer, an OSError or ValueError, or the deadline.
pub data WriteAnswer : Type 0 where
  blocked : WriteAnswer
  count : ℤ → WriteAnswer
  pipe_error deadline : WriteAnswer

pub data Sending : Type 0 where
  sent : Sending
  still_sending : Sending
  bad_count input_closed not_drained : Sending

-- What the pipe has received, and how the loop has ended.
abbrev pub Written : Type 0
Written = Bytes × Sending

abbrev pub received : Bytes → Written → Written
received bytes (later, s) = (bytes ++ later, s)

-- `left` is frame[offset:]. Of a count, the pipe has received that many bytes of the slice offered.
unfoldable pub write_loop : Bytes → List WriteAnswer → Written
write_loop [] answers = ([], sent)
write_loop (b ∷ bs) [] = ([], still_sending)
write_loop (b ∷ bs) (blocked ∷ r) = write_loop (b ∷ bs) r
write_loop (b ∷ bs) (count (negsuc n) ∷ r) = ([], bad_count)
write_loop (b ∷ bs) (count (pos zero) ∷ r) = ([], bad_count)
write_loop (b ∷ bs) (count (pos (suc n)) ∷ r) =
    let left = b ∷ bs in
    let more = received (take (suc n) (take 65536 left)) (write_loop (drop (suc n) left) r) in
    if ltb (length left) (suc n) then ([], bad_count) else more
write_loop (b ∷ bs) (pipe_error ∷ r) = ([], input_closed)
write_loop (b ∷ bs) (deadline ∷ r) = ([], not_drained)

-- A count is of bytes that were offered: no more than a slice has.
abbrev pub IsOffered : WriteAnswer → Type 0
IsOffered (count (pos n)) = n ≤ 65536
IsOffered _ = Unit {0}

take-take : (n k : ℕ) (xs : Bytes) → n ≤ k → take n (take k xs) ≡ take n xs
take-take zero k xs h = refl
take-take (suc n) zero xs h = absurd (omega arith)
take-take (suc n) (suc k) [] h = refl
take-take (suc n) (suc k) (x ∷ xs) h = ap (λ (t : Bytes). x ∷ t) (take-take n k xs (omega arith))

take-drop : (n : ℕ) (xs : Bytes) → take n xs ++ drop n xs ≡ xs
take-drop zero xs = refl
take-drop (suc n) [] = refl
take-drop (suc n) (x ∷ xs) = ap (λ (t : Bytes). x ∷ t) (take-drop n xs)

-- What has not been received of a frame.
pub record Remains (left : Bytes) (w : Written) : Type 0 where
  pub unsent : Bytes
  pub in_order : w.0 ++ unsent ≡ left
  pub whole : w.1 ≡ sent → unsent ≡ []

none_sent : (left : Bytes) (s : Sending) → (s ≡ sent → left ≡ []) → Remains left ([], s)
none_sent left s h = record { unsent = left; in_order = refl; whole = h }

received-Remains :
    (n : ℕ) (left : Bytes) (w : Written)
    → n ≤ 65536
    → Remains (drop n left) w
    → Remains left (received (take n (take 65536 left)) w)
received-Remains n left (bytes, s) h remains = record {
  unsent = remains.unsent;
  in_order =
      append_assoc (take n (take 65536 left)) bytes remains.unsent
      ∙ ap (λ (t : Bytes). take n (take 65536 left) ++ t) remains.in_order
      ∙ ap (λ (t : Bytes). t ++ drop n left) (take-take n 65536 left h)
      ∙ take-drop n left;
  whole = remains.whole;
}

-- Whatever the pipe answers, it has received the frame's bytes in order from the first, each once; a
-- loop that has ended by sending has left none out.
pub write_loop-Remains :
    (left : Bytes) (answers : List WriteAnswer)
    → All IsOffered answers
    → Remains left (write_loop left answers)
unfolding write_loop
write_loop-Remains [] answers h = none_sent [] sent (λ e. refl)
write_loop-Remains (b ∷ bs) [] h = none_sent _ _ (λ e. cc)
write_loop-Remains (b ∷ bs) (blocked ∷ r) h = write_loop-Remains (b ∷ bs) r h.1
write_loop-Remains (b ∷ bs) (count (negsuc n) ∷ r) h = none_sent _ _ (λ e. cc)
write_loop-Remains (b ∷ bs) (count (pos zero) ∷ r) h = none_sent _ _ (λ e. cc)
write_loop-Remains (b ∷ bs) (count (pos (suc n)) ∷ r) h =
    elim (Bool-cases (ltb (length (b ∷ bs)) (suc n))) [
      | inl big ↦ rw big (none_sent _ _ (λ e. cc))
      | inr fits ↦ rw fits (
          received-Remains (suc n) (b ∷ bs) _ h.0
            (write_loop-Remains (drop (suc n) (b ∷ bs)) r h.1))
    ]
write_loop-Remains (b ∷ bs) (pipe_error ∷ r) h = none_sent _ _ (λ e. cc)
write_loop-Remains (b ∷ bs) (deadline ∷ r) h = none_sent _ _ (λ e. cc)
