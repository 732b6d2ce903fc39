-- ===== src/NativeTransport/Frames/Digits.antt =====
-- Decimal numbers as `_send` writes them and `read_frame` reads them.
use acp_proxy.Prelude.{
  ℕ, zero, suc, ◌+◌, ◌^◌, ◌≡◌, refl, ◌≤◌, ◌<◌, true, false, [], ◌∷◌, length, arith,
}
use Prim.Native.Nat.{◌/◌, ◌%◌}
use acp_proxy.NativeTransport.Frames.{
  Bytes, is_decimal, is_empty, number, spell, decimal, lstrip, rstrip,
}

spell-is_decimal :
    (rounds n : ℕ) (out : Bytes) → is_decimal out ≡ true → is_decimal (spell rounds n out) ≡ true
unfolding spell
spell-is_decimal zero n out h = h
spell-is_decimal (suc rounds) n out h =
    ground (arith, spell-is_decimal rounds (n / 10) ((48 + n % 10) ∷ out))

spell-number :
    (rounds n : ℕ) (out : Bytes) → n < rounds → number 0 (spell rounds n out) ≡ number n out
unfolding spell number
spell-number zero n out h = absurd (omega arith)
spell-number (suc rounds) n out h =
    ground (arith, spell-number rounds (n / 10) ((48 + n % 10) ∷ out))

spell-filled :
    (rounds n : ℕ) (out : Bytes) → is_empty out ≡ false → is_empty (spell rounds n out) ≡ false
unfolding spell
spell-filled zero n out h = h
spell-filled (suc rounds) n out h =
    ground (arith, spell-filled rounds (n / 10) ((48 + n % 10) ∷ out))

-- A number below 10 ^ k has k digits at most.
spell-length :
    (rounds n k : ℕ) (out : Bytes)
    → n < 10 ^ suc k
    → length (spell rounds n out) ≤ length out + suc k
unfolding spell
spell-length zero n k out h = omega arith
spell-length (suc rounds) n zero out h = ground arith
spell-length (suc rounds) n (suc k) out h =
    ground (arith, spell-length rounds (n / 10) k ((48 + n % 10) ∷ out))

pub decimal-is_decimal : (n : ℕ) → is_decimal (decimal n) ≡ true
decimal-is_decimal n = spell-is_decimal (suc n) n [] refl

-- A number is read back from its digits.
pub number-decimal : (n : ℕ) → number 0 (decimal n) ≡ n
unfolding number
number-decimal n = spell-number (suc n) n [] (omega arith)

pub decimal_filled : (n : ℕ) → is_empty (decimal n) ≡ false
unfolding spell
decimal_filled n = ground (arith, spell-filled n (n / 10) ((48 + n % 10) ∷ []))

pub length-decimal : (n : ℕ) → n < 100000000 → length (decimal n) ≤ 8
length-decimal n h = spell-length (suc n) n 7 [] h

pub lstrip-decimal : (ds : Bytes) → is_decimal ds ≡ true → lstrip ds ≡ ds
unfolding lstrip
lstrip-decimal [] h = refl
lstrip-decimal (d ∷ ds) h = ground arith

pub rstrip-decimal : (ds : Bytes) → is_decimal ds ≡ true → rstrip ds ≡ ds
unfolding rstrip
rstrip-decimal [] h = refl
rstrip-decimal (d ∷ []) h = ground arith
rstrip-decimal (d ∷ e ∷ ds) h = ground (arith, rstrip-decimal (e ∷ ds))
