-- ===== src/Discovery/Canonical.antt =====
-- Decimal numbers without leading zeros, of discovery.py: printed and read.
use acp_proxy.Prelude.{
  ℕ, zero, suc, ◌+◌, ◌-◌, ◌*◌, ◌≡◌, refl, sym, ap, ◌∙◌, ◌<◌, ◌≤◌, Bool, true, false, ◌&&◌, ◌||◌, [],
  ◌∷◌, ◌++◌, leb, eqb, arith,
}
use Prim.Native.Nat.{◌/◌, ◌%◌}
use mathlib.Core.List.{append_assoc, append-nil}
use acp_proxy.NativeTransport.Frames.{Bytes, is_decimal, is_empty, number, spell, decimal}

-- The digits of a number are the same for any rounds that are enough.
spell_rounds : (r s n : ℕ) (out : Bytes) → n < r → n < s → spell r n out ≡ spell s n out
unfolding spell
spell_rounds zero s n out h i = absurd (omega arith)
spell_rounds (suc r) zero n out h i = absurd (omega arith)
spell_rounds (suc r) (suc s) n out h i =
    ground (arith, spell_rounds r s (n / 10) ((48 + n % 10) ∷ out))

spell-append : (r n : ℕ) (out more : Bytes) → spell r n (out ++ more) ≡ spell r n out ++ more
unfolding spell
spell-append zero n out more = refl
spell-append (suc r) n out more = ground (arith, spell-append r (n / 10) ((48 + n % 10) ∷ out) more)

decimal_step : (m : ℕ) → 10 ≤ m → decimal m ≡ spell m (m / 10) ((48 + m % 10) ∷ [])
unfolding spell
decimal_step m h = ground arith

-- A digit more.
decimal_more : (n d : ℕ) → 0 < n → d < 10 → decimal (n * 10 + d) ≡ decimal n ++ ((48 + d) ∷ [])
decimal_more n d positive small =
    decimal_step (n * 10 + d) (omega arith)
    ∙ ap (λ k. spell (n * 10 + d) k ((48 + (n * 10 + d) % 10) ∷ [])) (omega arith)
    ∙ ap (λ k. spell (n * 10 + d) n ((48 + k) ∷ [])) (omega arith)
    ∙ spell_rounds (n * 10 + d) (suc n) n ((48 + d) ∷ []) (omega arith) (omega arith)
    ∙ spell-append (suc n) n [] ((48 + d) ∷ [])

-- `0` or digits that do not begin with it.
abbrev pub canonical : Bytes → Bool
canonical [] = false
canonical (c ∷ cs) = eqb c 48 && is_empty cs || leb 49 c && leb c 57 && is_decimal cs

decimal-number_from :
    (n : ℕ) (ds : Bytes) → 0 < n → is_decimal ds ≡ true → decimal (number n ds) ≡ decimal n ++ ds
unfolding number
decimal-number_from n [] positive h = sym (append-nil (decimal n))
decimal-number_from n (d ∷ ds) positive h =
    decimal-number_from (n * 10 + (d - 48)) ds (omega arith) (ground arith)
    ∙ ap (λ t. t ++ ds) (decimal_more n (d - 48) positive (ground arith))
    ∙ append_assoc (decimal n) ((48 + (d - 48)) ∷ []) ds
    ∙ ap (λ k. decimal n ++ (k ∷ ds)) (ground arith)

decimal_one : (d : ℕ) → d < 10 → decimal d ≡ (48 + d) ∷ []
unfolding spell
decimal_one d h = ground arith

zero_more : (k : ℕ) → 0 * 10 + k ≡ k
zero_more k = omega arith

-- The digits that are canonical are those of their number.
pub decimal-number : (ds : Bytes) → canonical ds ≡ true → decimal (number 0 ds) ≡ ds
unfolding number
decimal-number [] h = cc
decimal-number (d ∷ []) h =
    ap decimal (zero_more (d - 48))
    ∙ decimal_one (d - 48) (ground arith)
    ∙ ap (λ k. k ∷ []) (ground arith)
decimal-number (d ∷ e ∷ ds) h =
    ap (λ k. decimal (number k (e ∷ ds))) (zero_more (d - 48))
    ∙ decimal-number_from (d - 48) (e ∷ ds) (ground arith) (ground arith)
    ∙ ap (λ t. t ++ (e ∷ ds)) (decimal_one (d - 48) (ground arith))
    ∙ ap (λ k. k ∷ e ∷ ds) (ground arith)

spell-canonical :
    (r n : ℕ) (out : Bytes)
    → n < r
    → 0 < n
    → is_decimal out ≡ true
    → canonical (spell r n out) ≡ true
unfolding spell
spell-canonical zero n out h positive o = absurd (omega arith)
spell-canonical (suc r) n out h positive o =
    ground (arith, spell-canonical r (n / 10) ((48 + n % 10) ∷ out))

pub decimal_canonical : (n : ℕ) → canonical (decimal n) ≡ true
unfolding spell
decimal_canonical zero = refl
decimal_canonical (suc n) =
    spell-canonical (suc (suc n)) (suc n) [] (omega arith) (omega arith) refl
