-- ===== src/Discovery/Least.antt =====
-- The least admission, by the key of `_select_best_binary` of discovery.py.
use acp_proxy.Prelude.{
  ◌≡◌, refl, sym, ◌∙◌, Bool, true, false, List, [], ◌∷◌, All, arith, Bool-cases, inl, inr,
  if◌then◌else◌,
}
use acp_proxy.Discovery.{BinaryAdmission}
use acp_proxy.Discovery.Select.{key_before, minimum}
use acp_proxy.Discovery.Order.{before_self, before_trans}

pub true-false : ¬ (true ≡ false)
true-false e = cc

abbrev pub KeyAfter : BinaryAdmission → BinaryAdmission → Type 0
KeyAfter a b = key_before b a ≡ false

key_before_self : (a : BinaryAdmission) → key_before a a ≡ false
key_before_self a = ground (arith, before_self a.path)

key_before_trans :
    (a b c : BinaryAdmission)
    → key_before a b ≡ true
    → key_before b c ≡ true
    → key_before a c ≡ true
key_before_trans a b c h i = ground (arith, before_trans a.path b.path c.path, h, i)

-- The lesser of two is after nothing that the other is not after.
lesser_keeps :
    (a b best : BinaryAdmission) (less : Bool)
    → key_before b best ≡ less
    → key_before a best ≡ false
    → key_before a (if less then b else best) ≡ false
lesser_keeps a b best false is_less h = h
lesser_keeps a b best true is_less h = elim (Bool-cases (key_before a b)) [
  | inl lower ↦ absurd (true-false (sym (key_before_trans a b best lower is_less) ∙ h))
  | inr higher ↦ higher
]

lesser_self :
    (b best : BinaryAdmission) (less : Bool)
    → key_before b best ≡ less
    → key_before b (if less then b else best) ≡ false
lesser_self b best false is_less = is_less
lesser_self b best true is_less = key_before_self b

-- The least keeps what was not less than a best that it replaced.
minimum-best :
    (best a : BinaryAdmission) (others : List BinaryAdmission)
    → key_before a best ≡ false
    → key_before a (minimum best others) ≡ false
unfolding minimum
minimum-best best a [] h = h
minimum-best best a (b ∷ others) h =
    minimum-best (if key_before b best then b else best) a others
      (lesser_keeps a b best (key_before b best) refl h)

minimum-others :
    (best : BinaryAdmission) (others : List BinaryAdmission)
    → All (KeyAfter (minimum best others)) others
unfolding minimum
minimum-others best [] = tt
minimum-others best (b ∷ others) = (
  minimum-best (if key_before b best then b else best) b others
      (lesser_self b best (key_before b best) refl),
  minimum-others (if key_before b best then b else best) others,
)

pub minimum-All :
    (best : BinaryAdmission) (others : List BinaryAdmission)
    → All (KeyAfter (minimum best others)) (best ∷ others)
minimum-All best others =
    (minimum-best best best others (key_before_self best), minimum-others best others)

-- What holds of all holds of the least.
lesser-Holds :
    (P : BinaryAdmission → Type 0) (b best : BinaryAdmission) (less : Bool)
    → P b
    → P best
    → P (if less then b else best)
lesser-Holds P b best true p q = p
lesser-Holds P b best false p q = q

pub minimum-Holds :
    (P : BinaryAdmission → Type 0) (best : BinaryAdmission) (others : List BinaryAdmission)
    → All P (best ∷ others)
    → P (minimum best others)
unfolding minimum
minimum-Holds P best [] all = all.0
minimum-Holds P best (b ∷ others) all =
    minimum-Holds P (if key_before b best then b else best) others
      (lesser-Holds P b best (key_before b best) all.1.0 all.0, all.1.1)
