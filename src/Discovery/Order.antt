-- ===== src/Discovery/Order.antt =====
-- The order of paths, and the sorted sets of them that discovery.py makes.
use acp_proxy.Prelude.{
  ◌≡◌, refl, sym, ap, ◌∙◌, Bool, true, false, not, ◌&&◌, ◌||◌, List, [], ◌∷◌, arith, Bool-cases,
  inl, inr,
}
use acp_proxy.NativeTransport.Frames.{Bytes}
use acp_proxy.Discovery.{same}
use acp_proxy.Discovery.Select.{before, add}

pub before_self : (xs : Bytes) → before xs xs ≡ false
unfolding before
before_self [] = refl
before_self (x ∷ xs) = ground (arith, before_self xs)

pub before_trans :
    (xs ys zs : Bytes) → before xs ys ≡ true → before ys zs ≡ true → before xs zs ≡ true
unfolding before
before_trans xs [] zs h i = cc
before_trans xs (y ∷ ys) [] h i = cc
before_trans [] (y ∷ ys) (z ∷ zs) h i = refl
before_trans (x ∷ xs) (y ∷ ys) (z ∷ zs) h i = ground (arith, h, i, before_trans xs ys zs)

pub same_self : (xs : Bytes) → same xs xs ≡ true
same_self [] = refl
same_self (x ∷ xs) = ground (arith, same_self xs)

pub same→eq : (xs ys : Bytes) → same xs ys ≡ true → xs ≡ ys
same→eq [] [] h = refl
same→eq [] (y ∷ ys) h = cc
same→eq (x ∷ xs) [] h = cc
same→eq (x ∷ xs) (y ∷ ys) h = ground (arith, same→eq xs ys)

-- Of two texts one is before the other, or they are the same.
pub same_before : (xs ys : Bytes) → same xs ys ≡ not (before xs ys) && not (before ys xs)
unfolding before
same_before [] [] = refl
same_before [] (y ∷ ys) = refl
same_before (x ∷ xs) [] = refl
same_before (x ∷ xs) (y ∷ ys) = ground (arith, same_before xs ys)

-- c in set
abbrev pub has : Bytes → List Bytes → Bool
has c [] = false
has c (x ∷ xs) = same c x || has c xs

-- A text is before all of a list.
abbrev pub first : Bytes → List Bytes → Bool
first c [] = true
first c (x ∷ xs) = before c x && first c xs

abbrev pub is_sorted : List Bytes → Bool
is_sorted [] = true
is_sorted (x ∷ xs) = first x xs && is_sorted xs

pub not_before-eq : (c x : Bytes) → before c x ≡ false → before x c ≡ false → c ≡ x
not_before-eq c x h i = same→eq c x (ground (arith, same_before c x, h, i))

not_before-same : (d c x : Bytes) → before c x ≡ false → before x c ≡ false → same d c ≡ same d x
not_before-same d c x h i = ap (same d) (not_before-eq c x h i)

pub has-add : (d c : Bytes) (xs : List Bytes) → has d (add c xs) ≡ same d c || has d xs
unfolding add
has-add d c [] = refl
has-add d c (x ∷ xs) = ground (arith, has-add d c xs, not_before-same d c x)

first-add :
    (b c : Bytes) (xs : List Bytes)
    → before b c ≡ true
    → first b xs ≡ true
    → first b (add c xs) ≡ true
unfolding add
first-add b c [] h i = ground arith
first-add b c (x ∷ xs) h i = ground (arith, first-add b c xs)

first_trans :
    (b c : Bytes) (xs : List Bytes) → before b c ≡ true → first c xs ≡ true → first b xs ≡ true
first_trans b c [] h i = refl
first_trans b c (x ∷ xs) h i = ground (arith, before_trans b c x, first_trans b c xs)

pub add-is_sorted :
    (c : Bytes) (xs : List Bytes) → is_sorted xs ≡ true → is_sorted (add c xs) ≡ true
unfolding add
add-is_sorted c [] h = refl
add-is_sorted c (x ∷ xs) h =
    ground (arith, add-is_sorted c xs, first-add x c xs, first_trans c x xs)

first-has :
    (c d : Bytes) (xs : List Bytes) → first c xs ≡ true → has d xs ≡ true → before c d ≡ true
first-has c d [] h i = cc
first-has c d (x ∷ xs) h i = elim (Bool-cases (same d x)) [
  | inl is_x ↦ ap (before c) (same→eq d x is_x) ∙ ground (arith, h)
  | inr other ↦ first-has c d xs (ground (arith, h)) (ground (arith, i, other))
]

-- A text that is before all of a list is not in it.
first-out : (c : Bytes) (xs : List Bytes) → first c xs ≡ true → has c xs ≡ false
first-out c xs h = ground (arith, first-has c c xs, before_self c, h)

-- The first of a list that the other list has too is not after its first.
not_after :
    (x y : Bytes) (ys : List Bytes) → first y ys ≡ true → has x (y ∷ ys) ≡ true → before x y ≡ false
not_after x y ys h i = elim (Bool-cases (same x y)) [
  | inl is_y ↦ ap (before x) (sym (same→eq x y is_y)) ∙ before_self x
  | inr other ↦ ground (arith, first-has y x ys, before_trans x y x, before_self x, h, i, other)
]

tail_has :
    (c x : Bytes) (xs ys : List Bytes)
    → first x xs ≡ true
    → first x ys ≡ true
    → has c (x ∷ xs) ≡ has c (x ∷ ys)
    → has c xs ≡ has c ys
tail_has c x xs ys h i e = elim (Bool-cases (same c x)) [
  | inl is_x ↦
      ap (λ d. has d xs) (same→eq c x is_x)
      ∙ first-out x xs h
      ∙ sym (first-out x ys i)
      ∙ ap (λ d. has d ys) (sym (same→eq c x is_x))
  | inr other ↦ ground (arith, e, other)
]

-- Sorted lists that have the same texts are the same.
pub is_sorted_unique :
    (xs ys : List Bytes)
    → is_sorted xs ≡ true
    → is_sorted ys ≡ true
    → ((c : Bytes) → has c xs ≡ has c ys)
    → xs ≡ ys
is_sorted_unique [] [] h i e = refl
is_sorted_unique [] (y ∷ ys) h i e = ground (arith, e y, same_self y)
is_sorted_unique (x ∷ xs) [] h i e = ground (arith, e x, same_self x)
is_sorted_unique (x ∷ xs) (y ∷ ys) h i e =
    let x_y =
      not_before-eq x y (not_after x y ys (ground (arith, i)) (ground (arith, e x, same_self x)))
        (not_after y x xs (ground (arith, h)) (ground (arith, e y, same_self y))) in
    ap (λ k. k ∷ xs) x_y
    ∙ ap (λ r. y ∷ r)
        (is_sorted_unique xs ys (ground (arith, h)) (ground (arith, i)) (λ c.
          tail_has c x xs ys (ground (arith, h)) (ap (λ k. first k ys) x_y ∙ ground (arith, i))
            (e c ∙ ap (λ k. has c (k ∷ ys)) (sym x_y))))
