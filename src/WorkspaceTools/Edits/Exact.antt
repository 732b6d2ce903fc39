-- ===== src/WorkspaceTools/Edits/Exact.antt =====
-- An exact edit replaces the one occurrence of its text.
use acp_proxy.Prelude.{
  ℕ, suc, ◌≤◌, String, ◌≡◌, refl, sym, ap, ◌∙◌, some, is_some, inl, inr, Option-cases, Bool-cases,
  arith,
}
use Prim.Native.Char.{Char}
use Prim.Native.String.{[] as empty, ◌∷◌ as ◌⊳◌, ◌++◌ as ◌⧺◌}
use Prim.Native.String.append
use text.Mathlib.TextEquality.{Char-path}
use acp_proxy.WorkspaceTools.{ExactEdit}
use acp_proxy.WorkspaceTools.Edits.{strip, find, rfind, replace, apply_edit}

-- The number of characters.
chars : String → ℕ
chars empty = 0
chars (c ⊳ t) = suc (chars t)

strip-eq : (p t r : String) → strip p t ≡ some r → t ≡ p ⧺ r
unfolding strip
strip-eq empty t r h = ground (arith, append.nil r)
strip-eq (c ⊳ p) empty r h = ground arith
strip-eq (c ⊳ p) (d ⊳ t) r h = ground (arith, strip-eq p t r, Char-path c d, append.cons c p r)

strip-append : (p r : String) → strip p (p ⧺ r) ≡ some r
unfolding strip
strip-append empty r = ap some (append.nil r)
strip-append (c ⊳ p) r = rw (append.cons c p r) (ground (arith, strip-append p r))

-- An occurrence in the text, and what is before and after it.
abbrev Occurs : String → String → String → String → Type 0
Occurs t a old b = t ≡ a ⧺ (old ⧺ b)

head_there : (old b t : String) → t ≡ old ⧺ b → strip old t ≡ some b
head_there old b t e = rw e (strip-append old b)

cons_occurs : (c : Char) (t a x : String) → t ≡ a ⧺ x → c ⊳ t ≡ (c ⊳ a) ⧺ x
cons_occurs c t a x e = ap (λ u. c ⊳ u) e ∙ sym (append.cons c a x)

found :
    (old new t : String) (n : ℕ)
    → find old t ≡ some n
    → (a : String) × (b : String) × Occurs t a old b
      × (replace old new t ≡ a ⧺ (new ⧺ b))
      × (chars a ≡ n)
unfolding find replace chars
found old new empty n h = elim (Option-cases (strip old empty)) [
  | inl absent ↦ absurd (ground arith)
  | inr (r, e) ↦ (
    empty,
    r,
    strip-eq old empty r e ∙ sym (append.nil (old ⧺ r)),
    ground (arith, append.nil (new ⧺ r)),
    ground arith,
  )
]
found old new (c ⊳ t) n h = elim (Option-cases (strip old (c ⊳ t))) [
  | inr (r, e) ↦ (
    empty,
    r,
    strip-eq old (c ⊳ t) r e ∙ sym (append.nil (old ⧺ r)),
    ground (arith, append.nil (new ⧺ r)),
    ground arith,
  )
  | inl absent ↦ elim (Option-cases (find old t)) [
    | inl nowhere ↦ absurd (ground arith)
    | inr (m, e) ↦
        let (a, b, o, k, l) = found old new t m e in
        (
          c ⊳ a,
          b,
          cons_occurs c t a (old ⧺ b) o,
          ground (arith, k, cons_occurs c (replace old new t) a (new ⧺ b) k),
          ground (arith, l),
        )
  ]
]

tail_eq : (c d : Char) (a x t : String) → d ⊳ t ≡ (c ⊳ a) ⧺ x → t ≡ a ⧺ x
tail_eq c d a x t e = ground (arith, e ∙ append.cons c a x)

find-le : (old b a t : String) → Occurs t a old b → (n : ℕ) × (find old t ≡ some n) × (n ≤ chars a)
unfolding find chars
find-le old b empty empty o =
    let h = head_there old b empty (o ∙ append.nil (old ⧺ b)) in (0, ground arith, omega arith)
find-le old b empty (d ⊳ t) o =
    let h = head_there old b (d ⊳ t) (o ∙ append.nil (old ⧺ b)) in (0, ground arith, omega arith)
find-le old b (c ⊳ a) empty o = absurd (ground (arith, ap chars (o ∙ append.cons c a (old ⧺ b))))
find-le old b (c ⊳ a) (d ⊳ t) o =
    let (n, e, l) = find-le old b a t (tail_eq c d a (old ⧺ b) t o) in
    elim (Bool-cases (is_some (strip old (d ⊳ t)))) [
      | inl first ↦ (0, ground arith, omega arith)
      | inr later ↦ (suc n, ground arith, omega (arith, l))
    ]

rfind-ge :
    (old b a t : String) → Occurs t a old b → (n : ℕ) × (rfind old t ≡ some n) × (chars a ≤ n)
unfolding rfind chars
rfind-ge old b empty empty o =
    let h = head_there old b empty (o ∙ append.nil (old ⧺ b)) in (0, ground arith, omega arith)
rfind-ge old b empty (d ⊳ t) o =
    let h = head_there old b (d ⊳ t) (o ∙ append.nil (old ⧺ b)) in
    elim (Option-cases (rfind old t)) [
      | inl nowhere ↦ (0, ground arith, omega arith)
      | inr (m, e) ↦ (suc m, ground arith, omega arith)
    ]
rfind-ge old b (c ⊳ a) empty o = absurd (ground (arith, ap chars (o ∙ append.cons c a (old ⧺ b))))
rfind-ge old b (c ⊳ a) (d ⊳ t) o =
    let (n, e, l) = rfind-ge old b a t (tail_eq c d a (old ⧺ b) t o) in
    (suc n, ground arith, omega (arith, l))

-- Prefixes of one text with as many characters are the same.
same_prefix : (a b x y : String) → a ⧺ x ≡ b ⧺ y → chars a ≡ chars b → a ≡ b
unfolding chars
same_prefix empty empty x y e l = refl
same_prefix empty (d ⊳ b) x y e l = absurd (ground (arith, l))
same_prefix (c ⊳ a) empty x y e l = absurd (ground (arith, l))
same_prefix (c ⊳ a) (d ⊳ b) x y e l =
    let f = sym (append.cons c a x) ∙ e ∙ append.cons d b y in
    ground (arith, f, same_prefix a b x y)

-- An edit that is applied has found its text at one place only: the text is that place with what is
-- before and after it, the result has the new text there and the same before and after, and wherever
-- else the text would be read to stand, it is the same place.
pub apply_edit-exact :
    (e : ExactEdit) (text changed : String)
    → apply_edit e text ≡ some changed
    → (a : String) × (b : String) × (text ≡ a ⧺ (e.old_text ⧺ b))
      × (changed ≡ a ⧺ (e.new_text ⧺ b))
      × ((x y : String) → text ≡ x ⧺ (e.old_text ⧺ y) → x ≡ a)
unfolding apply_edit
apply_edit-exact e text changed h = elim (Option-cases (find e.old_text text)) [
  | inl nowhere ↦ absurd (ground arith)
  | inr (n, first) ↦ elim (Option-cases (rfind e.old_text text)) [
    | inl nowhere ↦ absurd (ground arith)
    | inr (m, last) ↦
        let (a, b, o, k, l) = found e.old_text e.new_text text n first in
        let same : n ≡ m = ground arith in
        (
          a,
          b,
          o,
          ground (arith, k),
          λ x y there.
              let (i, ei, li) = find-le e.old_text y x text there in
              let (j, ej, lj) = rfind-ge e.old_text y x text there in
              same_prefix x a (e.old_text ⧺ y) (e.old_text ⧺ b) (sym there ∙ o)
                (ground (arith, ei, ej, li, lj, l, first, last, same)),
        )
  ]
]
