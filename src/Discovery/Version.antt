-- ===== src/Discovery/Version.antt =====
-- The texts of versions, of discovery.py: what `parse_copilot_language_server_version` reads.
use acp_proxy.Prelude.{
  length, length-append, subst, suc, ◌+◌, ◌≤◌, ◌≡◌, refl, sym, ap, ◌∙◌, Bool, true, not, Option,
  none, some, [], ◌∷◌, ◌++◌, eqb, arith, Bool-cases, Result, ok, err, ◌↔◌, inl, inr,
}
use mathlib.Core.List.{append-nil}
use acp_proxy.NativeTransport.Frames.{Bytes, is_decimal, number, decimal}
use acp_proxy.NativeTransport.Frames.Digits.{number-decimal}
use acp_proxy.Discovery.{
  BinaryError, then_on, nothing_left, Version, format_version, digit, digits, part, dot, is_version,
  split, parse_version, tuple,
}
use acp_proxy.Discovery.Canonical.{canonical, decimal-number, decimal_canonical}

-- A number ends where no digit follows.
abbrev stops : Bytes → Bool
stops [] = true
stops (c ∷ cs) = not (digit c)

digits-append :
    (ds rest : Bytes) → is_decimal ds ≡ true → stops rest ≡ true → digits (ds ++ rest) ≡ rest
unfolding digits
digits-append [] [] h s = refl
digits-append [] (c ∷ cs) h s = ground arith
digits-append (d ∷ ds) rest h s = ground (arith, digits-append ds rest)

part-append :
    (ds rest : Bytes) → canonical ds ≡ true → stops rest ≡ true → part (ds ++ rest) ≡ some rest
unfolding part
part-append [] rest h s = cc
part-append (d ∷ []) rest h s = ground (arith, digits-append [] rest)
part-append (d ∷ e ∷ ds) rest h s = ground (arith, digits-append (e ∷ ds) rest)

digits_left : (text : Bytes) → (ds : Bytes) × (text ≡ ds ++ digits text) × (is_decimal ds ≡ true)
unfolding digits
digits_left [] = ([], refl, refl)
digits_left (c ∷ cs) = elim (Bool-cases (digit c)) [
  | inl here ↦
      let rest = digits_left cs in
      (
        c ∷ rest.0,
        ap (λ r. c ∷ r) rest.1 ∙ ap (λ r. c ∷ (rest.0 ++ r)) (ground (arith, here)),
        ground (arith, here, rest.2),
      )
  | inr none_ ↦ ([], ground (arith, none_), refl)
]

-- What a part of the pattern takes is canonical.
part_taken :
    (text rest : Bytes)
    → part text ≡ some rest
    → (ds : Bytes) × (text ≡ ds ++ rest) × (canonical ds ≡ true)
unfolding part
part_taken [] rest h = cc
part_taken (c ∷ cs) rest h = elim (Bool-cases (eqb c 48)) [
  | inl here ↦ (48 ∷ [], ground (arith, h, here), refl)
  | inr none_ ↦
      let more = digits_left cs in
      (c ∷ more.0, ground (arith, h, none_, more.1), ground (arith, h, none_, more.2))
]

dot_taken : (text rest : Bytes) → dot text ≡ some rest → text ≡ 46 ∷ rest
dot_taken [] rest h = cc
dot_taken (c ∷ cs) rest h = ground (arith, h)

-- The parts of a text that has no dot are itself.
split_one : (ds : Bytes) → is_decimal ds ≡ true → split 46 ds ≡ ds ∷ []
unfolding split
split_one [] h = refl
split_one (d ∷ ds) h = ground (arith, split_one ds)

split-append :
    (ds rest : Bytes) → is_decimal ds ≡ true → split 46 (ds ++ (46 ∷ rest)) ≡ ds ∷ split 46 rest
unfolding split
split-append [] rest h = refl
split-append (d ∷ ds) rest h = ground (arith, split-append ds rest)

canonical-is_decimal : (ds : Bytes) → canonical ds ≡ true → is_decimal ds ≡ true
canonical-is_decimal [] h = cc
canonical-is_decimal (d ∷ []) h = ground arith
canonical-is_decimal (d ∷ e ∷ ds) h = ground arith

-- Three parts between dots.
abbrev dotted : Bytes → Bytes → Bytes → Bytes
dotted a b c = a ++ (46 ∷ (b ++ (46 ∷ c)))

dotted-is_version :
    (a b c : Bytes)
    → canonical a ≡ true
    → canonical b ≡ true
    → canonical c ≡ true
    → is_version (dotted a b c) ≡ true
unfolding is_version
dotted-is_version a b c ha hb hc = rw (part-append a (46 ∷ (b ++ (46 ∷ c))) ha refl) (
    rw (part-append b (46 ∷ c) hb refl)
      (rw (sym (append-nil c)) (rw (part-append c [] hc refl) refl)))

dotted-split :
    (a b c : Bytes)
    → canonical a ≡ true
    → canonical b ≡ true
    → canonical c ≡ true
    → split 46 (dotted a b c) ≡ a ∷ b ∷ c ∷ []
dotted-split a b c ha hb hc =
    split-append a (b ++ (46 ∷ c)) (canonical-is_decimal a ha)
    ∙ ap (λ r. a ∷ r) (split-append b c (canonical-is_decimal b hb))
    ∙ ap (λ r. a ∷ b ∷ r) (split_one c (canonical-is_decimal c hc))

length-dotted : (a b c : Bytes) → length (dotted a b c) ≡ suc (suc (length a + length b + length c))
length-dotted a b c =
    omega (arith, length-append a (46 ∷ (b ++ (46 ∷ c))), length-append b (46 ∷ c))

tuple_short :
    (a b c : Bytes)
    → length (dotted a b c) ≤ 4300
    → tuple (a ∷ b ∷ c ∷ []) ≡ ok (number 0 a, number 0 b, number 0 c)
tuple_short a b c short = ground (arith, short, length-dotted a b c)

parse_dotted :
    (a b c : Bytes)
    → canonical a ≡ true
    → canonical b ≡ true
    → canonical c ≡ true
    → length (dotted a b c) ≤ 4300
    → parse_version (dotted a b c) ≡ ok (number 0 a, number 0 b, number 0 c)
unfolding parse_version
parse_dotted a b c ha hb hc short =
    rw (dotted-is_version a b c ha hb hc)
      (rw (dotted-split a b c ha hb hc) (tuple_short a b c short))

-- The version that was printed is read.
pub parse-format :
    (v : Version) → length (format_version v) ≤ 4300 → parse_version (format_version v) ≡ ok v
unfolding format_version
parse-format (a, b, c) short =
    parse_dotted (decimal a) (decimal b) (decimal c) (decimal_canonical a) (decimal_canonical b)
      (decimal_canonical c) short
    ∙ ap (λ x. ok (x, number 0 (decimal b), number 0 (decimal c))) (number-decimal a)
    ∙ ap (λ x. ok (a, x, number 0 (decimal c))) (number-decimal b)
    ∙ ap (λ x. ok (a, b, x)) (number-decimal c)

then_on-some :
    (o : Option Bytes) (f : Bytes → Option Bytes) (rest : Bytes)
    → then_on o f ≡ some rest
    → (xs : Bytes) × (o ≡ some xs) × (f xs ≡ some rest)
then_on-some none f rest h = cc
then_on-some (some xs) f rest h = (xs, refl, h)

nothing_left-some : (o : Option Bytes) → nothing_left o ≡ true → o ≡ some []
nothing_left-some none h = cc
nothing_left-some (some []) h = refl
nothing_left-some (some (c ∷ cs)) h = cc

-- What the pattern matches is three numbers between dots.
is_version-dotted :
    (text : Bytes)
    → is_version text ≡ true
    → (a b c : Bytes) × (text ≡ dotted a b c)
      × (canonical a ≡ true)
      × (canonical b ≡ true)
      × (canonical c ≡ true)
unfolding is_version
is_version-dotted text h =
    let third =
      then_on-some (then_on (then_on (then_on (part text) dot) part) dot) part [] (
        nothing_left-some (then_on (then_on (then_on (then_on (part text) dot) part) dot) part)
          h) in
    let second_dot = then_on-some (then_on (then_on (part text) dot) part) dot third.0 third.1 in
    let second = then_on-some (then_on (part text) dot) part second_dot.0 second_dot.1 in
    let first_dot = then_on-some (part text) dot second.0 second.1 in
    let a = part_taken text first_dot.0 first_dot.1 in
    let b = part_taken second.0 second_dot.0 second.2 in
    let c = part_taken third.0 [] third.2 in
    (
      a.0,
      b.0,
      c.0,
      a.1
          ∙ ap (λ r. a.0 ++ r)
              (dot_taken first_dot.0 second.0 first_dot.2
                ∙ ap (λ r. 46 ∷ r)
                    (b.1
                      ∙ ap (λ r. b.0 ++ r)
                          (dot_taken second_dot.0 third.0 second_dot.2
                            ∙ ap (λ r. 46 ∷ r) (c.1 ∙ append-nil c.0)))),
      a.2,
      b.2,
      c.2,
    )

parsed-is_version :
    (text : Bytes) (v : Version) → parse_version text ≡ ok v → is_version text ≡ true
unfolding parse_version
parsed-is_version text v h = ground (arith, h)

format_dotted :
    (a b c : Bytes)
    → canonical a ≡ true
    → canonical b ≡ true
    → canonical c ≡ true
    → dotted a b c ≡ format_version (number 0 a, number 0 b, number 0 c)
unfolding format_version
format_dotted a b c ha hb hc = sym (
    ap (λ r. dotted r (decimal (number 0 b)) (decimal (number 0 c))) (decimal-number a ha)
    ∙ ap (λ r. dotted a r (decimal (number 0 c))) (decimal-number b hb)
    ∙ ap (λ r. dotted a b r) (decimal-number c hc))

version_in : Version → Result BinaryError Version → Version
version_in v (ok w) = w
version_in v (err e) = v

-- A text that is read is that of the version.
format-parse :
    (text : Bytes) (v : Version)
    → length text ≤ 4300
    → parse_version text ≡ ok v
    → text ≡ format_version v
unfolding version_in
format-parse text v short h =
    let (a, b, c, eq, ha, hb, hc) = is_version-dotted text (parsed-is_version text v h) in
    eq
    ∙ format_dotted a b c ha hb hc
    ∙ ap (λ r. format_version (version_in v r))
        (sym (parse_dotted a b c ha hb hc (subst (λ t. length t ≤ 4300) eq short))
          ∙ ap parse_version (sym eq)
          ∙ h)

-- A text of at most 4300 characters is read as a version exactly if it is the text that the version is
-- printed as.
pub parse_version-format_version :
    (text : Bytes) (v : Version)
    → length text ≤ 4300
    → (parse_version text ≡ ok v) ↔ (text ≡ format_version v)
parse_version-format_version text v short = (
  format-parse text v short,
  λ e. ap parse_version e ∙ parse-format v (subst (λ t. length t ≤ 4300) e short),
)
