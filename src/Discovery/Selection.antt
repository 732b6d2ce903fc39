-- ===== src/Discovery/Selection.antt =====
-- What `_select_best_binary` of discovery.py selects.
use acp_proxy.Prelude.{
  ◌≡◌, refl, sym, ap, subst, ◌∙◌, Bool, true, false, ◌||◌, Option, none, some, List, [], ◌∷◌,
  Result, ok, err, All, arith, Bool-cases, inl, inr,
}
use acp_proxy.NativeTransport.Frames.{Bytes}
use acp_proxy.Discovery.{BinaryError, BinaryAdmission, Host, inspect_binary, same}
use acp_proxy.Discovery.Select.{
  add_canonical, keep_admitted, minimum, canonical_paths, admit_all, choose, select_best,
}
use acp_proxy.Discovery.Better.{Better, key_before-Better}
use acp_proxy.Discovery.Least.{true-false, KeyAfter, minimum-All, minimum-Holds}
use acp_proxy.Discovery.Order.{
  same→eq, same_self, has, is_sorted, has-add, add-is_sorted, is_sorted_unique,
}

abbrev pub is_path : Bytes → Option Bytes → Bool
is_path c none = false
is_path c (some d) = same c d

module _ (h : Host) where
  -- A path of the list has the canonical form `c`.
  abbrev pub names : Bytes → List Bytes → Bool
  names c [] = false
  names c (p ∷ ps) = is_path c (h.realpath p) || names c ps

  has-add_canonical :
      (c : Bytes) (o : Option Bytes) (set : List Bytes)
      → has c (add_canonical o set) ≡ is_path c o || has c set
  has-add_canonical c none set = refl
  has-add_canonical c (some d) set = has-add c d set

  add_canonical-is_sorted :
      (o : Option Bytes) (set : List Bytes)
      → is_sorted set ≡ true
      → is_sorted (add_canonical o set) ≡ true
  add_canonical-is_sorted none set s = s
  add_canonical-is_sorted (some c) set s = add-is_sorted c set s

  has-canonical_paths : (c : Bytes) (ps : List Bytes) → has c (canonical_paths h ps) ≡ names c ps
  unfolding canonical_paths
  has-canonical_paths c [] = refl
  has-canonical_paths c (p ∷ ps) =
      has-add_canonical c (h.realpath p) (canonical_paths h ps)
      ∙ ap (λ b. is_path c (h.realpath p) || b) (has-canonical_paths c ps)

  canonical_paths-is_sorted : (ps : List Bytes) → is_sorted (canonical_paths h ps) ≡ true
  unfolding canonical_paths
  canonical_paths-is_sorted [] = refl
  canonical_paths-is_sorted (p ∷ ps) =
      add_canonical-is_sorted (h.realpath p) (canonical_paths h ps) (canonical_paths-is_sorted ps)

  -- What is selected depends on the canonical paths that the candidates name, and on nothing else of
  -- them: not on their order, and not on how often or in which form each is named.
  pub select_best-names :
      (fail_if_candidates_rejected : Bool) (ps qs : List Bytes)
      → ((c : Bytes) → names c ps ≡ names c qs)
      → select_best h fail_if_candidates_rejected ps ≡ select_best h fail_if_candidates_rejected qs
  unfolding select_best
  select_best-names fails ps qs e =
      ap (λ paths. choose h fails paths (admit_all h paths))
        (is_sorted_unique (canonical_paths h ps) (canonical_paths h qs)
          (canonical_paths-is_sorted ps) (canonical_paths-is_sorted qs)
          (λ c. has-canonical_paths c ps ∙ e c ∙ sym (has-canonical_paths c qs)))

  -- `a` is admitted for a canonical path that the candidates name.
  pub record Admitted (ps : List Bytes) (a : BinaryAdmission) : Type 0 where
    canonical : Bytes
    is_candidate : names canonical ps ≡ true
    is_admitted : inspect_binary h canonical ≡ ok a

  abbrev InPaths : List Bytes → BinaryAdmission → Type 0
  InPaths paths a = (c : Bytes) × (has c paths ≡ true) × (inspect_binary h c ≡ ok a)

  keep_admitted-All :
      (P : BinaryAdmission → Type 0) (a : BinaryAdmission) (r : Result BinaryError BinaryAdmission)
      (rest : List BinaryAdmission)
      → r ≡ ok a
      → All P (keep_admitted r rest)
      → P a
  keep_admitted-All P a (ok b) rest e all = subst P (cc) all.0
  keep_admitted-All P a (err e) rest eq all = cc

  keep_admitted-rest :
      (P : BinaryAdmission → Type 0) (r : Result BinaryError BinaryAdmission)
      (rest : List BinaryAdmission)
      → All P (keep_admitted r rest)
      → All P rest
  keep_admitted-rest P (ok b) rest all = all.1
  keep_admitted-rest P (err e) rest all = all

  -- What holds of all that were admitted holds of each.
  admit_all-All :
      (P : BinaryAdmission → Type 0) (paths : List Bytes) (a : BinaryAdmission)
      → All P (admit_all h paths)
      → InPaths paths a
      → P a
  unfolding admit_all
  admit_all-All P [] a all (d, member_, admitted) = cc
  admit_all-All P (c ∷ cs) a all (d, member_, admitted) = elim (Bool-cases (same d c)) [
    | inl is_c ↦
        keep_admitted-All P a (inspect_binary h c) (admit_all h cs)
          (ap (inspect_binary h) (sym (same→eq d c is_c)) ∙ admitted) all
    | inr other ↦
        admit_all-All P cs a (keep_admitted-rest P (inspect_binary h c) (admit_all h cs) all)
          (d, ground (arith, member_, other), admitted)
  ]

  All-later :
      (c : Bytes) (cs : List Bytes) (found : List BinaryAdmission)
      → All (InPaths cs) found
      → All (InPaths (c ∷ cs)) found
  All-later c cs [] all = tt
  All-later c cs (a ∷ found) ((d, member_, admitted), all) =
      ((d, ground (arith, member_), admitted), All-later c cs found all)

  keep_admitted-InPaths :
      (c : Bytes) (cs : List Bytes) (r : Result BinaryError BinaryAdmission)
      (rest : List BinaryAdmission)
      → inspect_binary h c ≡ r
      → All (InPaths (c ∷ cs)) rest
      → All (InPaths (c ∷ cs)) (keep_admitted r rest)
  keep_admitted-InPaths c cs (err e) rest eq all = all
  keep_admitted-InPaths c cs (ok a) rest eq all = ((c, ground (arith, same_self c), eq), all)

  admit_all-InPaths : (paths : List Bytes) → All (InPaths paths) (admit_all h paths)
  unfolding admit_all
  admit_all-InPaths [] = tt
  admit_all-InPaths (c ∷ cs) =
      keep_admitted-InPaths c cs (inspect_binary h c) (admit_all h cs) refl
        (All-later c cs (admit_all h cs) (admit_all-InPaths cs))

module _ (h : Host) where
  -- What a selection may answer: a language server that is admitted and better than all that are;
  -- nothing, where none is admitted and failing is not wanted or there is no
  -- candidate; or an error, where it is wanted and there is one.
  abbrev pub Chosen : Bool → List Bytes → Result BinaryError (Option Bytes) → Type 0
  Chosen fails ps (ok (some p)) =
      (a : BinaryAdmission) × (a.path ≡ p)
      × Admitted h ps a
      × ((b : BinaryAdmission) → Admitted h ps b → Better a b)
  Chosen fails ps (ok none) =
      ((b : BinaryAdmission) → ¬ (Admitted h ps b))
      × ((c : Bytes) → names h c ps ≡ true → fails ≡ false)
  Chosen fails ps (err e) =
      ((b : BinaryAdmission) → ¬ (Admitted h ps b))
      × (fails ≡ true)
      × ((c : Bytes) × (names h c ps ≡ true))

  choose-Chosen :
      (fails : Bool) (ps paths : List Bytes) (found : List BinaryAdmission)
      → ((c : Bytes) → has c paths ≡ names h c ps)
      → All (Admitted h ps) found
      → ((P : BinaryAdmission → Type 0) (b : BinaryAdmission) → All P found → Admitted h ps b → P b)
      → Chosen fails ps (choose h fails paths found)
  choose-Chosen fails ps [] [] named all each =
      (λ b m. each (λ a. ⊥) b tt m, λ c n. absurd (true-false (sym n ∙ sym (named c))))
  choose-Chosen true ps (d ∷ ds) [] named all each = (
    λ b m. each (λ a. ⊥) b tt m,
    refl,
    (d, sym (named d) ∙ ap (λ q. q || has d ds) (same_self d)),
  )
  choose-Chosen false ps (d ∷ ds) [] named all each = (λ b m. each (λ a. ⊥) b tt m, λ c n. refl)
  choose-Chosen fails ps paths (a ∷ found) named all each = (
    minimum a found,
    refl,
    minimum-Holds (Admitted h ps) a found all,
    λ b m.
        key_before-Better (minimum a found) b
          (each (KeyAfter (minimum a found)) b (minimum-All a found) m),
  )

  All-Admitted :
      (ps paths : List Bytes) (found : List BinaryAdmission)
      → ((c : Bytes) → has c paths ≡ names h c ps)
      → All (InPaths h paths) found
      → All (Admitted h ps) found
  All-Admitted ps paths [] named all = tt
  All-Admitted ps paths (a ∷ found) named ((c, member_, admitted), all) = (
    record { canonical = c; is_candidate = sym (named c) ∙ member_; is_admitted = admitted },
    All-Admitted ps paths found named all,
  )

  -- A selection answers a language server that is admitted and has the highest version of those that
  -- are, and the least path of those with that version; or nothing, if none is admitted and either there
  -- is no candidate or failing is not wanted; or an error, if none is admitted, there is a candidate and
  -- failing is wanted.
  pub select_best-Chosen :
      (fail_if_candidates_rejected : Bool) (ps : List Bytes)
      → Chosen fail_if_candidates_rejected ps (select_best h fail_if_candidates_rejected ps)
  unfolding select_best
  select_best-Chosen fails ps =
      let paths = canonical_paths h ps in
      let named = λ (c : Bytes). has-canonical_paths h c ps in
      choose-Chosen fails ps paths (admit_all h paths) named
        (All-Admitted ps paths (admit_all h paths) named (admit_all-InPaths h paths))
        (λ P b all m.
          admit_all-All h P paths b all
            (m.canonical, named m.canonical ∙ m.is_candidate, m.is_admitted))
