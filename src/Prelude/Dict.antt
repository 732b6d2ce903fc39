-- ===== src/Prelude/Dict.antt =====
-- Python's `dict` with text keys: entries in the order of insertion, one for each key.
use Prim.Native.Nat.{suc}
use Prim.Native.String.{String}
use mathlib.Core.Path.{◌≡◌, refl}
use mathlib.Core.Option.{Option, none, some}
use mathlib.Core.List.{List, [], ◌∷◌}
use native.Mathlib.Omega.{arith}
use text.Mathlib.Text.{◌==◌}
use text.Mathlib.TextEquality.{eq_iff}
use acp_proxy.Prelude.Tests.{if◌then◌else◌}
use acp_proxy.Prelude.Lists.{length}

abbrev pub Dict {ℓ} : Type ℓ → Type ℓ
Dict V = List (String × V)

module _ {ℓ} {V : Type ℓ} where
  -- d.get(k)
  unfoldable pub lookup : String → Dict V → Option V
  lookup k [] = none
  lookup k ((j, v) ∷ d) = if j == k then some v else lookup k d

  -- d[k] = v: in place for a key that is there, at the end for a new one.
  unfoldable pub insert : String → V → Dict V → Dict V
  insert k v [] = (k, v) ∷ []
  insert k v ((j, w) ∷ d) = if j == k then (j, v) ∷ d else (j, w) ∷ insert k v d

  -- The object at `k` is mutated by `f`; nothing happens where there is none.
  unfoldable pub modify : String → (V → V) → Dict V → Dict V
  modify k f [] = []
  modify k f ((j, v) ∷ d) = if j == k then (j, f v) ∷ d else (j, v) ∷ modify k f d

  -- d.pop(k, None)
  unfoldable pub remove : String → Dict V → Dict V
  remove k [] = []
  remove k ((j, v) ∷ d) = let rest = remove k d in if j == k then rest else (j, v) ∷ rest

  -- for v in d.values(): mutated by `f`
  unfoldable pub modify_all : (V → V) → Dict V → Dict V
  modify_all f [] = []
  modify_all f ((j, v) ∷ d) = (j, f v) ∷ modify_all f d

  unfoldable pub values : Dict V → List V
  values [] = []
  values ((j, v) ∷ d) = v ∷ values d

  abbrev pub map_option : (V → V) → Option V → Option V
  map_option f none = none
  map_option f (some v) = some (f v)

  pub lookup-insert :
      (k j : String) (v : V) (d : Dict V)
      → lookup j (insert k v d) ≡ (if k == j then some v else lookup j d)
  unfolding lookup insert
  lookup-insert k j v [] = refl
  lookup-insert k j v ((i, w) ∷ d) =
      ground (arith, eq_iff k j, eq_iff i k, eq_iff i j, lookup-insert k j v d)

  pub lookup-modify :
      (k j : String) (f : V → V) (d : Dict V)
      → lookup j (modify k f d) ≡ (if k == j then map_option f (lookup j d) else lookup j d)
  unfolding lookup modify
  lookup-modify k j f [] = ground arith
  lookup-modify k j f ((i, w) ∷ d) =
      ground (arith, eq_iff k j, eq_iff i k, eq_iff i j, lookup-modify k j f d)

  pub lookup-remove :
      (k j : String) (d : Dict V) → lookup j (remove k d) ≡ (if k == j then none else lookup j d)
  unfolding lookup remove
  lookup-remove k j [] = ground arith
  lookup-remove k j ((i, w) ∷ d) =
      ground (arith, eq_iff k j, eq_iff i k, eq_iff i j, lookup-remove k j d)

  pub lookup-modify_all :
      (j : String) (f : V → V) (d : Dict V) → lookup j (modify_all f d) ≡ map_option f (lookup j d)
  unfolding lookup modify_all
  lookup-modify_all j f [] = refl
  lookup-modify_all j f ((i, w) ∷ d) = ground (arith, lookup-modify_all j f d)

  pub modify-modify :
      (k : String) (f g : V → V) (d : Dict V)
      → modify k g (modify k f d) ≡ modify k (λ v. g (f v)) d
  unfolding modify
  modify-modify k f g [] = refl
  modify-modify k f g ((j, v) ∷ d) = ground (arith, modify-modify k f g d)

  pub modify_same : (k : String) (d : Dict V) → modify k (λ v. v) d ≡ d
  unfolding modify
  modify_same k [] = refl
  modify_same k ((j, v) ∷ d) = ground (arith, modify_same k d)

  pub length-modify : (k : String) (f : V → V) (d : Dict V) → length (modify k f d) ≡ length d
  unfolding modify
  length-modify k f [] = refl
  length-modify k f ((j, v) ∷ d) = ground (arith, length-modify k f d)

  pub length-modify_all : (f : V → V) (d : Dict V) → length (modify_all f d) ≡ length d
  unfolding modify_all
  length-modify_all f [] = refl
  length-modify_all f ((j, v) ∷ d) = ground (arith, length-modify_all f d)

  pub length-insert_new :
      (k : String) (v : V) (d : Dict V) → lookup k d ≡ none → length (insert k v d) ≡ suc (length d)
  unfolding lookup insert
  length-insert_new k v [] h = refl
  length-insert_new k v ((j, w) ∷ d) h = ground (arith, length-insert_new k v d)

pub ruleset dict_laws = (lookup-insert, lookup-modify, lookup-modify_all)
