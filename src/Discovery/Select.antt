-- ===== src/Discovery/Select.antt =====
-- The choice among the language servers that were found, of discovery.py.
use acp_proxy.Prelude.{
  Bool, true, false, not, ◌&&◌, ◌||◌, Option, none, some, List, [], ◌∷◌, ◌++◌, Result, ok, err, ltb,
  eqb, if◌then◌else◌,
}
use acp_proxy.NativeTransport.Frames.{Bytes}
use acp_proxy.Discovery.{BinaryError, none_admitted, BinaryAdmission, Host, inspect_binary}

-- xs < ys, of texts.
unfoldable pub before : Bytes → Bytes → Bool
before xs [] = false
before [] (y ∷ ys) = true
before (x ∷ xs) (y ∷ ys) = ltb x y || eqb x y && before xs ys

-- A path is added to a set, which is kept as `sorted` gives it.
unfoldable pub add : Bytes → List Bytes → List Bytes
add c [] = c ∷ []
add c (x ∷ xs) =
    let later = x ∷ add c xs in
    if before c x then c ∷ x ∷ xs else if before x c then later else x ∷ xs

abbrev pub add_canonical : Option Bytes → List Bytes → List Bytes
add_canonical none set = set
add_canonical (some c) set = add c set

abbrev pub keep_admitted :
    Result BinaryError BinaryAdmission → List BinaryAdmission → List BinaryAdmission
keep_admitted (ok a) rest = a ∷ rest
keep_admitted (err e) rest = rest

-- key(a) < key(b)
abbrev pub key_before : BinaryAdmission → BinaryAdmission → Bool
key_before a b =
    ltb b.version.0 a.version.0
    || eqb b.version.0 a.version.0
      && (ltb b.version.1 a.version.1
          || eqb b.version.1 a.version.1
            && (ltb b.version.2 a.version.2 || eqb b.version.2 a.version.2 && before a.path b.path))

-- min(best, *others, key=key)
unfoldable pub minimum : BinaryAdmission → List BinaryAdmission → BinaryAdmission
minimum best [] = best
minimum best (a ∷ others) = minimum (if key_before a best then a else best) others

abbrev pub is_nil : List Bytes → Bool
is_nil [] = true
is_nil (x ∷ xs) = false

module _ (h : Host) where
  -- sorted(canonical_paths)
  unfoldable pub canonical_paths : List Bytes → List Bytes
  canonical_paths [] = []
  canonical_paths (p ∷ ps) = add_canonical (h.realpath p) (canonical_paths ps)

  unfoldable pub admit_all : List Bytes → List BinaryAdmission
  admit_all [] = []
  admit_all (c ∷ cs) = keep_admitted (inspect_binary h c) (admit_all cs)

  abbrev pub choose : Bool → List Bytes → List BinaryAdmission → Result BinaryError (Option Bytes)
  choose fail_if_candidates_rejected paths [] =
      if not (is_nil paths) && fail_if_candidates_rejected then err none_admitted else ok none
  choose fail_if_candidates_rejected paths (a ∷ others) = ok (some (minimum a others).path)

  -- `_select_best_binary`
  unfoldable pub select_best : Bool → List Bytes → Result BinaryError (Option Bytes)
  select_best fail_if_candidates_rejected binary_paths =
      let paths = canonical_paths binary_paths in
      choose fail_if_candidates_rejected paths (admit_all paths)

  -- `find_binary`, of the candidates of the processes and of the file system.
  unfoldable pub find_binary : List Bytes → List Bytes → Result BinaryError (Option Bytes)
  find_binary processes jetbrains = select_best true (processes ++ jetbrains)
