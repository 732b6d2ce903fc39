-- ===== src/WorkspaceTools/Edits.antt =====
-- The exact edits of `_file_batch` of workspace_tools.py. A position is counted in characters, as
-- Python's `find` and `rfind` count it.
pub mod Exact
use acp_proxy.Prelude.{
  ℕ, suc, String, Bool, true, false, Option, none, some, is_some, List, [], ◌∷◌, eqb, if◌then◌else◌,
}
use Prim.Native.Char.{Char, code}
use Prim.Native.String.{[] as empty, ◌∷◌ as ◌⊳◌, ◌++◌ as ◌⧺◌}
use acp_proxy.WorkspaceTools.{ExactEdit}

-- What is left of a text after a prefix.
unfoldable pub strip : String → String → Option String
strip empty t = some t
strip (c ⊳ p) empty = none
strip (c ⊳ p) (d ⊳ t) = let rest = strip p t in if eqb (code c) (code d) then rest else none

abbrev pub next : Option ℕ → Option ℕ
next none = none
next (some n) = some (suc n)

abbrev pub here : String → String → Option ℕ
here p t = if is_some (strip p t) then some 0 else none

-- text.find(old)
unfoldable pub find : String → String → Option ℕ
unfolding strip
find p empty = here p empty
find p (c ⊳ t) = let rest = find p t in if is_some (strip p (c ⊳ t)) then some 0 else next rest

abbrev pub or_else : Option ℕ → Option ℕ → Option ℕ
or_else none o = o
or_else (some n) o = some n

-- text.rfind(old)
unfoldable pub rfind : String → String → Option ℕ
unfolding strip
rfind p empty = here p empty
rfind p (c ⊳ t) = or_else (next (rfind p t)) (here p (c ⊳ t))

abbrev pub put : String → Option String → String → String
put new none t = t
put new (some rest) t = new ⧺ rest

-- text.replace(old, new, 1)
unfoldable pub replace : String → String → String → String
unfolding strip
replace old new empty = put new (strip old empty) empty
replace old new (c ⊳ t) =
    let rest = replace old new t in
    if is_some (strip old (c ⊳ t)) then put new (strip old (c ⊳ t)) (c ⊳ t) else c ⊳ rest

-- The same position, found from both ends.
abbrev pub once : Option ℕ → Option ℕ → Bool
once (some i) (some j) = eqb i j
once _ _ = false

-- One edit: `none` stands for the failure "context_mismatch".
unfoldable pub apply_edit : ExactEdit → String → Option String
unfolding find rfind replace
apply_edit e text =
    if once (find e.old_text text) (rfind e.old_text text)
    then some (replace e.old_text e.new_text text)
    else none

-- The edits of a file, in order, each on the text that the last one left.
unfoldable pub apply_edits : List ExactEdit → String → Option String
unfolding apply_edit
apply_edits [] text = some text
apply_edits (e ∷ es) text = elim (apply_edit e text) [
  | none ↦ none
  | some changed ↦ apply_edits es changed
]
