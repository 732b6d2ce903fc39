-- ===== src/WorkspaceTools/Admitted.antt =====
-- What a decoded operation is, apart from the code that checks it.
use acp_proxy.Prelude.{
  ◌*◌, ◌^◌, ◌≤◌, ◌<◌, suc, zero, String, ℤ, pos, negsuc, ◌≡◌, ◌≢◌, Bool, true, false, List, [], ◌∷◌,
  map, ok, All, length, arith, eq_iff, member,
}
use Prim.Native.Char.{code}
use Prim.Native.String.{len, [] as empty, ◌∷◌ as ◌⊳◌}
use acp_proxy.Json.{JsonObject}
use acp_proxy.DirectState.{distinct}
use acp_proxy.WorkspaceTools.{
  WorkspaceOperation, create_files, edit_files, run_command, NewFile, EditedFile, ExactEdit,
  has_nul, text_ok, path_ok, batch_ok, new_file_ok, edit_ok, edited_file_ok, every, timeout_ok,
  constructor_ok, decode,
}
use acp_proxy.WorkspaceTools.Decoded.{operation_ok, decode-checked}

-- No character is NUL.
abbrev pub LacksNul : String → Type 0
LacksNul empty = Unit
LacksNul (c ⊳ s) = (code c ≢ 0) × LacksNul s

-- A path, or the source of a command.
abbrev pub IsPath : String → Type 0
IsPath t = (t ≢ "") × (len t ≤ 4_000_000) × LacksNul t

abbrev pub IsNewFile : NewFile → Type 0
IsNewFile f = IsPath f.path × (len f.content ≤ 4_000_000)

abbrev pub IsEdit : ExactEdit → Type 0
IsEdit e = (e.old_text ≢ "") × (len e.old_text ≤ 4_000_000) × (len e.new_text ≤ 4_000_000)

abbrev pub IsEditedFile : EditedFile → Type 0
IsEditedFile f = IsPath f.path × (1 ≤ length f.edits) × (length f.edits ≤ 128) × All IsEdit f.edits

-- No two of the paths are the same.
abbrev pub Differ : List String → Type 0
Differ [] = Unit
Differ (p ∷ ps) = All (λ q. p ≢ q) ps × Differ ps

abbrev pub IsBatch : List String → Type 0
IsBatch paths = (1 ≤ length paths) × (length paths ≤ 64) × Differ paths

-- 0 < m * 2 ^ e <= 300, without fractions.
abbrev pub IsTimeout : ℤ → ℤ → Type 0
IsTimeout (pos n) (pos e) = (0 < n) × (n * 2 ^ e ≤ 300)
IsTimeout (pos n) (negsuc e) = (0 < n) × (n ≤ 300 * 2 ^ suc e)
IsTimeout (negsuc n) e = ⊥

abbrev pub IsAdmitted : WorkspaceOperation → Type 0
IsAdmitted (create_files fs) = IsBatch (map (λ f. f.path) fs) × All IsNewFile fs
IsAdmitted (edit_files fs) = IsBatch (map (λ f. f.path) fs) × All IsEditedFile fs
IsAdmitted (run_command c cwd m e) = IsPath c × IsPath cwd × IsTimeout m e

has_nul-LacksNul : (t : String) → has_nul t ≡ false → LacksNul t
unfolding has_nul
has_nul-LacksNul empty h = tt
has_nul-LacksNul (c ⊳ s) h = (ground (arith, h), has_nul-LacksNul s (ground (arith, h)))

text_ok-IsPath : (t : String) → text_ok true t ≡ true → has_nul t ≡ false → IsPath t
text_ok-IsPath t h i = (ground (arith, h, eq_iff t ""), ground (arith, h), has_nul-LacksNul t i)

path_ok-IsPath : (t : String) → path_ok t ≡ true → IsPath t
path_ok-IsPath t h = text_ok-IsPath t (ground (arith, h)) (ground (arith, h))

every-All :
    {A : Type 0} {P : A → Type 0} (test : A → Bool) (xs : List A)
    → ((x : A) → test x ≡ true → P x)
    → every test xs ≡ true
    → All P xs
every-All test [] holds h = tt
every-All test (x ∷ xs) holds h =
    (holds x (ground (arith, h)), every-All test xs holds (ground (arith, h)))

new_file_ok-IsNewFile : (f : NewFile) → new_file_ok f ≡ true → IsNewFile f
new_file_ok-IsNewFile f h = (path_ok-IsPath f.path (ground (arith, h)), ground (arith, h))

edit_ok-IsEdit : (e : ExactEdit) → edit_ok e ≡ true → IsEdit e
edit_ok-IsEdit e h = (ground (arith, h, eq_iff e.old_text ""), ground (arith, h), ground (arith, h))

edited_file_ok-IsEditedFile : (f : EditedFile) → edited_file_ok f ≡ true → IsEditedFile f
edited_file_ok-IsEditedFile f h = (
  path_ok-IsPath f.path (ground (arith, h)),
  ground (arith, h),
  ground (arith, h),
  every-All edit_ok f.edits edit_ok-IsEdit (ground (arith, h)),
)

member-others : (p : String) (ps : List String) → member p ps ≡ false → All (λ q. p ≢ q) ps
member-others p [] h = tt
member-others p (q ∷ ps) h = (ground (arith, h, eq_iff q p), member-others p ps (ground (arith, h)))

distinct-Differ : (ps : List String) → distinct ps ≡ true → Differ ps
distinct-Differ [] h = tt
distinct-Differ (p ∷ ps) h =
    (member-others p ps (ground (arith, h)), distinct-Differ ps (ground (arith, h)))

batch_ok-IsBatch : (ps : List String) → batch_ok ps ≡ true → IsBatch ps
batch_ok-IsBatch ps h =
    (ground (arith, h), ground (arith, h), distinct-Differ ps (ground (arith, h)))

timeout_ok-IsTimeout : (m e : ℤ) → timeout_ok m e ≡ true → IsTimeout m e
timeout_ok-IsTimeout (pos zero) e h = cc
timeout_ok-IsTimeout (pos (suc n)) (pos e) h = (omega arith, ground (arith, h))
timeout_ok-IsTimeout (pos (suc n)) (negsuc e) h = (omega arith, ground (arith, h))
timeout_ok-IsTimeout (negsuc n) e h = cc

operation_ok-IsAdmitted : (op : WorkspaceOperation) → operation_ok op ≡ true → IsAdmitted op
unfolding constructor_ok
operation_ok-IsAdmitted (create_files fs) h = (
  batch_ok-IsBatch (map (λ f. f.path) fs) (ground (arith, h)),
  every-All new_file_ok fs new_file_ok-IsNewFile (ground (arith, h)),
)
operation_ok-IsAdmitted (edit_files fs) h = (
  batch_ok-IsBatch (map (λ f. f.path) fs) (ground (arith, h)),
  every-All edited_file_ok fs edited_file_ok-IsEditedFile (ground (arith, h)),
)
operation_ok-IsAdmitted (run_command c cwd m e) h = (
  text_ok-IsPath c (ground (arith, h)) (ground (arith, h)),
  path_ok-IsPath cwd (ground (arith, h)),
  timeout_ok-IsTimeout m e (ground (arith, h)),
)

-- Whatever the raw arguments, a decoded operation is a batch of 1 to 64 files with different paths, each
-- path nonempty, of at most 4,000,000 bytes and without NUL, each content of at most as many, each edited
-- file with 1 to 128 edits of a nonempty text; or a command and a directory that are texts like a path,
-- with a timeout in (0, 300] seconds.
pub decode-ok :
    (name : String) (arguments : JsonObject) (op : WorkspaceOperation)
    → decode name arguments ≡ ok op
    → IsAdmitted op
decode-ok name arguments op h = operation_ok-IsAdmitted op (decode-checked name arguments op h)
