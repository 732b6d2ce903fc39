-- ===== src/WorkspaceTools.antt =====
-- workspace_tools.py: the checked operations of a session's tools, and their decoding from the raw
-- arguments of a callback. A text here has no lone surrogate, so its UTF-8 encoding always succeeds.
pub mod Admitted
pub mod Decoded
pub mod Edits
pub mod Batch
pub mod Running
use acp_proxy.Prelude.{
  ℕ, zero, suc, ◌+◌, ◌*◌, ◌^◌, String, ℤ, pos, negsuc, ◌≡◌, refl, Bool, true, false, not, ◌&&◌,
  ◌||◌, Option, none, some, is_some, List, [], ◌∷◌, map, Result, ok, err, ◌>>=◌, ◌>>◌, raise_if,
  or_raise, length, leb, eqb, ◌==◌, if◌then◌else◌, arith, All,
}
use Prim.Native.Char.{Char, code}
use Prim.Native.String.{len, [] as empty, ◌∷◌ as ◌⊳◌}
use acp_proxy.Json.{
  JsonValue, null, bool, int, float, str, arr, obj, Items, nil, cons, Fields, JsonObject, get,
}
use acp_proxy.DirectState.{distinct}
use acp_proxy.PermissionPolicy.{PermissionAction, create, edit, command, has_exactly}

-- ToolArgumentError
pub data ToolError : Type 0 where
  tool_argument_error : ToolError

abbrev pub max_file_bytes : ℕ
max_file_bytes = 4_000_000

abbrev pub max_batch_files : ℕ
max_batch_files = 64

abbrev pub max_file_edits : ℕ
max_file_edits = 128

-- "\0" in value
unfoldable pub has_nul : String → Bool
has_nul empty = false
has_nul (c ⊳ s) = eqb (code c) 0 || has_nul s

abbrev pub text_ok : Bool → String → Bool
text_ok nonempty t = (not nonempty || not (t == "")) && leb (len t) max_file_bytes

abbrev pub path_ok : String → Bool
path_ok t = text_ok true t && not (has_nul t)

-- `_text`, of a value, and `_path_text`.
unfoldable pub text_of : Bool → JsonValue → Result ToolError String
text_of nonempty (str t) = raise_if (not (text_ok nonempty t)) tool_argument_error >> ok t
text_of nonempty _ = err tool_argument_error

unfoldable pub path_of : JsonValue → Result ToolError String
unfolding text_of has_nul
path_of v = do t ← text_of true v; raise_if (has_nul t) tool_argument_error; ok t

pub record NewFile : Type 0 where
  pub path : String
  pub content : String

pub record ExactEdit : Type 0 where
  pub old_text : String
  pub new_text : String

pub record EditedFile : Type 0 where
  pub path : String
  pub edits : List ExactEdit

-- The timeout is the finite float m * 2 ^ e.
pub data WorkspaceOperation : Type 0 where
  create_files : List NewFile → WorkspaceOperation
  edit_files : List EditedFile → WorkspaceOperation
  run_command : (command cwd : String) → (m e : ℤ) → WorkspaceOperation

-- The checks of the constructors.
abbrev pub batch_ok : List String → Bool
batch_ok paths = leb 1 (length paths) && leb (length paths) max_batch_files && distinct paths

abbrev pub new_file_ok : NewFile → Bool
new_file_ok f = path_ok f.path && text_ok false f.content

abbrev pub edit_ok : ExactEdit → Bool
edit_ok e = text_ok true e.old_text && text_ok false e.new_text

abbrev pub every {ℓ} : {A : Type ℓ} → (A → Bool) → List A → Bool
every t [] = true
every t (x ∷ xs) = t x && every t xs

abbrev pub edited_file_ok : EditedFile → Bool
edited_file_ok f =
    path_ok f.path
    && leb 1 (length f.edits)
    && leb (length f.edits) max_file_edits
    && every edit_ok f.edits

-- 0 < m * 2 ^ e <= 300
abbrev pub timeout_ok : ℤ → ℤ → Bool
timeout_ok (pos (suc n)) (pos e) = leb (suc n * 2 ^ e) 300
timeout_ok (pos (suc n)) (negsuc e) = leb (suc n) (300 * 2 ^ suc e)
timeout_ok _ _ = false

unfoldable pub constructor_ok : WorkspaceOperation → Bool
constructor_ok (create_files fs) = batch_ok (map (λ f. f.path) fs)
constructor_ok (edit_files fs) = batch_ok (map (λ f. f.path) fs)
constructor_ok (run_command c cwd m e) =
    text_ok true c && not (has_nul c) && path_ok cwd && timeout_ok m e

-- A constructor: its object, if its checks pass.
abbrev pub checked : {A : Type 0} → (A → Bool) → A → Result ToolError A
checked test a = raise_if (not (test a)) tool_argument_error >> ok a

-- `_fields` and `_items`.
unfoldable pub fields_named : List String → JsonValue → Result ToolError Fields
unfolding has_exactly
fields_named names (obj fields) =
    raise_if (not (has_exactly names fields)) tool_argument_error >> ok fields
fields_named names _ = err tool_argument_error

unfoldable pub items_of : JsonValue → Result ToolError Items
items_of (arr items) = ok items
items_of _ = err tool_argument_error

-- value[key], of a key that `_fields` has found.
abbrev pub at : String → Fields → Result ToolError JsonValue
at key fields = or_raise (get key fields) tool_argument_error

unfoldable pub decode_new_file : JsonValue → Result ToolError NewFile
unfolding fields_named path_of text_of
decode_new_file item = do
  value ← fields_named ("path" ∷ "content" ∷ []) item
  p ← at "path" value
  path ← path_of p
  c ← at "content" value
  content ← text_of false c
  checked new_file_ok (record { path = path; content = content })

unfoldable pub decode_edit : JsonValue → Result ToolError ExactEdit
unfolding fields_named text_of
decode_edit item = do
  value ← fields_named ("old_text" ∷ "new_text" ∷ []) item
  o ← at "old_text" value
  old_text ← text_of true o
  n ← at "new_text" value
  new_text ← text_of false n
  checked edit_ok (record { old_text = old_text; new_text = new_text })

-- The loops, in the order of the items.
unfoldable pub decode_all {ℓ} :
    {A : Type ℓ} → (JsonValue → Result ToolError A) → Items → Result ToolError (List A)
decode_all f nil = ok []
decode_all f (cons v vs) = do a ← f v; rest ← decode_all f vs; ok (a ∷ rest)

unfoldable pub decode_edited_file : JsonValue → Result ToolError EditedFile
unfolding fields_named items_of decode_all decode_edit path_of
decode_edited_file item = do
  value ← fields_named ("path" ∷ "edits" ∷ []) item
  es ← at "edits" value
  raw ← items_of es
  edits ← decode_all decode_edit raw
  p ← at "path" value
  path ← path_of p
  checked edited_file_ok (record { path = path; edits = edits })

-- float(timeout), of a number that is no bool; an integer that no float holds is out of range.
unfoldable pub seconds_of : JsonValue → Result ToolError (ℤ × ℤ)
seconds_of (int n) = ok (n, pos 0)
seconds_of (float m e) = ok (m, e)
seconds_of _ = err tool_argument_error

unfoldable pub decode_command : JsonObject → Result ToolError WorkspaceOperation
unfolding fields_named seconds_of text_of path_of constructor_ok
decode_command arguments = do
  value ← fields_named ("command" ∷ "cwd" ∷ "timeout" ∷ []) (obj arguments)
  t ← at "timeout" value
  seconds ← seconds_of t
  c ← at "command" value
  source ← text_of true c
  d ← at "cwd" value
  cwd ← path_of d
  checked constructor_ok (run_command source cwd seconds.0 seconds.1)

-- The files of a batch, decoded, and the batch that they make.
unfoldable pub decode_batch :
    {A : Type 0}
    → (JsonValue → Result ToolError A)
    → (List A → WorkspaceOperation)
    → JsonObject
    → Result ToolError WorkspaceOperation
unfolding fields_named items_of decode_all constructor_ok
decode_batch f make arguments = do
  value ← fields_named ("files" ∷ []) (obj arguments)
  v ← at "files" value
  files ← items_of v
  decoded ← decode_all f files
  checked constructor_ok (make decoded)

-- `WorkspaceTools.decode`
unfoldable pub decode : String → JsonObject → Result ToolError WorkspaceOperation
unfolding decode_batch decode_new_file decode_edited_file decode_command
decode name arguments =
    if name == "workspace_create_files"
    then decode_batch decode_new_file create_files arguments
    else if name == "workspace_edit_files"
    then decode_batch decode_edited_file edit_files arguments
    else if name == "workspace_run_command"
    then decode_command arguments
    else err tool_argument_error

-- `_action`
abbrev pub action_of : WorkspaceOperation → PermissionAction
action_of (create_files fs) = create
action_of (edit_files fs) = edit
action_of (run_command c cwd m e) = command
