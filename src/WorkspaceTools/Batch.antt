-- ===== src/WorkspaceTools/Batch.antt =====
-- `_admit_path`, `_file_batch` and `_publish` of workspace_tools.py: files are worked on in order, until one
-- fails. What the file system answers while one file is worked on is in `Answers`; a link or a replacement
-- that succeeds is a change that the batch has made.
pub mod Effects
use acp_proxy.Prelude.{
  ℕ, String, ◌≡◌, Bool, true, false, not, ◌&&◌, ◌||◌, Option, none, some, is_some, List, [], ◌∷◌,
  ◌++◌, Result, ok, err, ◌>>=◌, ◌>>◌, raise_if, or_raise, length, leb, ltb, eqb, ◌==◌,
  if◌then◌else◌,
}
use Prim.Native.String.{len}
use acp_proxy.PermissionPolicy.{PermissionAction}
use acp_proxy.WorkspaceTools.{NewFile, EditedFile, max_file_bytes}
use acp_proxy.WorkspaceTools.Edits.{apply_edits}

-- The bytes of a file: the UTF-8 of a text, or bytes that are no UTF-8.
pub data Bytes : Type 0 where
  utf8 : String → Bytes
  not_utf8 : List ℕ → Bytes

abbrev pub size : Bytes → ℕ
size (utf8 t) = len t
size (not_utf8 bs) = length bs

abbrev same_list : List ℕ → List ℕ → Bool
same_list [] [] = true
same_list (a ∷ as_) (b ∷ bs) = eqb a b && same_list as_ bs
same_list _ _ = false

abbrev pub same_bytes : Bytes → Bytes → Bool
same_bytes (utf8 a) (utf8 b) = a == b
same_bytes (not_utf8 a) (not_utf8 b) = same_list a b
same_bytes _ _ = false

pub data Link : Type 0 where
  linked already_there link_fails : Link

-- The answers of the operating system, where `none` or `false` is an OSError unless a test is asked
-- for, and whether `stop` is set at each of the four places that read it.
pub record Answers : Type 0 where
  pub stop_first : Bool
  pub stop_before_publish : Bool
  pub stop_before_commit : Bool
  pub stop_before_replace : Bool
  pub root : Option String
  pub resolved : Option String
  pub beneath : Bool
  pub is_dir : Bool
  pub parent_is_dir : Bool
  pub exists : Bool
  pub is_file : Bool
  pub stat_size : Option ℕ
  pub content : Option Bytes
  pub made : Bool
  pub written : Bool
  pub link : Link
  pub content_again : Option Bytes
  pub mode_copied : Bool
  pub replaced : Bool
  pub unlinked : Bool

-- _FileFailure, by its code, and OSError.
pub data FileError : Type 0 where
  file_failure : String → FileError
  os_error : FileError

abbrev fails_if : Bool → String → Result FileError (Unit {0})
fails_if test code = raise_if test (file_failure code)

-- `_admit_path`, of a file or a directory.
unfoldable pub admit_path : String → Bool → Answers → Result FileError String
admit_path workspace directory a = do
  root ← or_raise a.root (file_failure "path_resolution_error")
  path ← or_raise a.resolved (file_failure "path_resolution_error")
  fails_if (not (root == workspace)) "workspace_changed"
  fails_if (not a.beneath || not directory && path == root) "path_outside_workspace"
  let place = if directory then a.is_dir else a.parent_is_dir
  fails_if (not place) (if directory then "invalid_directory" else "missing_parent")
  ok path

pub data FileWork : Type 0 where
  creates : NewFile → FileWork
  edits : EditedFile → FileWork

abbrev decoded : Bytes → Result FileError String
decoded (utf8 t) = ok t
decoded (not_utf8 bs) = err (file_failure "invalid_encoding")

-- The bytes before, if the file is edited, and those after.
unfoldable pub contents : FileWork → Answers → Result FileError (Option String × String)
unfolding apply_edits
contents (creates f) a = fails_if a.exists "file_exists" >> ok (none, f.content)
contents (edits f) a = do
  fails_if (not a.is_file) "missing_file"
  on_disk ← or_raise a.stat_size os_error
  fails_if (ltb max_file_bytes on_disk) "file_too_large"
  before ← or_raise a.content os_error
  fails_if (ltb max_file_bytes (size before)) "file_too_large"
  text ← decoded before
  after ← or_raise (apply_edits f.edits text) (file_failure "context_mismatch")
  fails_if (ltb max_file_bytes (len after)) "file_too_large"
  ok (some text, after)

-- A path whose file was linked or replaced, and the text that it has then.
abbrev pub Change : Type 0
Change = String × String

-- What is raised, and the changes that were made before.
abbrev pub Attempt : Type 0
Attempt = Result FileError (Unit {0}) × List Change

-- The rest, unless what comes before it has raised.
abbrev pub attempt : Result FileError (Unit {0}) → Attempt → Attempt
attempt (ok _) rest = rest
attempt (err e) rest = (err e, [])

-- The commit of a new file, and of an edited one whose text was `before`.
unfoldable pub commit : String → Option String → String → Answers → Attempt
commit path none after a = elim a.link [
  | linked ↦ (ok tt, (path, after) ∷ [])
  | already_there ↦ (err (file_failure "file_exists"), [])
  | link_fails ↦ (err os_error, [])
]
commit path (some before) after a =
    attempt
      (do
        again ← or_raise a.content_again os_error
        fails_if (not (same_bytes again (utf8 before))) "context_changed"
        raise_if (not a.mode_copied) os_error
        fails_if a.stop_before_replace "cancelled")
      (if a.replaced then (ok tt, (path, after) ∷ []) else (err os_error, []))

pub data Publication : Type 0 where
  published unclean : Publication
  unpublished : FileError → Publication

-- The `finally` of `_publish`.
abbrev pub close : Bool → Result FileError (Unit {0}) → Publication
close true (ok _) = published
close true (err e) = unpublished e
close false (ok _) = unclean
close false (err e) = unpublished os_error

-- What `_publish` returns or raises, and the changes that it has made.
abbrev pub Published : Type 0
Published = Publication × List Change

abbrev pub closed : Bool → Attempt → Published
closed unlinked (r, changes) = (close unlinked r, changes)

unfoldable pub publish : String → Option String → String → Answers → Published
unfolding commit
publish path before after a =
    if not a.made
    then (unpublished os_error, [])
    else closed a.unlinked (
        attempt (raise_if (not a.written) os_error)
          (attempt (fails_if a.stop_before_commit "cancelled") (commit path before after a)))

-- The texts whose digests a receipt has.
pub record FileReceipt : Type 0 where
  pub action : PermissionAction
  pub path : String
  pub before : Option String
  pub after : String

-- A batch: its receipts, and the code of its failure.
abbrev pub BatchResult : Type 0
BatchResult = List FileReceipt × Option String

abbrev pub code_of : FileError → String
code_of (file_failure code) = code
code_of os_error = "filesystem_error"

-- A batch, and the changes that it has made, in order.
abbrev pub Worked : Type 0
Worked = BatchResult × List Change

abbrev pub prepend : FileReceipt → BatchResult → BatchResult
prepend r (rs, e) = (r ∷ rs, e)

-- What follows the publication of one file; `rest` is the rest of the batch.
abbrev pub after_publish : FileReceipt → Published → Worked → Worked
after_publish r (published, changes) (rest, later) = (prepend r rest, changes ++ later)
after_publish r (unclean, changes) rest = ((r ∷ [], some "staging_cleanup_failed"), changes)
after_publish r (unpublished e, changes) rest = (([], some (code_of e)), changes)

-- One file, once its path and its contents are known.
unfoldable pub write_file :
    PermissionAction → String → Option String × String → Answers → Worked → Worked
unfolding publish
write_file action path (before, after) a rest =
    if a.stop_before_publish
    then (([], some "cancelled"), [])
    else after_publish (record { action = action; path = path; before = before; after = after })
        (publish path before after a) rest

abbrev pub or_failure : {A : Type 0} → Result FileError A → (A → Worked) → Worked
or_failure (ok x) k = k x
or_failure (err e) k = (([], some (code_of e)), [])

unfoldable pub file_batch : String → PermissionAction → List (FileWork × Answers) → Worked
unfolding admit_path contents write_file
file_batch workspace action [] = (([], none), [])
file_batch workspace action ((w, a) ∷ rest) =
    let later = file_batch workspace action rest in
    if a.stop_first
    then (([], some "cancelled"), [])
    else or_failure (admit_path workspace false a)
        (λ path. or_failure (contents w a) (λ texts. write_file action path texts a later))
