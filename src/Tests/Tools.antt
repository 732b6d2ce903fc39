-- ===== src/Tests/Tools.antt =====
-- JSON, a policy, decoded operations and exact edits, on small inputs.
use acp_proxy.Prelude.{String, pos, ◌≡◌, refl, true, false, none, some, List, [], ◌∷◌, ok}
use acp_proxy.Prelude.{◌↔◌}
use acp_proxy.Json.{Fields, field, end, obj, arr, cons, nil, str, int, bool, get}
use acp_proxy.Json.Checked.{
  checked_json, py_list, py_cons, py_nil, py_bool, embed, checked_json_iff,
}
use acp_proxy.PermissionPolicy.{Policy, from_json, IsPolicy, from_json-exact}
use acp_proxy.WorkspaceTools.{WorkspaceOperation, create_files, decode}
use Prim.Native.String.{◌++◌ as ◌⧺◌}
use acp_proxy.WorkspaceTools.{ExactEdit}
use acp_proxy.WorkspaceTools.Edits.{apply_edit}
use acp_proxy.PermissionPolicy.{PermissionAction}
use acp_proxy.WorkspaceTools.Batch.{
  Answers, FileWork, linked, already_there, file_batch, admit_path, contents, write_file, publish,
  commit,
}
use acp_proxy.WorkspaceTools.Batch.Effects.{reported, file_batch-effects}
use acp_proxy.WorkspaceTools.Edits.Exact.{apply_edit-exact}
use acp_proxy.WorkspaceTools.Admitted.{IsAdmitted, decode-ok}

checked_json_iff_example :
    (checked_json (py_list (py_cons (py_bool true) py_nil)) ≡ some (arr (cons (bool true) nil)))
    ↔ (py_list (py_cons (py_bool true) py_nil) ≡ embed (arr (cons (bool true) nil)))
checked_json_iff_example =
    checked_json_iff (py_list (py_cons (py_bool true) py_nil)) (arr (cons (bool true) nil))

abbrev policy_fields : Fields
policy_fields = field "mode" (str "allow_all") (field "version" (int (pos 1)) end)

from_json-exact_example :
    (from_json (obj policy_fields) ≡ ok Policy.allow_all) ↔ IsPolicy (obj policy_fields)
from_json-exact_example = from_json-exact (obj policy_fields) Policy.allow_all

abbrev file_fields : Fields
file_fields = field "path" (str "a.txt") (field "content" (str "hello") end)

abbrev batch_fields : Fields
batch_fields = field "files" (arr (cons (obj file_fields) nil)) end

abbrev one_file : WorkspaceOperation
one_file = create_files (record { path = "a.txt"; content = "hello" } ∷ [])

decode-ok_example : IsAdmitted one_file
unfolding decode get
decode-ok_example = decode-ok "workspace_create_files" batch_fields one_file refl

abbrev one_edit : ExactEdit
one_edit = record { old_text = "b"; new_text = "xy" }

apply_edit-exact_example :
    (a : String) × (b : String) × ("abc" ≡ a ⧺ ("b" ⧺ b))
    × ("axyc" ≡ a ⧺ ("xy" ⧺ b))
    × ((x y : String) → "abc" ≡ x ⧺ ("b" ⧺ y) → x ≡ a)
unfolding apply_edit
apply_edit-exact_example = apply_edit-exact one_edit "abc" "axyc" refl

abbrev calm : Answers
calm = record {
  stop_first = false;
  stop_before_publish = false;
  stop_before_commit = false;
  stop_before_replace = false;
  root = some "/w";
  resolved = some "/w/a.txt";
  beneath = true;
  is_dir = false;
  parent_is_dir = true;
  exists = false;
  is_file = false;
  stat_size = none;
  content = none;
  made = true;
  written = true;
  link = linked;
  content_again = none;
  mode_copied = true;
  replaced = true;
  unlinked = true;
}

-- A file, and a second one whose link finds the path taken.
abbrev two_files : List (FileWork × Answers)
two_files =
    (FileWork.creates (record { path = "a.txt"; content = "hello" }), calm)
    ∷ (
      FileWork.creates (record { path = "b.txt"; content = "hello" }),
      record calm { resolved = some "/w/b.txt"; link = already_there },
    )
    ∷ []

file_batch-effects_example :
    (file_batch "/w" PermissionAction.create two_files).1
    ≡ reported (file_batch "/w" PermissionAction.create two_files).0.0
file_batch-effects_example = file_batch-effects "/w" PermissionAction.create two_files

only_first : (file_batch "/w" PermissionAction.create two_files).1 ≡ ("/w/a.txt", "hello") ∷ []
unfolding file_batch admit_path contents write_file publish commit
only_first = refl
