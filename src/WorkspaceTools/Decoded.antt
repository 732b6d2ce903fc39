-- ===== src/WorkspaceTools/Decoded.antt =====
-- What a decoded operation satisfies.
use acp_proxy.Prelude.{
  String, ℤ, ◌≡◌, refl, Bool, true, false, ◌&&◌, List, [], ◌∷◌, map, Result, ok, err, ◌>>=◌, arith,
  inl, inr, Bool-cases, ◌==◌,
}
use acp_proxy.Json.{JsonValue, obj, Items, nil, cons, JsonObject}
use acp_proxy.WorkspaceTools.{
  ToolError, WorkspaceOperation, create_files, edit_files, run_command, batch_ok, new_file_ok,
  edited_file_ok, every, constructor_ok, checked, decode_new_file, decode_edited_file, decode_all,
  decode_batch, decode_command, decode, fields_named, items_of, at, path_of, text_of, seconds_of,
  decode_edit,
}

-- Every check of every constructor, those of the files and edits within included.
abbrev pub operation_ok : WorkspaceOperation → Bool
operation_ok (create_files fs) = batch_ok (map (λ f. f.path) fs) && every new_file_ok fs
operation_ok (edit_files fs) = batch_ok (map (λ f. f.path) fs) && every edited_file_ok fs
operation_ok (run_command c cwd m e) = constructor_ok (run_command c cwd m e)

-- A test holds of what a computation returns, if it returns.
abbrev Ensures : {A : Type 0} → (A → Bool) → Result ToolError A → Type 0
Ensures {A} test m = (b : A) → m ≡ ok b → test b ≡ true

-- It is enough that it holds after the first part, whatever that has returned.
after :
    {A B : Type 0} (test : B → Bool) (first : Result ToolError A) (rest : A → Result ToolError B)
    → ((a : A) → first ≡ ok a → Ensures test (rest a))
    → Ensures test (first >>= rest)
after test (ok a) rest h = h a refl
after test (err e) rest h = λ b k. absurd cc

checked-Ensures : {A : Type 0} (test : A → Bool) (a : A) → Ensures test (checked test a)
checked-Ensures test a b h = elim (Bool-cases (test a)) [
  | inl holds ↦ ground arith
  | inr no_ ↦ absurd (ground arith)
]

decode_all-every :
    {A : Type 0} (f : JsonValue → Result ToolError A) (test : A → Bool) (vs : Items)
    → ((v : JsonValue) → Ensures test (f v))
    → Ensures (every test) (decode_all f vs)
unfolding decode_all
decode_all-every f test nil h = λ xs e. ground arith
decode_all-every f test (cons v vs) h = after (every test) (f v) _ (λ a ea.
    after (every test) (decode_all f vs) _
      (λ rest er xs e. ground (arith, h v a ea, decode_all-every f test vs h rest er)))

decode_new_file-Ensures : (v : JsonValue) → Ensures new_file_ok (decode_new_file v)
unfolding decode_new_file
decode_new_file-Ensures v =
    after new_file_ok (fields_named ("path" ∷ "content" ∷ []) v) _ (λ value e1.
      after new_file_ok (at "path" value) _ (λ p e2. after new_file_ok (path_of p) _ (λ path e3.
        after new_file_ok (at "content" value) _ (λ c e4.
          after new_file_ok (text_of false c) _ (λ content e5.
            checked-Ensures new_file_ok (record { path = path; content = content }))))))

decode_edited_file-Ensures : (v : JsonValue) → Ensures edited_file_ok (decode_edited_file v)
unfolding decode_edited_file
decode_edited_file-Ensures v =
    after edited_file_ok (fields_named ("path" ∷ "edits" ∷ []) v) _ (λ value e1.
      after edited_file_ok (at "edits" value) _ (λ es e2.
        after edited_file_ok (items_of es) _ (λ raw e3.
          after edited_file_ok (decode_all decode_edit raw) _ (λ edits e4.
            after edited_file_ok (at "path" value) _ (λ p e5.
              after edited_file_ok (path_of p) _ (λ path e6.
                checked-Ensures edited_file_ok (record { path = path; edits = edits })))))))

-- A batch: its constructor's checks and those of its files are all that is asked.
decode_batch-Ensures :
    {A : Type 0} (f : JsonValue → Result ToolError A) (make : List A → WorkspaceOperation)
    (test : A → Bool) (arguments : JsonObject)
    → ((v : JsonValue) → Ensures test (f v))
    → ((xs : List A)
        → every test xs ≡ true
        → constructor_ok (make xs) ≡ true
        → operation_ok (make xs) ≡ true)
    → Ensures operation_ok (decode_batch f make arguments)
unfolding decode_batch
decode_batch-Ensures f make test arguments each all =
    after operation_ok (fields_named ("files" ∷ []) (obj arguments)) _ (λ value e1.
      after operation_ok (at "files" value) _ (λ v e2.
        after operation_ok (items_of v) _ (λ files e3.
          after operation_ok (decode_all f files) _ (λ xs e4 op e.
            elim (Bool-cases (constructor_ok (make xs))) [
              | inr no_ ↦ absurd (ground arith)
              | inl holds ↦ ground (arith, all xs (decode_all-every f test files each xs e4) holds)
            ]))))

command-Ensures : (arguments : JsonObject) → Ensures operation_ok (decode_command arguments)
unfolding decode_command
command-Ensures arguments =
    after operation_ok (fields_named ("command" ∷ "cwd" ∷ "timeout" ∷ []) (obj arguments)) _
      (λ value e1. after operation_ok (at "timeout" value) _ (λ t e2.
        after operation_ok (seconds_of t) _ (λ seconds e3.
          after operation_ok (at "command" value) _ (λ c e4.
            after operation_ok (text_of true c) _ (λ source e5.
              after operation_ok (at "cwd" value) _ (λ d e6.
                after operation_ok (path_of d) _
                  (λ cwd e7 op e. command_test source cwd seconds.0 seconds.1 op e)))))))
  where
    command_test :
        (source cwd : String) (m e : ℤ)
        → Ensures operation_ok (checked constructor_ok (run_command source cwd m e))
    command_test source cwd m e op h =
        elim (Bool-cases (constructor_ok (run_command source cwd m e))) [
          | inr no_ ↦ absurd (ground arith)
          | inl holds ↦ ground arith
        ]

-- A decoded operation passes every check of every constructor.
pub decode-checked :
    (name : String) (arguments : JsonObject) (op : WorkspaceOperation)
    → decode name arguments ≡ ok op
    → operation_ok op ≡ true
unfolding decode constructor_ok
decode-checked name arguments op h = elim (Bool-cases (name == "workspace_create_files")) [
  | inl create_ ↦
      decode_batch-Ensures decode_new_file create_files new_file_ok arguments
        decode_new_file-Ensures (λ xs each made. ground arith) op (ground arith)
  | inr other ↦ elim (Bool-cases (name == "workspace_edit_files")) [
    | inl edit_ ↦
        decode_batch-Ensures decode_edited_file edit_files edited_file_ok arguments
          decode_edited_file-Ensures (λ xs each made. ground arith) op (ground arith)
    | inr another ↦ elim (Bool-cases (name == "workspace_run_command")) [
      | inl run_ ↦ command-Ensures arguments op (ground arith)
      | inr unknown ↦ absurd (ground arith)
    ]
  ]
]
