-- ===== src/WorkspaceTools/Batch/Effects.antt =====
-- What a batch reports against the changes that it has made.
use acp_proxy.Prelude.{
  String, ◌≡◌, refl, Bool, true, false, Option, none, some, List, [], ◌∷◌, Result, ok, err, arith,
  if◌then◌else◌,
}
use acp_proxy.PermissionPolicy.{PermissionAction}
use acp_proxy.WorkspaceTools.Batch.{
  Answers, FileError, admit_path, FileWork, contents, commit, Change, Publication, published,
  unclean, unpublished, Published, publish, FileReceipt, Worked, after_publish, write_file,
  or_failure, file_batch,
}

-- The changes that receipts tell of.
abbrev pub reported : List FileReceipt → List Change
reported [] = []
reported (r ∷ rs) = (r.path, r.after) ∷ reported rs

-- A publication has made its change if it returns, also where its cleanup fails, and none if it raises.
abbrev made : Publication → Change → List Change
made published change = change ∷ []
made unclean change = change ∷ []
made (unpublished e) change = []

publish-made :
    (path : String) (before : Option String) (after : String) (a : Answers)
    → (publish path before after a).1 ≡ made (publish path before after a).0 (path, after)
unfolding publish commit
publish-made path none after a = ground arith
publish-made path (some before) after a = ground arith

after_publish-reported :
    (r : FileReceipt) (p : Published) (rest : Worked)
    → p.1 ≡ made p.0 (r.path, r.after)
    → rest.1 ≡ reported rest.0.0
    → (after_publish r p rest).1 ≡ reported (after_publish r p rest).0.0
after_publish-reported r (published, changes) (rest, later) h i = ground (arith, h, i)
after_publish-reported r (unclean, changes) rest h i = ground (arith, h)
after_publish-reported r (unpublished e, changes) rest h i = ground (arith, h)

-- What a batch reports is what it has changed.
abbrev Honest : Worked → Type 0
Honest w = w.1 ≡ reported w.0.0

if-Honest : (b : Bool) (u w : Worked) → Honest u → Honest w → Honest (if b then u else w)
if-Honest true u w h i = h
if-Honest false u w h i = i

write_file-Honest :
    (action : PermissionAction) (path : String) (texts : Option String × String) (a : Answers)
    (rest : Worked)
    → Honest rest
    → Honest (write_file action path texts a rest)
unfolding write_file
write_file-Honest action path (before, after) a rest h = if-Honest a.stop_before_publish _ _ refl (
    after_publish-reported (record { action = action; path = path; before = before; after = after })
      (publish path before after a) rest (publish-made path before after a) h)

or_failure-Honest :
    {A : Type 0} (r : Result FileError A) (k : A → Worked)
    → ((x : A) → Honest (k x))
    → Honest (or_failure r k)
or_failure-Honest (ok x) k h = h x
or_failure-Honest (err e) k h = refl

-- Whatever the file system answers and whenever the batch is stopped, its receipts name exactly the
-- files that the batch has linked or replaced, with the texts that they have then, in order, those of a
-- failed or cancelled batch included.
pub file_batch-effects :
    (workspace : String) (action : PermissionAction) (xs : List (FileWork × Answers))
    → (file_batch workspace action xs).1 ≡ reported (file_batch workspace action xs).0.0
unfolding file_batch
file_batch-effects workspace action [] = refl
file_batch-effects workspace action ((w, a) ∷ rest) = if-Honest a.stop_first _ _ refl (
    or_failure-Honest (admit_path workspace false a) _ (λ path.
      or_failure-Honest (contents w a) _ (λ texts.
        write_file-Honest action path texts a (file_batch workspace action rest)
          (file_batch-effects workspace action rest))))
