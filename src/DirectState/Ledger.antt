-- ===== src/DirectState/Ledger.antt =====
-- `DirectLedger` of direct_state.py: the operation ledger of a generation, which evicts nothing.
pub mod Laws
pub mod Trace
use acp_proxy.Prelude.{
  ℕ, String, Bool, true, false, ◌&&◌, Option, none, some, [], Result, ok, err, ◌>>=◌, or_raise,
  List, length, leb, eqb, ◌==◌, if◌then◌else◌,
}
use acp_proxy.Prelude.Dict.{Dict, lookup, insert, modify, values as dict_values}
use acp_proxy.DirectState.{
  DirectError, direct_conflict, direct_not_found, direct_limit_exceeded, value_error, OperationKind,
  Identity, OperationRecord, operation_record,
}

abbrev pub same_kind : OperationKind → OperationKind → Bool
same_kind OperationKind.create OperationKind.create = true
same_kind OperationKind.prompt OperationKind.prompt = true
same_kind OperationKind.cancel OperationKind.cancel = true
same_kind OperationKind.retire OperationKind.retire = true
same_kind _ _ = false

abbrev pub same_text : Option String → Option String → Bool
same_text none none = true
same_text (some a) (some b) = a == b
same_text _ _ = false

-- `identity == candidate`, on the tuples that `admit` compares.
unfoldable pub same_identity : Identity → Identity → Bool
same_identity a b =
    a.digest == b.digest
    && same_kind a.kind b.kind
    && same_text a.logical_session_id b.logical_session_id
    && same_text a.invocation_id b.invocation_id
    && same_text a.target_operation_id b.target_operation_id

pub record DirectLedger : Type 0 where
  pub max_operations : ℕ
  pub records : Dict OperationRecord

-- DirectLedger(max_operations)
unfoldable pub direct_ledger : ℕ → Result DirectError DirectLedger
direct_ledger max_operations =
    if leb 1 max_operations
    then ok (record { max_operations = max_operations; records = [] })
    else err value_error

-- The record, and whether it is new.
abbrev pub Admission : Type 0
Admission = Result DirectError (OperationRecord × Bool)

admit_existing : Identity → OperationRecord → Admission
unfolding same_identity
admit_existing candidate existing =
    if same_identity existing.identity candidate then ok (existing, false) else err direct_conflict

admit_new : String → Identity → DirectLedger → Admission × DirectLedger
admit_new operation_id candidate l =
    if leb l.max_operations (length l.records)
    then (err direct_limit_exceeded, l)
    else let r = operation_record operation_id candidate in
      (ok (r, true), record l { records = insert operation_id r l.records })

admit_with : Option OperationRecord → String → Identity → DirectLedger → Admission × DirectLedger
unfolding admit_existing admit_new
admit_with (some existing) operation_id candidate l = (admit_existing candidate existing, l)
admit_with none operation_id candidate l = admit_new operation_id candidate l

unfoldable pub admit : String → Identity → DirectLedger → Admission × DirectLedger
unfolding admit_with
admit operation_id candidate l = admit_with (lookup operation_id l.records) operation_id candidate l

-- `get`, where an unknown id raises.
unfoldable pub get : String → DirectLedger → Result DirectError OperationRecord
get operation_id l = or_raise (lookup operation_id l.records) direct_not_found

unfoldable pub values : DirectLedger → List OperationRecord
unfolding dict_values
values l = dict_values l.records

-- The record at an id is an object that its holders mutate.
unfoldable pub update : String → (OperationRecord → OperationRecord) → DirectLedger → DirectLedger
update operation_id f l = record l { records = modify operation_id f l.records }
