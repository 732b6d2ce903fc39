-- ===== src/DirectState/Ledger/Laws.antt =====
-- What one call of `admit` does to a ledger, seen through its lookups.
use acp_proxy.Prelude.{
  String, ◌≤◌, ◌<◌, ◌≡◌, ◌↔◌, inl, inr, true, false, Option, none, some, Option-cases, Bool-cases,
  ok, err, length, leb, arith, eq_iff,
}
use acp_proxy.Prelude.Dict.{lookup, insert}
use acp_proxy.DirectState.{
  direct_conflict, direct_limit_exceeded, OperationKind, create, prompt, cancel, retire, Identity,
  OperationRecord, operation_record,
}
use acp_proxy.DirectState.Ledger.{
  same_kind, same_text, same_identity, DirectLedger, Admission, admit,
}

same_kind_iff : (a b : OperationKind) → (same_kind a b ≡ true) ↔ (a ≡ b)
same_kind_iff create b = ground arith
same_kind_iff prompt b = ground arith
same_kind_iff cancel b = ground arith
same_kind_iff retire b = ground arith

same_text_iff : (a b : Option String) → (same_text a b ≡ true) ↔ (a ≡ b)
same_text_iff none b = ground arith
same_text_iff (some x) none = ground arith
same_text_iff (some x) (some y) = ground (arith, eq_iff x y)

pub same_identity_iff : (a b : Identity) → (same_identity a b ≡ true) ↔ (a ≡ b)
unfolding same_identity
same_identity_iff a b = ground (
  arith,
  eq_iff a.digest b.digest,
  same_kind_iff a.kind b.kind,
  same_text_iff a.logical_session_id b.logical_session_id,
  same_text_iff a.invocation_id b.invocation_id,
  same_text_iff a.target_operation_id b.target_operation_id,
)

-- The ways that `admit` ends, told by the ledger before it.
pub data Admits (id : String) (c : Identity) (l : DirectLedger) (p : Admission × DirectLedger)
    : Type 0 where
  replayed :
      (r : OperationRecord)
      → lookup id l.records ≡ some r
      → r.identity ≡ c
      → p ≡ (ok (r, false), l)
      → Admits id c l p
  conflicting :
      (r : OperationRecord)
      → lookup id l.records ≡ some r
      → ¬ (r.identity ≡ c)
      → p ≡ (err direct_conflict, l)
      → Admits id c l p
  exhausted :
      lookup id l.records ≡ none
      → l.max_operations ≤ length l.records
      → p ≡ (err direct_limit_exceeded, l)
      → Admits id c l p
  added :
      lookup id l.records ≡ none
      → length l.records < l.max_operations
      → p ≡ (
        ok (operation_record id c, true),
        record l { records = insert id (operation_record id c) l.records },
      )
      → Admits id c l p

pub admit-Admits : (id : String) (c : Identity) (l : DirectLedger) → Admits id c l (admit id c l)
unfolding admit
admit-Admits id c l = elim (Option-cases (lookup id l.records)) [
  | inl new ↦ elim (Bool-cases (leb l.max_operations (length l.records))) [
    | inl full ↦ exhausted new (ground arith) (ground arith)
    | inr room ↦ added new (ground arith) (ground arith)
  ]
  | inr (r, old) ↦ elim (Bool-cases (same_identity r.identity c)) [
    | inl same ↦ replayed r old ((same_identity_iff r.identity c).0 same) (ground arith)
    | inr other ↦
        conflicting r old (λ e. cc (other, (same_identity_iff r.identity c).1 e)) (ground arith)
  ]
]
