-- ===== src/DirectState/Ledger/Trace.antt =====
-- A generation's ledger under any sequence of admissions and settlements.
use acp_proxy.Prelude.{
  ℕ, ◌+◌, ◌≤◌, String, ◌≡◌, true, false, Option, some, is_some, List, [], ◌∷◌, ok, err, length,
  arith, eq_iff, ◌==◌, if◌then◌else◌,
}
use acp_proxy.Prelude.Dict.{lookup, lookup-insert, length-insert_new, lookup-modify, length-modify}
use acp_proxy.Json.{JsonObject}
use acp_proxy.DirectState.{
  OperationState, terminal, Identity, OperationRecord, operation_record, settled,
}
use acp_proxy.DirectState.Ledger.{DirectLedger, Admission, admit, update}
use acp_proxy.DirectState.Ledger.Laws.{
  Admits, replayed, conflicting, exhausted, added, admit-Admits,
}

pub data LedgerEvent : Type 0 where
  admits : String → Identity → LedgerEvent
  settles : String → OperationState → Option JsonObject → Option JsonObject → LedgerEvent

apply : LedgerEvent → DirectLedger → DirectLedger
unfolding update
apply (admits id c) l = (admit id c l).1
apply (settles id state result error) l = update id (settled state result error) l

pub run : List LedgerEvent → DirectLedger → DirectLedger
run [] l = l
run (e ∷ es) l = run es (apply e l)

-- Whether an answer of `admit` says that the operation is new.
abbrev is_new : Admission → ℕ
is_new (ok (r, true)) = 1
is_new (ok (r, false)) = 0
is_new (err e) = 0

news : String → LedgerEvent → DirectLedger → ℕ
news id (admits j c) l = if j == id then is_new (admit j c l).0 else 0
news id (settles j state result error) l = 0

-- How often a run answers that the operation `id` is new.
pub created : String → List LedgerEvent → DirectLedger → ℕ
created id [] l = 0
created id (e ∷ es) l = news id e l + created id es (apply e l)

abbrev pub known : String → DirectLedger → ℕ
known id l = if is_some (lookup id l.records) then 1 else 0

admit_step :
    (id j : String) (c : Identity) (l : DirectLedger) (p : Admission × DirectLedger)
    → Admits j c l p
    → (if j == id then is_new p.0 else 0) + known id l ≡ known id p.1
admit_step id j c l p (replayed r h e q) = ground arith
admit_step id j c l p (conflicting r h e q) = ground arith
admit_step id j c l p (exhausted h m q) = ground arith
admit_step id j c l p (added h m q) =
    ground (arith, lookup-insert j id (operation_record j c) l.records, eq_iff j id)

step_known :
    (id : String) (e : LedgerEvent) (l : DirectLedger)
    → news id e l + known id l ≡ known id (apply e l)
unfolding news apply
step_known id (admits j c) l = admit_step id j c l (admit j c l) (admit-Admits j c l)
step_known id (settles j state result error) l =
    ground (arith, lookup-modify j id (settled state result error) l.records)

-- Whatever is admitted and settled, in whatever order, an operation id is answered as new at most
-- once, and never if the ledger already knew it.
pub created-at_most_once :
    (id : String) (es : List LedgerEvent) (l : DirectLedger) → created id es l + known id l ≤ 1
unfolding created
created-at_most_once id [] l = ground arith
created-at_most_once id (e ∷ es) l =
    omega (arith, step_known id e l, created-at_most_once id es (apply e l))

admit_keeps :
    (id j : String) (c : Identity) (l : DirectLedger) (p : Admission × DirectLedger)
    (r : OperationRecord)
    → Admits j c l p
    → lookup id l.records ≡ some r
    → lookup id p.1.records ≡ some r
admit_keeps id j c l p r (replayed s h e q) k = ground arith
admit_keeps id j c l p r (conflicting s h e q) k = ground arith
admit_keeps id j c l p r (exhausted h m q) k = ground arith
admit_keeps id j c l p r (added h m q) k =
    ground (arith, lookup-insert j id (operation_record j c) l.records, eq_iff j id)

-- A second settlement of a settled record, and a settlement by a state that is not terminal, change
-- nothing.
settled-terminal :
    (state : OperationState) (result error : Option JsonObject) (r : OperationRecord)
    → terminal r.state ≡ true
    → settled state result error r ≡ r
unfolding settled
settled-terminal state result error r h = ground arith

apply_keeps_settled :
    (id : String) (e : LedgerEvent) (l : DirectLedger) (r : OperationRecord)
    → terminal r.state ≡ true
    → lookup id l.records ≡ some r
    → lookup id (apply e l).records ≡ some r
unfolding apply
apply_keeps_settled id (admits j c) l r t h =
    admit_keeps id j c l (admit j c l) r (admit-Admits j c l) h
apply_keeps_settled id (settles j state result error) l r t h = ground (
  arith,
  lookup-modify j id (settled state result error) l.records,
  settled-terminal state result error r t,
)

-- A settled operation keeps its whole record, outcome included, through every later sequence of
-- admissions and settlements: it is neither evicted nor settled again.
pub run-settled :
    (id : String) (es : List LedgerEvent) (l : DirectLedger) (r : OperationRecord)
    → terminal r.state ≡ true
    → lookup id l.records ≡ some r
    → lookup id (run es l).records ≡ some r
unfolding run
run-settled id [] l r t h = h
run-settled id (e ∷ es) l r t h =
    run-settled id es (apply e l) r t (apply_keeps_settled id e l r t h)

-- The bound of the ledger, and that the records are within it.
pub record Within (max : ℕ) (l : DirectLedger) : Type 0 where
  pub bound : l.max_operations ≡ max
  pub fits : length l.records ≤ max

admit_Within :
    (max : ℕ) (j : String) (c : Identity) (l : DirectLedger) (p : Admission × DirectLedger)
    → Admits j c l p
    → Within max l
    → Within max p.1
admit_Within max j c l p (replayed r h e q) w = ground arith
admit_Within max j c l p (conflicting r h e q) w = ground arith
admit_Within max j c l p (exhausted h m q) w = ground arith
admit_Within max j c l p (added h m q) w =
    ground (arith, length-insert_new j (operation_record j c) l.records)

apply-Within :
    (max : ℕ) (e : LedgerEvent) (l : DirectLedger) → Within max l → Within max (apply e l)
unfolding apply
apply-Within max (admits j c) l w = admit_Within max j c l (admit j c l) (admit-Admits j c l) w
apply-Within max (settles j state result error) l w =
    ground (arith, length-modify j (settled state result error) l.records)

-- A ledger that holds at most `max` operations does so after every sequence of admissions and
-- settlements, and `max` stays its bound.
pub run-Within :
    (max : ℕ) (es : List LedgerEvent) (l : DirectLedger) → Within max l → Within max (run es l)
unfolding run
run-Within max [] l w = w
run-Within max (e ∷ es) l w = run-Within max es (apply e l) (apply-Within max e l w)
