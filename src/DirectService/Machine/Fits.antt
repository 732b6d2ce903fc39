-- ===== src/DirectService/Machine/Fits.antt =====
-- Which record states a task may meet, and how updates of tasks and records keep that.
use acp_proxy.Prelude.{
  String, ◌≡◌, Bool, true, false, not, ◌&&◌, none, some, arith, eq_iff, ◌==◌, if◌then◌else◌, inl,
  inr, Option-cases, Bool-cases,
}
use acp_proxy.Prelude.Dict.{
  Dict, lookup, insert, modify, remove, lookup-insert, lookup-modify, lookup-remove,
}
use acp_proxy.DirectState.{
  OperationKind, prompt, cancel, retire, OperationState, accepted, running, cancelling,
  OperationRecord,
}
use acp_proxy.DirectService.State.{
  Work, execute_prompt, execute_cancel, execute_retire, Point, scheduled, collecting,
  deadline_sending, deadline_waiting, cancel_sending, cancel_waiting, native_retiring, quarantining,
  finishing, Task,
}

abbrev pub work_kind : Work → OperationKind → Bool
work_kind (execute_prompt sid r) prompt = true
work_kind (execute_cancel target sid) cancel = true
work_kind (execute_retire sid) retire = true
work_kind _ _ = false

abbrev pub is_live : OperationState → Bool
is_live running = true
is_live cancelling = true
is_live _ = false

abbrev pub is_accepted : OperationState → Bool
is_accepted accepted = true
is_accepted _ = false

-- What a task that is not cancelled finds: whether admission is open, and the state of its record.
abbrev pub point_fits : Bool → Point → Work → OperationState → Bool
point_fits open_ collecting w st = open_ && is_live st
point_fits open_ deadline_sending w st = open_ && is_live st
point_fits open_ deadline_waiting w st = open_ && is_live st
point_fits open_ scheduled (execute_prompt sid r) st = open_
point_fits open_ scheduled (execute_cancel target sid) st = open_ && is_accepted st
point_fits open_ scheduled (execute_retire sid) st = open_ && is_accepted st
point_fits open_ cancel_sending w st = open_
point_fits open_ cancel_waiting w st = open_
point_fits open_ (native_retiring b) w st = open_
point_fits open_ (quarantining q) w st = not open_
point_fits open_ finishing w st = true

abbrev pub fits : Bool → Task → OperationRecord → Bool
fits open_ t r =
    work_kind t.work r.kind
    && (if t.cancelled then not open_ else point_fits open_ t.point t.work r.state)

-- Every task has a record, of which `P` holds.
pub record Fit (P : Task → OperationRecord → Bool) (T : Dict Task) (R : Dict OperationRecord)
    : Type 0 where
  pub at :
      (id : String) (t : Task)
      → lookup id T ≡ some t
      → (r : OperationRecord) × (lookup id R ≡ some r) × (P t r ≡ true)

module _ {P : Task → OperationRecord → Bool} where
  pub Fit-record :
      (k : String) (f : OperationRecord → OperationRecord) (T : Dict Task)
      (R : Dict OperationRecord)
      → ((t : Task) (r : OperationRecord)
          → lookup k T ≡ some t
          → lookup k R ≡ some r
          → P t r ≡ true
          → P t (f r) ≡ true)
      → Fit P T R
      → Fit P T (modify k f R)
  Fit-record k f T R h s = record {
    at = λ id t e.
        let (r, er, pr) = s.at id t e in
        (
          if k == id then f r else r,
          ground (arith, lookup-modify k id f R, eq_iff k id),
          ground (arith, eq_iff k id, h t r),
        );
  }

  pub Fit-put :
      (k : String) (g : Task → Task) (T : Dict Task) (R : Dict OperationRecord)
      → ((t : Task) (r : OperationRecord)
          → lookup k T ≡ some t
          → lookup k R ≡ some r
          → P t r ≡ true
          → P (g t) r ≡ true)
      → Fit P T R
      → Fit P (modify k g T) R
  Fit-put k g T R h s = record {
    at = λ id u e. elim (Bool-cases (k == id)) [
      | inr other ↦ s.at id u (ground (arith, lookup-modify k id g T))
      | inl same ↦ elim (Option-cases (lookup id T)) [
        | inl none_there ↦ absurd (ground (arith, lookup-modify k id g T))
        | inr (t, there) ↦
            let (r, er, pr) = s.at id t there in
            (r, er, ground (arith, lookup-modify k id g T, eq_iff k id, h t r))
      ]
    ];
  }

  pub Fit-drop :
      (k : String) (T : Dict Task) (R : Dict OperationRecord) → Fit P T R → Fit P (remove k T) R
  Fit-drop k T R s = record { at = λ id t e. s.at id t (ground (arith, lookup-remove k id T)) }

  pub Fit-insert :
      (k : String) (t : Task) (T : Dict Task) (R : Dict OperationRecord) (r : OperationRecord)
      → lookup k R ≡ some r
      → P t r ≡ true
      → Fit P T R
      → Fit P (insert k t T) R
  Fit-insert k t T R r h q s = record {
    at = λ id u e. elim (Bool-cases (k == id)) [
      | inr other ↦ s.at id u (ground (arith, lookup-insert k id t T))
      | inl same ↦ (r, ground (arith, eq_iff k id), ground (arith, lookup-insert k id t T))
    ];
  }

  -- A task and its record together.
  pub Fit-own :
      (k : String) (g : Task → Task) (f : OperationRecord → OperationRecord) (T : Dict Task)
      (R : Dict OperationRecord)
      → ((t : Task) (r : OperationRecord)
          → lookup k T ≡ some t
          → lookup k R ≡ some r
          → P t r ≡ true
          → P (g t) (f r) ≡ true)
      → Fit P T R
      → Fit P (modify k g T) (modify k f R)
  Fit-own k g f T R h s = record {
    at = λ id u e. elim (Bool-cases (k == id)) [
      | inr other ↦
          let (r, er, pr) = s.at id u (ground (arith, lookup-modify k id g T)) in
          (r, ground (arith, lookup-modify k id f R), pr)
      | inl same ↦ elim (Option-cases (lookup id T)) [
        | inl none_there ↦ absurd (ground (arith, lookup-modify k id g T))
        | inr (t, there) ↦
            let (r, er, pr) = s.at id t there in
            (
              f r,
              ground (arith, lookup-modify k id f R),
              ground (arith, lookup-modify k id g T, eq_iff k id, h t r),
            )
      ]
    ];
  }

  -- The end of a task, whatever its record has become.
  pub Fit-end :
      (k : String) (f : OperationRecord → OperationRecord) (T : Dict Task)
      (R : Dict OperationRecord)
      → Fit P T R
      → Fit P (remove k T) (modify k f R)
  Fit-end k f T R s = record {
    at = λ id t e.
        let (r, er, pr) = s.at id t (ground (arith, lookup-remove k id T)) in
        (r, ground (arith, lookup-modify k id f R, lookup-remove k id T), pr);
  }

  -- A record under a new id.
  pub Fit-new :
      (k : String) (r : OperationRecord) (T : Dict Task) (R : Dict OperationRecord)
      → lookup k R ≡ none
      → Fit P T R
      → Fit P T (insert k r R)
  Fit-new k r T R h s = record {
    at = λ id t e.
        let (o, er, pr) = s.at id t e in
        (o, ground (arith, lookup-insert k id r R, eq_iff k id), pr);
  }

pub Fit-weaken :
    {P Q : Task → OperationRecord → Bool} (T : Dict Task) (R : Dict OperationRecord)
    → ((t : Task) (r : OperationRecord) → P t r ≡ true → Q t r ≡ true)
    → Fit P T R
    → Fit Q T R
Fit-weaken T R h s = record { at = λ id t e. let (r, er, pr) = s.at id t e in (r, er, h t r pr) }

-- All that is asked of a task once the generation is lost, if it is cancelled.
abbrev pub of_kind : Task → OperationRecord → Bool
of_kind t r = work_kind t.work r.kind

pub Fit-transport :
    {P : Task → OperationRecord → Bool} {T T' : Dict Task} {R R' : Dict OperationRecord}
    → T' ≡ T
    → R' ≡ R
    → Fit P T R
    → Fit P T' R'
Fit-transport {P} e f s = rw (e, f) s
