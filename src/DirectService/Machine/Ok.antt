-- ===== src/DirectService/Machine/Ok.antt =====
-- The invariant of the machine, what a step may do to the ledger, and the two ways in which a segment of
-- a task ends that only touches its own record.
use acp_proxy.Prelude.{
  suc, ◌≤◌, String, pos, ◌≡◌, refl, sym, ◌∙◌, ap, Bool, true, false, some, is_some, length, arith,
  eq_iff, ◌==◌, if◌then◌else◌, inl, inr, Bool-cases,
}
use acp_proxy.Prelude.Dict.{Dict, lookup, modify, lookup-modify, length-modify}
use acp_proxy.DirectState.{OperationRecord}
use acp_proxy.DirectService.State.{Generation, Service}
use acp_proxy.DirectService.Accounts.{Accounts, outstanding, outstanding-modify, Unique-modify}
use acp_proxy.DirectService.Touches.{Touches, Successor, Successor-refl, Successor-trans}
use acp_proxy.DirectService.Machine.Fits.{fits, Fit}

-- Every record is still there, as a successor of what it was.
pub record Later (d e : Dict OperationRecord) : Type 0 where
  pub at :
      (id : String) (r : OperationRecord)
      → lookup id d ≡ some r
      → (r' : OperationRecord) × (lookup id e ≡ some r') × Successor r r'

pub Later-refl : (d : Dict OperationRecord) → Later d d
Later-refl d = record { at = λ id r e. (r, e, Successor-refl r) }

pub Later-trans : {a b c : Dict OperationRecord} → Later a b → Later b c → Later a c
Later-trans l m = record {
  at = λ id r e.
      let (r', e', s) = l.at id r e in
      let (r'', e'', s') = m.at id r' e' in (r'', e'', Successor-trans s s');
}

pub Later-modify :
    (k : String) (f : OperationRecord → OperationRecord) (d : Dict OperationRecord)
    → ((r : OperationRecord) → lookup k d ≡ some r → Successor r (f r))
    → Later d (modify k f d)
Later-modify k f d h = record {
  at = λ id r e. elim (Bool-cases (k == id)) [
    | inr other ↦ (r, ground (arith, lookup-modify k id f d), Successor-refl r)
    | inl same ↦ (f r, ground (arith, lookup-modify k id f d), h r (ground (arith, eq_iff k id)))
  ];
}

-- What holds of a service between two steps, besides its tasks.
pub record Rest (s : Service) : Type 0 where
  pub closed : is_some s.closing ≡ true → s.available ≡ false
  pub accounts : Accounts s.admitted
  pub named :
      (id : String) (r : OperationRecord)
      → lookup id s.admitted.ledger.records ≡ some r
      → r.operation_id ≡ id
  pub bound : s.admitted.ledger.max_operations ≡ s.limits.max_operations
  pub ledger_fits : length s.admitted.ledger.records ≤ s.limits.max_operations
  pub sessions_fit : length s.admitted.sessions ≤ s.limits.max_sessions
  pub queue_fits :
      outstanding s.admitted.released_reservations s.admitted.ledger.records
      ≤ suc s.limits.max_queued_prompts

pub record Ok (s : Service) : Type 0 where
  pub fit : Fit (fits s.available) s.admitted.execution_tasks s.admitted.ledger.records
  pub rest : Rest s
  pub open rest use *

pub record Progress (s t : Service) : Type 0 where
  pub kept : t.limits ≡ s.limits
  pub later : Later s.admitted.ledger.records t.admitted.ledger.records
  pub ok : Ok t

pub Touches-Later :
    (id : String) (g h : Generation) → Touches id g h → Later g.ledger.records h.ledger.records
Touches-Later id g h t = rw t.records (Later-modify id t.change g.ledger.records t.settling)

pub Touches-outstanding :
    (id : String) (g h : Generation)
    → Touches id g h
    → outstanding h.released_reservations h.ledger.records
      ≡ outstanding g.released_reservations g.ledger.records
Touches-outstanding id g h t =
    rw (t.records, t.released)
      (outstanding-modify g.released_reservations id t.change g.ledger.records t.kinds)

pub Touches-Accounts : (id : String) (g h : Generation) → Touches id g h → Accounts g → Accounts h
Touches-Accounts id g h t a = record {
  unique = rw t.records (Unique-modify id t.change g.ledger.records a.unique);
  counted = t.reservations ∙ a.counted ∙ ap pos (sym (Touches-outstanding id g h t));
  known = λ j m. rw t.records (
      ground (
        arith,
        a.known j (rw t.released at m),
        lookup-modify id j t.change g.ledger.records,
        eq_iff id j,
      ));
}

pub Touches-length :
    (id : String) (g h : Generation)
    → Touches id g h
    → length h.ledger.records ≡ length g.ledger.records
Touches-length id g h t = rw t.records (length-modify id t.change g.ledger.records)

-- A step that branches on a test.
pub Progress-if :
    (s : Service) (b : Bool) (x y : Service)
    → (b ≡ true → Progress s x)
    → (b ≡ false → Progress s y)
    → Progress s (if b then x else y)
Progress-if s true x y f g = f refl
Progress-if s false x y f g = g refl

pub Progress-refl : (s : Service) → Ok s → Progress s s
Progress-refl s k = record { kept = refl; later = Later-refl s.admitted.ledger.records; ok = k }

pub Progress-trans : (s t u : Service) → Progress s t → Progress t u → Progress s u
Progress-trans s t u a b = record {
  kept = b.kept ∙ a.kept;
  later = Later-trans a.later b.later;
  ok = b.ok;
}
