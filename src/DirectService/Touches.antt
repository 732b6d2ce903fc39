-- ===== src/DirectService/Touches.antt =====
-- Segments of a task that, of the ledger, settle at most the task's own record: `Touches`, and its
-- rules. The segments of direct_service.py are shown to be such below the modules that define them.
use acp_proxy.Prelude.{
  String, ◌≡◌, refl, sym, ◌∙◌, ap, Bool, true, false, Option, some, List, Result, ok, err, arith,
  length, if◌then◌else◌,
}
use acp_proxy.Prelude.Dict.{lookup, modify, modify-modify, modify_same, length-modify}
use acp_proxy.Json.{JsonObject}
use acp_proxy.DirectState.{
  DirectError, OperationState, terminal, OperationRecord, DirectSession, settled,
}
use acp_proxy.DirectService.State.{Generation, on_record, on_session, set_state}
use acp_proxy.DirectService.Settle.{Settlement, or_raises}

-- What a record may become: it keeps what it is identified by, and if it is settled it stays whole.
pub record Successor (r r' : OperationRecord) : Type 0 where
  pub same_identity : r'.identity ≡ r.identity
  pub same_id : r'.operation_id ≡ r.operation_id
  pub settled_stays : terminal r.state ≡ true → r' ≡ r

pub Successor-refl : (r : OperationRecord) → Successor r r
Successor-refl r = record { same_identity = refl; same_id = refl; settled_stays = λ t. refl }

pub Successor-settled :
    (state : OperationState) (result error : Option JsonObject) (r : OperationRecord)
    → Successor r (settled state result error r)
unfolding settled
Successor-settled state result error r = ground arith

pub kind-settled :
    (state : OperationState) (result error : Option JsonObject) (r : OperationRecord)
    → (settled state result error r).kind ≡ r.kind
unfolding settled
kind-settled state result error r = ground arith

pub Successor-trans : {a b c : OperationRecord} → Successor a b → Successor b c → Successor a c
Successor-trans u v = record {
  same_identity = v.same_identity ∙ u.same_identity;
  same_id = v.same_id ∙ u.same_id;
  settled_stays = λ t. v.settled_stays (rw (u.settled_stays t) t) ∙ u.settled_stays t;
}

pub record Touches (id : String) (g h : Generation) : Type 0 where
  pub change : OperationRecord → OperationRecord
  pub settling :
      (r : OperationRecord) → lookup id g.ledger.records ≡ some r → Successor r (change r)
  pub kinds : (r : OperationRecord) → (change r).kind ≡ r.kind
  pub records : h.ledger.records ≡ modify id change g.ledger.records
  pub bound : h.ledger.max_operations ≡ g.ledger.max_operations
  pub tasks : h.execution_tasks ≡ g.execution_tasks
  pub reservations : h.prompt_reservations ≡ g.prompt_reservations
  pub released : h.released_reservations ≡ g.released_reservations
  pub session_count : length h.sessions ≡ length g.sessions

unfoldable pub Touches-refl : (id : String) (g : Generation) → Touches id g g
Touches-refl id g = record {
  change = λ r. r;
  settling = λ r e. Successor-refl r;
  kinds = λ r. refl;
  records = sym (modify_same id g.ledger.records);
  bound = refl;
  tasks = refl;
  reservations = refl;
  released = refl;
  session_count = refl;
}

unfoldable pub Touches-session :
    (id sid : String) (f : DirectSession → DirectSession) (g h : Generation)
    → Touches id g h
    → Touches id g (on_session sid f h)
Touches-session id sid f g h t = record {
  change = t.change;
  settling = t.settling;
  kinds = t.kinds;
  records = t.records;
  bound = t.bound;
  tasks = t.tasks;
  reservations = t.reservations;
  released = t.released;
  session_count = length-modify sid f h.sessions ∙ t.session_count;
}

unfoldable pub Touches-collectors :
    (id : String) (c : List String) (g h : Generation)
    → Touches id g h
    → Touches id g (record h { collector_tasks = c })
Touches-collectors id c g h t = record {
  change = t.change;
  settling = t.settling;
  kinds = t.kinds;
  records = t.records;
  bound = t.bound;
  tasks = t.tasks;
  reservations = t.reservations;
  released = t.released;
  session_count = t.session_count;
}

unfoldable pub Touches-settled :
    (id : String) (state : OperationState) (result error : Option JsonObject) (g h : Generation)
    → Touches id g h
    → Touches id g (on_record id (settled state result error) h)
Touches-settled id state result error g h t = record {
  change = λ r. settled state result error (t.change r);
  settling =
      λ r e. Successor-trans (t.settling r e) (Successor-settled state result error (t.change r));
  kinds = λ r. kind-settled state result error (t.change r) ∙ t.kinds r;
  records =
      ap (modify id (settled state result error)) t.records
      ∙ modify-modify id t.change (settled state result error) g.ledger.records;
  bound = t.bound;
  tasks = t.tasks;
  reservations = t.reservations;
  released = t.released;
  session_count = t.session_count;
}

-- A state that is set on a record that is not settled.
pub Successor-set_state :
    (state : OperationState) (r : OperationRecord)
    → terminal r.state ≡ false
    → Successor r (set_state state r)
Successor-set_state state r h = ground arith

unfoldable pub Touches-set_state :
    (id : String) (state : OperationState) (g : Generation)
    → ((r : OperationRecord) → lookup id g.ledger.records ≡ some r → terminal r.state ≡ false)
    → Touches id g (on_record id (set_state state) g)
Touches-set_state id state g h = record {
  change = set_state state;
  settling = λ r e. Successor-set_state state r (h r e);
  kinds = λ r. refl;
  records = refl;
  bound = refl;
  tasks = refl;
  reservations = refl;
  released = refl;
  session_count = refl;
}

pub Touches-or_raises {ℓ} :
    {A : Type ℓ} (id : String) (g h : Generation) (r : Result DirectError A)
    (k : A → Generation → Settlement)
    → Touches id g h
    → ((a : A) → Touches id g (k a h).1)
    → Touches id g (or_raises r k h).1
Touches-or_raises id g h (ok a) k t f = f a
Touches-or_raises id g h (err e) k t f = t

pub Touches-if :
    (id : String) (g : Generation) (b : Bool) (x y : Settlement)
    → Touches id g x.1
    → Touches id g y.1
    → Touches id g (if b then x else y).1
Touches-if id g true x y t u = t
Touches-if id g false x y t u = u

pub ruleset touches = (Touches-refl, Touches-session, Touches-settled)
