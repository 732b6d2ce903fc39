-- ===== src/DirectService/State.antt =====
-- The state of `DirectService` in direct_service.py, its tasks, and the checks that each request passes
-- first. No holder of the state lock awaits, so the lock is always free and what runs under it is one
-- step with what runs just before.
-- The generation that callers capture is `admitted`: `_check_pin` returns no other, since a service
-- that has replaced its generation is never available again. `fresh` is the replacement.
use acp_proxy.Prelude.{
  ℕ, zero, suc, String, ℤ, pos, negsuc, Bool, true, false, not, ◌||◌, Option, none, some, is_some,
  List, [], Result, ok, err, ◌>>◌, raise_if, eqb, ◌==◌,
}
use acp_proxy.Prelude.Dict.{Dict, modify, insert}
use acp_proxy.Json.{JsonObject}
use acp_proxy.DirectState.{
  DirectError, direct_generation_mismatch, OperationRecord, DirectSession, OperationState,
}
use acp_proxy.DirectState.Ledger.{DirectLedger, Admission}
use acp_proxy.DirectProtocol.{DirectLimits, PinnedRequest, PromptRequest, direct_protocol_major}
use acp_proxy.NativeTypes.{NativeModel, NativeObservation, NativeTerminal, NativeBinding}

-- What the service reads of its native client: a session that it does not know has no binding, and
-- `allocate_session` succeeds or raises.
pub record NativeView : Type 0 where
  pub models : List NativeModel
  pub is_alive : Bool
  pub allocates : String → Bool
  pub binding : String → Option NativeBinding

-- A collector task: pending, or ended by a value, by `NativeUnsettledError`, by another exception, or
-- by cancellation.
pub data Collector : Type 0 where
  pending : Collector
  returned : NativeTerminal → Collector
  unsettled : NativeObservation → Collector
  raised : Collector
  collector_cancelled : Collector

-- `_DeferredSettlement`
pub record Deferred : Type 0 where
  pub operation_id : String
  pub state : OperationState
  pub result : Option JsonObject
  pub error : Option JsonObject

-- The coroutine of an execution task, with its arguments.
pub data Work : Type 0 where
  execute_prompt : (logical_session_id : String) → PromptRequest → Work
  execute_cancel : (target_operation_id logical_session_id : String) → Work
  execute_retire : (logical_session_id : String) → Work

-- A task inside `_quarantine_uncertain`: its settlements, whether the generation that it captured is
-- `admitted`, the collectors that it captured, and whether it stands in an inner `try`, that of
-- `_settle_deadline` or of the wait in `_execute_cancel`.
pub record Quarantine : Type 0 where
  pub settlements : List Deferred
  pub old : Bool
  pub collectors : List String
  pub inner : Bool

-- Where a task is suspended.
pub data Point : Type 0 where
  scheduled collecting deadline_sending deadline_waiting cancel_sending cancel_waiting : Point
  native_retiring : NativeBinding → Point
  quarantining : Quarantine → Point
  finishing : Point

pub record Task : Type 0 where
  pub work : Work
  pub point : Point
  pub dispatched : Bool
  pub cancelled : Bool

pub record Generation : Type 0 where
  pub generation_id : String
  pub ledger : DirectLedger
  pub sessions : Dict DirectSession
  pub prompt_reservations : ℤ
  pub released_reservations : List String
  pub collector_tasks : List String
  pub execution_tasks : Dict Task
  pub quarantined : Bool

-- What a caller that closes the generation holds until cleanup has ended: the records that it will
-- publish, and the collectors that it captured.
pub record Closing : Type 0 where
  pub records : List String
  pub collectors : List String

-- `collectors` holds the collector tasks themselves, by operation id.
pub record Service : Type 0 where
  pub canonical_workspace : String
  pub limits : DirectLimits
  pub admitted : Generation
  pub fresh : Option Generation
  pub collectors : Dict Collector
  pub available : Bool
  pub closing : Option Closing
  pub shutdown_done : Bool
  pub shutdown_error : Bool

-- `_new_generation`, whose limits have a positive `max_operations`.
unfoldable pub new_generation : String → DirectLimits → Generation
new_generation generation_id limits = record {
  generation_id = generation_id;
  ledger = record { max_operations = limits.max_operations; records = [] };
  sessions = [];
  prompt_reservations = pos 0;
  released_reservations = [];
  collector_tasks = [];
  execution_tasks = [];
  quarantined = false;
}

-- DirectService(...), after the checks of its secret and its authority.
unfoldable pub direct_service : String → DirectLimits → String → Service
unfolding new_generation
direct_service canonical_workspace limits generation_id = record {
  canonical_workspace = canonical_workspace;
  limits = limits;
  admitted = new_generation generation_id limits;
  fresh = none;
  collectors = [];
  available = true;
  closing = none;
  shutdown_done = false;
  shutdown_error = false;
}

abbrev or_admitted : Option Generation → Generation → Generation
or_admitted none g = g
or_admitted (some f) g = f

-- self._generation
abbrev pub current : Service → Generation
current s = or_admitted s.fresh s.admitted

unfoldable pub ensure_available : NativeView → Service → Result DirectError (Unit {0})
ensure_available n s = raise_if (not s.available || not n.is_alive) direct_generation_mismatch

unfoldable pub check_pin : NativeView → PinnedRequest → Service → Result DirectError (Unit {0})
unfolding ensure_available
check_pin n r s = do
  raise_if (not (eqb r.protocol_major direct_protocol_major)) direct_generation_mismatch
  raise_if (not (r.continuity_generation_id == (current s).generation_id))
      direct_generation_mismatch
  ensure_available n s

-- Of the captured generation: it is still current, and not quarantined.
unfoldable pub require_current_generation : Service → Result DirectError (Unit {0})
require_current_generation s =
    raise_if (is_some s.fresh || s.admitted.quarantined) direct_generation_mismatch

abbrev pub on_admitted : (Generation → Generation) → Service → Service
on_admitted f s = record s { admitted = f s.admitted }

-- The record of an operation, mutated.
abbrev pub on_record : String → (OperationRecord → OperationRecord) → Generation → Generation
on_record id f g = record g { ledger = record g.ledger { records = modify id f g.ledger.records } }

-- A session, mutated.
abbrev pub on_session : String → (DirectSession → DirectSession) → Generation → Generation
on_session id f g = record g { sessions = modify id f g.sessions }

-- `_schedule`, of the task of an operation.
abbrev pub schedule : String → Work → Generation → Generation
schedule id work g = record g {
  execution_tasks =
      insert id (record { work = work; point = scheduled; dispatched = false; cancelled = false })
        g.execution_tasks;
}

-- A handler's answer: the operation's id, which stands for its record, and whether it is new.
abbrev pub Answer : Type 0
Answer = Result DirectError (String × Bool)

abbrev pub answer : Admission → Answer
answer (ok (r, created)) = ok (r.operation_id, created)
answer (err e) = err e

-- The task of an operation, mutated.
abbrev pub on_task : String → (Task → Task) → Generation → Generation
on_task id f g = record g { execution_tasks = modify id f g.execution_tasks }

abbrev pub at_point : Point → Task → Task
at_point point t = record t { point = point }

-- record.state = state
abbrev pub set_state : OperationState → OperationRecord → OperationRecord
set_state state r = record r { state = state }

-- The tests and steps of an integer counter.
abbrev pub increment : ℤ → ℤ
increment (pos n) = pos (suc n)
increment (negsuc zero) = pos 0
increment (negsuc (suc n)) = negsuc n

abbrev pub decrement : ℤ → ℤ
decrement (pos zero) = negsuc 0
decrement (pos (suc n)) = pos n
decrement (negsuc n) = negsuc (suc n)

abbrev pub is_negative : ℤ → Bool
is_negative (pos n) = false
is_negative (negsuc n) = true

abbrev pub is_positive : ℤ → Bool
is_positive (pos zero) = false
is_positive (pos (suc n)) = true
is_positive (negsuc n) = false

-- max(0, n - 1)
abbrev pub queued_count : ℤ → ℕ
queued_count (pos zero) = 0
queued_count (pos (suc n)) = n
queued_count (negsuc n) = 0
