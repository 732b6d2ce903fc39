-- ===== src/DirectState.antt =====
-- direct_state.py: operation and session states, instruction lifetimes, operation records and the
-- ledger of one generation. An `asyncio.Event` is the flag that it holds.
pub mod Ledger
use acp_proxy.Prelude.{
  String, Bool, true, false, not, ◌&&◌, Option, none, some, List, [], ◌∷◌, map, Result, ok, err,
  ◌>>=◌, ◌>>◌, raise_if, member, ◌==◌, if◌then◌else◌,
}
use acp_proxy.Prelude.Dict.{lookup}
use acp_proxy.Json.{JsonObject}

-- The exceptions of direct_state.py and direct_service.py, and Python's own.
pub data DirectError : Type 0 where
  direct_conflict direct_not_found direct_limit_exceeded : DirectError
  direct_generation_mismatch direct_workspace_mismatch direct_busy : DirectError
  value_error runtime_error key_error assertion_error : DirectError

pub data OperationKind : Type 0 where
  create prompt cancel retire : OperationKind

pub data OperationState : Type 0 where
  accepted queued running cancelling : OperationState
  completed failed cancelled timed_out in_doubt : OperationState

abbrev pub terminal : OperationState → Bool
terminal completed = true
terminal failed = true
terminal cancelled = true
terminal timed_out = true
terminal in_doubt = true
terminal accepted = false
terminal queued = false
terminal running = false
terminal cancelling = false

pub data SessionState : Type 0 where
  creating ready busy non_reusable lost retiring retired : SessionState

pub record InstructionsSubmitted : Type 0 where
  pub active_invocation_id : String
  pub contract_digests : List (String × String)

pub data InstructionState : Type 0 where
  instructions_pending : InstructionState
  submitted : InstructionsSubmitted → InstructionState

abbrev pub identities : List (String × String) → List String
identities = map λ p. p.0

-- len(set(xs)) == len(xs)
abbrev pub distinct : List String → Bool
distinct [] = true
distinct (x ∷ xs) = not (member x xs) && distinct xs

-- InstructionsSubmitted(active, digests), with the checks of `__post_init__`.
unfoldable pub instructions_submitted :
    String → List (String × String) → Result DirectError InstructionsSubmitted
instructions_submitted active digests = do
  raise_if (not (distinct (identities digests))) value_error
  raise_if (not (member active (identities digests))) value_error
  ok (record { active_invocation_id = active; contract_digests = digests })

-- The digest of the first pair with that identity.
unfoldable pub contract_for : InstructionsSubmitted → String → Option String
unfolding lookup
contract_for i invocation_id = lookup invocation_id i.contract_digests

-- What an operation is identified by, besides its id.
pub record Identity : Type 0 where
  pub digest : String
  pub kind : OperationKind
  pub logical_session_id : Option String
  pub invocation_id : Option String
  pub target_operation_id : Option String

pub record OperationRecord : Type 0 where
  pub operation_id : String
  pub identity : Identity
  pub open identity use *
  pub state : OperationState
  pub result : Option JsonObject
  pub error : Option JsonObject
  pub done : Bool

-- OperationRecord(...) with its defaults.
abbrev pub operation_record : String → Identity → OperationRecord
operation_record operation_id identity = record {
  operation_id = operation_id;
  identity = identity;
  state = accepted;
  result = none;
  error = none;
  done = false;
}

unfoldable pub set_terminal :
    OperationState
    → Option JsonObject
    → Option JsonObject
    → OperationRecord
    → Result DirectError OperationRecord
set_terminal state result error r =
    if not (terminal state)
    then err value_error
    else if terminal r.state
    then ok r
    else ok (record r { state = state; result = result; error = error; done = true })

-- The record after a call of `set_terminal`, whether it raises or not.
unfoldable pub settled :
    OperationState → Option JsonObject → Option JsonObject → OperationRecord → OperationRecord
unfolding set_terminal
settled state result error r = elim (set_terminal state result error r) [ ok r' ↦ r' | err e ↦ r ]

pub record DirectSession : Type 0 where
  pub logical_session_id : String
  pub actor_ref : String
  pub title : String
  pub model_id : String
  pub stable_instruction_digest : String
  pub permission_policy_digest : String
  pub state : SessionState
  pub active_operation_id : Option String
  pub instructions : InstructionState
