-- ===== src/DirectProtocol.antt =====
-- direct_protocol.py: the requests of the direct protocol, their layer rules and their digests. What
-- pydantic checks field by field (patterns, lengths) is not modelled. A duration is a natural number
-- of 2^-1074 seconds, of which every positive finite float is a multiple.
use acp_proxy.Prelude.{
  ℕ, String, pos, negsuc, Bool, true, not, ◌||◌, Option, none, some, is_some, [], ◌∷◌, ◌*◌, ◌^◌,
  Result, ◌>>◌, raise_if, ◌==◌,
}
use acp_proxy.Json.{JsonValue, null, int, float, str, obj, JsonObject, object}
use acp_proxy.DirectState.{DirectError, value_error}

-- DIRECT_PROTOCOL_MAJOR
abbrev pub direct_protocol_major : ℕ
direct_protocol_major = 2

-- The number of a duration's units in a second.
abbrev pub second : ℕ
second = 2 ^ 1074

pub record DirectLimits : Type 0 where
  pub max_request_bytes : ℕ
  pub max_prompt_bytes : ℕ
  pub max_response_bytes : ℕ
  pub max_event_bytes : ℕ
  pub max_http_response_bytes : ℕ
  pub max_sessions : ℕ
  pub max_operations : ℕ
  pub max_queued_prompts : ℕ
  pub max_execution_timeout_s : ℕ
  pub session_creation_timeout_s : ℕ
  pub cancellation_grace_s : ℕ

-- DirectLimits()
pub direct_limits : DirectLimits
direct_limits = record {
  max_request_bytes = 1_000_000;
  max_prompt_bytes = 500_000;
  max_response_bytes = 2_000_000;
  max_event_bytes = 16 * 1024 * 1024;
  max_http_response_bytes = 128 * 1024 * 1024;
  max_sessions = 64;
  max_operations = 4096;
  max_queued_prompts = 64;
  max_execution_timeout_s = 600 * second;
  session_creation_timeout_s = 30 * second;
  cancellation_grace_s = 10 * second;
}

-- `PermissionPolicy` of the wire: version 1 and mode "allow_all" are its only values.
pub data PermissionPolicy : Type 0 where
  allow_all : PermissionPolicy

pub record PinnedRequest : Type 0 where
  pub protocol_major : ℕ
  pub continuity_generation_id : String
  pub operation_id : String

pub record CreateSessionRequest : Type 0 where
  pub pinned : PinnedRequest
  pub open pinned use *
  pub logical_session_id : String
  pub expected_canonical_workspace : String
  pub actor_ref : String
  pub title : String
  pub model_id : String
  pub stable_instruction_digest : String
  pub permission_policy : PermissionPolicy

pub data PromptPhase : Type 0 where
  initial invocation correction continuation : PromptPhase

pub record PromptRequest : Type 0 where
  pub pinned : PinnedRequest
  pub open pinned use *
  pub invocation_id : String
  pub phase : PromptPhase
  pub stable_instruction_digest : String
  pub output_contract_digest : String
  pub execution_timeout_s : ℕ
  pub stable_instructions : Option String
  pub prompt : Option String
  pub output_contract : Option String
  pub delta : Option String

pub record CancelRequest : Type 0 where
  pub pinned : PinnedRequest
  pub open pinned use *
  pub target_operation_id : String

pub record RetireSessionRequest : Type 0 where
  pub pinned : PinnedRequest
  pub open pinned use *
  pub logical_session_id : String

-- `not value`, of an optional text.
abbrev pub is_blank : Option String → Bool
is_blank none = true
is_blank (some t) = t == ""

-- `PromptRequest.validate_layers`, by phase.
unfoldable pub layers_for : PromptPhase → PromptRequest → Result DirectError (Unit {0})
layers_for initial r = do
  raise_if (not (is_some r.stable_instructions)) value_error
  raise_if (is_blank r.prompt || is_blank r.output_contract) value_error
  raise_if (is_some r.delta) value_error
layers_for invocation r = do
  raise_if (is_blank r.prompt || is_blank r.output_contract) value_error
  raise_if (is_some r.stable_instructions || is_some r.delta) value_error
layers_for _ r = do
  raise_if (is_blank r.delta) value_error
  raise_if (is_some r.stable_instructions || is_some r.prompt || is_some r.output_contract)
      value_error

unfoldable pub validate_layers : PromptRequest → Result DirectError (Unit {0})
unfolding layers_for
validate_layers r = layers_for r.phase r

-- What the program takes from its platform: SHA-256 in lowercase hex, `json.dumps` with sorted keys
-- and compact separators, `json.loads` followed by `checked_json`, and `os.path.realpath`.
pub record Platform : Type 0 where
  pub sha256 : String → String
  pub dumps : JsonValue → String
  pub loads : String → Option JsonValue
  pub realpath : String → String

-- `model_dump(mode="json")`, in the order of the fields.
abbrev pub optional : Option String → JsonValue
optional none = null
optional (some t) = str t

abbrev pub phase_value : PromptPhase → String
phase_value initial = "initial"
phase_value invocation = "invocation"
phase_value correction = "correction"
phase_value continuation = "continuation"

unfoldable pub dump_policy : PermissionPolicy → JsonObject
dump_policy allow_all = object (("version", int (pos 1)) ∷ ("mode", str "allow_all") ∷ [])

unfoldable pub dump_create : CreateSessionRequest → JsonObject
unfolding dump_policy
dump_create r = object (
    ("protocol_major", int (pos r.protocol_major))
    ∷ ("continuity_generation_id", str r.continuity_generation_id)
    ∷ ("operation_id", str r.operation_id)
    ∷ ("logical_session_id", str r.logical_session_id)
    ∷ ("expected_canonical_workspace", str r.expected_canonical_workspace)
    ∷ ("actor_ref", str r.actor_ref)
    ∷ ("title", str r.title)
    ∷ ("model_id", str r.model_id)
    ∷ ("stable_instruction_digest", str r.stable_instruction_digest)
    ∷ ("permission_policy", obj (dump_policy r.permission_policy))
    ∷ [])

unfoldable pub dump_prompt : PromptRequest → JsonObject
dump_prompt r = object (
    ("protocol_major", int (pos r.protocol_major))
    ∷ ("continuity_generation_id", str r.continuity_generation_id)
    ∷ ("operation_id", str r.operation_id)
    ∷ ("invocation_id", str r.invocation_id)
    ∷ ("phase", str (phase_value r.phase))
    ∷ ("stable_instruction_digest", str r.stable_instruction_digest)
    ∷ ("output_contract_digest", str r.output_contract_digest)
    ∷ ("execution_timeout_s", float (pos r.execution_timeout_s) (negsuc 1073))
    ∷ ("stable_instructions", optional r.stable_instructions)
    ∷ ("prompt", optional r.prompt)
    ∷ ("output_contract", optional r.output_contract)
    ∷ ("delta", optional r.delta)
    ∷ [])

unfoldable pub dump_cancel : CancelRequest → JsonObject
dump_cancel r = object (
    ("protocol_major", int (pos r.protocol_major))
    ∷ ("continuity_generation_id", str r.continuity_generation_id)
    ∷ ("operation_id", str r.operation_id)
    ∷ ("target_operation_id", str r.target_operation_id)
    ∷ [])

unfoldable pub dump_retire : RetireSessionRequest → JsonObject
dump_retire r = object (
    ("protocol_major", int (pos r.protocol_major))
    ∷ ("continuity_generation_id", str r.continuity_generation_id)
    ∷ ("operation_id", str r.operation_id)
    ∷ ("logical_session_id", str r.logical_session_id)
    ∷ [])

module _ (p : Platform) where
  unfoldable pub sha256_text : String → String
  sha256_text value = p.sha256 value

  -- `canonical_request_digest`, of what `model_dump` gives.
  unfoldable pub canonical_request_digest : JsonObject → String
  canonical_request_digest payload = p.sha256 (p.dumps (obj payload))
