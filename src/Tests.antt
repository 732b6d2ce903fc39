-- ===== src/Tests.antt =====
-- Runs of the service on small inputs: one session, one prompt, and what the theorems say of them.
mod Captures
mod Found
mod Tools
mod Transport
mod Turns
mod Commands
use acp_proxy.Prelude.{
  ◌+◌, ◌≤◌, String, pos, ◌≡◌, refl, Bool, true, false, ◌⊎◌, Option, none, some, List, [], ◌∷◌, ok,
  err, length, arith,
}
use acp_proxy.Prelude.{is_some, member, ◌↔◌}
use acp_proxy.Json.{Fields, field, end, obj, arr, cons, nil, str, int, bool, get}
use acp_proxy.Json.Checked.{
  checked_json, py_list, py_cons, py_nil, py_bool, embed, checked_json_iff,
}
use acp_proxy.PermissionPolicy.{Policy, from_json, from_json-exact}
use acp_proxy.WorkspaceTools.{WorkspaceOperation, create_files, decode}
use Prim.Native.String.{◌++◌ as ◌⧺◌}
use acp_proxy.WorkspaceTools.{ExactEdit}
use acp_proxy.WorkspaceTools.Edits.{apply_edit}
use acp_proxy.PermissionPolicy.{PermissionAction}
use acp_proxy.WorkspaceTools.Batch.{
  Answers, FileWork, linked, already_there, file_batch, admit_path, contents,
}
use acp_proxy.WorkspaceTools.Edits.Exact.{apply_edit-exact}
use acp_proxy.Prelude.Dict.{lookup, insert, modify}
use acp_proxy.DirectState.{
  direct_conflict, direct_not_found, direct_generation_mismatch, OperationRecord, operation_record,
  DirectSession, prompt, create, completed, in_doubt, Identity, ready, instructions_pending,
  InstructionsSubmitted, submitted, contract_for,
}
use acp_proxy.DirectState.Ledger.{DirectLedger, admit}
use acp_proxy.DirectState.Ledger.Trace.{
  LedgerEvent, admits, settles, run, created, known, Within, created-at_most_once, run-settled,
  run-Within,
}
use acp_proxy.DirectProtocol.{
  Platform, DirectLimits, PinnedRequest, CreateSessionRequest, PromptRequest, CancelRequest,
  RetireSessionRequest, allow_all, initial, validate_layers,
}
use acp_proxy.DirectService.State.{
  NativeView, Service, Task, direct_service, execute_prompt, scheduled,
}
use acp_proxy.DirectService.Evidence.{PromptResult}
use acp_proxy.DirectService.Create.{admit_create}
use acp_proxy.DirectService.Prompt.{
  admit_prompt, validate_prompt_lifetime, record_instruction_submission, render_prompt,
  prompt_identity,
}
use acp_proxy.DirectService.Retire.{admit_retire}
use acp_proxy.DirectService.Quarantine.{begin_loss}
use acp_proxy.DirectService.Machine.{Reach, here, next, creates, prompts, loses, interruptible}
use acp_proxy.DirectService.Machine.Fits.{work_kind}
use acp_proxy.DirectService.Accounts.{outstanding}
use acp_proxy.DirectService.Settle.{release_prompt_reservation}
use acp_proxy.DirectService.Cancel.{admit_cancel}
use acp_proxy.DirectService.Prompt.Refusals.{
  admit_prompt-refused, admit_prompt-replayed, render_prompt-validated,
}
use acp_proxy.DirectService.Prompt.Exclusion.{admit_prompt-exclusive}
use acp_proxy.DirectService.Prompt.Lifetime.{Settled, record_instruction_submission-validated}
use acp_proxy.DirectService.Quarantine.Closed.{begin_loss-closes}
use acp_proxy.DirectService.Create.Refusals.{admit_create-refused}
use acp_proxy.DirectService.Retire.Refusals.{admit_retire-refused}
use acp_proxy.DirectService.Machine.Reachable.{
  Reach-settled, Reach-reservations, Reach-bounds, Reach-tasks,
}

abbrev platform : Platform
platform = record { sha256 = λ t. t; dumps = λ v. ""; loads = λ t. none; realpath = λ t. t }

abbrev view : NativeView
view = record {
  models = record { id = "m"; name = "Model" } ∷ [];
  is_alive = true;
  allocates = λ id. true;
  binding = λ id. none;
}

abbrev limits : DirectLimits
limits = record {
  max_request_bytes = 100;
  max_prompt_bytes = 100;
  max_response_bytes = 100;
  max_event_bytes = 100;
  max_http_response_bytes = 100;
  max_sessions = 2;
  max_operations = 3;
  max_queued_prompts = 1;
  max_execution_timeout_s = 10;
  session_creation_timeout_s = 10;
  cancellation_grace_s = 10;
}

abbrev pinned : String → PinnedRequest
pinned id = record { protocol_major = 2; continuity_generation_id = "g"; operation_id = id }

abbrev create_request : CreateSessionRequest
create_request = record {
  pinned = pinned "c1";
  logical_session_id = "s1";
  expected_canonical_workspace = "/w";
  actor_ref = "actor";
  title = "title";
  model_id = "m";
  stable_instruction_digest = "be brief";
  permission_policy = allow_all;
}

abbrev prompt_request : String → PromptRequest
prompt_request id = record {
  pinned = pinned id;
  invocation_id = "i1";
  phase = initial;
  stable_instruction_digest = "be brief";
  output_contract_digest = "text";
  execution_timeout_s = 5;
  stable_instructions = some "be brief";
  prompt = some "hello";
  output_contract = some "text";
  delta = none;
}

abbrev valid : PromptResult → Bool
valid r = true

abbrev started : Service
started = direct_service "/w" limits "g"

abbrev opened : Service
opened = (admit_create platform view create_request started).1

abbrev busy_service : Service
busy_service = (admit_prompt platform view "s1" (prompt_request "p1") opened).1

abbrev or_first : Option OperationRecord → OperationRecord
or_first none = operation_record "" (record {
  digest = "";
  kind = create;
  logical_session_id = none;
  invocation_id = none;
  target_operation_id = none;
})
or_first (some r) = r

abbrev opening : OperationRecord
opening = or_first (lookup "c1" opened.admitted.ledger.records)

Reach-opened : Reach platform valid started opened
Reach-opened = next here (creates view create_request)

Reach-busy : Reach platform valid started busy_service
Reach-busy = next Reach-opened (prompts view "s1" (prompt_request "p1"))

Reach-settled_example : lookup "c1" busy_service.admitted.ledger.records ≡ some opening
unfolding direct_service admit_create lookup admit modify insert
Reach-settled_example =
    Reach-settled platform valid "/w" "g" limits opened Reach-opened busy_service "c1" opening
      (next here (prompts view "s1" (prompt_request "p1"))) refl refl

Reach-reservations_example :
    (busy_service.admitted.prompt_reservations
      ≡ pos (
          outstanding busy_service.admitted.released_reservations
            busy_service.admitted.ledger.records))
    × ((id : String) (r : OperationRecord)
        → lookup id busy_service.admitted.ledger.records ≡ some r
        → r.kind ≡ prompt
        → (release_prompt_reservation id busy_service.admitted).0 ≡ ok tt)
Reach-reservations_example =
    Reach-reservations platform valid "/w" "g" limits busy_service Reach-busy

Reach-bounds_example :
    (length busy_service.admitted.sessions ≤ 2)
    × (length busy_service.admitted.ledger.records ≤ 3)
    × (outstanding busy_service.admitted.released_reservations busy_service.admitted.ledger.records
        ≤ 2)
Reach-bounds_example = Reach-bounds platform valid "/w" "g" limits busy_service Reach-busy

abbrev lost_service : Service
lost_service = begin_loss none [] "g2" busy_service

Reach-lost : Reach platform valid started lost_service
Reach-lost = next Reach-busy (loses "g2")

abbrev cancelled_prompt : Task
cancelled_prompt = record {
  work = execute_prompt "s1" (prompt_request "p1");
  point = scheduled;
  dispatched = false;
  cancelled = true;
}

Reach-tasks_example :
    ((r : OperationRecord) × (lookup "p1" lost_service.admitted.ledger.records ≡ some r)
      × (work_kind cancelled_prompt.work r.kind ≡ true))
    × (lost_service.available ≡ false
        → (cancelled_prompt.cancelled ≡ true) ⊎ (interruptible cancelled_prompt.point ≡ false))
unfolding lookup begin_loss admit_prompt admit_create direct_service admit modify insert
Reach-tasks_example =
    Reach-tasks platform valid "/w" "g" limits lost_service Reach-lost "p1" cancelled_prompt refl

abbrev some_identity : Identity
some_identity = record {
  digest = "d";
  kind = create;
  logical_session_id = some "s1";
  invocation_id = none;
  target_operation_id = none;
}

abbrev two_admissions : List LedgerEvent
two_admissions =
    admits "a" some_identity ∷ settles "a" completed none none ∷ admits "a" some_identity ∷ []

abbrev empty_ledger : DirectLedger
empty_ledger = record { max_operations = 1; records = [] }

created-at_most_once_example : created "a" two_admissions empty_ledger + known "a" empty_ledger ≤ 1
created-at_most_once_example = created-at_most_once "a" two_admissions empty_ledger

abbrev settled_record : OperationRecord
settled_record = record {
  operation_id = "a";
  identity = some_identity;
  state = in_doubt;
  result = none;
  error = none;
  done = true;
}

abbrev settled_ledger : DirectLedger
settled_ledger = record { max_operations = 1; records = ("a", settled_record) ∷ [] }

run-settled_example : lookup "a" (run two_admissions settled_ledger).records ≡ some settled_record
unfolding lookup
run-settled_example = run-settled "a" two_admissions settled_ledger settled_record refl refl

run-Within_example : Within 1 (run two_admissions settled_ledger)
run-Within_example =
    run-Within 1 two_admissions settled_ledger (record { bound = refl; fits = omega arith })

admit_prompt-refused_example :
    (admit_prompt platform view "s9" (prompt_request "p1") opened).1 ≡ opened
unfolding lookup admit_prompt admit_create direct_service admit modify insert
admit_prompt-refused_example =
    admit_prompt-refused platform view "s9" (prompt_request "p1") opened direct_not_found refl

abbrev waiting : OperationRecord
waiting = or_first (lookup "p1" busy_service.admitted.ledger.records)

admit_prompt-replayed_example :
    ((admit_prompt platform view "s1" (prompt_request "p1") busy_service).1 ≡ busy_service)
    × ((a : String) (b : Bool)
        → (admit_prompt platform view "s1" (prompt_request "p1") busy_service).0 ≡ ok (a, b)
        → (a ≡ waiting.operation_id)
          × (b ≡ false)
          × (waiting.identity ≡ prompt_identity platform "s1" (prompt_request "p1")))
unfolding lookup admit_prompt admit_create direct_service admit modify insert
admit_prompt-replayed_example =
    admit_prompt-replayed platform view "s1" (prompt_request "p1") busy_service waiting refl

admit_prompt-exclusive_example :
    ¬ ((admit_prompt platform view "s1" (prompt_request "p2") busy_service).0 ≡ ok ("p2", true))
unfolding lookup admit_prompt admit_create direct_service admit modify insert
admit_prompt-exclusive_example =
    admit_prompt-exclusive platform view view "s1" (prompt_request "p1") (prompt_request "p2")
      opened "p1" refl "p2"

abbrev fresh_session : DirectSession
fresh_session = record {
  logical_session_id = "s1";
  actor_ref = "actor";
  title = "title";
  model_id = "m";
  stable_instruction_digest = "be brief";
  permission_policy_digest = "";
  state = ready;
  active_operation_id = none;
  instructions = instructions_pending;
}

record_instruction_submission-validated_example :
    (d : DirectSession) × (i : InstructionsSubmitted) × (record_instruction_submission fresh_session
        (prompt_request "p1")
      ≡ ok d)
    × (d.instructions ≡ submitted i)
    × Settled (submitted i)
    × (i.active_invocation_id ≡ "i1")
    × (contract_for i "i1" ≡ some "text")
unfolding validate_prompt_lifetime
record_instruction_submission-validated_example =
    record_instruction_submission-validated platform fresh_session (prompt_request "p1") tt refl

render_prompt-validated_example : (text : String) × (render_prompt (prompt_request "p1") ≡ ok text)
unfolding validate_layers
render_prompt-validated_example = render_prompt-validated (prompt_request "p1") refl

begin_loss-closes_example :
    ((r : CreateSessionRequest)
      → admit_create platform view r lost_service ≡ (err direct_generation_mismatch, lost_service))
    × ((sid : String) (r : PromptRequest)
        → admit_prompt platform view sid r lost_service
          ≡ (err direct_generation_mismatch, lost_service))
    × ((r : CancelRequest)
        → admit_cancel platform view r lost_service
          ≡ (err direct_generation_mismatch, lost_service))
    × ((r : RetireSessionRequest)
        → admit_retire platform view r lost_service
          ≡ (err direct_generation_mismatch, lost_service))
    × ((other : Option String) (later : List String) (id : String)
        → begin_loss other later id lost_service ≡ lost_service)
    × (lost_service.admitted.ledger ≡ busy_service.admitted.ledger)
begin_loss-closes_example = begin_loss-closes platform view none [] "g2" busy_service

abbrev unknown_model : CreateSessionRequest
unknown_model = record create_request { model_id = "x" }

admit_create-refused_example : (admit_create platform view unknown_model started).1 ≡ started
unfolding direct_service admit_create
admit_create-refused_example =
    admit_create-refused platform view unknown_model started direct_conflict refl

abbrev retire_request : RetireSessionRequest
retire_request = record { pinned = pinned "r1"; logical_session_id = "s9" }

admit_retire-refused_example : (admit_retire platform view retire_request started).1 ≡ started
unfolding direct_service admit_retire lookup
admit_retire-refused_example =
    admit_retire-refused platform view retire_request started direct_not_found refl
