-- ===== src/DirectService/Quarantine.antt =====
-- `mark_generation_lost`, `_lost_prompt_evidence` and `_quarantine_uncertain` of direct_service.py:
-- admission is revoked at once, and outcomes are published after the owned cleanup.
pub mod Closed
use acp_proxy.Prelude.{
  String, Bool, true, false, not, ◌&&◌, ◌||◌, Option, none, some, is_some, List, [], ◌∷◌, Result,
  ok, err, ◌>>=◌, ◌>>◌, raise_if, or_raise, member, ◌==◌, if◌then◌else◌,
}
use acp_proxy.Prelude.Dict.{Dict, lookup, modify_all}
use acp_proxy.Json.{JsonObject}
use acp_proxy.DirectState.{
  DirectError, key_error, assertion_error, runtime_error, OperationKind, create, prompt, cancel,
  retire, SessionState, lost, retired, OperationState, in_doubt, terminal, OperationRecord,
  DirectSession, settled,
}
use acp_proxy.DirectProtocol.{Platform, DirectLimits}
use acp_proxy.NativeTypes.{NativeBinding, NativeObservation, observation}
use acp_proxy.DirectService.State.{
  NativeView, Collector, pending, returned, unsettled, raised, collector_cancelled, Deferred, Task,
  Generation, Closing, Service, new_generation, on_record,
}
use acp_proxy.DirectService.Evidence.{retained_evidence}
use acp_proxy.DirectService.Create.{error_body}

abbrev pub lose_session : DirectSession → DirectSession
lose_session d = elim d.state [ retired ↦ d | _ ↦ record d { state = lost } ]

-- The records that the closing of the generation will publish.
unfoldable pub unsettled_records : List String → Dict OperationRecord → List String
unsettled_records defer [] = []
unsettled_records defer ((id, r) ∷ d) =
    let rest = unsettled_records defer d in
    if not (member id defer) && not (terminal r.state) then id ∷ rest else rest

abbrev pub is_owner : Option String → String → Bool
is_owner none id = false
is_owner (some owner) id = owner == id

-- task.cancel() for every task but the current one.
unfoldable pub cancel_tasks : Option String → Dict Task → Dict Task
cancel_tasks owner [] = []
cancel_tasks owner ((id, t) ∷ d) =
    (id, if is_owner owner id then t else record t { cancelled = true }) ∷ cancel_tasks owner d

revoked_generation : Option String → Generation → Generation
unfolding cancel_tasks
revoked_generation owner g = record g {
  quarantined = true;
  sessions = modify_all lose_session g.sessions;
  execution_tasks = cancel_tasks owner g.execution_tasks;
  collector_tasks = [];
}

-- Under the state lock, the first time: `generation_id` is the fresh uuid of the replacement.
unfoldable pub revoke : Option String → List String → String → Service → Service
unfolding unsettled_records revoked_generation new_generation
revoke owner defer generation_id s = record s {
  admitted = revoked_generation owner s.admitted;
  fresh = some (new_generation generation_id s.limits);
  available = false;
  closing = some (record {
    records = unsettled_records defer s.admitted.ledger.records;
    collectors = s.admitted.collector_tasks;
  });
}

-- `mark_generation_lost` until its first await: only the first caller revokes.
unfoldable pub begin_loss : Option String → List String → String → Service → Service
unfolding revoke
begin_loss owner defer generation_id s =
    if s.available then revoke owner defer generation_id s else s

abbrev observed : Option Collector → Option NativeObservation
observed (some (returned t)) = some (observation t)
observed (some (unsettled o)) = some o
observed _ = none

-- What the collector of an operation has observed, if the closing captured that collector.
abbrev captured : List String → Dict Collector → String → Option NativeObservation
captured ids collectors id = if member id ids then observed (lookup id collectors) else none

-- No observation: the binding, and nothing complete.
abbrev nothing_observed : NativeBinding → NativeObservation
nothing_observed binding = record {
  binding = binding;
  response_text = "";
  events = [];
  tools = [];
  permissions = [];
  effects = [];
  complete = false;
}

module _ (p : Platform) (n : NativeView) where
  prompt_observation : Option NativeObservation → String → Result DirectError NativeObservation
  prompt_observation (some o) sid = ok o
  prompt_observation none sid = do
    binding ← or_raise (n.binding sid) runtime_error
    ok (nothing_observed binding)

  -- By the kind of the record, the captured collectors and the sessions of the captured generation.
  lost_evidence :
      OperationKind
      → OperationRecord
      → Option NativeObservation
      → Dict DirectSession
      → String
      → Result DirectError (Option JsonObject)
  unfolding prompt_observation retained_evidence
  lost_evidence prompt r seen sessions generation_id = do
    sid ← or_raise r.logical_session_id assertion_error
    invocation_id ← or_raise r.invocation_id assertion_error
    session ← or_raise (lookup sid sessions) key_error
    o ← prompt_observation seen session.logical_session_id
    evidence ← retained_evidence p session invocation_id generation_id o
    ok (some evidence)
  lost_evidence _ r seen sessions generation_id = ok none

  unfoldable pub lost_prompt_evidence :
      OperationRecord
      → Generation
      → List String
      → Dict Collector
      → Result DirectError (Option JsonObject)
  unfolding lost_evidence
  lost_prompt_evidence r g ids collectors =
      lost_evidence r.kind r (captured ids collectors r.operation_id) g.sessions g.generation_id

  -- record.set_terminal(IN_DOUBT, …) for one record of the closing.
  unfoldable pub publish_record :
      String → List String → Dict Collector → Generation → Result DirectError Generation
  unfolding lost_prompt_evidence settled
  publish_record id ids collectors g = do
    r ← or_raise (lookup id g.ledger.records) key_error
    evidence ← lost_prompt_evidence r g ids collectors
    ok (
        on_record id
          (settled in_doubt evidence
            (some (error_body "continuity_lost" "native continuity generation was lost")))
          g)

  -- The records in order, until one raises.
  unfoldable pub publish_records :
      List String
      → List String
      → Dict Collector
      → Generation
      → Result DirectError (Unit {0}) × Generation
  unfolding publish_record
  publish_records [] ids collectors g = (ok tt, g)
  publish_records (id ∷ rest) ids collectors g = elim (publish_record id ids collectors g) [
    | err e ↦ (err e, g)
    | ok h ↦ publish_records rest ids collectors h
  ]

  -- The `finally` of `mark_generation_lost`, with whether the cleanup failed.
  unfoldable pub end_loss : Bool → Service → Result DirectError (Unit {0}) × Service
  unfolding publish_records
  end_loss cleanup_failed s = elim s.closing [
    | none ↦ (ok tt, s)
    | some c ↦
        let (published, g) = publish_records c.records c.collectors s.collectors s.admitted in
        elim published [
          | err e ↦
              (err e, record s { admitted = g; closing = none; shutdown_error = cleanup_failed })
          | ok _ ↦ (
            ok tt,
            record s {
              admitted = g;
              closing = none;
              shutdown_error = cleanup_failed;
              shutdown_done = true;
            },
          )
        ]
  ]

  -- The result of a deferred settlement: its own, or what the generation has lost.
  unfoldable pub deferred_result :
      Deferred
      → OperationRecord
      → Generation
      → List String
      → Dict Collector
      → Result DirectError (Option JsonObject)
  unfolding lost_prompt_evidence
  deferred_result d r g ids collectors = elim d.result [
    | none ↦ lost_prompt_evidence r g ids collectors
    | some result ↦ ok (some result)
  ]

  unfoldable pub deferred_outcome :
      Bool → Deferred → Option JsonObject → OperationRecord → OperationRecord
  unfolding settled
  deferred_outcome true d result r =
      settled in_doubt result
        (some (error_body "cleanup_settlement_unknown" "native owned cleanup did not settle")) r
  deferred_outcome false d result r = settled d.state result d.error r

  -- One settlement of `_quarantine_uncertain`; `g` is the generation that it captured.
  unfoldable pub publish_deferred :
      Bool
      → Deferred
      → Generation
      → List String
      → Dict Collector
      → Generation
      → Result DirectError Generation
  unfolding deferred_result deferred_outcome
  publish_deferred failed d g ids collectors target =
      elim (lookup d.operation_id target.ledger.records) [
        | none ↦ err key_error
        | some r ↦ if terminal r.state then ok target else (do
          result ← deferred_result d r g ids collectors
          ok (on_record d.operation_id (deferred_outcome failed d result) target))
      ]

  -- The `finally` of `_quarantine_uncertain`: `old` tells that it captured the admitted generation.
  unfoldable pub settle_deferred :
      List Deferred → Bool → List String → Service → Result DirectError (Unit {0}) × Service
  unfolding publish_deferred
  settle_deferred [] old ids s = (ok tt, s)
  settle_deferred (d ∷ ds) old ids s =
      let g : Option Generation = if old then some s.admitted else s.fresh in
      elim g [
        | none ↦ (err runtime_error, s)
        | some captured_generation ↦
            elim (publish_deferred s.shutdown_error d captured_generation ids s.collectors
              s.admitted) [
                | err e ↦ (err e, s)
                | ok target ↦ settle_deferred ds old ids (record s { admitted = target })
              ]
      ]
