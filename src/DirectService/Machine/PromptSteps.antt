-- ===== src/DirectService/Machine/PromptSteps.antt =====
-- The steps of a prompt's task keep the invariant of the machine.
use acp_proxy.Prelude.{
  String, ◌≡◌, Bool, true, false, Option, none, some, [], ◌∷◌, Result, ok, err, arith,
  if◌then◌else◌,
}
use acp_proxy.Prelude.Dict.{lookup, insert}
use acp_proxy.Json.{JsonObject}
use acp_proxy.DirectState.{
  SessionState, DirectError, running, cancelling, terminal, OperationRecord, DirectSession,
}
use acp_proxy.DirectProtocol.{Platform, PromptRequest}
use acp_proxy.NativeTypes.{NativeTerminal}
use acp_proxy.DirectService.State.{
  Collector, pending, returned, unsettled, raised, collector_cancelled, execute_prompt, Point,
  scheduled, collecting, deadline_sending, deadline_waiting, Generation, Service, on_admitted,
  on_record, at_point, set_state, require_current_generation,
}
use acp_proxy.DirectService.Evidence.{PromptResult, retained_evidence}
use acp_proxy.DirectService.Settle as SettleModule
use acp_proxy.DirectService.Settle.{
  Outcome, settles, raises, quarantines, Settlement, Start, already_settled, generation_changed,
  dispatches, dispatch, settle_terminal, settle_deadline, end_deadline, deadline_unsettled,
  set_session_state,
}
use acp_proxy.DirectService.Settle.Touched.{settle_terminal-Touches, settle_deadline-Touches}
use acp_proxy.DirectService.Tasks.{
  pop, prompt_started, prompt_timeout, after_terminal, after_deadline, with_objects, unsettled_with,
  returned_terminal, collected, deadline_ended, deadline_sent, deadline_grace_over, prompt_in_doubt,
  enter_quarantine, discard, is_done,
}
use acp_proxy.DirectService.Touches.{
  Touches, Touches-refl, Touches-session, Touches-collectors, Touches-set_state,
}
use acp_proxy.DirectService.Machine.Ok.{Ok, Progress, Progress-refl}
use acp_proxy.DirectService.Machine.Ends.{moves-Progress, finishing-Progress}
use acp_proxy.DirectService.Machine.Loss.{quarantine-Progress}

not_terminal_if_started :
    (id : String) (s : Service) (r : OperationRecord)
    → SettleModule.start id s ≡ dispatches
    → lookup id s.admitted.ledger.records ≡ some r
    → terminal r.state ≡ false
unfolding SettleModule.start
not_terminal_if_started id s r h e = ground arith

pub spoiled-Touches :
    (id sid : String) (g h : Generation) → Touches id g h → Touches id g (end_deadline id sid h)
unfolding end_deadline
spoiled-Touches id sid g h t =
    Touches-session id sid (set_session_state SessionState.non_reusable) g h t

unfoldable pub popped-Touches : (id : String) (g : Generation) → Touches id g (pop id g)
popped-Touches id g = Touches-collectors id (discard id g.collector_tasks) g g (Touches-refl id g)

-- A task of a prompt that is not cancelled, at a point.
abbrev pub PromptAt : Service → String → String → PromptRequest → Point → Bool → Type 0
PromptAt s id sid r point b =
    lookup id s.admitted.execution_tasks
    ≡ some
        (record { work = execute_prompt sid r; point = point; dispatched = b; cancelled = false })

module _ (id : String) (s : Service) (good : Ok s) where
  pub started-Progress :
      (x : Start) (uuid sid : String) (q : PromptRequest) (b : Bool)
      → SettleModule.start id s ≡ x
      → PromptAt s id sid q scheduled b
      → Progress s (prompt_started x id uuid s)
  unfolding prompt_started dispatch Touches-collectors Touches-set_state
  started-Progress already_settled uuid sid q b h e =
      finishing-Progress id s s.admitted (Touches-refl id s.admitted) s.collectors good
  started-Progress generation_changed uuid sid q b h e =
      quarantine-Progress id s s.admitted (Touches-refl id s.admitted)
        (prompt_in_doubt id none ∷ []) false uuid good
  started-Progress dispatches uuid sid q b h e =
      moves-Progress id s (dispatch id s.admitted)
        (Touches-collectors id (id ∷ s.admitted.collector_tasks) s.admitted
          (on_record id (set_state running) s.admitted)
          (Touches-set_state id running s.admitted (λ r. not_terminal_if_started id s r h)))
        (insert id pending s.collectors) good
        (λ u. record u { point = collecting; dispatched = true }) (λ u r eu er f. ground arith)

  pub timeout-Progress :
      (sid : String) (q : PromptRequest) (b : Bool)
      → PromptAt s id sid q collecting b
      → Progress s (prompt_timeout id s)
  unfolding prompt_timeout Touches-set_state
  timeout-Progress sid q b e =
      moves-Progress id s (on_record id (set_state cancelling) s.admitted)
        (Touches-set_state id cancelling s.admitted
          (λ r er. let (r', er', f) = good.fit.at id _ e in ground arith))
        s.collectors good (at_point deadline_sending) (λ u r eu er f. ground arith)

  pub sent-Progress :
      (sent : Bool) (uuid sid : String) (q : PromptRequest) (b : Bool)
      → PromptAt s id sid q deadline_sending b
      → Progress s (deadline_sent sent id uuid s)
  unfolding deadline_sent Touches-refl popped-Touches Touches-collectors
  sent-Progress true uuid sid q b e =
      moves-Progress id s s.admitted (Touches-refl id s.admitted) s.collectors good
        (at_point deadline_waiting) (λ u r eu er f. ground arith)
  sent-Progress false uuid sid q b e = failed (is_done (lookup id s.collectors))
    where
      failed :
          (done : Bool)
          → Progress s (
              enter_quarantine id
                (prompt_in_doubt id none ∷ [])
                false
                uuid
                (if done then on_admitted (pop id) s else s))
      failed true =
          quarantine-Progress id s (pop id s.admitted) (popped-Touches id s.admitted)
            (prompt_in_doubt id none ∷ []) false uuid good
      failed false =
          quarantine-Progress id s s.admitted (Touches-refl id s.admitted)
            (prompt_in_doubt id none ∷ []) false uuid good

  pub grace-Progress : (uuid : String) → Progress s (deadline_grace_over id uuid s)
  unfolding deadline_grace_over
  grace-Progress uuid =
      quarantine-Progress id s s.admitted (Touches-refl id s.admitted) (deadline_unsettled id ∷ [])
        true uuid good

  after_terminal-Progress :
      (o : Outcome) (g : Generation) (uuid : String)
      → Touches id s.admitted g
      → Progress s (after_terminal id uuid (o, g) s)
  unfolding after_terminal
  after_terminal-Progress settles g uuid t = finishing-Progress id s g t s.collectors good
  after_terminal-Progress (raises x) g uuid t =
      quarantine-Progress id s g t (prompt_in_doubt id none ∷ []) false uuid good
  after_terminal-Progress (quarantines d) g uuid t =
      quarantine-Progress id s g t (d ∷ []) false uuid good

  after_deadline-Progress :
      (o : Outcome) (g : Generation) (sid uuid : String)
      → Touches id s.admitted g
      → Progress s (after_deadline id sid uuid (o, g) s)
  unfolding after_deadline
  after_deadline-Progress settles g sid uuid t =
      finishing-Progress id s (end_deadline id sid g) (spoiled-Touches id sid s.admitted g t)
        s.collectors good
  after_deadline-Progress (raises x) g sid uuid t =
      quarantine-Progress id s (end_deadline id sid g) (spoiled-Touches id sid s.admitted g t)
        (prompt_in_doubt id none ∷ []) false uuid good
  after_deadline-Progress (quarantines d) g sid uuid t =
      quarantine-Progress id s g t (d ∷ []) true uuid good

  pub with_objects-Progress :
      (r : Option OperationRecord) (d : Option DirectSession)
      (k : OperationRecord → DirectSession → Service → Service)
      → ((r : OperationRecord) (d : DirectSession) → Progress s (k r d s))
      → Progress s (with_objects r d id k s)
  unfolding with_objects
  with_objects-Progress (some r) (some d) k h = h r d
  with_objects-Progress (some r) none k h =
      finishing-Progress id s s.admitted (Touches-refl id s.admitted) s.collectors good
  with_objects-Progress none d k h =
      finishing-Progress id s s.admitted (Touches-refl id s.admitted) s.collectors good

  unsettled_with-Progress :
      (x : Result DirectError JsonObject) (g : Generation) (uuid : String)
      → Touches id s.admitted g
      → Progress s (unsettled_with x id uuid (record s { admitted = g }))
  unfolding unsettled_with
  unsettled_with-Progress (err x) g uuid t = finishing-Progress id s g t s.collectors good
  unsettled_with-Progress (ok evidence) g uuid t =
      quarantine-Progress id s g t (prompt_in_doubt id (some evidence) ∷ []) false uuid good

  module _ (p : Platform) (valid : PromptResult → Bool) (sid uuid : String)
      (q : PromptRequest) where
    returned-Progress :
        (x : Result DirectError (Unit {0})) (n : NativeTerminal) (r : OperationRecord)
        (d : DirectSession)
        → Progress s (returned_terminal p valid x id q n uuid r d s)
    unfolding returned_terminal
    returned-Progress (err x) n r d =
        quarantine-Progress id s s.admitted (Touches-refl id s.admitted)
          (prompt_in_doubt id none ∷ []) false uuid good
    returned-Progress (ok x) n r d =
        after_terminal-Progress (settle_terminal p valid id r d q n s.admitted).0
          (settle_terminal p valid id r d q n s.admitted).1 uuid
          (settle_terminal-Touches p valid id d q s.admitted r n)

    pub collected-Progress :
        (c : Collector) (r : OperationRecord) (d : DirectSession)
        → Progress s (collected p valid id q c uuid r d s)
    unfolding collected
    collected-Progress pending r d = Progress-refl s good
    collected-Progress (returned n) r d = returned-Progress (require_current_generation s) n r d
    collected-Progress (unsettled o) r d =
        unsettled_with-Progress (retained_evidence p d q.invocation_id s.admitted.generation_id o)
          s.admitted uuid (Touches-refl id s.admitted)
    collected-Progress raised r d =
        quarantine-Progress id s s.admitted (Touches-refl id s.admitted)
          (prompt_in_doubt id none ∷ []) false uuid good
    collected-Progress collector_cancelled r d =
        finishing-Progress id s s.admitted (Touches-refl id s.admitted) s.collectors good

    pub ended-Progress :
        (c : Collector) (r : OperationRecord) (d : DirectSession)
        → Progress s (deadline_ended p valid id sid q c uuid r d s)
    unfolding deadline_ended
    ended-Progress pending r d = Progress-refl s good
    ended-Progress (returned n) r d =
        after_deadline-Progress (settle_deadline p valid id d q n s.admitted).0
          (settle_deadline p valid id d q n s.admitted).1 sid uuid
          (settle_deadline-Touches p valid id d q s.admitted n)
    ended-Progress (unsettled o) r d =
        unsettled_with-Progress (retained_evidence p d q.invocation_id s.admitted.generation_id o)
          (end_deadline id sid s.admitted) uuid
          (spoiled-Touches id sid s.admitted s.admitted (Touches-refl id s.admitted))
    ended-Progress raised r d =
        quarantine-Progress id s (end_deadline id sid s.admitted)
          (spoiled-Touches id sid s.admitted s.admitted (Touches-refl id s.admitted))
          (prompt_in_doubt id none ∷ []) false uuid good
    ended-Progress collector_cancelled r d =
        finishing-Progress id s (end_deadline id sid s.admitted)
          (spoiled-Touches id sid s.admitted s.admitted (Touches-refl id s.admitted)) s.collectors
          good
