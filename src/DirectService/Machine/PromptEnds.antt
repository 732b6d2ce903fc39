-- ===== src/DirectService/Machine/PromptEnds.antt =====
-- The end of a prompt's task, and of its collector, keep the invariant of the machine.
use acp_proxy.Prelude.{String, ◌≡◌, refl, Bool, true, some, arith}
use acp_proxy.Prelude.Dict.{lookup, length-modify}
use acp_proxy.DirectState.{DirectSession}
use acp_proxy.DirectProtocol.{Platform, PromptRequest}
use acp_proxy.DirectService.State.{
  Collector, execute_prompt, finishing, Service, on_admitted, on_session,
}
use acp_proxy.DirectService.Evidence.{PromptResult}
use acp_proxy.DirectService.Settle.{finish_prompt, release_prompt_reservation}
use acp_proxy.DirectService.Tasks.{
  pop, collected, prompt_collected, deadline_ended, deadline_collected, drop, prompt_finish,
}
use acp_proxy.DirectService.Touches.{Touches-refl, Touches-collectors}
use acp_proxy.DirectService.Accounts.{
  Accounts, is_prompt, release-Accounts, release-outstanding, release-ledger,
}
use acp_proxy.DirectService.Machine.Fits.{Fit-drop}
use acp_proxy.DirectService.Machine.Ok.{Ok, Later-refl, Progress, Progress-trans}
use acp_proxy.DirectService.Machine.Ends.{plain-Progress}
use acp_proxy.DirectService.Machine.PromptSteps.{
  with_objects-Progress, collected-Progress, ended-Progress, popped-Touches,
}

module _ (id : String) (s : Service) (good : Ok s) where
  popped-Progress : Progress s (on_admitted (pop id) s)
  unfolding popped-Touches Touches-collectors Touches-refl
  popped-Progress =
      plain-Progress id s (pop id s.admitted) (popped-Touches id s.admitted) s.collectors good
        (λ t r et er f. f)

  module _ (p : Platform) (valid : PromptResult → Bool) (sid uuid : String) (q : PromptRequest)
      (c : Collector) where
    pub prompt_collected-Progress : Progress s (prompt_collected p valid id sid q c uuid s)
    unfolding prompt_collected
    prompt_collected-Progress =
        let s' = on_admitted (pop id) s in
        Progress-trans s s' (prompt_collected p valid id sid q c uuid s) popped-Progress (
          with_objects-Progress id s' popped-Progress.ok (lookup id s'.admitted.ledger.records)
            (lookup sid s'.admitted.sessions) (collected p valid id q c uuid)
            (collected-Progress id s' popped-Progress.ok p valid sid uuid q c))

    pub deadline_collected-Progress : Progress s (deadline_collected p valid id sid q c uuid s)
    unfolding deadline_collected
    deadline_collected-Progress =
        let s' = on_admitted (pop id) s in
        Progress-trans s s' (deadline_collected p valid id sid q c uuid s) popped-Progress (
          with_objects-Progress id s' popped-Progress.ok (lookup id s'.admitted.ledger.records)
            (lookup sid s'.admitted.sessions) (deadline_ended p valid id sid q c uuid)
            (ended-Progress id s' popped-Progress.ok p valid sid uuid q c))

  -- The session that the end of a prompt's task leaves, before its release.
  module _ (sid : String) (b c : Bool) (q : PromptRequest)
      (there : lookup id s.admitted.execution_tasks
        ≡ some (record {
          work = execute_prompt sid q;
          point = finishing;
          dispatched = b;
          cancelled = c;
        })) where
    released-Progress :
        (f : DirectSession → DirectSession)
        → Progress s (
            drop id (record s {
              admitted = (release_prompt_reservation id (on_session sid f s.admitted)).1;
            }))
    unfolding drop
    released-Progress f =
        let (r, er, k) = good.fit.at id _ there in
        let g = on_session sid f s.admitted in
        let h = (release_prompt_reservation id g).1 in
        let is : is_prompt r.kind ≡ true = ground arith in
        let accounts : Accounts g = record {
          unique = good.accounts.unique;
          counted = good.accounts.counted;
          known = good.accounts.known;
        } in
        let (ledger, sessions, tasks) = release-ledger id g in
        let a = (release-Accounts id g r accounts er is).1 in
        record {
          kept = refl;
          later = rw ledger (Later-refl s.admitted.ledger.records);
          ok = record {
            fit =
                rw (tasks, ledger)
                  (Fit-drop id s.admitted.execution_tasks s.admitted.ledger.records good.fit);
            rest = record {
              closed = good.closed;
              accounts = record { unique = a.unique; counted = a.counted; known = a.known };
              named = rw ledger good.named;
              bound = rw ledger good.bound;
              ledger_fits = rw ledger good.ledger_fits;
              sessions_fit =
                  rw (sessions, length-modify sid f s.admitted.sessions) good.sessions_fit;
              queue_fits =
                  rw ledger
                    (omega (arith, release-outstanding id g r accounts er is, good.queue_fits));
            };
          };
        }

    pub prompt_finish-Progress : Progress s (prompt_finish id sid b s)
    unfolding prompt_finish finish_prompt
    prompt_finish-Progress = released-Progress _
