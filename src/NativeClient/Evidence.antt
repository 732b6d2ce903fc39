-- ===== src/NativeClient/Evidence.antt =====
-- What holds of a whole turn: its evidence is bounded, and a call is executed once at most.
use acp_proxy.Prelude.{
  ℕ, ◌≤◌, String, ◌≡◌, refl, sym, ap, ◌∙◌, subst, Bool, true, false, not, ◌||◌, Option, none, some,
  List, [], ◌∷◌, ◌==◌, if◌then◌else◌, Result, ok, err, arith, Bool-cases, inl, inr, ◌⊎◌, member,
  eq_iff,
}
use acp_proxy.Json.{JsonValue, Fields, get}
use acp_proxy.NativeTypes.{NativeModel, NativeBinding}
use acp_proxy.DirectState.{distinct}
use acp_proxy.PermissionPolicy.{PermissionDecision}
use acp_proxy.WorkspaceTools.{WorkspaceOperation}
use acp_proxy.NativeTransport.Admit.{RpcResponse}
use acp_proxy.NativeClient.Turn.{Turn, new_turn, object_or, is_text, identity}
use acp_proxy.NativeClient.Callback.{
  Texts, Called, replies, executes, called, effect, tool_callback, cancelled, begin_execution,
  end_execution, has_phase, tool_reply,
}
use acp_proxy.NativeClient.Terminal.{
  model_id, model_of, of_model, set_rpc_ended, prompt_result, terminal_rpc, signal_cancel,
}
use acp_proxy.NativeClient.Machine.{
  TurnEvent, progresses, calls, starts_call, ends_call, responds, cancels, Acted, act, add, of_call,
  of_start, run_events,
}
use acp_proxy.NativeClient.Quiet.{
  limits, event_total, text_total, Within, Quiet, Quiet-none, Quiet-same, unless_raised-Quiet,
  if-Quiet, given-Quiet, identity-Quiet, progress-Quiet,
}
use acp_proxy.NativeClient.Calls.{
  executed_of, Counts, Counts-Quiet, called-none, called-Quiet, effect-Quiet, end_execution-Quiet,
  end_execution-executed, tool_callback-Counts,
}

of_call-turn : (r : Called) → (of_call r).2 ≡ r.1
of_call-turn (err text, t) = refl
of_call-turn (ok (replies v), t) = refl
of_call-turn (ok (executes id op), t) = refl

of_model-Quiet :
    (m : Option NativeModel) (info value : Fields) (t : Turn) → Quiet t (of_model m info value t).1
of_model-Quiet none info value t = Quiet-none t
of_model-Quiet (some m) info value t =
    if-Quiet (not (is_text (get "id" info) m.id) || not (is_text (get "modelName" value) m.name)) _
      _ (Quiet-none t) (Quiet-none t)

module _ (json_text : JsonValue → String) (models : List NativeModel) where
  prompt_result-Quiet :
      (response : RpcResponse) (t : Turn) → Quiet t (prompt_result json_text models response t).1
  prompt_result-Quiet response t = if-Quiet response.is_error _ _ (Quiet-same t _ refl refl) (
      given-Quiet (object_or "native prompt result must be an object" (some response.value)) _
        (λ value. unless_raised-Quiet (identity value t) _ (identity-Quiet value t) (λ u.
          given-Quiet (object_or "result modelInfo must be an object" (get "modelInfo" value)) _
            (λ info. of_model-Quiet (model_of models (model_id u.binding)) info value u))))

  terminal_rpc-Quiet :
      (response : RpcResponse) (t : Turn) → Quiet t (terminal_rpc json_text models response t).1
  unfolding terminal_rpc
  terminal_rpc-Quiet response t = if-Quiet t.rpc_ended _ _ (Quiet-none t) (
      if-Quiet (not t.ended) _ _ (Quiet-none t) (
        unless_raised-Quiet (prompt_result json_text models response t) set_rpc_ended
          (prompt_result-Quiet response t) (λ u. Quiet-same u _ refl refl)))

-- The counters of a turn are the sizes of the events and of the response that it keeps, and they
-- are within these limits.
pub record Bounded (events response : ℕ) (t : Turn) : Type 0 where
  pub events_counted : t.event_bytes ≡ event_total t.events
  pub events_fit : event_total t.events ≤ events
  pub response_counted : t.response_bytes ≡ text_total t.response
  pub response_fits : text_total t.response ≤ response

abbrev Acts : Turn → Acted → Type 0
Acts t (raised, executed, u) = Counts t u executed

Acts-call : {t : Turn} (r : Called) → Counts t r.1 (executed_of r) → Acts t (of_call r)
Acts-call (err text, u) h = h
Acts-call (ok (replies v), u) h = h
Acts-call (ok (executes id op), u) h = h

module _ (x : Texts) where
  start_refused-Acts :
      (id : String) (t : Turn)
      → Acts t (
          of_call (
            called
              (effect x id (cancelled x) t)
              (λ u. (ok (replies (tool_reply x (cancelled x) "cancelled")), u))))
  start_refused-Acts id t = Acts-call _ (
      Counts-Quiet (called-none (effect x id (cancelled x) t) _ (λ u. refl)) (
        called-Quiet (effect x id (cancelled x) t) _ (effect-Quiet x id (cancelled x) t)
          (λ u. Quiet-none u)))

  begin_execution-Acts :
      (is_open : Bool) (id : String) (t : Turn)
      → Acts t (of_start (begin_execution x is_open id t) t)
  unfolding begin_execution
  begin_execution-Acts is_open id t = cases (t.overflow || t.cancel_requested || not is_open)
    where
      cases :
          (refused : Bool)
          → Acts t (
              of_start
                (if refused
                  then some (
                      called
                        (effect x id (cancelled x) t)
                        (λ u. (ok (replies (tool_reply x (cancelled x) "cancelled")), u)))
                  else none)
                t)
      cases true = start_refused-Acts id t
      cases false = Counts-Quiet refl (Quiet-none t)

  module _ (models : List NativeModel)
      (confirm : WorkspaceOperation → Result String PermissionDecision) where
    act-Acts : (e : TurnEvent) (t : Turn) → Acts t (act x models confirm e t)
    unfolding act signal_cancel
    act-Acts (progresses params) t = Counts-Quiet refl (progress-Quiet x.json_text params t)
    act-Acts (calls confirmation value) t =
        Acts-call (tool_callback x confirm confirmation value t)
          (tool_callback-Counts x confirm confirmation value t)
    act-Acts (starts_call is_open id) t = begin_execution-Acts is_open id t
    act-Acts (ends_call id result) t =
        Acts-call (end_execution x id result t)
          (Counts-Quiet (end_execution-executed x id result t) (end_execution-Quiet x id result t))
    act-Acts (responds response) t =
        Counts-Quiet refl (terminal_rpc-Quiet x.json_text models response t)
    act-Acts (cancels dispatched is_open) t = Counts-Quiet refl (Quiet-same t _ refl refl)

    -- Each call that is executed is a new one for the turn that the events begin with.
    abbrev Fresh : Turn → List String → Type 0
    Fresh t ids =
        (distinct ids ≡ true)
        × ((id : String) → member id ids ≡ true → has_phase (id, false) t.callback_phases ≡ false)

    abbrev Sound : Turn → List String × Turn → Type 0
    Sound t (ids, u) = (Within t → Within u) × (limits u ≡ limits t) × Fresh t ids

    not_before :
        (t u : Turn) (e : Option String) (p : String × Bool)
        → Counts t u e
        → has_phase p u.callback_phases ≡ false
        → has_phase p t.callback_phases ≡ false
    not_before t u e p c h = elim (Bool-cases (has_phase p t.callback_phases)) [
      | inl before ↦ absurd (ground (arith, c.keeps p before, h))
      | inr new ↦ new
    ]

    Fresh-add :
        (t u : Turn) (e : Option String) (r : List String × Turn)
        → Counts t u e
        → Fresh u r.0
        → Fresh t (add x models confirm e r).0
    Fresh-add t u none (ids, v) c f = (f.0, λ id h. not_before t u none (id, false) c (f.1 id h))
    Fresh-add t u (some i) (ids, v) c f =
        let new = c.fresh i refl in
        (
          not_again (Bool-cases (member i ids)),
          λ id h. elim (Bool-cases (i == id)) [
            | inl same ↦
                subst (λ j. has_phase (j, false) t.callback_phases ≡ false) ((eq_iff i id).0 same)
                  new.0
            | inr other ↦ not_before t u (some i) (id, false) c (f.1 id (ground arith))
          ],
        )
      where
        not_again : (member i ids ≡ true) ⊎ (member i ids ≡ false) → distinct (i ∷ ids) ≡ true
        not_again (inl again) = absurd (ground (arith, f.1 i again, (c.fresh i refl).1))
        not_again (inr first) = ground (arith, f.0)

    add-turn : (e : Option String) (r : List String × Turn) → (add x models confirm e r).1 ≡ r.1
    add-turn none (ids, u) = refl
    add-turn (some i) (ids, u) = refl

    add-Sound :
        (t u : Turn) (e : Option String) (r : List String × Turn)
        → Counts t u e
        → Sound u r
        → Sound t (add x models confirm e r)
    add-Sound t u e r c s = (
      λ w. subst Within (sym (add-turn e r)) (s.0 (c.within w)),
      ap limits (add-turn e r) ∙ s.1 ∙ c.same_limits,
      Fresh-add t u e r c s.2,
    )

    run_events-Sound : (es : List TurnEvent) (t : Turn) → Sound t (run_events x models confirm es t)
    unfolding run_events
    run_events-Sound [] t = (λ w. w, refl, (refl, λ id h. absurd (ground (arith, h))))
    run_events-Sound (e ∷ es) t =
        let a = act x models confirm e t in
        add-Sound t a.2 a.1 (run_events x models confirm es a.2) (act-Acts e t)
          (run_events-Sound es a.2)

    -- Whatever happens to a turn, also after an event that raises, its counters are the sizes of the
    -- events and of the response that it keeps, and both stay within the limits that it was given.
    pub run_events-Within :
        (es : List TurnEvent) (binding : NativeBinding) (token : String) (events response : ℕ)
        → Bounded events response
            (run_events x models confirm es (new_turn binding token events response)).1
    unfolding new_turn
    run_events-Within es binding token events response =
        let (within, same, _) = run_events-Sound es (new_turn binding token events response) in
        let w = within (record {
          events_counted = refl;
          events_fit = omega arith;
          response_counted = refl;
          response_fits = omega arith;
        }) in
        record {
          events_counted = w.events_counted;
          events_fit = omega (arith, w.events_counted, w.events_fit, ap (λ l. l.0) same);
          response_counted = w.response_counted;
          response_fits = omega (arith, w.response_counted, w.response_fits, ap (λ l. l.1) same);
        }

    -- Whatever the server asks in a turn, no tool call is executed twice.
    pub run_events-distinct :
        (es : List TurnEvent) (t : Turn) → distinct (run_events x models confirm es t).0 ≡ true
    run_events-distinct es t = (run_events-Sound es t).2.0
