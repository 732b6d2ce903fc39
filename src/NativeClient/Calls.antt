-- ===== src/NativeClient/Calls.antt =====
-- The callbacks of a turn keep what is counted, and execute a call that has not been invoked before.
use acp_proxy.Prelude.{
  String, ◌≡◌, refl, sym, ap, subst, ◌∙◌, Bool, true, false, not, Option, none, some, [], ◌∷◌,
  if◌then◌else◌, Result, ok, err, arith, >>=-eq-ok,
}
use acp_proxy.Prelude.{eq_refl}
use acp_proxy.Prelude.Dict.{lookup}
use acp_proxy.Json.{JsonValue, obj, str, Fields, get, object}
use acp_proxy.NativeTypes.{NativeToolObservation}
use acp_proxy.PermissionPolicy.{PermissionDecision}
use acp_proxy.WorkspaceTools.{WorkspaceOperation, ToolError, decode}
use acp_proxy.WorkspaceTools.Running.{WorkspaceResult}
use acp_proxy.NativeClient.Turn.{Turn, Recorded, raising, object_or, same_turn, identity, retain}
use acp_proxy.NativeClient.Callback.{
  Texts, Called, called, with_value, Call, named_of, call_of, call_raises, new_call, named_call,
  input_of, same_phase, count_call, admits_calls, tool_observed, keep_effect, effect, invalid,
  refuse_call, keep_decision, decide, answer_call, observe_call, counted_call, tool_callback,
  end_execution, has_phase,
}
use acp_proxy.NativeClient.Machine.{of_call}
use acp_proxy.NativeClient.Quiet.{
  limits, Within, Within-same, Quiet, Quiet-then, Quiet-none, Quiet-same, if-Quiet,
  observe_tool-Quiet, retain-Quiet,
}

pub called-Quiet :
    {t : Turn} (r : Recorded) (next : Turn → Called)
    → Quiet t r.1
    → ((u : Turn) → Quiet u (next u).1)
    → Quiet t (called r next).1
called-Quiet (none, u) next q n = Quiet-then q (n u)
called-Quiet (some text, u) next q n = q

module _ (x : Texts) where
  tool_observed-Quiet :
      (identifier : String) (tool : Option NativeToolObservation) (result : WorkspaceResult)
      (t : Turn)
      → Quiet t (tool_observed x identifier tool result t).1
  tool_observed-Quiet identifier none result t = Quiet-none t
  tool_observed-Quiet identifier (some tool) result t = observe_tool-Quiet _ t

  keep_effect-Quiet :
      (identifier : String) (result : WorkspaceResult) (t : Turn) (r : Bool × Turn)
      → Quiet t r.1
      → Quiet t (keep_effect x identifier result r).1
  keep_effect-Quiet identifier result t (false, u) q = q
  keep_effect-Quiet identifier result t (true, u) q = Quiet-then q (
      Quiet-then (Quiet-same u _ refl refl)
        (tool_observed-Quiet identifier (lookup identifier u.tools) result _))

  pub effect-Quiet :
      (identifier : String) (result : WorkspaceResult) (t : Turn)
      → Quiet t (effect x identifier result t).1
  unfolding effect
  effect-Quiet identifier result t =
      keep_effect-Quiet identifier result t _ (retain-Quiet x.json_text _ _ t)

  refuse_call-Quiet :
      (confirmation : Bool) (identifier : String) (t : Turn)
      → Quiet t (refuse_call x confirmation identifier t).1
  refuse_call-Quiet true identifier t = retain-Quiet x.json_text _ _ t
  refuse_call-Quiet false identifier t =
      called-Quiet (effect x identifier (invalid x) t) _ (effect-Quiet identifier (invalid x) t)
        (λ u. Quiet-none u)

  keep_decision-Quiet :
      (identifier : String) (d : PermissionDecision) (t : Turn) (r : Bool × Turn)
      → Quiet t r.1
      → Quiet t (keep_decision x identifier d r).1
  keep_decision-Quiet identifier d t (false, u) q = q
  keep_decision-Quiet identifier d t (true, u) q = Quiet-then q (Quiet-same u _ refl refl)

  decide-Quiet :
      (identifier : String) (d : Result String PermissionDecision) (t : Turn)
      → Quiet t (decide x identifier d t).1
  decide-Quiet identifier (err text) t = Quiet-none t
  decide-Quiet identifier (ok d) t =
      keep_decision-Quiet identifier d t _ (retain-Quiet x.json_text _ _ t)

  observe_call-Quiet :
      (confirmation : Bool) (c : Call) (params : Fields) (t : Turn)
      → Quiet t (observe_call x confirmation c params t).1
  observe_call-Quiet true c params t = Quiet-none t
  observe_call-Quiet false c params t =
      let kept = retain x.json_text "native.client_tool.invocation" (obj params) t in
      if-Quiet kept.0 _ _
        (Quiet-then (retain-Quiet x.json_text _ _ t) (observe_tool-Quiet _ kept.1))
        (retain-Quiet x.json_text _ _ t)

  pub end_execution-Quiet :
      (identifier : String) (result : WorkspaceResult) (t : Turn)
      → Quiet t (end_execution x identifier result t).1
  unfolding end_execution
  end_execution-Quiet identifier result t =
      called-Quiet (effect x identifier result t) _ (effect-Quiet identifier result t)
        (λ u. Quiet-none u)

  module _ (confirm : WorkspaceOperation → Result String PermissionDecision) where
    answer_call-Quiet :
        (confirmation : Bool) (c : Call) (op : Result ToolError WorkspaceOperation) (t : Turn)
        → Quiet t (answer_call x confirm confirmation c op t).1
    answer_call-Quiet confirmation c (err e) t = refuse_call-Quiet confirmation c.identifier t
    answer_call-Quiet true c (ok op) t = decide-Quiet c.identifier (confirm op) t
    answer_call-Quiet false c (ok op) t = Quiet-none t

abbrev pub executed_of : Called → Option String
executed_of r = (of_call r).1

-- A call is executed only if it was not invoked before, and then it was.
pub record Counts (t u : Turn) (executed : Option String) : Type 0 where
  pub within : Within t → Within u
  pub same_limits : limits u ≡ limits t
  pub keeps :
      (p : String × Bool)
      → has_phase p t.callback_phases ≡ true
      → has_phase p u.callback_phases ≡ true
  pub fresh :
      (id : String)
      → executed ≡ some id
      → (has_phase (id, false) t.callback_phases ≡ false)
        × (has_phase (id, false) u.callback_phases ≡ true)

pub Counts-Quiet : {t u : Turn} {e : Option String} → e ≡ none → Quiet t u → Counts t u e
Counts-Quiet none_ q = record {
  within = q.within;
  same_limits = q.same_limits;
  keeps = λ p h. ap (has_phase p) q.same_phases ∙ h;
  fresh = λ id some_. absurd (ground (arith, none_, some_));
}

no_call : (text : String) (t : Turn) → Counts t t none
no_call text t = Counts-Quiet refl (Quiet-none t)

pub called-none :
    (r : Recorded) (next : Turn → Called)
    → ((u : Turn) → executed_of (next u) ≡ none)
    → executed_of (called r next) ≡ none
called-none (none, u) next h = h u
called-none (some text, u) next h = refl

called-some :
    {Q : Type 0} {id : String} (r : Recorded) (next : Turn → Called)
    → ((u : Turn) → executed_of (next u) ≡ some id → Q)
    → executed_of (called r next) ≡ some id
    → Q
called-some (none, u) next h e = h u e
called-some (some text, u) next h e = absurd (ground (arith, e))

module _ (x : Texts) where
  keep_decision-executed :
      (identifier : String) (d : PermissionDecision) (r : Bool × Turn)
      → executed_of (keep_decision x identifier d r) ≡ none
  keep_decision-executed identifier d (false, u) = refl
  keep_decision-executed identifier d (true, u) = refl

  refuse_call-executed :
      (confirmation : Bool) (identifier : String) (t : Turn)
      → executed_of (refuse_call x confirmation identifier t) ≡ none
  refuse_call-executed true identifier t = refl
  refuse_call-executed false identifier t =
      called-none (effect x identifier (invalid x) t) _ (λ u. refl)

  pub end_execution-executed :
      (identifier : String) (result : WorkspaceResult) (t : Turn)
      → executed_of (end_execution x identifier result t) ≡ none
  unfolding end_execution
  end_execution-executed identifier result t =
      called-none (effect x identifier result t) _ (λ u. refl)

  module _ (confirm : WorkspaceOperation → Result String PermissionDecision) where
    answer_call-executed :
        (confirmation : Bool) (c : Call) (op : Result ToolError WorkspaceOperation) (t : Turn)
        (id : String)
        → executed_of (answer_call x confirm confirmation c op t) ≡ some id
        → (c.identifier ≡ id) × (confirmation ≡ false)
    answer_call-executed confirmation c (err e) t id h =
        absurd (ground (arith, refuse_call-executed confirmation c.identifier t, h))
    answer_call-executed true c (ok op) t id h = decided (confirm op) h
      where
        decided :
            (d : Result String PermissionDecision)
            → executed_of (decide x c.identifier d t) ≡ some id
            → (c.identifier ≡ id) × (true ≡ false)
        decided (err text) e = absurd (ground (arith, e))
        decided (ok d) e = absurd (
            ground (
              arith,
              keep_decision-executed c.identifier d (
                  retain x.json_text "native.client_tool.confirmation"
                    (obj (
                      object
                        (("toolCallId", str c.identifier) ∷ ("decision", x.decision_json d) ∷ [])))
                    t),
              e,
            ))
    answer_call-executed false c (ok op) t id h = (ground arith, refl)

same_phase_self : (p : String × Bool) → same_phase p p ≡ true
same_phase_self (a, true) = eq_refl a
same_phase_self (a, false) = eq_refl a

module _ (x : Texts) (confirm : WorkspaceOperation → Result String PermissionDecision) where
  module _ (confirmation : Bool) (params : Fields) (c : Call) where
    abbrev answered : Turn → Called
    answered t =
        called (observe_call x confirmation c params (count_call x confirmation c t))
          (answer_call x confirm confirmation c (decode c.name c.input))

    answered-Quiet : (t : Turn) → Quiet (count_call x confirmation c t) (answered t).1
    answered-Quiet t =
        called-Quiet (observe_call x confirmation c params (count_call x confirmation c t)) _
          (observe_call-Quiet x confirmation c params _)
          (answer_call-Quiet x confirm confirmation c (decode c.name c.input))

    executes_it :
        (t : Turn) (id : String)
        → executed_of (answered t) ≡ some id
        → (c.identifier ≡ id) × (confirmation ≡ false)
    executes_it t id h =
        called-some (observe_call x confirmation c params (count_call x confirmation c t))
          (answer_call x confirm confirmation c (decode c.name c.input))
          (λ u e. answer_call-executed x confirm confirmation c (decode c.name c.input) u id e) h

    answered-Counts :
        (t : Turn)
        → has_phase (c.identifier, confirmation) t.callback_phases ≡ false
        → Counts t (answered t).1 (executed_of (answered t))
    answered-Counts t admitted =
        let quiet = answered-Quiet t in
        record {
          within = λ w. quiet.within (Within-same t (count_call x confirmation c t) refl w);
          same_limits = quiet.same_limits;
          keeps = λ p h. ap (has_phase p) quiet.same_phases ∙ ground arith;
          fresh = λ id h.
              let (is, invoked) = executes_it t id h in
              (
                subst (λ i. has_phase (i, false) t.callback_phases ≡ false) is
                    (subst (λ b. has_phase (c.identifier, b) t.callback_phases ≡ false) invoked
                      admitted),
                ap (has_phase (id, false)) quiet.same_phases
                    ∙ subst
                        (λ b. has_phase (id, false) ((c.identifier, b) ∷ t.callback_phases) ≡ true)
                        (sym invoked)
                        (subst (λ i. has_phase (id, false) ((i, false) ∷ t.callback_phases) ≡ true)
                          (sym is) (ground (arith, eq_refl id))),
              );
        }

    counted_call-Counts :
        (raises : Option String) (t : Turn)
        → has_phase (c.identifier, confirmation) t.callback_phases ≡ false
        → Counts t
            (counted_call x confirm confirmation params c raises t).1
            (executed_of (counted_call x confirm confirmation params c raises t))
    counted_call-Counts (some text) t h = no_call text t
    counted_call-Counts none t h = answered-Counts t h

  -- The call has the identifier that was looked for.
  call_of-identifier :
      (confirmation : Bool) (params : Fields) (identifier name : String) (c : Call)
      → call_of x confirmation params identifier name ≡ ok c
      → c.identifier ≡ identifier
  call_of-identifier confirmation params identifier name c h =
      let (input, rest, _) =
        >>=-eq-ok _ (object_or "native tool input must be an object" (get "input" params)) h in
      let (fields, made, _) = >>=-eq-ok _ (input_of confirmation input) rest in ground arith

  new_call-Counts :
      (confirmation : Bool) (params : Fields) (identifier name : String) (r : Result String Call)
      (t : Turn)
      → call_of x confirmation params identifier name ≡ r
      → has_phase (identifier, confirmation) t.callback_phases ≡ false
      → Counts t
          (new_call x confirm confirmation params r t).1
          (executed_of (new_call x confirm confirmation params r t))
  new_call-Counts confirmation params identifier name (err text) t is new = no_call text t
  new_call-Counts confirmation params identifier name (ok c) t is new =
      counted_call-Counts confirmation params c (call_raises x c t) t (
        subst (λ i. has_phase (i, confirmation) t.callback_phases ≡ false)
          (sym (call_of-identifier confirmation params identifier name c is)) new)

  named_call-Counts :
      (confirmation : Bool) (params : Fields) (named : String × String) (t : Turn)
      → Counts t
          (named_call x confirm confirmation params named t).1
          (executed_of (named_call x confirm confirmation params named t))
  named_call-Counts confirmation params (identifier, name) t =
      cases (has_phase (identifier, confirmation) t.callback_phases) refl
    where
      after : Called
      after =
          new_call x confirm confirmation params (call_of x confirmation params identifier name) t

      repeated : Called
      repeated = (err "Repeated native tool callback phase", t)

      cases :
          (again : Bool)
          → has_phase (identifier, confirmation) t.callback_phases ≡ again
          → Counts t
              (if again then repeated else after).1
              (executed_of (if again then repeated else after))
      cases true h = no_call "" t
      cases false h = new_call-Counts confirmation params identifier name _ t refl h

  with_value-Counts :
      {A : Type 0} (r : Result String A) (t : Turn) (next : A → Called)
      → ((a : A) → Counts t (next a).1 (executed_of (next a)))
      → Counts t (with_value r t next).1 (executed_of (with_value r t next))
  with_value-Counts (ok a) t next n = n a
  with_value-Counts (err text) t next n = no_call text t

  identified-Counts :
      (params : Fields) (t : Turn) (next : Turn → Called)
      → Counts t (next t).1 (executed_of (next t))
      → Counts t (called (identity params t) next).1 (executed_of (called (identity params t) next))
  unfolding identity
  identified-Counts params t next n = cases (same_turn t.binding params)
    where
      checked : Bool → Recorded
      checked same =
          if same then (none, t) else raising "Native conversation/turn identity changed" t

      cases :
          (same : Bool)
          → Counts t (called (checked same) next).1 (executed_of (called (checked same) next))
      cases true = n
      cases false = no_call "Native conversation/turn identity changed" t

  pub tool_callback-Counts :
      (confirmation : Bool) (value : JsonValue) (t : Turn)
      → Counts t
          (tool_callback x confirm confirmation value t).1
          (executed_of (tool_callback x confirm confirmation value t))
  unfolding tool_callback
  tool_callback-Counts confirmation value t = cases (admits_calls t)
    where
      admitted : Called
      admitted =
          with_value (object_or "native tool callback must be an object" (some value)) t (λ params.
            called (identity params t) (λ u.
              with_value (named_of x confirmation params) u
                (λ named. named_call x confirm confirmation params named u)))

      cases :
          (admits : Bool)
          → Counts t
              (if not admits
                then (err "Native effect callback outside its active turn", t)
                else admitted).1
              (executed_of (
                if not admits
                then (err "Native effect callback outside its active turn", t)
                else admitted))
      cases false = no_call "" t
      cases true =
          with_value-Counts (object_or "native tool callback must be an object" (some value)) t _
            (λ params. identified-Counts params t _ (
              with_value-Counts (named_of x confirmation params) t _
                (λ named. named_call-Counts confirmation params named t)))
