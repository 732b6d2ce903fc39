-- ===== src/OwnedCommands/Ran/Loop.antt =====
-- The loop of `_run` keeps track of its rounds.
use acp_proxy.Prelude.{
  ℕ, ◌≡◌, ◌≢◌, refl, sym, ap, subst, ◌∙◌, ℤ, Bool, true, false, ◌||◌, Option, none, some, List, [],
  ◌∷◌, ◌++◌, map, arith, inl, inr, ◌⊎◌,
}
use mathlib.Core.List.{append_assoc}
use acp_proxy.NativeTransport.Frames.{Bytes}
use acp_proxy.OwnedCommands.{
  CommandError, CommandResult, Capture, Round, answers, raises, Running, new_running, Ended,
  goes_on, returned, failed, settle, run_round, run_loop,
}
use acp_proxy.OwnedCommands.Captured.{feed-new}
use acp_proxy.OwnedCommands.Ran.{
  out_of, errors_of, ends, tree_gone, settled_code, Ran, Tracks, round_of, Tracks-round,
}

abbrev SameRun : Running → Running → Type 0
SameRun s r =
    (s.stdout ≡ r.stdout)
    × (s.stderr ≡ r.stderr)
    × (s.stopped ≡ r.stopped)
    × (s.timed_out ≡ r.timed_out)

settle_goes_on :
    (tree_stopped : Bool) (settled : Option ℤ) (pipes_late : Bool) (r next : Running)
    → settle tree_stopped settled pipes_late r ≡ goes_on next
    → SameRun next r
settle_goes_on tree_stopped none pipes_late r next h = ground arith
settle_goes_on tree_stopped (some code) pipes_late r next h = ground arith

Tracks-same :
    (limit : ℕ) (h : List Round) (r next : Running)
    → SameRun next r
    → Tracks limit h r
    → Tracks limit h next
Tracks-same limit h r next (a, b, c, d) t = record {
  out_is = a ∙ t.out_is;
  errors_is = b ∙ t.errors_is;
  stopped_is = c ∙ t.stopped_is;
  late_is = d ∙ t.late_is;
}

-- What `settle` has seen where it returns.
record Returned (tree_stopped : Bool) (settled : Option ℤ) (r : Running) (result : CommandResult)
    : Type 0 where
  gone : tree_stopped ≡ true
  was_stopped : r.stopped ≡ true
  out_eof : r.stdout.eof ≡ true
  errors_eof : r.stderr.eof ≡ true
  code_is : settled ≡ some result.exit_code
  stdout_is : result.stdout ≡ r.stdout.bytes
  stderr_is : result.stderr ≡ r.stderr.bytes
  stdout_cut : result.stdout_truncated ≡ r.stdout.truncated
  stderr_cut : result.stderr_truncated ≡ r.stderr.truncated
  late : result.timed_out ≡ r.timed_out

settle_returns :
    (tree_stopped : Bool) (settled : Option ℤ) (pipes_late : Bool) (r : Running)
    (result : CommandResult)
    → settle tree_stopped settled pipes_late r ≡ returned result
    → Returned tree_stopped settled r result
settle_returns tree_stopped none pipes_late r result h = absurd (ground arith)
settle_returns tree_stopped (some code) pipes_late r result h = record {
  gone = ground arith;
  was_stopped = ground arith;
  out_eof = ground arith;
  errors_eof = ground arith;
  code_is = ground arith;
  stdout_is = ground arith;
  stderr_is = ground arith;
  stdout_cut = ground arith;
  stderr_cut = ground arith;
  late = ground arith;
}

-- A run that returns in the round after `h`.
last_round :
    (limit : ℕ) (h : List Round) (round : Round) (rest : List Round) (r : Running)
    (result : CommandResult)
    → Tracks limit (h ++ (round ∷ [])) r
    → Returned (tree_gone round) (settled_code round) r result
    → Ran limit (h ++ (round ∷ rest)) result
last_round limit h round rest r result t ended =
    let used = h ++ (round ∷ []) in
    let (out, out_end) = feed-new limit (map out_of used) in
    let (errors, errors_end) = feed-new limit (map errors_of used) in
    record {
      before = h;
      last = round;
      rest = rest;
      in_order = refl;
      used = used;
      used_are = refl;
      stdout = ended.stdout_is ∙ ap (λ (c : Capture). c.bytes) t.out_is ∙ out.first;
      stderr = ended.stderr_is ∙ ap (λ (c : Capture). c.bytes) t.errors_is ∙ errors.first;
      stdout_truncated = ended.stdout_cut ∙ ap (λ (c : Capture). c.truncated) t.out_is ∙ out.more;
      stderr_truncated =
          ended.stderr_cut ∙ ap (λ (c : Capture). c.truncated) t.errors_is ∙ errors.more;
      stdout_ended = sym out_end ∙ ap (λ (c : Capture). c.eof) (sym t.out_is) ∙ ended.out_eof;
      stderr_ended =
          sym errors_end ∙ ap (λ (c : Capture). c.eof) (sym t.errors_is) ∙ ended.errors_eof;
      stopped = sym t.stopped_is ∙ ended.was_stopped;
      timed_out = ended.late ∙ t.late_is;
      tree_stopped = ended.gone;
      exit_code = ended.code_is;
    }

Ran-snoc :
    (limit : ℕ) (h : List Round) (round : Round) (rounds : List Round) (result : CommandResult)
    → Ran limit ((h ++ (round ∷ [])) ++ rounds) result
    → Ran limit (h ++ (round ∷ rounds)) result
Ran-snoc limit h round rounds result =
    subst (λ rs. Ran limit rs result) (append_assoc h (round ∷ []) rounds)

Ended-cases :
    (x : Ended)
    → ((next : Running) × (x ≡ goes_on next))
      ⊎ ((result : CommandResult) × (x ≡ returned result))
      ⊎ ((e : CommandError) × (x ≡ failed e))
Ended-cases (goes_on next) = inl (next, refl)
Ended-cases (returned result) = inr (inl (result, refl))
Ended-cases (failed e) = inr (inr (e, refl))

run_loop_goes_on :
    (round : Round) (rounds : List Round) (r next : Running)
    → run_round round r ≡ goes_on next
    → run_loop (round ∷ rounds) r ≡ run_loop rounds next
unfolding run_loop
run_loop_goes_on round rounds r next e = rw (e, run_loop)

run_loop_returns :
    (round : Round) (rounds : List Round) (r : Running) (a b : CommandResult)
    → run_round round r ≡ returned a
    → run_loop (round ∷ rounds) r ≡ returned b
    → a ≡ b
unfolding run_loop
run_loop_returns round rounds r a b e h = ground (arith, e, h)

run_loop_fails :
    (round : Round) (rounds : List Round) (r : Running) (x : CommandError) (b : CommandResult)
    → run_round round r ≡ failed x
    → run_loop (round ∷ rounds) r ≡ returned b
    → ⊥
unfolding run_loop
run_loop_fails round rounds r x b e h = ground (arith, e, h)

-- A round without an exception ends by `settle`.
module _ (out errors : Option Bytes) (polled : Option ℤ) (stop_set late tree_stopped : Bool)
    (settled : Option ℤ) (pipes_late : Bool) (r : Running) where
  by_settle :
      run_round (answers out errors polled stop_set late tree_stopped settled pipes_late) r
      ≡ settle tree_stopped settled pipes_late
          (round_of (answers out errors polled stop_set late tree_stopped settled pipes_late) r)
  unfolding run_round round_of
  by_settle = refl

none_yet : (r : Running) (result : CommandResult) → run_loop [] r ≡ returned result → ⊥
unfolding run_loop
none_yet r result e = cc

raised : (x : CommandError) (r : Running) → run_round (raises x) r ≡ failed x
unfolding run_round
raised x r = refl

run_loop-after :
    (limit : ℕ) (h rounds : List Round) (r : Running) (result : CommandResult)
    → Tracks limit h r
    → run_loop rounds r ≡ returned result
    → Ran limit (h ++ rounds) result
run_loop-after limit h [] r result t e = absurd (none_yet r result e)
run_loop-after limit h (raises x ∷ rounds) r result t e =
    absurd (run_loop_fails (raises x) rounds r x result (raised x r) e)
run_loop-after limit h
      (answers out errors polled stop_set late tree_stopped settled pipes_late ∷ rounds) r result t
      e =
    let round = answers out errors polled stop_set late tree_stopped settled pipes_late in
    let after = round_of round r in
    let tracks =
      Tracks-round limit h r t out errors polled stop_set late tree_stopped settled pipes_late in
    let is = by_settle out errors polled stop_set late tree_stopped settled pipes_late r in
    elim (Ended-cases (settle tree_stopped settled pipes_late after)) [
      | inl (next, goes) ↦ Ran-snoc limit h round rounds result (
          run_loop-after limit (h ++ (round ∷ [])) rounds next result
            (Tracks-same limit (h ++ (round ∷ [])) after next
              (settle_goes_on tree_stopped settled pipes_late after next goes) tracks)
            (sym (run_loop_goes_on round rounds r next (is ∙ goes)) ∙ e))
      | inr (inl (other, ends_so)) ↦ last_round limit h round rounds after result tracks (
          settle_returns tree_stopped settled pipes_late after result
            (ends_so ∙ ap returned (run_loop_returns round rounds r other result (is ∙ ends_so) e)))
      | inr (inr (x, fails_so)) ↦ absurd (run_loop_fails round rounds r x result (is ∙ fails_so) e)
    ]

-- A result that a command returns has the first bytes of what its two pipes gave to their ends, as many
-- as the limit, and says which of them gave more. It is returned after the command has ended: by its
-- exit, a request to stop or its deadline, whichever came first, which `timed_out` tells; and after
-- its whole process tree is gone, with the exit code read then.
pub run_loop-Ran :
    (limit : ℕ) (rounds : List Round) (result : CommandResult)
    → run_loop rounds (new_running limit) ≡ returned result
    → Ran limit rounds result
run_loop-Ran limit rounds result e =
    run_loop-after limit [] rounds (new_running limit) result
      (record { out_is = refl; errors_is = refl; stopped_is = refl; late_is = refl }) e

abbrev pipes_over : Round → Bool
pipes_over (answers out errors polled stop_set late tree_stopped settled pipes_late) = pipes_late
pipes_over (raises e) = false

-- A stopped run that has found its tree gone goes on at most until the time for the pipes is over.
second_ends :
    (z : Round) (r next : Running)
    → r.stopped ≡ true
    → r.pipe_deadline ≡ true
    → tree_gone z ≡ true
    → pipes_over z ≡ true
    → run_round z r ≢ goes_on next
unfolding run_round
second_ends (answers out errors polled stop_set late tree_stopped none pipes_late) r next a b c d
      h =
    ground arith
second_ends (answers out errors polled stop_set late tree_stopped (some code) pipes_late) r next a b
      c d h =
    ground arith
second_ends (raises e) r next a b c d h = ground arith

first_waits :
    (y : Round) (r next : Running)
    → r.stopped ≡ true
    → tree_gone y ≡ true
    → run_round y r ≡ goes_on next
    → (next.stopped ≡ true) × (next.pipe_deadline ≡ true)
unfolding run_round
first_waits (answers out errors polled stop_set late tree_stopped none pipes_late) r next a b h =
    ground arith
first_waits (answers out errors polled stop_set late tree_stopped (some code) pipes_late) r next a b
      h =
    ground arith
first_waits (raises e) r next a b h = absurd (ground arith)

stays_stopped :
    (x : Round) (r next : Running)
    → r.stopped || ends x ≡ true
    → run_round x r ≡ goes_on next
    → next.stopped ≡ true
unfolding run_round
stays_stopped (answers out errors polled stop_set late tree_stopped none pipes_late) r next a h =
    ground arith
stays_stopped (answers out errors polled stop_set late tree_stopped (some code) pipes_late) r next a
      h =
    ground arith
stays_stopped (raises e) r next a h = absurd (ground arith)

two_rounds :
    (y z : Round) (rest : List Round) (r s : Running)
    → r.stopped ≡ true
    → tree_gone y ≡ true
    → tree_gone z ≡ true
    → pipes_over z ≡ true
    → run_loop (y ∷ z ∷ rest) r ≢ goes_on s
unfolding run_loop
two_rounds y z rest r s a b c d h = elim (Ended-cases (run_round y r)) [
  | inl (next, goes) ↦
      let (stopped, waits) = first_waits y r next a b goes in
      elim (Ended-cases (run_round z next)) [
        | inl (later, goes_too) ↦ second_ends z next later stopped waits c d goes_too
        | inr (inl (result, e)) ↦ ground (arith, e, goes, h)
        | inr (inr (x, e)) ↦ ground (arith, e, goes, h)
      ]
  | inr (inl (result, e)) ↦ ground (arith, e, h)
  | inr (inr (x, e)) ↦ ground (arith, e, h)
]

-- The loop ends: after a round in which the command exits, is asked to stop or is out of time, two more
-- rounds that find the process tree gone, the second when the time for the pipes is over, are enough,
-- whatever the pipes give.
pub run_loop-ends :
    (x y z : Round) (rest : List Round) (r s : Running)
    → ends x ≡ true
    → tree_gone y ≡ true
    → tree_gone z ≡ true
    → pipes_over z ≡ true
    → run_loop (x ∷ y ∷ z ∷ rest) r ≢ goes_on s
unfolding run_loop
run_loop-ends x y z rest r s a b c d h = elim (Ended-cases (run_round x r)) [
  | inl (next, goes) ↦
      two_rounds y z rest next s (stays_stopped x r next (ground arith) goes) b c d
        (sym (run_loop_goes_on x (y ∷ z ∷ rest) r next goes) ∙ h)
  | inr (inl (result, e)) ↦ ground (arith, e, h)
  | inr (inr (x', e)) ↦ ground (arith, e, h)
]
