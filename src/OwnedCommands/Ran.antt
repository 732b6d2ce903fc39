-- ===== src/OwnedCommands/Ran.antt =====
-- What a command's result says of its run.
pub mod Loop
use acp_proxy.Prelude.{
  ℕ, ◌≡◌, refl, sym, ap, subst, ◌∙◌, ℤ, Bool, true, false, not, ◌&&◌, ◌||◌, Option, none, some,
  is_some, List, [], ◌∷◌, ◌++◌, length, ltb, map, if◌then◌else◌, arith, Bool-cases, Option-cases,
  inl, inr, ◌⊎◌,
}
use mathlib.Core.List.{append_assoc}
use acp_proxy.NativeTransport.Frames.{Bytes, take}
use acp_proxy.OwnedCommands.{
  CommandError, CommandResult, Capture, new_capture, read_into, Round, answers, raises, Running,
  new_running, Ended, goes_on, returned, failed, result_of, look, settle, run_round, run_loop,
}
use acp_proxy.OwnedCommands.Captured.{read_all, at_eof, feed, feed-append, Holds, feed-new}

abbrev pub out_of : Round → Option Bytes
out_of (answers out errors polled stop_set late tree_stopped settled pipes_late) = out
out_of (raises e) = none

abbrev pub errors_of : Round → Option Bytes
errors_of (answers out errors polled stop_set late tree_stopped settled pipes_late) = errors
errors_of (raises e) = none

-- What ends a command: its exit, a request to stop, or its deadline.
abbrev pub ends : Round → Bool
ends (answers out errors polled stop_set late tree_stopped settled pipes_late) =
    is_some polled || stop_set || late
ends (raises e) = false

-- The deadline, and nothing else.
abbrev pub only_late : Round → Bool
only_late (answers out errors polled stop_set late tree_stopped settled pipes_late) =
    late && not (is_some polled) && not stop_set
only_late (raises e) = false

abbrev pub tree_gone : Round → Bool
tree_gone (answers out errors polled stop_set late tree_stopped settled pipes_late) = tree_stopped
tree_gone (raises e) = false

abbrev pub settled_code : Round → Option ℤ
settled_code (answers out errors polled stop_set late tree_stopped settled pipes_late) = settled
settled_code (raises e) = none

abbrev pub over : List Round → Bool
over [] = false
over (r ∷ rs) = ends r || over rs

-- Whether the first round that ends the command does so by its deadline.
abbrev pub expired : List Round → Bool
expired [] = false
expired (r ∷ rs) = if ends r then only_late r else expired rs

-- The rounds of a run that has returned `result`: it has returned in the last of them.
pub record Ran (limit : ℕ) (rounds : List Round) (result : CommandResult) : Type 0 where
  pub before : List Round
  pub last : Round
  pub rest : List Round
  pub in_order : rounds ≡ before ++ (last ∷ rest)
  pub used : List Round
  pub used_are : used ≡ before ++ (last ∷ [])
  pub stdout : result.stdout ≡ take limit (read_all (map out_of used))
  pub stderr : result.stderr ≡ take limit (read_all (map errors_of used))
  pub stdout_truncated : result.stdout_truncated ≡ ltb limit (length (read_all (map out_of used)))
  pub stderr_truncated :
      result.stderr_truncated ≡ ltb limit (length (read_all (map errors_of used)))
  pub stdout_ended : at_eof (map out_of used) ≡ true
  pub stderr_ended : at_eof (map errors_of used) ≡ true
  pub stopped : over used ≡ true
  pub timed_out : result.timed_out ≡ expired used
  pub tree_stopped : tree_gone last ≡ true
  pub exit_code : settled_code last ≡ some result.exit_code

-- The variables of the loop after the rounds `h`.
pub record Tracks (limit : ℕ) (h : List Round) (r : Running) : Type 0 where
  pub out_is : r.stdout ≡ feed (map out_of h) (new_capture limit)
  pub errors_is : r.stderr ≡ feed (map errors_of h) (new_capture limit)
  pub stopped_is : r.stopped ≡ over h
  pub late_is : r.timed_out ≡ expired h

map_snoc :
    {A : Type 0} (f : Round → A) (h : List Round) (x : Round)
    → map f (h ++ (x ∷ [])) ≡ map f h ++ (f x ∷ [])
map_snoc f [] x = refl
map_snoc {A} f (y ∷ h) x = ap (λ (t : List A). f y ∷ t) (map_snoc f h x)

over_snoc : (h : List Round) (x : Round) → over (h ++ (x ∷ [])) ≡ over h || ends x
over_snoc [] x = ground arith
over_snoc (y ∷ h) x = ground (arith, over_snoc h x)

expired_snoc :
    (h : List Round) (x : Round)
    → expired (h ++ (x ∷ [])) ≡ (if over h then expired h else ends x && only_late x)
expired_snoc [] x = ground arith
expired_snoc (y ∷ h) x = ground (arith, expired_snoc h x)

not_over : (h : List Round) → over h ≡ false → expired h ≡ false
not_over [] e = refl
not_over (y ∷ h) e = ground (arith, not_over h)

fed_snoc :
    (f : Round → Option Bytes) (limit : ℕ) (h : List Round) (x : Round) (c : Capture)
    → c ≡ feed (map f h) (new_capture limit)
    → read_into (f x) c ≡ feed (map f (h ++ (x ∷ []))) (new_capture limit)
fed_snoc f limit h x c e =
    ap (read_into (f x)) e
    ∙ sym (feed-append (map f h) (f x) (new_capture limit))
    ∙ ap (λ l. feed l (new_capture limit)) (sym (map_snoc f h x))

-- One round of a run.
unfoldable pub round_of : Round → Running → Running
round_of (answers out errors polled stop_set late tree_stopped settled pipes_late) r =
    look polled stop_set late
      (record r { stdout = read_into out r.stdout; stderr = read_into errors r.stderr })
round_of (raises e) r = r

module _ (limit : ℕ) (h : List Round) (r : Running) (t : Tracks limit h r)
    (out errors : Option Bytes) (polled : Option ℤ) (stop_set late tree_stopped : Bool)
    (settled : Option ℤ) (pipes_late : Bool) where
  abbrev this_round : Round
  this_round = answers out errors polled stop_set late tree_stopped settled pipes_late

  pub Tracks-round : Tracks limit (h ++ (this_round ∷ [])) (round_of this_round r)
  unfolding round_of
  Tracks-round = record {
    out_is =
        subst (λ c. c ≡ feed (map out_of (h ++ (this_round ∷ []))) (new_capture limit))
          (ground arith) (fed_snoc out_of limit h this_round r.stdout t.out_is);
    errors_is =
        subst (λ c. c ≡ feed (map errors_of (h ++ (this_round ∷ []))) (new_capture limit))
          (ground arith) (fed_snoc errors_of limit h this_round r.stderr t.errors_is);
    stopped_is = ground (arith, over_snoc h this_round, t.stopped_is);
    late_is = ground (arith, expired_snoc h this_round, t.stopped_is, t.late_is, not_over h);
  }
