-- ===== src/OwnedCommands.antt =====
-- owned_commands.py: the shell of a command, the capture of its output and the loop that runs it.
pub mod Captured
pub mod Ran
pub mod Owner
use acp_proxy.Prelude.{
  ℕ, suc, ◌+◌, ◌-◌, String, ℤ, pos, Bool, true, false, not, ◌&&◌, ◌||◌, Option, none, some, is_some,
  List, [], ◌∷◌, ◌++◌, length, ltb, leb, eqb, ◌==◌, if◌then◌else◌, member, Result, ok, err, ◌>>=◌,
  ◌>>◌, raise_if, or_raise,
}
use Prim.Native.String.{◌++◌ as ◌⧺◌}
use acp_proxy.WorkspaceTools.{has_nul, timeout_ok}
use acp_proxy.NativeTransport.Frames.{Bytes, take}

-- What Python raises here: ValueError, RuntimeError, FileNotFoundError, AssertionError, an error of the
-- operating system, and a BaseExceptionGroup of two.
pub data CommandError : Type 0 where
  value_error runtime_error file_not_found assertion_error os_error : CommandError
  both : CommandError → CommandError → CommandError

-- The operating system: the shells that it supports and the last part of a path, in lower case.
pub record Shells : Type 0 where
  pub windows : Bool
  pub lower_name : String → String
  pub system_powershell : String
  pub which : String → Option String

abbrev pub supported : Bool → List String
supported true = "powershell" ∷ "powershell.exe" ∷ "pwsh" ∷ "pwsh.exe" ∷ []
supported false = "sh" ∷ "bash" ∷ "dash" ∷ "zsh" ∷ "ksh" ∷ []

module _ (os : Shells) where
  open os use {windows, lower_name, system_powershell, which}

  -- ShellSpec
  unfoldable pub shell_spec : Option String → Result CommandError (Option String)
  unfolding has_nul
  shell_spec none = ok none
  shell_spec (some executable) = do
    raise_if (executable == "" || has_nul executable) value_error
    raise_if (not (member (lower_name executable) (supported windows))) value_error
    ok (some executable)

  abbrev pub executable_of : Option String → String
  executable_of none = if windows then system_powershell else "/bin/sh"
  executable_of (some executable) = executable

  -- ShellSpec._argv
  unfoldable pub argv : Option String → String → Result CommandError (List String)
  argv shell command = do
    resolved ← or_raise (which (executable_of shell)) file_not_found
    ok (
        if windows
        then resolved
          ∷ "-NoLogo"
          ∷ "-NoProfile"
          ∷ "-NonInteractive"
          ∷ "-Command"
          ∷ ("$ProgressPreference='SilentlyContinue'\n& {\n" ⧺ (command ⧺ "\n}"))
          ∷ []
        else resolved ∷ "-c" ∷ command ∷ [])

-- CommandSpec; its timeout is the finite float m * 2 ^ e.
pub record CommandSpec : Type 0 where
  pub command : String
  pub cwd : String
  pub timeout : ℤ × ℤ

unfoldable pub command_spec :
    String → String → ℤ × ℤ → (absolute is_dir : Bool) → Result CommandError CommandSpec
unfolding has_nul
command_spec command cwd timeout absolute is_dir = do
  raise_if (command == "" || has_nul command) value_error
  raise_if (not absolute || not is_dir) value_error
  raise_if (not (timeout_ok timeout.0 timeout.1)) value_error
  ok (record { command = command; cwd = cwd; timeout = timeout })

pub record CommandResult : Type 0 where
  pub stdout : Bytes
  pub stderr : Bytes
  pub stdout_truncated : Bool
  pub stderr_truncated : Bool
  pub exit_code : ℤ
  pub timed_out : Bool

-- _Capture
pub record Capture : Type 0 where
  pub limit : ℕ
  pub bytes : Bytes
  pub truncated : Bool
  pub eof : Bool

abbrev pub new_capture : ℕ → Capture
new_capture limit = record { limit = limit; bytes = []; truncated = false; eof = false }

-- `available` is max(0, self.limit - len(self.data)).
unfoldable pub accept : Option Bytes → Capture → Capture
accept none c = c
accept (some []) c = record c { eof = true }
accept (some (b ∷ bs)) c =
    let available = c.limit - length c.bytes in
    record c {
      bytes = c.bytes ++ take available (b ∷ bs);
      truncated = c.truncated || ltb available (length (b ∷ bs));
    }

-- if not capture.eof: capture.accept(process.read(65536))
abbrev pub read_into : Option Bytes → Capture → Capture
read_into chunk c = if c.eof then c else accept chunk c

-- The answers of one round of the loop: what each pipe and `poll` give, whether `stop` is set and the
-- deadline has passed, whether the tree has stopped, the second `poll`, and whether the time for the
-- pipes is over. Or an exception of one of the calls.
pub data Round : Type 0 where
  answers :
      (out errors : Option Bytes) (polled : Option ℤ) (stop_set late tree_stopped : Bool)
      (settled : Option ℤ) (pipes_late : Bool)
      → Round
  raises : CommandError → Round

-- The variables of `_run`.
pub record Running : Type 0 where
  pub stdout : Capture
  pub stderr : Capture
  pub timed_out : Bool
  pub stopped : Bool
  pub pipe_deadline : Bool

abbrev pub new_running : ℕ → Running
new_running limit = record {
  stdout = new_capture limit;
  stderr = new_capture limit;
  timed_out = false;
  stopped = false;
  pipe_deadline = false;
}

pub data Ended : Type 0 where
  goes_on : Running → Ended
  returned : CommandResult → Ended
  failed : CommandError → Ended

abbrev pub result_of : Running → Option ℤ → Ended
result_of r none = failed assertion_error
result_of r (some code) = returned (record {
  stdout = r.stdout.bytes;
  stderr = r.stderr.bytes;
  stdout_truncated = r.stdout.truncated;
  stderr_truncated = r.stderr.truncated;
  exit_code = code;
  timed_out = r.timed_out;
})

-- `if not stopped:` of one round.
abbrev pub look : Option ℤ → (stop_set late : Bool) → Running → Running
look polled stop_set late r =
    let out_of_time = not (is_some polled) && not stop_set && late in
    if r.stopped
    then r
    else record r { timed_out = out_of_time; stopped = is_some polled || stop_set || out_of_time }

-- `if stopped and process.tree_stopped():` of one round.
abbrev pub settle : (tree_stopped : Bool) → Option ℤ → (pipes_late : Bool) → Running → Ended
settle tree_stopped settled pipes_late r =
    if r.stopped && tree_stopped
    then if r.stdout.eof && r.stderr.eof
      then result_of r settled
      else if not r.pipe_deadline
      then goes_on (record r { pipe_deadline = true })
      else if pipes_late
      then failed runtime_error
      else goes_on r
    else goes_on r

unfoldable pub run_round : Round → Running → Ended
unfolding accept
run_round (raises e) r = failed e
run_round (answers out errors polled stop_set late tree_stopped settled pipes_late) r =
    settle tree_stopped settled pipes_late (
      look polled stop_set late
        (record r { stdout = read_into out r.stdout; stderr = read_into errors r.stderr }))

-- The loop, through the rounds so far.
unfoldable pub run_loop : List Round → Running → Ended
run_loop [] r = goes_on r
run_loop (round ∷ rounds) r = elim (run_round round r) [
  | goes_on next ↦ run_loop rounds next
  | returned result ↦ returned result
  | failed e ↦ failed e
]

-- How the `finally` of `_run` ends, or that it goes on.
pub data Cleanup : Type 0 where
  settling settles : Cleanup
  cleanup_fails : CommandError → Cleanup

-- `none` while the worker runs.
unfoldable pub finish_run : Ended → Cleanup → Option (Result CommandError CommandResult)
finish_run (goes_on r) c = none
finish_run (returned result) settling = none
finish_run (returned result) settles = some (ok result)
finish_run (returned result) (cleanup_fails x) = some (err x)
finish_run (failed e) settling = none
finish_run (failed e) settles = some (err e)
finish_run (failed e) (cleanup_fails x) = some (err (both e x))
