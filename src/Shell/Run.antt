-- ===== src/Shell/Run.antt =====
-- `run`, `exitCodeOf`, `execMiddleware` and `openHandler` of internal/shellh/runner.go, with
-- prepareExec of exec_unix.go and exec_windows.go. The interpreter is a parameter; its output goes to
-- the job's buffers, which are given as they stand when it returns.
pub mod Children
use easyworker.Base.{
  ℕ, Bool, true, false, ◌||◌, Option, none, some, List, [], ◌∷◌, ◌++◌, reverse, if◌then◌else◌,
  Bytes, bytes, bytes_eq, cut_prefix, ℤ, pos, negsuc, ◌%◌, ◌-◌,
}
use easyworker.FilePath.{is_abs, clean, join_path}
use easyworker.Shell.LineBuffer.{LineBuffer, tail}
use easyworker.Shell.Env.{merged_env}

-- What a step of the library answers: an error's text, or a value.
pub data Attempt (A : Type 0) : Type 0 where
  failed : Bytes → Attempt A
  done : A → Attempt A

-- The error of an interpreted script.
pub data RunError : Type 0 where
  -- as interp.IsExitStatus recognises it
  exit_status : ℕ → RunError
  other_error : RunError

-- syntax.NewParser().Parse, interp.New with the directory and the environment, and Run.
pub record Interpreter (Script : Type 0) : Type 0 where
  pub parse : Bytes → Attempt Script
  pub start : Bytes → List Bytes → Attempt (Unit {0})
  pub interpret : Script → Bytes → List Bytes → Option RunError

pub record Result : Type 0 where
  pub exit_code : ℕ
  pub stdout : Bytes
  pub stderr : Bytes

abbrev pub no_result : Result
no_result = record { exit_code = 0; stdout = []; stderr = [] }

abbrev pub default_tail_lines : ℕ
default_tail_lines = 200

-- `canceled` is ctx.Err() != nil.
unfoldable pub exit_code_of : Option RunError → Bool → ℕ
exit_code_of none canceled = 0
exit_code_of (some e) true = 130
exit_code_of (some (exit_status n)) false = n
exit_code_of (some other_error) false = 127

-- The directory of a run.
unfoldable pub work_dir : Bytes → Bytes → Bytes
work_dir workspace workdir =
    if bytes_eq workdir []
    then workspace
    else if is_abs workdir
    then clean workdir
    else join_path workspace workdir

module _ {Script : Type 0} (ip : Interpreter Script) where
  run_started :
      Script
      → Bytes
      → List Bytes
      → Bool
      → LineBuffer
      → LineBuffer
      → Attempt (Unit {0})
      → Result × Option Bytes
  unfolding exit_code_of
  run_started file cwd env canceled out err (failed e) = (no_result, some (bytes "interp: " ++ e))
  run_started file cwd env canceled out err (done _) = (
    record {
      exit_code = exit_code_of (ip.interpret file cwd env) canceled;
      stdout = tail default_tail_lines out;
      stderr = tail default_tail_lines err;
    },
    none,
  )

  run_parsed :
      Bytes → List Bytes → Bool → LineBuffer → LineBuffer → Attempt Script → Result × Option Bytes
  unfolding run_started
  run_parsed cwd env canceled out err (failed e) = (no_result, some (bytes "parse: " ++ e))
  run_parsed cwd env canceled out err (done file) =
      run_started file cwd env canceled out err (ip.start cwd env)

  -- `run`: the result, and the text of its error.
  unfoldable pub run :
      Bytes → Bytes → Bytes → List Bytes → Bool → LineBuffer → LineBuffer → Result × Option Bytes
  unfolding run_parsed work_dir
  run workspace command workdir env canceled out err =
      run_parsed (work_dir workspace workdir) env canceled out err (ip.parse command)

  -- `RunWithEnv`
  unfoldable pub run_with_env :
      Bytes
      → List Bytes
      → Bytes
      → Bytes
      → List (Bytes × Bytes)
      → Bool
      → LineBuffer
      → LineBuffer
      → Result × Option Bytes
  unfolding run merged_env
  run_with_env workspace base command workdir additions canceled out err =
      run workspace command workdir (merged_env base additions) canceled out err

-- An external command: exec.CommandContext with its Dir and Env.
pub record Command : Type 0 where
  pub name : Bytes
  pub args : List Bytes
  pub dir : Bytes
  pub env : List Bytes

-- What becomes of it.
pub data Process : Type 0 where
  -- the error's text
  not_started : Bytes → Process
  -- cmd.Wait: no error, an *exec.ExitError with its code, another error
  clean_exit : Process
  exit_error : ℤ → Process
  wait_error : Process

has_suffix : Bytes → Bytes → Bool
has_suffix s suffix = elim (cut_prefix (reverse suffix) (reverse s)) [
  | none ↦ false
  | some _ ↦ true
]

-- prepareExec on windows; `lower` is strings.ToLower.
unfoldable pub prepare_exec_windows : (Bytes → Bytes) → Bytes → List Bytes → Bytes × List Bytes
unfolding has_suffix
prepare_exec_windows lower name args =
    if has_suffix (lower name) (bytes ".cmd") || has_suffix (lower name) (bytes ".bat")
    then (bytes "cmd.exe", bytes "/c" ∷ name ∷ args)
    else (name, args)

-- prepareExec elsewhere
unfoldable pub prepare_exec_unix : Bytes → List Bytes → Bytes × List Bytes
prepare_exec_unix name args = (name, args)

-- What a command leaves: its exit status, if it is not nil, and what the handler wrote to stderr.
pub record Executed : Type 0 where
  pub command : Option Command
  pub status : Option ℕ
  pub complaint : Bytes

-- interp.ExitStatus of an exit code: it has eight bits.
exit_status_of : ℤ → ℕ
exit_status_of (pos n) = n % 256
exit_status_of (negsuc n) = 255 - n % 256

-- The end of a process; `canceled` is ctx.Err() != nil.
status_of : Bool → Process → Option ℕ
unfolding exit_status_of
status_of canceled (not_started e) = some 127
status_of canceled clean_exit = none
status_of canceled (exit_error n) = if canceled then some 130 else some (exit_status_of n)
status_of canceled wait_error = if canceled then some 130 else some 127

complaint_of : Process → Bytes
complaint_of (not_started e) = e ++ b'\n' ∷ []
complaint_of _ = []

-- The handler of `execMiddleware`; `spawn` is what the system makes of a command.
unfoldable pub exec_handler :
    (Bytes → List Bytes → Bytes × List Bytes)
    → (Command → Process)
    → Bool
    → List Bytes
    → Bytes
    → List Bytes
    → Executed
unfolding status_of complaint_of
exec_handler prepare spawn canceled env dir [] = record {
  command = none;
  status = some 1;
  complaint = [];
}
exec_handler prepare spawn canceled env dir (arg ∷ args) =
    let (name, argv) = prepare arg args in
    let c : Command = record { name = name; args = argv; dir = dir; env = env } in
    record {
      command = some c;
      status = status_of canceled (spawn c);
      complaint = complaint_of (spawn c);
    }

-- The path that `openHandler` opens.
unfoldable pub open_path : Bytes → Bytes → Bytes
open_path dir path = if is_abs path then path else join_path dir path
