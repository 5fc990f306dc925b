-- ===== src/Tools/Checks.antt =====
-- `main` of cmd/ewtest/main.go: the checks of a running worker and the exit code. What the worker answers
-- to each call is a parameter; a call's error is `none` or `false`.
use easyworker.Base.{
  ℕ, ◌+◌, ◌≡◌, ◌↔◌, ◌||◌, ◌&&◌, refl, Bool, true, false, not, Option, none, some, List, [], ◌∷◌,
  ◌++◌, arith, ltb, ◌==◌, if◌then◌else◌, Bool-cases, Bytes, bytes, bytes_eq, length, All, get_elem?,
  inl, inr,
}
use easyworker.Jobs.Row.{JobState, finished, killed}
use easyworker.Client.{Enrolled, enrolled, refused}
use easyworker.Service.Watch.{Event, output}

-- The answers of the worker, of the calls and of the helpers that wait.
pub record Answers : Type 0 where
  -- the system and the shell
  pub info : Option (Bytes × Bytes)
  -- the command
  pub execute : Bytes → Option Bytes
  -- the events, unless the stream ends with an error
  pub watch : Bytes → Option (List Event)
  pub wait : Bytes → Option JobState
  -- the id, the stream
  pub output_of : Bytes → Bytes → Option (List Bytes)
  -- waitForOutput and waitForLines
  pub first_line : Bytes → Bytes
  pub all_lines : Bytes → List Bytes
  pub write_file : Bytes → Bytes → Bool
  pub read_file : Bytes → Option Bytes
  -- whether it is a directory, the number of files
  pub list_files : Bytes → Option (Bool × ℕ)
  pub kill : Bytes → Bool

-- A check: its name, and whether it passes.
abbrev pub Check : Type 0
Check = Bytes × Bool

contains : List Bytes → Bytes → Bool
contains [] s = false
contains (x ∷ xs) s = bytes_eq x s || contains xs s

lines_of : Option (List Bytes) → List Bytes
lines_of none = []
lines_of (some lines) = lines

outputs : List Event → List Bytes
outputs [] = []
outputs (output l ∷ events) = l ∷ outputs events
outputs (Event.finished c o e ∷ events) = outputs events

has_done : List Event → Bool
has_done [] = false
has_done (output l ∷ events) = has_done events
has_done (Event.finished c o e ∷ events) = true

is_state_done : Option JobState → Bool
is_state_done (some finished) = true
is_state_done other = false

is_state_killed : Option JobState → Bool
is_state_killed (some killed) = true
is_state_killed other = false

is_some : {A : Type 0} → Option A → Bool
is_some none = false
is_some (some a) = true

-- The token: the flag's, else the environment's; with a code, the one that the worker issues.
pub chosen_token : (Bytes → Enrolled) → Bytes → Bytes → Bytes → Option Bytes
chosen_token claim flag env code =
    let tok = if bytes_eq flag [] then env else flag in
    if bytes_eq code []
    then some tok
    else elim (claim code) [ enrolled t ↦ some t | refused x ↦ none ]

greeting : Bytes → Bytes
greeting os = bytes "hello-from-" ++ os

watch_passes : Bytes → Option (List Event) → Bool
unfolding contains outputs has_done greeting
watch_passes os none = false
watch_passes os (some events) = has_done events && contains (outputs events) (greeting os)

-- The checks of the first job's output.
output_checks : Answers → Bytes → Bytes → List Check
unfolding contains lines_of watch_passes is_state_done greeting
output_checks a os id =
    let all = lines_of (a.output_of id (bytes "all")) in
    let out = lines_of (a.output_of id (bytes "stdout")) in
    let err = lines_of (a.output_of id (bytes "stderr")) in
    (bytes "watch-live+done", watch_passes os (a.watch id))
    ∷ (bytes "jobwait-done", is_state_done (a.wait id))
    ∷ (bytes "output-all", length all == 3 && contains all (bytes "tail-no-newline"))
    ∷ (bytes "output-stdout-filter", length out == 2 && contains out (greeting os))
    ∷ (bytes "output-stderr-filter", length err == 1 && contains err (bytes "to-stderr"))
    ∷ []

abbrev is_windows : Bytes → Bool
is_windows os = bytes_eq os (bytes "windows")

external_command : Bytes → Bytes
external_command os =
    if is_windows os then bytes "cmd /c echo external-cmd-works" else bytes "uname -s"

pipe_command : Bytes → Bytes
pipe_command os =
    if is_windows os
    then bytes "printf 'apple\\nbanana\\n' | findstr apple"
    else bytes "printf 'b\\na\\n' | sort"

want_pipe : Bytes → Bytes
want_pipe os = if is_windows os then bytes "apple" else bytes "a"

long_command : Bytes → Bytes
long_command os = if is_windows os then bytes "ping -n 60 127.0.0.1" else bytes "sleep 60"

first_command : Bytes → Bytes
unfolding greeting
first_command os =
    bytes "echo " ++ (greeting os ++ bytes " && echo to-stderr >&2 && printf tail-no-newline")

ends_in_255 : Option ℕ → Bool
ends_in_255 none = false
ends_in_255 (some c) = c == 255

is_binary : Option Bytes → Bool
unfolding ends_in_255
is_binary none = false
is_binary (some b) = length b == 4 && ends_in_255 (get_elem? b 3)

is_one_file : Option (Bool × ℕ) → Bool
is_one_file none = false
is_one_file (some (dir, n)) = dir && n == 1

file_checks : Answers → List Check
unfolding is_binary is_one_file is_some
file_checks a =
    (bytes "file-write", a.write_file (bytes "ewtest/bin.dat") (0 ∷ 1 ∷ 2 ∷ 255 ∷ []))
    ∷ (bytes "file-read-binary", is_binary (a.read_file (bytes "ewtest/bin.dat")))
    ∷ (bytes "file-list", is_one_file (a.list_files (bytes "ewtest")))
    ∷ (bytes "file-containment", not (is_some (a.read_file (bytes "../../etc/passwd"))))
    ∷ []

is_piped : List Bytes → Bool
unfolding contains
is_piped lines = length lines == 1 && contains lines (bytes "piped-stdin")

-- The checks behind Info, with the ids of the five jobs.
job_checks : Answers → Bytes → Bytes → Bytes → Bytes → Bytes → Bytes → List Check
unfolding output_checks file_checks want_pipe is_piped is_state_killed
job_checks a os id ext piped sorting long =
    output_checks a os id
    ++ ((bytes "external-exec", not (bytes_eq (a.first_line ext) []))
        ∷ (bytes "builtin-pipe", bytes_eq (a.first_line piped) (want_pipe os))
        ∷ (file_checks a
            ++ ((bytes "stdin-pipe", is_piped (a.all_lines sorting))
                ∷ (bytes "kill-tree", a.kill long && is_state_killed (a.wait long))
                ∷ [])))

-- A job that cannot be started ends the run.
session : Answers → Bytes → Option (List Check)
unfolding job_checks first_command external_command pipe_command long_command
session a os = elim (a.execute (first_command os)) [
  | none ↦ none
  | some id ↦ elim (a.execute (external_command os)) [
    | none ↦ none
    | some ext ↦ elim (a.execute (pipe_command os)) [
      | none ↦ none
      | some piped ↦ elim (a.execute (bytes "sort")) [
        | none ↦ none
        | some sorting ↦ elim (a.execute (long_command os)) [
          | none ↦ none
          | some long ↦ some (job_checks a os id ext piped sorting long)
        ]
      ]
    ]
  ]
]

failures : List Check → ℕ
failures [] = 0
failures (c ∷ checks) = let rest = failures checks in if c.1 then rest else rest + 1

exit_code : List Check → ℕ
unfolding failures
exit_code checks = if ltb 0 (failures checks) then 1 else 0

-- What runs with a token.
pub run_checks : Answers → Option (List Check)
unfolding session
run_checks a = elim a.info [
  | none ↦ none
  | some (os, shell) ↦ elim (session a os) [
    | none ↦ none
    | some checks ↦ some ((bytes "info", bytes_eq shell (bytes "builtin(mvdan-sh)")) ∷ checks)
  ]
]

exit_of_run : Option (List Check) → ℕ
unfolding exit_code
exit_of_run none = 1
exit_of_run (some checks) = exit_code checks

-- `main`: the exit code. `dial` gives what the worker answers the holder of a token.
unfoldable pub ewtest_main : (Bytes → Enrolled) → (Bytes → Answers) → Bytes → Bytes → Bytes → ℕ
unfolding chosen_token run_checks exit_of_run
ewtest_main claim dial flag env code = elim (chosen_token claim flag env code) [
  | none ↦ 1
  | some tok ↦ exit_of_run (run_checks (dial tok))
]

failures-zero : (checks : List Check) → failures checks ≡ 0 → All (λ c. c.1 ≡ true) checks
unfolding failures
failures-zero [] e = tt
failures-zero (c ∷ checks) e = elim (Bool-cases c.1) [
  | inl passes ↦ (passes, failures-zero checks (ground (arith, passes)))
  | inr fails ↦ absurd (ground (arith, fails))
]

failures_none : (checks : List Check) → All (λ c. c.1 ≡ true) checks → failures checks ≡ 0
unfolding failures
failures_none [] h = refl
failures_none (c ∷ checks) h = rw h.0 (failures_none checks h.1)

exit_code-failures : (checks : List Check) → (exit_code checks ≡ 0) ↔ (failures checks ≡ 0)
unfolding exit_code
exit_code-failures checks = (λ e. ground arith, λ e. ground arith)

-- A run of the checks that comes to its end leaves exit code 0 exactly when each of them passes.
pub ewtest_main-zero :
    (claim : Bytes → Enrolled) (dial : Bytes → Answers) (flag env code tok : Bytes)
    (checks : List Check)
    → chosen_token claim flag env code ≡ some tok
    → run_checks (dial tok) ≡ some checks
    → (ewtest_main claim dial flag env code ≡ 0) ↔ All (λ c. c.1 ≡ true) checks
unfolding ewtest_main exit_of_run
ewtest_main-zero claim dial flag env code tok checks chosen ran =
    let (left, right) = exit_code-failures checks in
    rw (chosen, ran, ewtest_main)
      (λ e. failures-zero checks (left e), λ h. right (failures_none checks h))
