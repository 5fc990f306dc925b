-- ===== src/Jobs/Job/End.antt =====
-- A job from its command to its end: `RunWithEnv` of internal/shellh/runner.go inside the goroutine of
-- `Execute` of internal/jobsvc/manager.go.
use easyworker.Base.{
  ℕ, ◌≡◌, ◌∙◌, refl, ap, Bool, true, false, Option, none, some, List, ◌++◌, arith, ◌==◌,
  if◌then◌else◌, Bytes, bytes,
}
use easyworker.Shell.LineBuffer.{LineBuffer}
use easyworker.Shell.Env.{merged_env}
use easyworker.Shell.Run.{
  failed, done, RunError, exit_status, other_error, Interpreter, Result, no_result, exit_code_of,
  work_dir, run_with_env,
}
use easyworker.Jobs.Row.{JobState, finished, killed}
use easyworker.Jobs.Row
use easyworker.Jobs.Store.{Store}
use easyworker.Jobs.Job.{Job, RunResult, final_state, finalize}
use easyworker.Jobs.Job.Outcome.{finalize-final_state}

-- What the goroutine takes from RunWithEnv.
abbrev pub run_result : Result × Option Bytes → RunResult
run_result (r, e) = record { exit_code = r.exit_code; error = e }

-- What a script's end and a cancellation should come to.
abbrev pub verdict : Option RunError → Bool → JobState × ℕ
verdict none true = (killed, 0)
verdict (some e) true = (killed, 130)
verdict none false = (finished, 0)
verdict (some (exit_status n)) false = if n == 0 then (finished, 0) else (Row.failed, n)
verdict (some other_error) false = (Row.failed, 127)

module _ {Script : Type 0} (ip : Interpreter Script) where
  -- The job after a run of its command, where `canceled` is the context's state when the run ended.
  unfoldable pub end_job :
      Bytes → List Bytes → Bytes → List (Bytes × Bytes) → Bool → ℕ → Job → Store → Job × Store
  end_job workspace base workdir additions canceled now j s =
      finalize
        (run_result
          (run_with_env ip workspace base j.command workdir additions canceled j.stdout j.stderr))
        now j s

  -- The verdict on a script that was parsed and started.
  started_run :
      (workspace workdir command : Bytes) (base : List Bytes) (additions : List (Bytes × Bytes))
      (canceled : Bool) (out err : LineBuffer) (file : Script)
      → ip.parse command ≡ done file
      → ip.start (work_dir workspace workdir) (merged_env base additions) ≡ done tt
      → let r = run_with_env ip workspace base command workdir additions canceled out err in
        (r.1 ≡ none)
        × (r.0.exit_code
            ≡ exit_code_of
                (ip.interpret file (work_dir workspace workdir) (merged_env base additions))
                canceled)
  unfolding run_with_env
  started_run workspace workdir command base additions canceled out err file p st =
      ground (arith, p, st)

  final_state-verdict :
      (e : Option RunError) (c : Bool) → final_state none c (exit_code_of e c) ≡ verdict e c
  unfolding exit_code_of
  final_state-verdict none true = refl
  final_state-verdict (some e) true = refl
  final_state-verdict none false = refl
  final_state-verdict (some (exit_status n)) false = ground arith
  final_state-verdict (some other_error) false = refl

  -- How a job ends whose command was parsed and whose interpreter started, if it was not canceled
  -- between the end of the script and the end of the goroutine: killed with exit code 130 if it was
  -- canceled (0 if the script ended without an error all the same); else finished with 0 for a script
  -- that ended well or with exit status 0, failed with its exit status, or failed with 127.
  pub end_job-verdict :
      (workspace workdir : Bytes) (base : List Bytes) (additions : List (Bytes × Bytes)) (now : ℕ)
      (j : Job) (s : Store) (file : Script)
      → ip.parse j.command ≡ done file
      → ip.start (work_dir workspace workdir) (merged_env base additions) ≡ done tt
      → let k = (end_job workspace base workdir additions j.canceled now j s).0 in
        let e = ip.interpret file (work_dir workspace workdir) (merged_env base additions) in
        (k.state ≡ (verdict e j.canceled).0) × (k.exit_code ≡ (verdict e j.canceled).1)
  unfolding end_job
  end_job-verdict workspace workdir base additions now j s file p st =
      let r =
        run_with_env ip workspace base j.command workdir additions j.canceled j.stdout j.stderr in
      let e = ip.interpret file (work_dir workspace workdir) (merged_env base additions) in
      let (ok', code) =
        started_run workspace workdir j.command base additions j.canceled j.stdout j.stderr file p
          st in
      let (state, exit_code) = finalize-final_state (run_result r) now j s in
      let same =
        ap (λ x. final_state x j.canceled r.0.exit_code) ok'
        ∙ ap (final_state none j.canceled) code
        ∙ final_state-verdict e j.canceled in
      (state ∙ ap (λ x. x.0) same, exit_code ∙ ap (λ x. x.1) same)

  -- A job whose command does not parse ends as failed, with exit code 0.
  pub unparsed_job :
      (workspace workdir : Bytes) (base : List Bytes) (additions : List (Bytes × Bytes)) (now : ℕ)
      (j : Job) (s : Store) (e : Bytes)
      → ip.parse j.command ≡ failed e
      → let k = (end_job workspace base workdir additions j.canceled now j s).0 in
        (k.state ≡ Row.failed) × (k.exit_code ≡ 0)
  unfolding end_job run_with_env
  unparsed_job workspace workdir base additions now j s e p =
      let r =
        run_with_env ip workspace base j.command workdir additions j.canceled j.stdout j.stderr in
      let refused : r ≡ (no_result, some (bytes "parse: " ++ e)) = rw (p, run_with_env) refl in
      let (state, exit_code) = finalize-final_state (run_result r) now j s in
      (
        state
            ∙ ap (λ (x : Result × Option Bytes). (final_state x.1 j.canceled x.0.exit_code).0)
                refused,
        exit_code
            ∙ ap (λ (x : Result × Option Bytes). (final_state x.1 j.canceled x.0.exit_code).1)
                refused,
      )
