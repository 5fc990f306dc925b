-- ===== src/Examples/Service.antt =====
-- The handlers of internal/service.go on a job that is over at the second check.
use easyworker.Base.{
  ℕ, zero, suc, ◌+◌, ◌≡◌, ◌≤◌, refl, ap, Bool, false, [], arith, bytes, negsuc, pos,
}
use easyworker.Shell.LineBuffer.{LineBuffer}
use easyworker.Jobs.Job.{Job, ended}
use easyworker.Jobs.Manager.{read_merged}
use easyworker.Service.Wait.{StaysEnded, answered, job_wait, job_wait_lem, rounds}
use easyworker.Examples.Jobs.{job, manager}

abbrev kept_lines : LineBuffer
kept_lines = record {
  max_lines = 10;
  recs = read_merged (bytes "j") (negsuc 0) manager;
  cur = [];
  dropped = 0;
}

abbrev over : Job
over = record job { stage = ended; exit_code = 3 }

abbrev seen : ℕ → Job
seen zero = job
seen (suc i) = over

abbrev never : ℕ → Bool
never i = false

seen-StaysEnded : StaysEnded seen never
seen-StaysEnded zero h = cc
seen-StaysEnded (suc i) h = let e : suc i + 1 ≡ suc (suc i) = omega arith in ap seen e

enough : 1 ≤ rounds (pos 100)
unfolding rounds
enough = omega arith

job_wait_lem_example : job_wait (pos 100) seen never ≡ answered over.state over.exit_code
job_wait_lem_example = job_wait_lem (pos 100) seen never 1 seen-StaysEnded enough (λ m l. refl) refl
