-- ===== src/Examples/Handlers.antt =====
-- The handlers of internal/service.go on a manager with one job.
use easyworker.Base.{
  ℕ, ◌≡◌, refl, Bool, true, false, some, [], ◌∷◌, ◌++◌, Bytes, bytes, bytes_eq, pos,
}
use easyworker.Jobs.Row.{sort_seq, finished, select_job}
use easyworker.Jobs.Store.{query_job}
use easyworker.Jobs.Job.{Job, ended, subscribe, result}
use easyworker.Jobs.Manager.{Manager, find_job, row_of}
use easyworker.Jobs.Manager.Ids.{IsMap}
use easyworker.Service.Watch.{watch_job, result_event, completed, send_all, relay, watch_live}
use easyworker.Service.Watch.Delivery.{Watched, watch_job-Watched}
use easyworker.Service.Handlers.{Pipe, wait_job, retention_round}
use easyworker.Service.Handlers.Retained.{wait_job-retention_round}
use easyworker.Tools.Probe.{run}
use easyworker.Tools.Probe.Outcome.{concat, run-watch_job}
use easyworker.Examples.Jobs.{job, manager}
use easyworker.Examples.Store.{empty_store}

abbrev always : ℕ → Bool
always i = true

abbrev never : ℕ → Bool
never i = false

abbrev over : Job
over = record job { state = finished; finished_at = 9; stage = ended }

named : bytes_eq (bytes "j") [] ≡ false
unfolding bytes_eq
named = refl

in_memory : find_job (bytes "j") manager.jobs ≡ some job
unfolding find_job bytes_eq
in_memory = refl

watch_job-Watched_example :
    Watched
      (watch_job always never true true (bytes "j") manager (bytes "x" ∷ []) over)
      ((subscribe job).1 ++ bytes "x" ∷ [])
      (result_event (result over))
watch_job-Watched_example =
    watch_job-Watched always never true true (bytes "j") manager (bytes "x" ∷ []) job over named
      in_memory

complete :
    (watch_job always never true true (bytes "j") manager (bytes "x" ∷ []) over).1 ≡ completed
unfolding watch_job find_job bytes_eq watch_live send_all relay subscribe sort_seq
complete = refl

run-watch_job_example :
    run (some (watch_job always never true true (bytes "j") manager (bytes "x" ∷ []) over))
    ≡ record { out = concat ((subscribe job).1 ++ bytes "x" ∷ []); code = pos 0; failed = false }
run-watch_job_example =
    run-watch_job always never true true (bytes "j") manager (bytes "x" ∷ []) job over named
      in_memory complete

abbrev pub pipe : Pipe Bytes
pipe = record { write = λ b p. (p ++ b, true); close = λ p. (p, true) }

abbrev kept : Manager
kept = record {
  mem_lines = pos 10;
  jobs = over ∷ [];
  store = record empty_store { jobs = row_of over ∷ [] };
}

kept-found : find_job (bytes "j") kept.jobs ≡ some over
unfolding find_job bytes_eq
kept-found = refl

kept-row : query_job (bytes "j") kept.store ≡ some (row_of over)
unfolding query_job select_job bytes_eq
kept-row = refl

kept-IsMap : IsMap kept.jobs
unfolding find_job
kept-IsMap = (refl, tt)

wait_job-retention_round_example :
    wait_job true
      (bytes "j")
      (pos 100)
      (λ _. over)
      never
      (retention_round true true true 5000000 5000001 kept)
    ≡ wait_job true (bytes "j") (pos 100) (λ _. over) never kept
wait_job-retention_round_example =
    wait_job-retention_round (bytes "j") (pos 100) over never 5000000 5000001 kept kept-IsMap
      (tt, tt) kept-found refl kept-row refl
