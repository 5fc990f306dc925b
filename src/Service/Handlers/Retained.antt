-- ===== src/Service/Handlers/Retained.antt =====
-- A round of the manager's retention loop, as JobWait sees it (internal/service.go,
-- internal/jobsvc/manager.go, internal/jobsvc/store.go).
use easyworker.Base.{
  ℕ, ◌-◌, ◌*◌, ◌≡◌, ◌∙◌, refl, sym, ap, inl, inr, Bool, true, false, not, none, some, arith, ltb,
  ◌&&◌, if◌then◌else◌, Bytes, ℤ, Bool-cases,
}
use easyworker.Rpc.{reply}
use easyworker.Jobs.Row.{is_old, is_running}
use easyworker.Jobs.Store.{query_job, retention}
use easyworker.Jobs.Store.Cleaning.{UniqueIds, kept_row, query_job-retention}
use easyworker.Jobs.Job.{Job, is_ended}
use easyworker.Jobs.Manager.{Manager, find_job, row_of, prune}
use easyworker.Jobs.Manager.Ids.{IsMap, find_job-keep, if_kept}
use easyworker.Service.Wait.{job_wait_lem}
use easyworker.Service.Handlers.{wait_job, retention_round}

live_answer :
    (row_ok : Bool) (id : Bytes) (timeout : ℤ) (j : Job) (gone : ℕ → Bool) (m : Manager)
    → find_job id m.jobs ≡ some j
    → is_ended j.stage ≡ true
    → wait_job row_ok id timeout (λ _. j) gone m ≡ reply (j.state, j.exit_code)
unfolding wait_job
live_answer row_ok id timeout j gone m found over =
    rw
      (
        found,
        job_wait_lem timeout (λ _. j) gone 0 (λ i h. refl) (omega arith)
            (λ i h. absurd (omega (arith, h))) over,
        wait_job,
      )
      refl

stored_answer :
    (id : Bytes) (timeout : ℤ) (j : Job) (gone : ℕ → Bool) (m : Manager)
    → find_job id m.jobs ≡ none
    → query_job id m.store ≡ some (row_of j)
    → wait_job true id timeout (λ _. j) gone m ≡ reply (j.state, j.exit_code)
unfolding wait_job
stored_answer id timeout j gone m absent kept = rw (absent, kept, wait_job) refl

still_stored :
    (id : Bytes) (now : ℕ) (m : Manager) (j : Job)
    → UniqueIds m.store.jobs
    → query_job id m.store ≡ some (row_of j)
    → is_old (now - 24 * 3600000) (row_of j) ≡ false
    → query_job id (retention true true true 24 now m.store).0 ≡ some (row_of j)
still_stored id now m j rows kept fresh =
    query_job-retention 24 now m.store id rows
    ∙ ap (kept_row (now - 24 * 3600000)) kept
    ∙ ap (λ old. if old then none else some (row_of j)) fresh

-- JobWait gives the same answer for a job that is over before and after a round of the retention loop,
-- whether the round drops the job from memory or not, if the store has the job's final row, that row is
-- inside the store's window, and the round does not fail.
pub wait_job-retention_round :
    (id : Bytes) (timeout : ℤ) (j : Job) (gone : ℕ → Bool) (now later : ℕ) (m : Manager)
    → IsMap m.jobs
    → UniqueIds m.store.jobs
    → find_job id m.jobs ≡ some j
    → is_ended j.stage ≡ true
    → query_job id m.store ≡ some (row_of j)
    → is_old (now - 24 * 3600000) (row_of j) ≡ false
    → wait_job true id timeout (λ _. j) gone (retention_round true true true now later m)
      ≡ wait_job true id timeout (λ _. j) gone m
unfolding retention_round prune
wait_job-retention_round id timeout j gone now later m ids rows found over kept fresh =
    let p = λ (k : Job). not (not (is_running k.state) && ltb k.finished_at (later - 3600000)) in
    let after = retention_round true true true now later m in
    let left = find_job-keep p id m.jobs ids ∙ ap (if_kept p) found in
    let before = live_answer true id timeout j gone m found over in
    elim (Bool-cases (p j)) [
      | inl stays ↦
          live_answer true id timeout j gone after
            (left ∙ ap (λ b. if b then some j else none) stays) over
          ∙ sym before
      | inr dropped ↦
          stored_answer id timeout j gone after
            (left ∙ ap (λ b. if b then some j else none) dropped)
            (still_stored id now m j rows kept fresh)
          ∙ sym before
    ]
