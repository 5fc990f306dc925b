-- ===== src/Jobs/Store/Cleaning.antt =====
-- What recovery and retention do to the tables (internal/jobsvc/store.go).
use easyworker.Base.{
  ℕ, ◌*◌, ◌-◌, ◌≡◌, ◌≢◌, ◌∙◌, refl, ap, true, false, not, Option, none, some, List, [], ◌∷◌, arith,
  if◌then◌else◌, Bytes, bytes_eq, bytes_eq_iff, All, keep, ℤ, inl, inr, Bool-cases,
}
use easyworker.Shell.LineBuffer.{LineRec}
use easyworker.Jobs.Row.{
  JobRow, StoreLine, failed, is_running, recover_row, update_orphans, select_job, select_lines,
  matching, sort_seq, is_old, has_job,
}
use easyworker.Jobs.Store.{Store, recover, query_job, query_lines, retention}

abbrev pub map_row : (JobRow → JobRow) → Option JobRow → Option JobRow
map_row f none = none
map_row f (some r) = some (f r)

select_job-update_orphans :
    (now : ℕ) (id : Bytes) (jobs : List JobRow)
    → select_job id (update_orphans now jobs) ≡ map_row (recover_row now) (select_job id jobs)
unfolding select_job update_orphans
select_job-update_orphans now id [] = refl
select_job-update_orphans now id (r ∷ jobs) = ground (arith, select_job-update_orphans now id jobs)

-- Recovery answers for every job that the last process left: one that was running has failed with
-- 137 at the time of the start, any other is as it was, and none that was absent appears.
pub query_job-recover :
    (now : ℕ) (jobs : List JobRow) (lines : List StoreLine) (id : Bytes)
    → query_job id (recover now jobs lines)
      ≡ map_row
          (λ r.
            if is_running r.state
            then record r { state = failed; exit_code = 137; finished_at = now }
            else r)
          (select_job id jobs)
unfolding query_job recover
query_job-recover now jobs lines id = select_job-update_orphans now id jobs

-- The primary key of the table of jobs.
abbrev pub UniqueIds : List JobRow → Type 0
UniqueIds [] = Unit {0}
UniqueIds (r ∷ jobs) = All (λ j. j.id ≢ r.id) jobs × UniqueIds jobs

abbrev pub kept_row : ℕ → Option JobRow → Option JobRow
kept_row cutoff none = none
kept_row cutoff (some r) = if is_old cutoff r then none else some r

abbrev left_jobs : ℕ → List JobRow → List JobRow
left_jobs cutoff = keep λ r. not (is_old cutoff r)

select_job-absent :
    (cutoff : ℕ) (id : Bytes) (jobs : List JobRow)
    → All (λ j. j.id ≢ id) jobs
    → select_job id (left_jobs cutoff jobs) ≡ none
unfolding select_job
select_job-absent cutoff id [] h = refl
select_job-absent cutoff id (r ∷ jobs) h =
    ground (arith, bytes_eq_iff r.id id, select_job-absent cutoff id jobs h.1)

select_job-left_jobs :
    (cutoff : ℕ) (id : Bytes) (jobs : List JobRow)
    → UniqueIds jobs
    → select_job id (left_jobs cutoff jobs) ≡ kept_row cutoff (select_job id jobs)
unfolding select_job
select_job-left_jobs cutoff id [] u = refl
select_job-left_jobs cutoff id (r ∷ jobs) u = elim (Bool-cases (bytes_eq r.id id)) [
  | inl hit ↦
      let same = (bytes_eq_iff r.id id).0 hit in
      ground (arith, hit, select_job-absent cutoff id jobs (rw (← same) u.0))
  | inr other ↦ ground (arith, other, select_job-left_jobs cutoff id jobs u.1)
]

-- A retention pass that does not fail forgets exactly the finished jobs whose end lies before the
-- cutoff, and keeps every other job as it was, in a table that has each id once.
pub query_job-retention :
    (hours now : ℕ) (s : Store) (id : Bytes)
    → UniqueIds s.jobs
    → query_job id (retention true true true hours now s).0
      ≡ kept_row (now - hours * 3600000) (query_job id s)
unfolding query_job retention
query_job-retention hours now s id u = select_job-left_jobs (now - hours * 3600000) id s.jobs u

has_job_iff-select :
    (id : Bytes) (jobs : List JobRow) (l : StoreLine)
    → bytes_eq l.job_id id ≡ true
    → has_job jobs l ≡ (elim (select_job id jobs) [ none ↦ false | some r ↦ true ])
unfolding has_job select_job
has_job_iff-select id [] l h = refl
has_job_iff-select id (r ∷ jobs) l h = ground (
  arith,
  has_job_iff-select id jobs l h,
  bytes_eq_iff l.job_id id,
  bytes_eq_iff r.id id,
  bytes_eq_iff r.id l.job_id,
)

abbrev pub lines_if : Option JobRow → List LineRec → List LineRec
lines_if none recs = []
lines_if (some r) recs = recs

matching-swept :
    (id : Bytes) (stream : ℤ) (jobs : List JobRow) (lines : List StoreLine)
    → matching id stream (keep (has_job jobs) lines)
      ≡ lines_if (select_job id jobs) (matching id stream lines)
unfolding matching
matching-swept id stream jobs [] = ground arith
matching-swept id stream jobs (l ∷ lines) = elim (Bool-cases (bytes_eq l.job_id id)) [
  | inl mine ↦
      ground (arith, mine, has_job_iff-select id jobs l mine, matching-swept id stream jobs lines)
  | inr other ↦ ground (arith, other, matching-swept id stream jobs lines)
]

sort_seq-lines_if :
    (o : Option JobRow) (recs : List LineRec)
    → sort_seq (lines_if o recs) ≡ lines_if o (sort_seq recs)
unfolding sort_seq
sort_seq-lines_if none recs = refl
sort_seq-lines_if (some r) recs = refl

-- A retention pass that does not fail deletes every line of a job whose row is gone after it, and no
-- line of a job that is left.
pub query_lines-retention :
    (hours now : ℕ) (s : Store) (id : Bytes) (stream : ℤ)
    → UniqueIds s.jobs
    → query_lines id stream (retention true true true hours now s).0
      ≡ lines_if (kept_row (now - hours * 3600000) (query_job id s)) (query_lines id stream s)
unfolding query_lines query_job retention select_lines
query_lines-retention hours now s id stream u =
    let cutoff = now - hours * 3600000 in
    ap sort_seq (matching-swept id stream (left_jobs cutoff s.jobs) s.lines)
    ∙ sort_seq-lines_if (select_job id (left_jobs cutoff s.jobs)) (matching id stream s.lines)
    ∙ ap (λ o. lines_if o (sort_seq (matching id stream s.lines)))
        (select_job-left_jobs cutoff id s.jobs u)
