-- ===== src/Jobs/Manager/Ids.antt =====
-- The manager's map as a list: each id once, through every operation that changes it
-- (internal/jobsvc/manager.go).
use easyworker.Base.{
  ℕ, ◌≡◌, refl, inl, inr, Bool, false, not, Option, none, some, List, [], ◌∷◌, arith, if◌then◌else◌,
  Bytes, bytes_eq, bytes_eq_iff, keep, Bool-cases,
}
use easyworker.Jobs.Job.{Job}
use easyworker.Jobs.Manager.{Manager, find_job, execute, new_job, prune}

abbrev pub IsMap : List Job → Type 0
IsMap [] = Unit {0}
IsMap (j ∷ jobs) = (find_job j.id jobs ≡ none) × IsMap jobs

abbrev pub if_kept : (Job → Bool) → Option Job → Option Job
if_kept p none = none
if_kept p (some j) = if p j then some j else none

find_job-absent :
    (p : Job → Bool) (id : Bytes) (jobs : List Job)
    → find_job id jobs ≡ none
    → find_job id (keep p jobs) ≡ none
unfolding find_job
find_job-absent p id [] e = refl
find_job-absent p id (j ∷ jobs) e = elim (Bool-cases (bytes_eq j.id id)) [
  | inl hit ↦ ground (arith, hit, e)
  | inr other ↦ ground (arith, other, e, find_job-absent p id jobs)
]

pub find_job-keep :
    (p : Job → Bool) (id : Bytes) (jobs : List Job)
    → IsMap jobs
    → find_job id (keep p jobs) ≡ if_kept p (find_job id jobs)
unfolding find_job
find_job-keep p id [] u = refl
find_job-keep p id (j ∷ jobs) u = elim (Bool-cases (bytes_eq j.id id)) [
  | inl hit ↦
      let same = (bytes_eq_iff j.id id).0 hit in
      ground (arith, hit, find_job-absent p id jobs (rw (← same) u.0))
  | inr other ↦ ground (arith, other, find_job-keep p id jobs u.1)
]

keep-IsMap : (p : Job → Bool) (jobs : List Job) → IsMap jobs → IsMap (keep p jobs)
keep-IsMap p [] u = tt
keep-IsMap p (j ∷ jobs) u = elim (Bool-cases (p j)) [
  | inl kept ↦ rw (kept) (find_job-absent p j.id jobs u.0, keep-IsMap p jobs u.1)
  | inr cut ↦ rw (cut) (keep-IsMap p jobs u.1)
]

find_job-others :
    (id other : Bytes) (jobs : List Job)
    → bytes_eq id other ≡ false
    → find_job other (keep (λ j. not (bytes_eq j.id id)) jobs) ≡ find_job other jobs
unfolding find_job
find_job-others id other [] ne = refl
find_job-others id other (j ∷ jobs) ne = ground (
  arith,
  find_job-others id other jobs ne,
  bytes_eq_iff j.id id,
  bytes_eq_iff j.id other,
  bytes_eq_iff id other,
)

find_job-cut :
    (id : Bytes) (jobs : List Job) → find_job id (keep (λ j. not (bytes_eq j.id id)) jobs) ≡ none
unfolding find_job
find_job-cut id [] = refl
find_job-cut id (j ∷ jobs) = ground (arith, find_job-cut id jobs)

-- A new job is found under its id, a job of any other id stays what it was, and the map has each id
-- once afterwards if it had before, even where the new id was in use.
pub find_job-execute :
    (wrote : Bool) (id command : Bytes) (now : ℕ) (m : Manager) (other : Bytes)
    → IsMap m.jobs
    → (find_job other (execute wrote id command now m).jobs ≡ (
        if bytes_eq id other
        then some (new_job m.mem_lines id command now)
        else find_job other m.jobs))
      × IsMap (execute wrote id command now m).jobs
unfolding execute find_job
find_job-execute wrote id command now m other u = (
  elim (Bool-cases (bytes_eq id other)) [
    | inl same ↦ rw (same) refl
    | inr ne ↦ rw (ne) (find_job-others id other m.jobs ne)
  ],
  (find_job-cut id m.jobs, keep-IsMap _ m.jobs u),
)

pub prune-IsMap : (max_age now : ℕ) (m : Manager) → IsMap m.jobs → IsMap (prune max_age now m).jobs
unfolding prune
prune-IsMap max_age now m u = keep-IsMap _ m.jobs u
