-- ===== src/Jobs/Manager/Listing.antt =====
-- What `List` of internal/jobsvc/manager.go shows of the store and of the jobs in memory.
use easyworker.Base.{
  ℕ, zero, suc, ◌≤◌, ◌≡◌, refl, inl, inr, Bool, true, List, [], ◌∷◌, arith, leb, if◌then◌else◌,
  length, take, length-take, ℤ, is_nonpos, pos_part, All, Bool-cases,
}
use easyworker.Jobs.Row.{JobRow, insert_newest, sort_newest}
use easyworker.Jobs.Store.{query_jobs}
use easyworker.Jobs.Job.{Job}
use easyworker.Jobs.Manager.{Manager, list_jobs, has_row}

-- The rows that started last come first.
abbrev pub IsNewestFirst : List JobRow → Type 0
IsNewestFirst [] = Unit {0}
IsNewestFirst (r ∷ rows) = All (λ s. s.started_at ≤ r.started_at) rows × IsNewestFirst rows

All-older :
    (n k : ℕ) (rows : List JobRow)
    → n ≤ k
    → All (λ s. s.started_at ≤ n) rows
    → All (λ s. s.started_at ≤ k) rows
All-older n k [] le h = tt
All-older n k (r ∷ rows) le h = (omega (arith, le, h.0), All-older n k rows le h.1)

All-insert_newest :
    (n : ℕ) (r : JobRow) (rows : List JobRow)
    → r.started_at ≤ n
    → All (λ s. s.started_at ≤ n) rows
    → All (λ s. s.started_at ≤ n) (insert_newest r rows)
unfolding insert_newest
All-insert_newest n r [] le h = (le, tt)
All-insert_newest n r (s ∷ rows) le h = elim (Bool-cases (leb s.started_at r.started_at)) [
  | inl newer ↦ rw (newer, insert_newest) (le, h)
  | inr older ↦ rw (older, insert_newest) (h.0, All-insert_newest n r rows le h.1)
]

insert_newest-IsNewestFirst :
    (r : JobRow) (rows : List JobRow) → IsNewestFirst rows → IsNewestFirst (insert_newest r rows)
unfolding insert_newest
insert_newest-IsNewestFirst r [] h = (tt, tt)
insert_newest-IsNewestFirst r (s ∷ rows) h = elim (Bool-cases (leb s.started_at r.started_at)) [
  | inl newer ↦
      let le : s.started_at ≤ r.started_at = ground (arith, newer) in
      rw (newer, insert_newest) ((le, All-older s.started_at r.started_at rows le h.0), h)
  | inr older ↦
      let le : r.started_at ≤ s.started_at = ground (arith, older) in
      rw (older, insert_newest)
        (All-insert_newest s.started_at r rows le h.0, insert_newest-IsNewestFirst r rows h.1)
]

sort_newest-IsNewestFirst : (rows : List JobRow) → IsNewestFirst (sort_newest rows)
unfolding sort_newest
sort_newest-IsNewestFirst [] = tt
sort_newest-IsNewestFirst (r ∷ rows) =
    insert_newest-IsNewestFirst r (sort_newest rows) (sort_newest-IsNewestFirst rows)

All-take : (P : JobRow → Type 0) (n : ℕ) (rows : List JobRow) → All P rows → All P (take n rows)
All-take P zero rows h = tt
All-take P (suc n) [] h = tt
All-take P (suc n) (r ∷ rows) h = (h.0, All-take P n rows h.1)

take-IsNewestFirst : (n : ℕ) (rows : List JobRow) → IsNewestFirst rows → IsNewestFirst (take n rows)
take-IsNewestFirst zero rows h = tt
take-IsNewestFirst (suc n) [] h = tt
take-IsNewestFirst (suc n) (r ∷ rows) h =
    (All-take (λ s. s.started_at ≤ r.started_at) n rows h.0, take-IsNewestFirst n rows h.1)

take-sort_newest :
    (n : ℕ) (rows : List JobRow)
    → IsNewestFirst (take n (sort_newest rows)) × (length (take n (sort_newest rows)) ≤ n)
take-sort_newest n rows = (
  take-IsNewestFirst n (sort_newest rows) (sort_newest-IsNewestFirst rows),
  omega (arith, length-take n (sort_newest rows)),
)

abbrev pub limit_of : ℤ → ℕ
limit_of limit = if is_nonpos limit then 500 else pos_part limit

-- A listing has at most as many rows as it was asked for, 500 without a positive limit, and the jobs
-- that started last come first, whether the store answers or not.
pub list_jobs-IsNewestFirst :
    (read_ok : Bool) (limit : ℤ) (m : Manager)
    → IsNewestFirst (list_jobs read_ok limit m)
      × (length (list_jobs read_ok limit m) ≤ limit_of limit)
unfolding list_jobs
list_jobs-IsNewestFirst read_ok limit m = take-sort_newest (limit_of limit) _

-- A job in memory makes no difference to a listing if the rows that the store gives have its id: what
-- the store has of it is shown, also where the job has ended since.
pub list_jobs_stale :
    (limit : ℤ) (j k : Job) (jobs : List Job) (m : Manager)
    → k.id ≡ j.id
    → has_row j.id (query_jobs (limit_of limit) m.store) ≡ true
    → list_jobs true limit (record m { jobs = j ∷ jobs })
      ≡ list_jobs true limit (record m { jobs = k ∷ jobs })
unfolding list_jobs
list_jobs_stale limit j k jobs m same stored = rw (same, stored) refl
