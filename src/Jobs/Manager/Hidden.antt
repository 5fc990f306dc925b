-- ===== src/Jobs/Manager/Hidden.antt =====
-- The lines that no reader sees (`readMerged` of internal/jobsvc/manager.go).
use easyworker.Base.{
  ℕ, ◌≡◌, ◌≢◌, ◌≤◌, ◌<◌, sym, subst, Bool, true, false, some, List, [], ◌∷◌, arith, ltb,
  if◌then◌else◌, Bool-cases, inl, inr, All, All-append, keep, ℤ,
}
use easyworker.Shell.LineBuffer.{LineRec}
use easyworker.Jobs.Store.{query_lines}
use easyworker.Jobs.Job.{Job}
use easyworker.Jobs.Manager.{Manager, find_job, highest_seq, newer, wants, mem_suffix, read_merged}
use easyworker.Jobs.Manager.Merge.{Above, Above-sort}
use easyworker.Jobs.Manager.History.{read_merged_live}

keep-newer-Above : (h : ℕ) (recs : List LineRec) → Above h (keep (newer h) recs)
keep-newer-Above h [] = tt
keep-newer-Above h (r ∷ recs) = elim (Bool-cases (ltb h r.seq)) [
  | inl new ↦ rw new (ground arith, keep-newer-Above h recs)
  | inr old ↦ rw old (keep-newer-Above h recs)
]

if-Above :
    (b : Bool) (h : ℕ) (recs : List LineRec) → Above h recs → Above h (if b then recs else [])
if-Above true h recs a = a
if-Above false h recs a = tt

mem_suffix-Above : (stream : ℤ) (h : ℕ) (j : Job) → Above h (mem_suffix stream h j)
unfolding mem_suffix
mem_suffix-Above stream h j = Above-sort h _ (
    All-append (λ r. h < r.seq) _ _
      (if-Above (wants stream 0) h _ (keep-newer-Above h j.stdout.recs))
      (if-Above (wants stream 1) h _ (keep-newer-Above h j.stderr.recs)))

Above-absent : (n h : ℕ) (recs : List LineRec) → n ≤ h → Above h recs → All (λ r. r.seq ≢ n) recs
Above-absent n h [] le a = tt
Above-absent n h (r ∷ recs) le a = (λ e. absurd (omega (arith, a.0)), Above-absent n h recs le a.1)

-- A read of one stream or of both: when the table's lines of what is read lack a number, and a higher
-- one is among them, the line of that number is not in what is read, even while the ring still holds
-- it.
pub dropped_line_hidden :
    (n : ℕ) (stream : ℤ) (j : Job) (m : Manager)
    → find_job j.id m.jobs ≡ some j
    → All (λ r. r.seq ≢ n) (query_lines j.id stream m.store)
    → n ≤ highest_seq (query_lines j.id stream m.store)
    → All (λ r. r.seq ≢ n) (read_merged j.id stream m)
dropped_line_hidden n stream j m found lacks le =
    let persisted = query_lines j.id stream m.store in
    let h = highest_seq persisted in
    subst (All λ r. r.seq ≢ n) (sym (read_merged_live stream m j found)) (
      All-append (λ r. r.seq ≢ n) persisted (mem_suffix stream h j) lacks
        (Above-absent n h (mem_suffix stream h j) le (mem_suffix-Above stream h j)))
