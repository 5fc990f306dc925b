-- ===== src/Jobs/Manager.antt =====
-- `Manager` of internal/jobsvc/manager.go: the map of the jobs in memory beside the store, and the
-- history that both hold together.
pub mod Ids
pub mod Listing
pub mod Pages
pub mod Merge
pub mod Lost
pub mod History
pub mod Readback
pub mod Hidden
pub mod Restart
pub mod Beyond
pub mod Live
use easyworker.Base.{
  ℕ, ◌-◌, ◌≤◌, Bool, true, false, not, ◌&&◌, ◌||◌, Option, none, some, List, [], ◌∷◌, ◌++◌, map,
  ltb, leb, ◌==◌, if◌then◌else◌, Bytes, bytes_eq, length, take, drop, keep, ℤ, pos, negsuc, ltb_ℤ,
  is_nonpos, pos_part, ◌+ℤ◌, int32, max,
}
use easyworker.Shell.LineBuffer.{LineRec, line_of, new_line_buffer, last}
use easyworker.Jobs.Row.{
  JobState, JobRow, running, stream_stdout, stream_stderr, sort_seq, sort_newest, is_running,
}
use easyworker.Jobs.Store.{Store, enqueue_job, query_job, query_jobs, query_lines}
use easyworker.Jobs.Job.{Job, active}

-- The map holds each id once.
pub record Manager : Type 0 where
  pub mem_lines : ℤ
  pub jobs : List Job
  pub store : Store

-- `NewManager`; its replay cap is an argument of `replay_tail`.
unfoldable pub new_manager : ℤ → Store → Manager
new_manager mem_lines s = record {
  mem_lines = if is_nonpos mem_lines then pos 10000 else mem_lines;
  jobs = [];
  store = s;
}

-- `Get`
unfoldable pub find_job : Bytes → List Job → Option Job
find_job id [] = none
find_job id (j ∷ jobs) = let rest = find_job id jobs in if bytes_eq j.id id then some j else rest

unfoldable pub new_job : ℤ → Bytes → Bytes → ℕ → Job
new_job mem_lines id command now = record {
  id = id;
  command = command;
  state = running;
  exit_code = 0;
  started_at = now;
  finished_at = 0;
  stdout = new_line_buffer mem_lines;
  stderr = new_line_buffer mem_lines;
  seq = 0;
  calling = [];
  channels = [];
  canceled = false;
  stage = active;
}

-- `Execute` up to the start of the goroutine. The id is random; `wrote` says whether the row was
-- written, which only a log line tells.
unfoldable pub execute : Bool → Bytes → Bytes → ℕ → Manager → Manager
unfolding new_job
execute wrote id command now m = record m {
  jobs = new_job m.mem_lines id command now ∷ keep (λ j. not (bytes_eq j.id id)) m.jobs;
  store = (enqueue_job wrote id command now m.store).0;
}

-- `Prune`, in milliseconds.
unfoldable pub prune : ℕ → ℕ → Manager → Manager
prune max_age now m = record m {
  jobs = keep (λ j. not (not (is_running j.state) && ltb j.finished_at (now - max_age))) m.jobs;
}

abbrev pub row_of : Job → JobRow
row_of j = record {
  id = j.id;
  command = j.command;
  state = j.state;
  exit_code = j.exit_code;
  started_at = j.started_at;
  finished_at = j.finished_at;
}

pub has_row : Bytes → List JobRow → Bool
has_row id [] = false
has_row id (r ∷ rows) = bytes_eq r.id id || has_row id rows

-- `List`; `read_ok` says whether the query succeeds. The rows that started in the same millisecond
-- stand in one of the orders that the map's iteration may give.
unfoldable pub list_jobs : Bool → ℤ → Manager → List JobRow
unfolding has_row
list_jobs read_ok limit m =
    let n = if is_nonpos limit then 500 else pos_part limit in
    let rows = if read_ok then query_jobs n m.store else [] in
    let more = map row_of (keep (λ j. not (has_row j.id rows)) m.jobs) in
    take n (sort_newest (rows ++ more))

unfoldable pub highest_seq : List LineRec → ℕ
highest_seq [] = 0
highest_seq (r ∷ recs) = max r.seq (highest_seq recs)

abbrev pub wants : ℤ → ℕ → Bool
wants (pos s) stream = s == stream
wants (negsuc n) stream = true

abbrev pub newer : ℕ → LineRec → Bool
newer seq r = ltb seq r.seq

unfoldable pub mem_suffix : ℤ → ℕ → Job → List LineRec
mem_suffix stream seq j =
    let out = if wants stream stream_stdout then keep (newer seq) j.stdout.recs else [] in
    let err = if wants stream stream_stderr then keep (newer seq) j.stderr.recs else [] in
    sort_seq (out ++ err)

-- `readMerged`, where the query succeeds.
unfoldable pub read_merged : Bytes → ℤ → Manager → List LineRec
unfolding highest_seq mem_suffix
read_merged id stream m =
    let persisted = query_lines id stream m.store in
    elim (find_job id m.jobs) [
      | none ↦ persisted
      | some j ↦ persisted ++ mem_suffix stream (highest_seq persisted) j
    ]

pub record Page : Type 0 where
  pub lines : List Bytes
  pub total : ℤ
  pub start_line : ℤ
  pub end_line : ℤ

-- recs[s:e], or a panic. Go compares `e` with the capacity, which the length does not exceed.
slice : ℤ → ℤ → List LineRec → Option (List LineRec)
slice (pos s) (pos e) recs =
    if leb s e && leb e (length recs) then some (take (e - s) (drop s recs)) else none
slice (pos s) (negsuc e) recs = none
slice (negsuc s) e recs = none

-- The bounds of `OutputLines`, in its int32 arithmetic.
page_start : ℤ → ℤ → ℤ
page_start n start =
    let s1 = if ltb_ℤ start (pos 0) then int32 (n +ℤ start) else start in
    let s2 = if ltb_ℤ s1 (pos 0) then pos 0 else s1 in if ltb_ℤ n s2 then n else s2

page_end : ℤ → ℤ → ℤ → ℤ
page_end n s end' =
    let e = if is_nonpos end' || ltb_ℤ n end' then n else end' in if ltb_ℤ e s then s else e

cut_page : ℤ → ℤ → ℤ → List LineRec → Option Page
unfolding slice
cut_page n s e recs = elim (slice s e recs) [
  | none ↦ none
  | some out ↦ some (record { lines = map line_of out; total = n; start_line = s; end_line = e })
]

unfoldable pub page : ℤ → ℤ → List LineRec → Option Page
unfolding page_start page_end cut_page
page start end' recs =
    let n = int32 (pos (length recs)) in
    let s = page_start n start in cut_page n s (page_end n s end') recs

is_done : Option Job → Option JobRow → Bool
is_done (some j) row = not (is_running j.state)
is_done none (some r) = not (is_running r.state)
is_done none none = false

-- What OutputLines answers: the query's error, a panic of the slice, or a page and whether the job is
-- done. `row_ok` says whether jobState's query succeeds.
pub data Output : Type 0 where
  query_failed panicked : Output
  output : Page → Bool → Output

unfoldable pub output_lines : Bool → Bool → Bytes → ℤ → ℤ → ℤ → Manager → Output
unfolding is_done
output_lines read_ok row_ok id stream start end' m =
    let done = is_done (find_job id m.jobs) (if row_ok then query_job id m.store else none) in
    if read_ok
    then elim (page start end' (read_merged id stream m)) [
      | none ↦ panicked
      | some p ↦ output p done
    ]
    else query_failed

-- `ReplayTail`, whose `n` is the manager's replay cap, a positive number.
unfoldable pub replay_tail : Bool → Bytes → ℕ → Manager → List Bytes
replay_tail read_ok id n m =
    if read_ok then map line_of (last n (read_merged id (negsuc 0) m)) else []
