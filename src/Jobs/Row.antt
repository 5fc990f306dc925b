-- ===== src/Jobs/Row.antt =====
-- The rows of internal/jobsvc/store.go, and what its SQL statements say of them. A table is the list
-- of its rows in insertion order.
use easyworker.Base.{
  ℕ, Bool, true, false, not, ◌&&◌, Option, none, some, List, [], ◌∷◌, ◌++◌, leb, ltb, ◌==◌,
  if◌then◌else◌, Bytes, bytes_eq, take, keep, ℤ, pos, negsuc, max,
}
use easyworker.Shell.LineBuffer.{LineRec}

pub data JobState : Type 0 where
  running finished killed failed : JobState

pub record JobRow : Type 0 where
  pub id : Bytes
  pub command : Bytes
  pub state : JobState
  pub exit_code : ℕ
  pub started_at : ℕ
  pub finished_at : ℕ

pub record StoreLine : Type 0 where
  pub job_id : Bytes
  pub seq : ℕ
  pub stream : ℕ
  pub line : Bytes

pub record StoreFinish : Type 0 where
  pub job_id : Bytes
  pub state : JobState
  pub exit_code : ℕ
  pub finished_at : ℕ

-- StreamStdout and StreamStderr
abbrev pub stream_stdout : ℕ
stream_stdout = 0

abbrev pub stream_stderr : ℕ
stream_stderr = 1

abbrev pub is_running : JobState → Bool
is_running running = true
is_running _ = false

-- INSERT OR REPLACE INTO jobs: the primary key is the id.
unfoldable pub upsert_job : JobRow → List JobRow → List JobRow
upsert_job r jobs = keep (λ j. not (bytes_eq j.id r.id)) jobs ++ r ∷ []

abbrev pub same_key : StoreLine → StoreLine → Bool
same_key a b = bytes_eq a.job_id b.job_id && a.seq == b.seq

-- INSERT OR REPLACE INTO job_lines: the primary key is (job_id, seq).
unfoldable pub upsert_line : StoreLine → List StoreLine → List StoreLine
upsert_line r lines = keep (λ l. not (same_key l r)) lines ++ r ∷ []

abbrev pub finish_row : StoreFinish → JobRow → JobRow
finish_row f r =
    if bytes_eq r.id f.job_id
    then record r { state = f.state; exit_code = f.exit_code; finished_at = f.finished_at }
    else r

-- UPDATE jobs SET state=?, exit_code=?, finished_at=? WHERE id=?
unfoldable pub update_finished : StoreFinish → List JobRow → List JobRow
update_finished f [] = []
update_finished f (r ∷ jobs) = finish_row f r ∷ update_finished f jobs

abbrev pub recover_row : ℕ → JobRow → JobRow
recover_row now r =
    if is_running r.state
    then record r { state = failed; exit_code = 137; finished_at = now }
    else r

-- UPDATE jobs SET state='failed', exit_code=137, finished_at=? WHERE state='running'
unfoldable pub update_orphans : ℕ → List JobRow → List JobRow
update_orphans now [] = []
update_orphans now (r ∷ jobs) = recover_row now r ∷ update_orphans now jobs

-- SELECT ... FROM jobs WHERE id=?
unfoldable pub select_job : Bytes → List JobRow → Option JobRow
select_job id [] = none
select_job id (r ∷ jobs) =
    let rest = select_job id jobs in if bytes_eq r.id id then some r else rest

-- ORDER BY started_at DESC
unfoldable pub insert_newest : JobRow → List JobRow → List JobRow
insert_newest r [] = r ∷ []
insert_newest r (s ∷ jobs) =
    let rest = insert_newest r jobs in
    if leb s.started_at r.started_at then r ∷ (s ∷ jobs) else s ∷ rest

unfoldable pub sort_newest : List JobRow → List JobRow
unfolding insert_newest
sort_newest [] = []
sort_newest (r ∷ jobs) = insert_newest r (sort_newest jobs)

-- SELECT ... FROM jobs ORDER BY started_at DESC LIMIT ?
unfoldable pub select_jobs : ℕ → List JobRow → List JobRow
unfolding sort_newest
select_jobs limit jobs = take limit (sort_newest jobs)

-- AND stream=?, when the argument is not negative.
abbrev pub in_stream : ℤ → ℕ → Bool
in_stream (pos s) stream = stream == s
in_stream (negsuc n) stream = true

-- ORDER BY seq
unfoldable pub insert_seq : LineRec → List LineRec → List LineRec
insert_seq r [] = r ∷ []
insert_seq r (s ∷ recs) =
    let rest = insert_seq r recs in if leb r.seq s.seq then r ∷ (s ∷ recs) else s ∷ rest

unfoldable pub sort_seq : List LineRec → List LineRec
unfolding insert_seq
sort_seq [] = []
sort_seq (r ∷ recs) = insert_seq r (sort_seq recs)

abbrev pub rec_of : StoreLine → LineRec
rec_of l = record { seq = l.seq; line = l.line }

abbrev pub selected : Bytes → ℤ → StoreLine → Bool
selected id stream l = bytes_eq l.job_id id && in_stream stream l.stream

unfoldable pub matching : Bytes → ℤ → List StoreLine → List LineRec
matching id stream [] = []
matching id stream (l ∷ lines) =
    let rest = matching id stream lines in if selected id stream l then rec_of l ∷ rest else rest

-- SELECT seq, line FROM job_lines WHERE job_id=? [AND stream=?] ORDER BY seq
unfoldable pub select_lines : Bytes → ℤ → List StoreLine → List LineRec
unfolding matching sort_seq
select_lines id stream lines = sort_seq (matching id stream lines)

-- SELECT COALESCE(MAX(seq),0) FROM job_lines WHERE job_id=? [AND stream=?]
unfoldable pub select_max_seq : Bytes → ℤ → List StoreLine → ℕ
select_max_seq id stream [] = 0
select_max_seq id stream (l ∷ lines) =
    let rest = select_max_seq id stream lines in
    if selected id stream l then max l.seq rest else rest

abbrev pub is_old : ℕ → JobRow → Bool
is_old cutoff r = not (is_running r.state) && (ltb 0 r.finished_at && ltb r.finished_at cutoff)

-- job_id NOT IN (SELECT id FROM jobs)
unfoldable pub has_job : List JobRow → StoreLine → Bool
has_job [] l = false
has_job (r ∷ jobs) l = let rest = has_job jobs l in if bytes_eq r.id l.job_id then true else rest
