-- ===== src/Jobs/Store.antt =====
-- `Store` of internal/jobsvc/store.go: the tables, the writer's channel and its open batch. Each
-- database call can fail, as an argument says; the clock is an argument too.
pub mod Fifo
pub mod Cleaning
pub mod Held
pub mod Permuted
pub mod Parted
pub mod Open
pub mod Drain
use easyworker.Base.{
  ℕ, ◌+◌, ◌-◌, ◌*◌, Bool, true, false, not, Option, none, some, List, [], ◌∷◌, ◌++◌, leb, ltb,
  if◌then◌else◌, Bytes, length, keep, take, ℤ,
}
use easyworker.Shell.LineBuffer.{LineRec}
use easyworker.Jobs.Row.{
  JobRow, StoreLine, StoreFinish, running, upsert_job, upsert_line, update_finished, update_orphans,
  select_job, select_jobs, select_lines, select_max_seq, is_old, has_job,
}

abbrev pub write_batch_len : ℕ
write_batch_len = 500

abbrev pub channel_cap : ℕ
channel_cap = 65536

pub data Record : Type 0 where
  line : StoreLine → Record
  finish : StoreFinish → Record

pub record Store : Type 0 where
  pub jobs : List JobRow
  pub lines : List StoreLine
  pub queue : List Record
  pub batch : List StoreLine
  pub dropped : ℕ

-- What fails of one transaction: the begin, the prepare, the inserts after the first n, the commit.
pub record FlushFaults : Type 0 where
  pub begin : Bool
  pub prepare : Bool
  pub inserts : Option ℕ
  pub commit : Bool

abbrev pub no_faults : FlushFaults
no_faults = record { begin = false; prepare = false; inserts = none; commit = false }

unfoldable pub insert_lines : List StoreLine → List StoreLine → List StoreLine
insert_lines [] table = table
insert_lines (r ∷ batch) table = insert_lines batch (upsert_line r table)

-- The inserts stop at the first that fails, and what came before it is committed.
abbrev accepted : Option ℕ → List StoreLine → List StoreLine
accepted none batch = batch
accepted (some n) batch = take n batch

unfoldable pub flush : FlushFaults → Store → Store
unfolding insert_lines
flush f s =
    if f.begin
    then record s { batch = [] }
    else if f.prepare
    then record s { batch = [] }
    else if f.commit
    then record s { batch = [] }
    else record s { lines = insert_lines (accepted f.inserts s.batch) s.lines; batch = [] }

-- `updated` says whether the UPDATE of a finish record succeeds.
write_record : FlushFaults → Bool → Record → Store → Store
unfolding flush
write_record f updated (line v) s =
    let s' = record s { batch = s.batch ++ v ∷ [] } in
    if leb write_batch_len (length s'.batch) then flush f s' else s'
write_record f updated (finish v) s =
    let s' = flush f s in if updated then record s' { jobs = update_finished v s'.jobs } else s'

take_record : FlushFaults → Bool → List Record → Store → Store
unfolding write_record
take_record f updated [] s = s
take_record f updated (r ∷ queue) s = write_record f updated r (record s { queue = queue })

-- The writer receives one record, if the channel has one.
unfoldable pub receive : FlushFaults → Bool → Store → Store
unfolding take_record
receive f updated s = take_record f updated s.queue s

-- EnqueueJob; `wrote` says whether the INSERT succeeds, and is the result.
unfoldable pub enqueue_job : Bool → Bytes → Bytes → ℕ → Store → Store × Bool
enqueue_job wrote id command started_at s =
    let row : JobRow = record {
      id = id;
      command = command;
      state = running;
      exit_code = 0;
      started_at = started_at;
      finished_at = 0;
    } in
    (if wrote then record s { jobs = upsert_job row s.jobs } else s, wrote)

-- TryEnqueueLine: a full channel drops the line and counts it.
unfoldable pub try_enqueue_line : StoreLine → Store → Store
try_enqueue_line l s =
    if ltb (length s.queue) channel_cap
    then record s { queue = s.queue ++ line l ∷ [] }
    else record s { dropped = s.dropped + 1 }

-- FinishJob: a full channel drops the record, with a log line.
unfoldable pub finish_job : StoreFinish → Store → Store
finish_job f s =
    if ltb (length s.queue) channel_cap then record s { queue = s.queue ++ finish f ∷ [] } else s

-- `recover`, on the tables that the last process left.
unfoldable pub recover : ℕ → List JobRow → List StoreLine → Store
recover now jobs lines = record {
  jobs = update_orphans now jobs;
  lines = lines;
  queue = [];
  batch = [];
  dropped = 0;
}

-- The writer's last round in Close: it flushes the batch and leaves the channel.
unfoldable pub close : FlushFaults → Store → Store
unfolding flush
close f s = flush f s

unfoldable pub query_job : Bytes → Store → Option JobRow
query_job id s = select_job id s.jobs

unfoldable pub query_jobs : ℕ → Store → List JobRow
query_jobs limit s = select_jobs limit s.jobs

unfoldable pub query_lines : Bytes → ℤ → Store → List LineRec
query_lines id stream s = select_lines id stream s.lines

unfoldable pub max_seq : Bytes → ℤ → Store → ℕ
max_seq id stream s = select_max_seq id stream s.lines

-- `Retention`, both deletions in one transaction, which is rolled back if one fails; a commit that
-- fails is not looked at. Times are milliseconds. The number of deleted jobs is the result.
unfoldable pub retention : Bool → Bool → Bool → ℕ → ℕ → Store → Store × ℕ
retention jobs_ok lines_ok commit_ok hours now s =
    let cutoff = now - hours * 3600000 in
    let left = keep (λ r. not (is_old cutoff r)) s.jobs in
    let swept = record s { jobs = left; lines = keep (has_job left) s.lines } in
    if not jobs_ok
    then (s, 0)
    else if not lines_ok
    then (s, 0)
    else (if commit_ok then swept else s, length s.jobs - length left)
