-- ===== src/Jobs/Job.antt =====
-- `Job` of internal/jobsvc/manager.go: its streams, its subscribers and the end of its goroutine.
-- The channels that `subs` has held stand in one list in the order of their creation, and `listed`
-- says whether `subs` still holds them. `calling` are the completed lines whose callbacks have not run
-- yet, and `stage` is where the goroutine of `Execute` stands.
pub mod Steps
pub mod Subscribers
pub mod Outcome
pub mod End
pub mod Entered
pub mod Logged
pub mod Trace
use easyworker.Base.{
  ℕ, zero, suc, ◌+◌, Bool, true, false, ◌&&◌, Option, none, some, List, [], ◌∷◌, ◌++◌, map, ltb,
  ◌==◌, if◌then◌else◌, Bytes, bytes, bytes_eq, length, ℤ,
}
use easyworker.Shell.LineBuffer.{LineRec, LineBuffer, Written, line_of, write, flush_line, tail}
use easyworker.Jobs.Row.{
  JobState, running, finished, killed, failed, StoreLine, StoreFinish, stream_stdout, stream_stderr,
  sort_seq,
}
use easyworker.Jobs.Store.{Store, try_enqueue_line, finish_job}

pub record Channel : Type 0 where
  pub items : List Bytes
  pub closed : Bool
  pub listed : Bool

-- Running; after FinishJob; after finishSubs; after close(done).
pub data Stage : Type 0 where
  active finalized subs_finished ended : Stage

pub record Job : Type 0 where
  pub id : Bytes
  pub command : Bytes
  pub state : JobState
  pub exit_code : ℕ
  pub started_at : ℕ
  pub finished_at : ℕ
  pub stdout : LineBuffer
  pub stderr : LineBuffer
  pub seq : ℕ
  pub calling : List StoreLine
  pub channels : List Channel
  pub canceled : Bool
  pub stage : Stage

abbrev pub channel_buffer : ℕ
channel_buffer = 256

-- The send with `default`: a full channel misses the line.
offer : Bytes → Channel → Channel
offer l c =
    if c.listed && ltb (length c.items) channel_buffer
    then record c { items = c.items ++ l ∷ [] }
    else c

-- `publishLine`
unfoldable pub publish_line : Bytes → Job → Job
unfolding offer
publish_line l j = if bytes_eq l [] then j else record j { channels = map (offer l) j.channels }

-- The `onLine` callbacks for the completed lines of a stream, one after the other.
unfoldable pub on_lines : ℕ → List LineRec → Job → Store → Job × Store
on_lines stream [] j s = (j, s)
on_lines stream (r ∷ recs) j s =
    on_lines stream recs (publish_line r.line j)
      (try_enqueue_line (record { job_id = j.id; seq = r.seq; stream = stream; line = r.line }) s)

abbrev pub set_stdout : Written → Job → Job
set_stdout w j = record j { stdout = w.buffer; seq = w.seq }

abbrev pub set_stderr : Written → Job → Job
set_stderr w j = record j { stderr = w.buffer; seq = w.seq }

-- The lines of a stream, as its callback enqueues them.
unfoldable pub entries : Bytes → ℕ → List LineRec → List StoreLine
entries id stream [] = []
entries id stream (r ∷ recs) =
    record { job_id = id; seq = r.seq; stream = stream; line = r.line } ∷ entries id stream recs

-- What `Write` does under the lock of its buffer, with a stretch of its text: numbers and ring. The
-- callbacks of the completed lines are still to come.
unfoldable pub write_stdout : Bytes → Job → Job
unfolding entries
write_stdout p j =
    let w = write p j.seq j.stdout in
    record (set_stdout w j) { calling = j.calling ++ entries j.id stream_stdout w.completed }

unfoldable pub write_stderr : Bytes → Job → Job
unfolding entries
write_stderr p j =
    let w = write p j.seq j.stderr in
    record (set_stderr w j) { calling = j.calling ++ entries j.id stream_stderr w.completed }

-- One callback, behind the unlock; `rest` are the others that have not run.
unfoldable pub call_back : StoreLine → List StoreLine → Job → Store → Job × Store
call_back l rest j s = (record (publish_line l.line j) { calling = rest }, try_enqueue_line l s)

flush_stdout : Job → Store → Job × Store
flush_stdout j s =
    let w = flush_line j.seq j.stdout in on_lines stream_stdout w.completed (set_stdout w j) s

flush_stderr : Job → Store → Job × Store
flush_stderr j s =
    let w = flush_line j.seq j.stderr in on_lines stream_stderr w.completed (set_stderr w j) s

-- What RunWithEnv returned: the exit code of its result, and its error.
pub record RunResult : Type 0 where
  pub exit_code : ℕ
  pub error : Option Bytes

-- The switch on the error, the context and the exit code.
abbrev pub final_state : Option Bytes → Bool → ℕ → JobState × ℕ
final_state (some e) canceled code = (failed, code)
final_state none true code = (killed, code)
final_state none false code = if code == 0 then (finished, 0) else (failed, code)

-- "builtin shell error: ..."
abbrev pub report_text : Option Bytes → Bytes
report_text none = []
report_text (some e) = bytes "builtin shell error: " ++ (e ++ b'\n' ∷ [])

-- The report on stderr, with its callback.
report : Option Bytes → Job → Store → Job × Store
report none j s = (j, s)
report (some e) j s =
    let w = write (report_text (some e)) j.seq j.stderr in
    on_lines stream_stderr w.completed (set_stderr w j) s

unfoldable pub settle : RunResult → ℕ → Job → Store → Job × Store
settle r now j s =
    let (state, code) = final_state r.error j.canceled r.exit_code in
    (
      record j { state = state; exit_code = code; finished_at = now; stage = finalized },
      finish_job (record { job_id = j.id; state = state; exit_code = code; finished_at = now }) s,
    )

-- The goroutine from the return of RunWithEnv to FinishJob.
unfoldable pub finalize : RunResult → ℕ → Job → Store → Job × Store
unfolding flush_stdout flush_stderr report settle
finalize r now j s =
    let (j1, s1) = flush_stdout j s in
    let (j2, s2) = flush_stderr j1 s1 in let (j3, s3) = report r.error j2 s2 in settle r now j3 s3

abbrev pub finish_channel : Channel → Channel
finish_channel c = if c.listed then record c { closed = true; listed = false } else c

-- `finishSubs`, the first of the deferred calls.
unfoldable pub finish_subs : Job → Job
finish_subs j = record j { channels = map finish_channel j.channels; stage = subs_finished }

-- `close(job.done)`, the last of them.
unfoldable pub close_done : Job → Job
close_done j = record j { stage = ended }

abbrev new_channel : Channel
new_channel = record { items = []; closed = false; listed = true }

abbrev pub is_ended : Stage → Bool
is_ended ended = true
is_ended _ = false

-- `Subscribe`: the replay, and the number of the new channel unless the job's `done` is closed.
unfoldable pub subscribe : Job → Job × List Bytes × Option ℕ
subscribe j =
    let replay = map line_of (sort_seq (j.stdout.recs ++ j.stderr.recs)) in
    if is_ended j.stage
    then (j, replay, none)
    else (record j { channels = j.channels ++ new_channel ∷ [] }, replay, some (length j.channels))

abbrev pub drop_item : Channel → Channel
drop_item c = elim c.items [ [] ↦ c | l ∷ rest ↦ record c { items = rest } ]

-- A watcher takes the next line of the channels' buffers.
unfoldable pub receive_at : ℕ → List Channel → List Channel
receive_at i [] = []
receive_at zero (c ∷ cs) = drop_item c ∷ cs
receive_at (suc i) (c ∷ cs) = c ∷ receive_at i cs

-- `Kill`
unfoldable pub kill : Job → Job
kill j = record j { canceled = true }

pub record Result : Type 0 where
  pub exit_code : ℕ
  pub stdout : Bytes
  pub stderr : Bytes

-- `Result`: the terminal snapshot.
unfoldable pub result : Job → Result
result j = record { exit_code = j.exit_code; stdout = tail 50 j.stdout; stderr = tail 50 j.stderr }
