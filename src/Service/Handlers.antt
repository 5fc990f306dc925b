-- ===== src/Service/Handlers.antt =====
-- The handlers of internal/service.go, over the manager and the file service; `Stdin` and
-- `retentionLoop` of internal/jobsvc/manager.go.
pub mod Retained
pub mod Contained
use easyworker.Base.{
  ℕ, Bool, true, false, Option, none, some, List, [], map, if◌then◌else◌, Bytes, bytes, bytes_eq, ℤ,
  pos, negsuc, int32,
}
use easyworker.Rpc.{
  Code, Rpc, reply, fail, invalid_argument, not_found, internal, failed_precondition, canceled,
}
use easyworker.Jobs.Row.{JobRow, JobState}
use easyworker.Jobs.Store.{query_job, retention}
use easyworker.Jobs.Job.{Job, kill}
use easyworker.Jobs.Manager.{
  Manager, Page, find_job, execute, list_jobs, prune, Output, query_failed, panicked, output,
  output_lines,
}
use easyworker.Files.Service.{Os, World, Entry, read, write, list}
use easyworker.Files.Sync.{Archives, Synced, sync_folder}
use easyworker.Service.{stream_of}
use easyworker.Service.Wait.{Waited, answered, canceled, job_wait}

pub record Worker : Type 0 where
  pub root : Bytes
  pub boot_id : Bytes

pub record InfoReply : Type 0 where
  pub os : Bytes
  pub arch : Bytes
  pub shell : Bytes
  pub workspace : Bytes
  pub boot_id : Bytes

-- `Info`; goos and goarch give constants of the runtime.
unfoldable pub info : Bytes → Bytes → Worker → InfoReply
info goos goarch w = record {
  os = goos;
  arch = goarch;
  shell = bytes "builtin(mvdan-sh)";
  workspace = w.root;
  boot_id = w.boot_id;
}

-- The handler `Execute`; `id` is the new id, and the manager's Execute gives no error.
unfoldable pub execute_job : Bool → Bytes → Bytes → ℕ → Manager → Manager × Rpc Bytes
execute_job wrote id command now m =
    if bytes_eq command []
    then (m, fail invalid_argument)
    else (execute wrote id command now m, reply id)

-- The handler `ListJobs`; the entries have the rows' fields.
unfoldable pub job_entries : Bool → Manager → List JobRow
job_entries read_ok m = list_jobs read_ok (pos 500) m

answer_output : Output → Rpc (Option (Page × Bool))
answer_output query_failed = fail not_found
answer_output panicked = reply none
answer_output (output p done) = reply (some (p, done))

-- The handler `JobOutput`; `none` is a panic.
unfoldable pub job_output :
    Bool → Bool → Bytes → Bytes → ℤ → ℤ → Manager → Rpc (Option (Page × Bool))
unfolding answer_output
job_output read_ok row_ok id stream start end' m =
    if bytes_eq id []
    then fail invalid_argument
    else answer_output (output_lines read_ok row_ok id (stream_of stream) start end' m)

-- An answer of `JobWait`: the state and the exit code.
answer_wait : Waited → Rpc (JobState × ℕ)
answer_wait (answered state code) = reply (state, code)
answer_wait canceled = fail Code.canceled

answer_row : Option JobRow → Rpc (JobState × ℕ)
answer_row none = fail not_found
answer_row (some r) = reply (r.state, r.exit_code)

-- The handler `JobWait`. `seen` and `gone` are what its loop sees of a job in memory.
unfoldable pub wait_job : Bool → Bytes → ℤ → (ℕ → Job) → (ℕ → Bool) → Manager → Rpc (JobState × ℕ)
unfolding answer_wait answer_row
wait_job row_ok id timeout seen gone m = elim (find_job id m.jobs) [
  | none ↦ answer_row (if row_ok then query_job id m.store else none)
  | some j ↦ answer_wait (job_wait timeout seen gone)
]

-- The end of io.Pipe that a job's stdin is written to. Both calls say whether they succeeded.
pub record Pipe (P : Type 0) : Type 0 where
  pub write : Bytes → P → P × Bool
  pub close : P → P × Bool

-- `Stdin`
unfoldable pub stdin : {P : Type 0} → Pipe P → Bytes → Bool → P → P × Bool
stdin pipe bytes_in close_after p =
    let (p', wrote) = if bytes_eq bytes_in [] then (p, true) else pipe.write bytes_in p in
    if wrote then (if close_after then pipe.close p' else (p', true)) else (p', false)

-- The handler `JobStdin`.
unfoldable pub job_stdin :
    {P : Type 0} → Pipe P → Bytes → Bytes → Bool → Manager → (Bytes → P) → Option P × Rpc Bool
unfolding stdin
job_stdin pipe id bytes_in close_after m pipes = elim (find_job id m.jobs) [
  | none ↦ (none, fail not_found)
  | some j ↦
      let (p, ok') = stdin pipe bytes_in close_after (pipes id) in
      (some p, if ok' then reply true else fail failed_precondition)
]

replace_job : Bytes → (Job → Job) → List Job → List Job
replace_job id f jobs = map (λ j. if bytes_eq j.id id then f j else j) jobs

-- The handler `JobKill`.
unfoldable pub job_kill : Bytes → Manager → Manager × Rpc Bool
unfolding replace_job
job_kill id m = elim (find_job id m.jobs) [
  | none ↦ (m, fail not_found)
  | some j ↦ (record m { jobs = replace_job id kill m.jobs }, reply true)
]

or_fail : {A : Type 0} → Code → Option A → Rpc A
or_fail c none = fail c
or_fail c (some a) = reply a

module _ {F : Type 0} (os : Os F) (root : Bytes) where
  unfoldable pub file_read : Bytes → F → Rpc Bytes
  unfolding or_fail
  file_read path fs =
      if bytes_eq path [] then fail invalid_argument else or_fail not_found (read os root path fs)

  unfoldable pub file_write : Bytes → Bytes → World F → World F × Rpc Bool
  file_write path content w =
      let (w', wrote) = write os root path content w in
      if bytes_eq path []
      then (w, fail invalid_argument)
      else (w', if wrote then reply true else fail internal)

  unfoldable pub file_list : Bytes → F → Rpc (Bool × List Entry)
  unfolding or_fail
  file_list path fs = or_fail not_found (list os root path fs)

  -- The handler `SyncFolder`: the number of files, an int32, and the root.
  unfoldable pub sync : Archives → Bytes → Bytes → Bool → World F → World F × Rpc (ℤ × Bytes)
  sync ar tarball dest clean w =
      let (w', synced) = sync_folder os root ar tarball dest clean w in
      (w', if synced.failed then fail internal else reply (int32 (pos synced.files), root))

-- One round of `retentionLoop`: the store reads the clock first, and then the map.
unfoldable pub retention_round : Bool → Bool → Bool → ℕ → ℕ → Manager → Manager
retention_round jobs_ok lines_ok commit_ok now later m =
    prune 3600000 later
      (record m { store = (retention jobs_ok lines_ok commit_ok 24 now m.store).0 })
