-- ===== src/Server.antt =====
-- The worker as its clients see it: the mux of cmd/easyworker/main.go, with the handlers of
-- internal/service.go behind the interceptor and those of internal/enroll.go without. The system calls,
-- the pipes, the archives and the constants of the runtime are parameters; a call carries what its
-- handler reads of the clock, the random source and the database's errors.
pub mod Sealed
pub mod Owner
use easyworker.Base.{
  ℕ, Bool, Option, none, some, List, [], ◌∷◌, map, if◌then◌else◌, Bytes, bytes, bytes_eq, ℤ,
}
use easyworker.Rpc.{Rpc}
use easyworker.Auth.Hex.{Entropy}
use easyworker.Auth.Store.{StateStore}
use easyworker.Auth.Gate.{Gate}
use easyworker.Auth.Interceptor.{Reply, served, unauthenticated, wrap}
use easyworker.Enroll.{StatusResponse, enroll_status, enroll_claim, unrelease}
use easyworker.Jobs.Row.{JobRow, JobState}
use easyworker.Jobs.Job.{Job, subscribe}
use easyworker.Jobs.Manager.{Manager, Page, find_job}
use easyworker.Files.Service.{Os, World, Entry}
use easyworker.Files.Sync.{Archives}
use easyworker.Service.Handlers.{
  Worker, InfoReply, Pipe, info, execute_job, job_entries, job_output, wait_job, job_stdin,
  job_kill, file_read, file_write, file_list, sync,
}
use easyworker.Service.Watch.{Event, Ending, watch_job}

pub record System (S F P : Type 0) : Type 0 where
  pub gate : Gate S
  pub manager : Manager
  pub world : World F
  pub pipes : Bytes → P

-- A call of WorkerService.
pub data Call : Type 0 where
  call_info : Call
  -- whether the query succeeds
  call_jobs : Bool → Call
  -- whether the row was written, the new id, the command, the clock
  call_execute : Bool → Bytes → Bytes → ℕ → Call
  -- whether the queries succeed, the id, the stream, the range
  call_output : Bool → Bool → Bytes → Bytes → ℤ → ℤ → Call
  -- the id, the timeout, what the loop sees
  call_wait : Bool → Bytes → ℤ → (ℕ → Job) → (ℕ → Bool) → Call
  -- which sends succeed, when the context ends, what the channel gives, the job then
  call_watch : (ℕ → Bool) → (ℕ → Bool) → Bool → Bool → Bytes → List Bytes → Job → Call
  call_stdin : Bytes → Bytes → Bool → Call
  call_kill : Bytes → Call
  call_read call_list : Bytes → Call
  call_write : Bytes → Bytes → Call
  -- the archive, the destination, whether it is cleaned
  call_sync : Bytes → Bytes → Bool → Call

pub data Answer : Type 0 where
  info_answer : InfoReply → Answer
  jobs_answer : List JobRow → Answer
  output_answer : Rpc (Option (Page × Bool)) → Answer
  wait_answer : Rpc (JobState × ℕ) → Answer
  watch_answer : List Event × Ending → Answer
  bytes_answer : Rpc Bytes → Answer
  done_answer : Rpc Bool → Answer
  list_answer : Rpc (Bool × List Entry) → Answer
  sync_answer : Rpc (ℤ × Bytes) → Answer

-- What the mux routes. A request for the worker carries its Authorization header.
pub data Request : Type 0 where
  worker : Bytes → Call → Request
  status : Request
  -- code, owner, the two clock readings, the random source
  claim : Bytes → Bytes → ℕ → ℕ → Entropy → Request
  -- header, owner, the random source
  release : Bytes → Bytes → Entropy → Request
  healthz : Request

pub data Response : Type 0 where
  worker_response : Reply Answer → Response
  status_response : StatusResponse → Response
  claim_response release_response : Rpc Bytes → Response
  health : Bytes → Response

-- The subscription of WatchJob, if the job is in memory.
subscribe_job : Bytes → Manager → Manager
subscribe_job id m =
    if bytes_eq id []
    then m
    else record m { jobs = map (λ j. if bytes_eq j.id id then (subscribe j).0 else j) m.jobs }

abbrev put_pipe : {P : Type 0} → Bytes → Option P → (Bytes → P) → Bytes → P
put_pipe id none pipes other = pipes other
put_pipe id (some p) pipes other = if bytes_eq other id then p else pipes other

module _ {S F P : Type 0} (st : StateStore S) (os : Os F) (pipe : Pipe P) (ar : Archives)
    (goos goarch : Bytes) (w : Worker) where
  -- The handler of a call.
  unfoldable pub handle : Call → System S F P → System S F P × Answer
  unfolding subscribe_job
  handle call_info s = (s, info_answer (info goos goarch w))
  handle (call_jobs read_ok) s = (s, jobs_answer (job_entries read_ok s.manager))
  handle (call_execute wrote id command now) s =
      let (m, r) = execute_job wrote id command now s.manager in
      (record s { manager = m }, bytes_answer r)
  handle (call_output read_ok row_ok id stream start end') s =
      (s, output_answer (job_output read_ok row_ok id stream start end' s.manager))
  handle (call_wait row_ok id timeout seen gone) s =
      (s, wait_answer (wait_job row_ok id timeout seen gone s.manager))
  handle (call_watch sends gone read_ok row_ok id lines after) s = (
    record s { manager = subscribe_job id s.manager },
    watch_answer (watch_job sends gone read_ok row_ok id s.manager lines after),
  )
  handle (call_stdin id text close_after) s =
      let (p, r) = job_stdin pipe id text close_after s.manager s.pipes in
      (record s { pipes = put_pipe id p s.pipes }, done_answer r)
  handle (call_kill id) s =
      let (m, r) = job_kill id s.manager in (record s { manager = m }, done_answer r)
  handle (call_read path) s = (s, bytes_answer (file_read os w.root path s.world.fs))
  handle (call_list path) s = (s, list_answer (file_list os w.root path s.world.fs))
  handle (call_write path content) s =
      let (world, r) = file_write os w.root path content s.world in
      (record s { world = world }, done_answer r)
  handle (call_sync tarball dest clean) s =
      let (world, r) = sync os w.root ar tarball dest clean s.world in
      (record s { world = world }, sync_answer r)

  admit : Reply (System S F P × Answer) → System S F P → System S F P × Response
  admit (served (s', a)) s = (s', worker_response (served a))
  admit unauthenticated s = (s, worker_response unauthenticated)

  -- The mux.
  unfoldable pub serve : Request → System S F P → System S F P × Response
  unfolding admit
  serve (worker header c) s = admit (wrap st s.gate header (handle c s)) s
  serve status s = (s, status_response (enroll_status st s.gate))
  serve (claim code owner now at e) s =
      let (g, r) = enroll_claim st s.gate code owner now at e in
      (record s { gate = g }, claim_response r)
  serve (release header owner e) s =
      let (g, r) = unrelease st s.gate header owner e in (record s { gate = g }, release_response r)
  serve healthz s = (s, health (bytes "ok"))

  -- Requests in the order in which they take effect.
  unfoldable pub serve_all : List Request → System S F P → System S F P × List Response
  serve_all [] s = (s, [])
  serve_all (r ∷ rs) s =
      let (s1, a) = serve r s in let (s2, answers) = serve_all rs s1 in (s2, a ∷ answers)
