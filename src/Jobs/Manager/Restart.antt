-- ===== src/Jobs/Manager/Restart.antt =====
-- The history of a job after the worker has ended, at any moment, and started again on the same
-- database (`OpenStore` of internal/jobsvc/store.go, `NewManager` and `readMerged` of manager.go).
use easyworker.Base.{ℕ, ◌≡◌, ◌∙◌, refl, sym, subst, some, List, [], ◌++◌, Bytes, length, ℤ, pos}
use mathlib.Core.List.{append_assoc, Permᴰ}
use easyworker.Shell.LineBuffer.Lines.{unlines, strip_cr}
use easyworker.Jobs.Row.{StoreLine, matching, recover_row}
use easyworker.Jobs.Store.{Store, query_job, query_lines, recover}
use easyworker.Jobs.Store.Cleaning.{map_row, query_job-recover}
use easyworker.Jobs.Store.Held.{Numbered, of_job, held, waiting}
use easyworker.Jobs.Store.Open.{Opening, open_store, left_behind, open_store-left_behind}
use easyworker.Jobs.Job.{Job}
use easyworker.Jobs.Job.Trace.{Trace, Trace-HasLog}
use easyworker.Jobs.Job.Logged.{Logged}
use easyworker.Jobs.Manager.{Manager, find_job, read_merged, new_job, new_manager}
use easyworker.Jobs.Manager.Lost.{unstored, without, sort-without}
use easyworker.Jobs.Manager.History.{query_lines-stored}
use easyworker.Jobs.Manager.Readback.{new_job-HasLog}

-- What a restart with the database of `crashed` has of a job. There is a log that spells the output of
-- both streams up to the lines that were pending, with every number of the job's counter; the history
-- of a stream, or of both, is that log without the lines that were not stored. A job that ran has
-- failed.
pub record Recovered (out err : Bytes) (now : ℕ) (j : Job) (crashed : Store) (m : Manager)
    : Type 0 where
  pub log : List StoreLine
  pub numbered : Numbered 0 log
  pub counted : j.seq ≡ length log
  pub stdout : unlines (matching j.id (pos 0) log) ++ j.stdout.cur ≡ strip_cr out
  pub stderr : unlines (matching j.id (pos 1) log) ++ j.stderr.cur ≡ strip_cr err
  pub all_there : Permᴰ (of_job j.id crashed.lines ++ unstored j crashed) log
  pub history :
      (stream : ℤ)
      → read_merged j.id stream m ≡ matching j.id stream (without (unstored j crashed) log)
  pub row : query_job j.id m.store ≡ map_row (recover_row now) (query_job j.id crashed)

-- What a manager reads that has just started.
read_merged-new_manager :
    (mem_lines stream : ℤ) (id : Bytes) (s : Store)
    → read_merged id stream (new_manager mem_lines s) ≡ query_lines id stream s
unfolding read_merged new_manager find_job
read_merged-new_manager mem_lines stream id s = refl

query_job_recovered :
    (mem_lines : ℤ) (now : ℕ) (id : Bytes) (s : Store)
    → query_job id (new_manager mem_lines (recover now s.jobs s.lines)).store
      ≡ map_row (recover_row now) (query_job id s)
unfolding new_manager query_job
query_job_recovered mem_lines now id s = query_job-recover now s.jobs s.lines id

query_lines-recover :
    (id : Bytes) (stream : ℤ) (now : ℕ) (s : Store)
    → query_lines id stream (recover now s.jobs s.lines) ≡ query_lines id stream s
unfolding query_lines recover
query_lines-recover id stream now s = refl

-- The table's part of a log.
Logged-Recovered :
    (out err : Bytes) (now : ℕ) (j : Job) (crashed : Store) (log : List StoreLine) (mem_lines : ℤ)
    → Logged out err log j crashed
    → crashed.dropped ≡ 0
    → Recovered out err now j crashed
        (new_manager mem_lines (recover now crashed.jobs crashed.lines))
Logged-Recovered out err now j crashed log mem_lines h z =
    let stored = of_job j.id crashed.lines in
    let parts =
      subst (λ t. Permᴰ t log) (append_assoc stored (of_job j.id (waiting crashed)) j.calling)
        (h.entered.stored z) in
    record {
      log = log;
      numbered = h.entered.numbered;
      counted = h.entered.counted;
      stdout = h.stdout.spelled;
      stderr = h.stderr.spelled;
      all_there = parts;
      history = λ stream.
          read_merged-new_manager mem_lines stream j.id _
          ∙ (query_lines-recover j.id stream now crashed
              ∙ (query_lines-stored j.id stream crashed
                  ∙ sort-without j.id stream stored (unstored j crashed) log h.entered.numbered
                      parts));
      row = query_job_recovered mem_lines now j.id crashed;
    }

-- A job starts, with an id that the store has no line of, and it, the callbacks of its writes, its
-- watchers, the writer and the other jobs do what they do, in any order, over a database that does not
-- fail and with no line dropped by the full channel. Then, at whatever moment the worker ends: once
-- OpenStore succeeds on the tables that it left, there is a log of all complete lines of both
-- streams, in the order of their numbers, and the history of the job is that log without exactly those
-- that waited for the writer or whose callbacks had not run; its row is as it was, or failed with code
-- 137 where it was running.
pub restarted_job-Recovered :
    (mem_lines : ℤ) (id command : Bytes) (now : ℕ) (before : Store) (out err : Bytes) (j : Job)
    (crashed : Store) (o : Opening) (reopened : Store) (new_mem_lines : ℤ)
    → held id before ≡ []
    → Trace (new_job mem_lines id command now) before out err j crashed
    → crashed.dropped ≡ 0
    → (open_store o (left_behind crashed)).1 ≡ some reopened
    → Recovered out err o.now j crashed (new_manager new_mem_lines reopened)
restarted_job-Recovered mem_lines id command now before out err j crashed o reopened new_mem_lines
      unused t z opened =
    let (log, h) = Trace-HasLog (new_job-HasLog mem_lines id command now before unused) t in
    subst (λ s. Recovered out err o.now j crashed (new_manager new_mem_lines s))
      (sym (open_store-left_behind o crashed reopened opened))
      (Logged-Recovered out err o.now j crashed log new_mem_lines h z)
