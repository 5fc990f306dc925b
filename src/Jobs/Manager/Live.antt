-- ===== src/Jobs/Manager/Live.antt =====
-- The history of a job that runs, at any moment (`readMerged` of internal/jobsvc/manager.go): with callbacks
-- to come and with lines that were stored before earlier ones.
use easyworker.Base.{
  ℕ, ◌≡◌, ◌≤◌, ◌∙◌, ap, subst, some, List, [], ◌++◌, arith, Bytes, length, keep, ℤ, pos,
}
use mathlib.Core.List.{append_assoc, Permᴰ}
use easyworker.Shell.LineBuffer.Lines.{unlines, strip_cr}
use easyworker.Jobs.Row.{StoreLine, matching}
use easyworker.Jobs.Store.{Store}
use easyworker.Jobs.Store.Held.{Numbered, of_job, held, waiting}
use easyworker.Jobs.Store.Parted.{high}
use easyworker.Jobs.Job.{Job}
use easyworker.Jobs.Job.Trace.{Trace, Trace-HasLog}
use easyworker.Jobs.Manager.{Manager, find_job, highest_seq, mem_suffix, read_merged, new_job}
use easyworker.Jobs.Manager.Lost.{unstored, without, sort-without}
use easyworker.Jobs.Manager.History.{query_lines-stored, read_merged_live}
use easyworker.Jobs.Manager.Readback.{new_job-HasLog}
use easyworker.Jobs.Manager.Beyond.{mem_suffix-beyond}

-- What a reader gets of a job in memory, at any moment. There is a log that spells the output of both
-- streams up to the lines that are pending, with every number of the job's counter; the lines of the
-- table and those that are not stored yet make it up. The history of a stream, or of both, is the log
-- without the lines that are not stored yet, and behind it all lines of the log beyond the last of
-- those.
pub record LiveHistory (out err : Bytes) (j : Job) (m : Manager) : Type 0 where
  pub log : List StoreLine
  pub numbered : Numbered 0 log
  pub counted : j.seq ≡ length log
  pub stdout : unlines (matching j.id (pos 0) log) ++ j.stdout.cur ≡ strip_cr out
  pub stderr : unlines (matching j.id (pos 1) log) ++ j.stderr.cur ≡ strip_cr err
  pub all_there : Permᴰ (of_job j.id m.store.lines ++ unstored j m.store) log
  pub history :
      (stream : ℤ)
      → let stored = matching j.id stream (without (unstored j m.store) log) in
        read_merged j.id stream m
        ≡ stored ++ matching j.id stream (keep (high (highest_seq stored)) log)

-- A job starts, with an id that the store has no line of, and it, the callbacks of its writes, its
-- watchers, the writer and the other jobs do what they do, in any order, over a database that does not
-- fail. At any moment, with callbacks to come and whatever lines were stored before earlier ones, where
-- the full channel has dropped no line and the lines that are not stored yet fit in each of the job's
-- rings: there is a log of all complete lines of both streams, in the order of their numbers, and the
-- history of the job in memory is, of one stream or of both, the stored lines of the log and behind
-- them every line beyond the last of these, each once and in order. So exactly the lines that are not
-- stored yet although a later one that is read is stored are missing.
pub running_job-LiveHistory :
    (mem_lines : ℤ) (id command : Bytes) (now : ℕ) (before : Store) (out err : Bytes) (j : Job)
    (m : Manager)
    → held id before ≡ []
    → Trace (new_job mem_lines id command now) before out err j m.store
    → find_job j.id m.jobs ≡ some j
    → m.store.dropped ≡ 0
    → length (unstored j m.store) ≤ j.stdout.max_lines
    → length (unstored j m.store) ≤ j.stderr.max_lines
    → LiveHistory out err j m
running_job-LiveHistory mem_lines id command now before out err j m unused t found z fo fe =
    let (log, h) = Trace-HasLog (new_job-HasLog mem_lines id command now before unused) t in
    let kept = of_job j.id m.store.lines in
    let lost = unstored j m.store in
    let p =
      subst (λ t. Permᴰ t log) (append_assoc kept (of_job j.id (waiting m.store)) j.calling)
        (h.entered.stored z) in
    record {
      log = log;
      numbered = h.entered.numbered;
      counted = h.entered.counted;
      stdout = h.stdout.spelled;
      stderr = h.stderr.spelled;
      all_there = p;
      history = λ stream.
          let stored = matching j.id stream (without lost log) in
          let table =
            query_lines-stored j.id stream m.store
            ∙ sort-without j.id stream kept lost log h.entered.numbered p in
          read_merged_live stream m j found
          ∙ (ap (λ r. r ++ mem_suffix stream (highest_seq r) j) table
              ∙ ap (λ t. stored ++ t)
                  (mem_suffix-beyond out err stream (highest_seq stored) j m.store log h p
                    (omega arith) fo fe));
    }
