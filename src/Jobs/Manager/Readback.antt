-- ===== src/Jobs/Manager/Readback.antt =====
-- What a reader gets back of the output of a job (`readMerged` of internal/jobsvc/manager.go, from the
-- start of the job by `Execute` on).
use easyworker.Base.{
  ℕ, ◌+◌, ◌≡◌, ◌≤◌, ◌<◌, ◌∙◌, refl, sym, ap, ap₂, subst, All, none, some, List, [], ◌∷◌, ◌++◌,
  arith, Bytes, length, drop_all, ℤ, pos, negsuc,
}
use mathlib.Core.List.{append-nil, Permᴰ}
use easyworker.Shell.LineBuffer.{new_line_buffer}
use easyworker.Shell.LineBuffer.Lines.{unlines, strip_cr, Consecutive}
use easyworker.Jobs.Row.{StoreLine, matching}
use easyworker.Jobs.Store.{Store}
use easyworker.Jobs.Store.Held.{Numbered, of_job, held, waiting}
use easyworker.Jobs.Job.{Job}
use easyworker.Jobs.Job.Logged.{Logged, Spelled}
use easyworker.Jobs.Job.Trace.{Trace, HasLog, Trace-HasLog}
use easyworker.Jobs.Manager.{Manager, find_job, read_merged, new_job}
use easyworker.Jobs.Manager.Merge.{Own}
use easyworker.Jobs.Manager.History.{read_merged-log, query_lines-log}

-- The reader of a job that has written `out` and `err`: each stream's lines spell what was written to
-- it up to the line that is pending, and those of both streams have every number of the job's counter,
-- in order.
pub record Reads (out err : Bytes) (j : Job) (m : Manager) : Type 0 where
  pub stdout : unlines (read_merged j.id (pos 0) m) ++ j.stdout.cur ≡ strip_cr out
  pub stderr : unlines (read_merged j.id (pos 1) m) ++ j.stderr.cur ≡ strip_cr err
  pub numbered : Consecutive 0 (read_merged j.id (negsuc 0) m)
  pub counted : length (read_merged j.id (negsuc 0) m) ≡ j.seq

new_line_buffer-Spelled : (n : ℤ) → Spelled (new_line_buffer n) [] []
unfolding new_line_buffer
new_line_buffer-Spelled n = record {
  window = record { newest = sym (drop_all _ [] (omega arith)); lost = omega arith };
  spelled = refl;
  clean = tt;
}

pub new_job-HasLog :
    (mem_lines : ℤ) (id command : Bytes) (now : ℕ) (s : Store)
    → held id s ≡ []
    → HasLog [] [] (new_job mem_lines id command now) s
unfolding new_job matching
new_job-HasLog mem_lines id command now s unused = (
  [],
  record {
    entered = record {
      numbered = tt;
      own = tt;
      streams = tt;
      counted = refl;
      stored = λ z. subst (λ t. Permᴰ (t ++ []) []) (sym unused) Permᴰ.nil;
    };
    stdout = new_line_buffer-Spelled mem_lines;
    stderr = new_line_buffer-Spelled mem_lines;
  },
)

pub matching-Consecutive :
    (id : Bytes) (n : ℕ) (log : List StoreLine)
    → Own id log
    → Numbered n log
    → Consecutive n (matching id (negsuc 0) log)
      × (length (matching id (negsuc 0) log) ≡ length log)
unfolding matching
matching-Consecutive id n [] own c = (tt, refl)
matching-Consecutive id n (l ∷ log) own c =
    let (rest, size) = matching-Consecutive id (n + 1) log own.1 c.1 in
    rw own.0 ((c.0, rest), omega (arith, size))

-- A history that is the log reads as it should.
log-Reads :
    (out err : Bytes) (log : List StoreLine) (j : Job) (m : Manager)
    → Logged out err log j m.store
    → ((stream : ℤ) → read_merged j.id stream m ≡ matching j.id stream log)
    → Reads out err j m
log-Reads out err log j m h reads =
    let (consecutive, size) = matching-Consecutive j.id 0 log h.entered.own h.entered.numbered in
    record {
      stdout = ap (λ r. unlines r ++ j.stdout.cur) (reads (pos 0)) ∙ h.stdout.spelled;
      stderr = ap (λ r. unlines r ++ j.stderr.cur) (reads (pos 1)) ∙ h.stderr.spelled;
      numbered = subst (Consecutive 0) (sym (reads (negsuc 0))) consecutive;
      counted = ap length (reads (negsuc 0)) ∙ (size ∙ sym h.entered.counted);
    }

-- A job starts, with an id that the store has no line of. Its process, the callbacks of its writes, its
-- watchers, the writer of the store, whose database does not fail, and the other jobs do what they do,
-- in any order. At a moment when no callback is to come, every line in the table has a lower number than
-- those that wait for the writer, the full channel has dropped none, and the waiting lines fit in each
-- of the job's rings: whoever reads the history of the job in memory gets of each stream the lines that
-- were written to it, and of both every line in the order of the numbers.
pub read_merged_spells :
    (mem_lines : ℤ) (id command : Bytes) (now : ℕ) (before : Store) (out err : Bytes) (j : Job)
    (m : Manager) (last : ℕ)
    → held id before ≡ []
    → Trace (new_job mem_lines id command now) before out err j m.store
    → find_job j.id m.jobs ≡ some j
    → m.store.dropped ≡ 0
    → j.calling ≡ []
    → All (λ l. l.seq ≤ last) (of_job j.id m.store.lines)
    → All (λ l. last < l.seq) (of_job j.id (waiting m.store))
    → length (of_job j.id (waiting m.store)) ≤ j.stdout.max_lines
    → length (of_job j.id (waiting m.store)) ≤ j.stderr.max_lines
    → Reads out err j m
read_merged_spells mem_lines id command now before out err j m last unused t found z quiet below
      above fo fe =
    let (log, h) = Trace-HasLog (new_job-HasLog mem_lines id command now before unused) t in
    log-Reads out err log j m h
      (λ stream. read_merged-log stream m j out err log last found h z quiet below above fo fe)

-- The same of a job that the memory has forgotten, once its callbacks have run and the writer has
-- stored its lines, in whatever order, unless the full channel dropped one: the database alone gives
-- its whole output.
pub forgotten_job-Reads :
    (mem_lines : ℤ) (id command : Bytes) (now : ℕ) (before : Store) (out err : Bytes) (j : Job)
    (m : Manager)
    → held id before ≡ []
    → Trace (new_job mem_lines id command now) before out err j m.store
    → find_job j.id m.jobs ≡ none
    → m.store.dropped ≡ 0
    → j.calling ≡ []
    → of_job j.id (waiting m.store) ≡ []
    → Reads out err j m
unfolding read_merged
forgotten_job-Reads mem_lines id command now before out err j m unused t gone z quiet drained =
    let (log, h) = Trace-HasLog (new_job-HasLog mem_lines id command now before unused) t in
    let stored = of_job j.id m.store.lines in
    let rest : held j.id m.store ++ j.calling ≡ stored =
      ap₂ (λ s t. (stored ++ s) ++ t) drained quiet
      ∙ (append-nil (stored ++ []) ∙ append-nil stored) in
    let all = subst (λ t. Permᴰ t log) rest (h.entered.stored z) in
    log-Reads out err log j m h (λ stream.
      rw (gone, read_merged) (query_lines-log j.id stream m.store log h.entered.numbered all))
