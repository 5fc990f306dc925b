-- ===== src/Examples/History.antt =====
-- The history of a job that prints to both streams (internal/jobsvc/manager.go), read while it runs, and
-- after the memory has forgotten it; the worker's end between a write and its callback; and a line that
-- the channel dropped.
use easyworker.Base.{
  true, ℕ, ◌≡◌, ◌≢◌, ◌<◌, ◌≤◌, refl, none, some, [], ◌∷◌, arith, Bytes, bytes, bytes_eq, length,
  All, pos, negsuc,
}
use easyworker.Shell.LineBuffer.{new_line_buffer, write, write_byte, push_rec}
use easyworker.Jobs.Row.{upsert_line, StoreLine, matching, sort_seq, insert_seq, select_lines}
use easyworker.Jobs.Store.{
  Store, query_lines, receive, flush, insert_lines, try_enqueue_line, recover,
}
use easyworker.Jobs.Store.Fifo.{receive_event, tick_event, step}
use easyworker.Jobs.Store.Held.{held, of_job, waiting}
use easyworker.Jobs.Job.{Job, entries, write_stdout, write_stderr, call_back, settle, publish_line}
use easyworker.Jobs.Job.Trace.{Trace, begins, outputs, complains, calls_back, stores}
use easyworker.Jobs.Manager.{Manager, find_job, new_job, highest_seq, read_merged, new_manager}
use easyworker.Jobs.Manager.Readback.{Reads, read_merged_spells}
use easyworker.Jobs.Manager.Lost.{unstored}
use easyworker.Jobs.Manager.Live.{LiveHistory, running_job-LiveHistory}
use easyworker.Jobs.Manager.Hidden.{dropped_line_hidden}
use easyworker.Jobs.Store.Drain.{catch_up}
use easyworker.Jobs.Store.Open.{Opening, open_store, migrate, left_behind}
use easyworker.Jobs.Manager.Restart.{Recovered, restarted_job-Recovered}
use easyworker.Examples.Store.{empty_store}

abbrev job_id : Bytes
job_id = bytes "j"

abbrev start : Job
start = new_job (pos 10) job_id (bytes "ls") 5

abbrev line_hi : StoreLine
line_hi = record { job_id = job_id; seq = 1; stream = 0; line = bytes "hi" }

abbrev line_no : StoreLine
line_no = record { job_id = job_id; seq = 2; stream = 1; line = bytes "no" }

abbrev line_oh : StoreLine
line_oh = record { job_id = job_id; seq = 3; stream = 1; line = bytes "oh" }

abbrev wrote : Job
wrote = write_stdout (bytes "hi\n") start

abbrev first : Job × Store
first = call_back line_hi [] wrote empty_store

abbrev stored : Store
stored = step tick_event (step receive_event first.1)

abbrev second : Job × Store
second = call_back line_no [] (write_stderr (bytes "no\noh") first.0) stored

abbrev live : Manager
live = record { mem_lines = pos 10; jobs = second.0 ∷ []; store = second.1 }

unused : held job_id empty_store ≡ []
unused = refl

runs : Trace start empty_store (bytes "hi\n") (bytes "no\noh") second.0 second.1
unfolding entries write_stdout write_stderr call_back write write_byte push_rec publish_line new_job
    bytes_eq new_line_buffer step receive try_enqueue_line flush insert_lines
runs =
    calls_back line_no [] []
      (complains (bytes "no\noh")
        (stores tick_event
          (stores receive_event (calls_back line_hi [] [] (outputs (bytes "hi\n") begins refl) refl)
            tt)
          tt)
        refl)
      refl

found : find_job second.0.id live.jobs ≡ some second.0
unfolding entries write_stdout write_stderr call_back write write_byte push_rec publish_line new_job
    bytes_eq new_line_buffer step receive try_enqueue_line flush insert_lines find_job
found = refl

no_drop : live.store.dropped ≡ 0
unfolding entries write_stdout write_stderr call_back write write_byte push_rec publish_line new_job
    bytes_eq new_line_buffer step receive try_enqueue_line flush insert_lines
no_drop = refl

quiet : second.0.calling ≡ []
unfolding entries write_stdout write_stderr call_back write write_byte push_rec publish_line new_job
    bytes_eq new_line_buffer step receive try_enqueue_line flush insert_lines
quiet = refl

below : All (λ l. l.seq ≤ 1) (of_job second.0.id live.store.lines)
unfolding entries write_stdout write_stderr call_back write write_byte push_rec publish_line new_job
    bytes_eq new_line_buffer step receive try_enqueue_line flush insert_lines upsert_line
below = (omega arith, tt)

above : All (λ l. 1 < l.seq) (of_job second.0.id (waiting live.store))
unfolding entries write_stdout write_stderr call_back write write_byte push_rec publish_line new_job
    bytes_eq new_line_buffer step receive try_enqueue_line flush insert_lines
above = (omega arith, tt)

fits_stdout : length (of_job second.0.id (waiting live.store)) ≤ second.0.stdout.max_lines
unfolding entries write_stdout write_stderr call_back write write_byte push_rec publish_line new_job
    bytes_eq new_line_buffer step receive try_enqueue_line flush insert_lines
fits_stdout = omega arith

fits_stderr : length (of_job second.0.id (waiting live.store)) ≤ second.0.stderr.max_lines
unfolding entries write_stdout write_stderr call_back write write_byte push_rec publish_line new_job
    bytes_eq new_line_buffer step receive try_enqueue_line flush insert_lines
fits_stderr = omega arith

read_merged_spells_example : Reads (bytes "hi\n") (bytes "no\noh") second.0 live
read_merged_spells_example =
    read_merged_spells (pos 10) job_id (bytes "ls") 5 empty_store (bytes "hi\n") (bytes "no\noh")
      second.0 live 1 unused runs found no_drop quiet below above fits_stdout fits_stderr

-- The flush of the pending line, and the end of the run.
abbrev flushed : Job × Store
flushed = call_back line_oh [] (write_stderr (bytes "\n") second.0) second.1

abbrev third : Job × Store
third = settle (record { exit_code = 0; error = none }) 9 flushed.0 flushed.1

-- The writer takes two lines and the finish, and the memory forgets the job.
abbrev forgotten : Manager
forgotten = record { mem_lines = pos 10; jobs = []; store = catch_up 3 third.1 }

-- The callback of line 2 runs before that of line 1, and its line is stored; then the worker ends, and
-- starts again.
abbrev late : Job × Store
late = call_back line_no (line_hi ∷ []) (write_stderr (bytes "no\noh") wrote) empty_store

abbrev crashed : Store
crashed = step tick_event (step receive_event late.1)

runs_late : Trace start empty_store (bytes "hi\n") (bytes "no\noh") late.0 crashed
unfolding entries write_stdout write_stderr call_back write write_byte push_rec publish_line new_job
    bytes_eq new_line_buffer step receive try_enqueue_line flush insert_lines
runs_late =
    stores tick_event
      (stores receive_event
        (calls_back line_no (line_hi ∷ []) []
          (complains (bytes "no\noh") (outputs (bytes "hi\n") begins refl) refl) refl)
        tt)
      tt

crashed-all_taken : crashed.dropped ≡ 0
unfolding entries write_stdout write_stderr call_back write write_byte push_rec publish_line new_job
    bytes_eq new_line_buffer step receive try_enqueue_line flush insert_lines
crashed-all_taken = refl

-- Until then a reader does not see line 1.
abbrev running_late : Manager
running_late = record { mem_lines = pos 10; jobs = late.0 ∷ []; store = crashed }

late-found : find_job late.0.id running_late.jobs ≡ some late.0
unfolding entries write_stdout write_stderr call_back write write_byte push_rec publish_line new_job
    bytes_eq new_line_buffer step receive try_enqueue_line flush insert_lines find_job
late-found = refl

late-fits_stdout : length (unstored late.0 running_late.store) ≤ late.0.stdout.max_lines
unfolding entries write_stdout write_stderr call_back write write_byte push_rec publish_line new_job
    bytes_eq new_line_buffer step receive try_enqueue_line flush insert_lines
late-fits_stdout = omega arith

late-fits_stderr : length (unstored late.0 running_late.store) ≤ late.0.stderr.max_lines
unfolding entries write_stdout write_stderr call_back write write_byte push_rec publish_line new_job
    bytes_eq new_line_buffer step receive try_enqueue_line flush insert_lines
late-fits_stderr = omega arith

running_job-LiveHistory_example : LiveHistory (bytes "hi\n") (bytes "no\noh") late.0 running_late
running_job-LiveHistory_example =
    running_job-LiveHistory (pos 10) job_id (bytes "ls") 5 empty_store (bytes "hi\n")
      (bytes "no\noh") late.0 running_late unused runs_late late-found crashed-all_taken
      late-fits_stdout late-fits_stderr

abbrev all_well : Opening
all_well = record {
  made = true;
  opened = true;
  jobs_ok = true;
  lines_ok = true;
  index_ok = true;
  recovered = true;
  now = 12;
}

abbrev reopened : Store
reopened = recover 12 crashed.jobs crashed.lines

opens : (open_store all_well (left_behind crashed)).1 ≡ some reopened
unfolding open_store migrate
opens = refl

restarted_job-Recovered_example :
    Recovered (bytes "hi\n") (bytes "no\noh") 12 late.0 crashed (new_manager (pos 10) reopened)
restarted_job-Recovered_example =
    restarted_job-Recovered (pos 10) job_id (bytes "ls") 5 empty_store (bytes "hi\n")
      (bytes "no\noh") late.0 crashed all_well reopened (pos 10) unused runs_late crashed-all_taken
      opens

-- Three lines are in the ring; the table has the first and the third.
abbrev printed : ℕ → StoreLine
printed n = record { job_id = job_id; seq = n; stream = 0; line = bytes "hi" }

abbrev busy : Job
busy = write_stdout (bytes "hi\nhi\nhi\n") start

abbrev gap : Manager
gap = record {
  mem_lines = pos 10;
  jobs = busy ∷ [];
  store = record empty_store { lines = printed 1 ∷ printed 3 ∷ []; dropped = 1 };
}

busy_found : find_job busy.id gap.jobs ≡ some busy
unfolding write_stdout write write_byte push_rec new_job bytes_eq new_line_buffer entries find_job
busy_found = refl

lacks : All (λ r. r.seq ≢ 2) (query_lines busy.id (negsuc 0) gap.store)
unfolding write_stdout write write_byte push_rec new_job bytes_eq new_line_buffer entries
    query_lines select_lines matching sort_seq insert_seq
lacks = (omega arith, (omega arith, tt))

later_stored : 2 ≤ highest_seq (query_lines busy.id (negsuc 0) gap.store)
unfolding write_stdout write write_byte push_rec new_job bytes_eq new_line_buffer entries
    query_lines select_lines matching sort_seq insert_seq highest_seq
later_stored = omega arith

dropped_line_hidden_example : All (λ r. r.seq ≢ 2) (read_merged busy.id (negsuc 0) gap)
dropped_line_hidden_example =
    dropped_line_hidden 2 (negsuc 0) busy gap busy_found lacks later_stored
