-- ===== src/Examples/Jobs.antt =====
-- A job with one watcher, its end and its history (internal/jobsvc/manager.go).
use easyworker.Base.{
  ℕ, ◌≡◌, ◌↔◌, refl, inl, true, false, none, some, List, [], ◌∷◌, ◌++◌, map, arith, bytes, Bytes,
  pos,
}
use easyworker.Shell.LineBuffer.{LineRec, LineBuffer, line_of}
use easyworker.Jobs.Row.{running, finished, killed}
use easyworker.Jobs.Job.{
  Job, active, finalized, subs_finished, ended, RunResult, finalize, finish_subs, close_done,
  subscribe,
}
use easyworker.Jobs.Job.Subscribers.{early_watcher_ends, late_watcher_waits}
use easyworker.Jobs.Job.Steps.{Reach, here, next, Has, finalizes, finishes_subs, closes_done}
use easyworker.Jobs.Job.End.{verdict, end_job, end_job-verdict}
use easyworker.Shell.Run.{Interpreter, Attempt, exit_status}
use easyworker.Jobs.Job.Outcome.{finalize_outcome}
use easyworker.Jobs.Manager.{Manager, Page, page}
use easyworker.Jobs.Manager.Pages.{pages_cover}
use easyworker.Examples.Store.{empty_store}

abbrev rec : ℕ → LineRec
rec n = record { seq = n; line = bytes "hi" }

abbrev buffer : List LineRec → LineBuffer
buffer recs = record { max_lines = 10; recs = recs; cur = bytes "end"; dropped = 0 }

abbrev pub job : Job
job = record {
  id = bytes "j";
  command = bytes "ls";
  state = running;
  exit_code = 0;
  started_at = 5;
  finished_at = 0;
  stdout = buffer (rec 1 ∷ rec 3 ∷ []);
  stderr = buffer (rec 2 ∷ []);
  seq = 3;
  calling = [];
  channels = [];
  canceled = false;
  stage = active;
}

abbrev done : RunResult
done = record { exit_code = 0; error = some (bytes "parse: oops") }

abbrev watched : Job
watched = (subscribe job).0

watched-active : watched.stage ≡ active
unfolding subscribe
watched-active = refl

abbrev settled : Job
settled = (finalize done 9 watched empty_store).0

abbrev closed : Job
closed = close_done (finish_subs settled)

settled-finalized : settled.stage ≡ finalized
unfolding finalize
settled-finalized = refl

told : (finish_subs settled).stage ≡ subs_finished
unfolding finish_subs
told = refl

ended-closed : closed.stage ≡ ended
unfolding close_done
ended-closed = refl

to_the_end : Reach watched closed
to_the_end =
    next
      (next (next here (finalizes watched empty_store done 9 watched-active))
        (finishes_subs settled settled-finalized))
      (closes_done (finish_subs settled) told)

early_watcher_ends_example : ((subscribe job).2 ≡ some 0) × Has 0 true false closed.channels
early_watcher_ends_example = early_watcher_ends job closed (inl refl) to_the_end ended-closed

abbrev late : Job
late = record job { stage = subs_finished }

late_stage : (subscribe late).0.stage ≡ subs_finished
unfolding subscribe
late_stage = refl

late_watcher_waits_example :
    ((subscribe late).2 ≡ some 0) × Has 0 false true (close_done (subscribe late).0).channels
late_watcher_waits_example =
    late_watcher_waits late (close_done (subscribe late).0) refl
      (next here (closes_done (subscribe late).0 late_stage))

finalize_outcome_example :
    let k = (finalize done 9 job empty_store).0 in
    (k.stdout.cur ≡ [])
    × (k.stderr.cur ≡ [])
    × ((k.state ≡ finished) ↔ ((done.error ≡ none) × (job.canceled ≡ false) × (done.exit_code ≡ 0)))
    × ((k.state ≡ killed) ↔ ((done.error ≡ none) × (job.canceled ≡ true)))
    × (k.exit_code ≡ done.exit_code)
finalize_outcome_example = finalize_outcome done 9 job empty_store

abbrev pub manager : Manager
manager = record { mem_lines = pos 10; jobs = job ∷ []; store = empty_store }

abbrev history : List LineRec
history = rec 1 ∷ rec 2 ∷ rec 3 ∷ []

pages_cover_example :
    (p : Page) × (q : Page) × (page (pos 0) (pos 2) history ≡ some p)
    × (page (pos 2) (pos 0) history ≡ some q)
    × (p.lines ++ q.lines ≡ map line_of history)
pages_cover_example = pages_cover 2 history (omega arith) (omega arith) (omega arith)

-- The interpreter whose scripts are their texts, all of which end with exit status 3.
abbrev threes : Interpreter Bytes
threes = record {
  parse = λ c. Attempt.done c;
  start = λ dir env. Attempt.done tt;
  interpret = λ script dir env. some (exit_status 3);
}

end_job-verdict_example :
    let k = (end_job threes (bytes "/w") [] [] [] false 9 job empty_store).0 in
    (k.state ≡ (verdict (some (exit_status 3)) false).0)
    × (k.exit_code ≡ (verdict (some (exit_status 3)) false).1)
end_job-verdict_example =
    end_job-verdict threes (bytes "/w") [] [] [] 9 job empty_store (bytes "ls") refl refl
