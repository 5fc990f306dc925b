-- ===== src/Jobs/Store/Drain.antt =====
-- The writer catches up (internal/jobsvc/store.go): when it has received what is in its channel and its
-- ticker has fired, everything that was accepted is in the tables.
use easyworker.Base.{ℕ, zero, suc, ◌-◌, ◌≡◌, ◌≤◌, ◌∙◌, refl, ap, true, List, [], ◌∷◌, arith, length}
use easyworker.Jobs.Store.{
  Store, Record, line, finish, no_faults, flush, receive, take_record, write_record,
}
use easyworker.Jobs.Store.Fifo.{receive_event, tick_event, step}
use easyworker.Jobs.Store.Held.{dropped-receive, lines_of, waiting}

-- The writer receives n times, and the ticker fires.
unfoldable pub catch_up : ℕ → Store → Store
catch_up zero s = step tick_event s
catch_up (suc n) s = catch_up n (step receive_event s)

queue-take_record :
    (queue : List Record) (s : Store)
    → s.queue ≡ queue
    → length (take_record no_faults true queue s).queue ≡ length queue - 1
unfolding take_record write_record flush
queue-take_record [] s e = ap length e
queue-take_record (line l ∷ queue) s e = ground arith
queue-take_record (finish f ∷ queue) s e = omega arith

queue-receive : (s : Store) → length (step receive_event s).queue ≡ length s.queue - 1
unfolding step receive
queue-receive s = queue-take_record s.queue s refl

empty_queue : (queue : List Record) → length queue ≤ 0 → lines_of queue ≡ []
empty_queue [] h = refl
empty_queue (r ∷ queue) h = absurd (omega arith)

tick-waiting : (s : Store) → length s.queue ≤ 0 → waiting (step tick_event s) ≡ []
unfolding step flush
tick-waiting s h = empty_queue s.queue h

-- As many receives as the channel has records, and a tick, leave nothing waiting.
pub catch_up-waiting : (n : ℕ) (s : Store) → length s.queue ≤ n → waiting (catch_up n s) ≡ []
unfolding catch_up
catch_up-waiting zero s h = tick-waiting s h
catch_up-waiting (suc n) s h =
    catch_up-waiting n (step receive_event s) (omega (arith, queue-receive s))

pub dropped-catch_up : (n : ℕ) (s : Store) → (catch_up n s).dropped ≡ s.dropped
unfolding catch_up step flush
dropped-catch_up zero s = refl
dropped-catch_up (suc n) s = dropped-catch_up n (step receive_event s) ∙ dropped-receive s
