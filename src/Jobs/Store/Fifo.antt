-- ===== src/Jobs/Store/Fifo.antt =====
-- The writer against the log of what it commits (internal/jobsvc/store.go): with a database that
-- does not fail, the tables are always the replay of the records in the order of the channel.
use easyworker.Base.{
  ◌≡◌, ◌∙◌, refl, sym, ap, true, List, [], ◌∷◌, ◌++◌, map, arith, leb, ltb, if◌then◌else◌, length,
  inl, inr, Bool-cases,
}
use mathlib.Core.List.{append_assoc, append-nil, map-append}
use easyworker.Jobs.Row.{JobRow, StoreLine, StoreFinish, upsert_job, upsert_line, update_finished}
use easyworker.Jobs.Store.{
  Store, Record, line, finish, no_faults, write_batch_len, channel_cap, insert_lines, flush,
  take_record, receive, try_enqueue_line, finish_job, close, query_job,
}

-- What can happen to the store while the worker runs. A row that is inserted is that of a new job.
pub data Event : Type 0 where
  -- TryEnqueueLine, FinishJob, EnqueueJob
  lines_event : StoreLine → Event
  finish_event : StoreFinish → Event
  job_event : JobRow → Event
  -- the writer receives a record; its ticker fires
  receive_event tick_event : Event

-- What is committed, in order: records of the channel, and rows that are written directly.
pub data Entry : Type 0 where
  queued : Record → Entry
  direct : JobRow → Entry

pub record Tables : Type 0 where
  pub jobs : List JobRow
  pub lines : List StoreLine

abbrev pub tables : Store → Tables
tables s = record { jobs = s.jobs; lines = s.lines }

abbrev pub commit : Entry → Tables → Tables
commit (queued (line l)) t = record t { lines = upsert_line l t.lines }
commit (queued (finish f)) t = record t { jobs = update_finished f t.jobs }
commit (direct r) t = record t { jobs = upsert_job r t.jobs }

pub replay : List Entry → Tables → Tables
replay [] t = t
replay (e ∷ log) t = replay log (commit e t)

-- The records of a log that came through the channel.
abbrev pub records : List Entry → List Record
records [] = []
records (queued r ∷ log) = r ∷ records log
records (direct r ∷ log) = records log

unfoldable pub step : Event → Store → Store
step (lines_event l) s = try_enqueue_line l s
step (finish_event f) s = finish_job f s
step (job_event r) s = record s { jobs = upsert_job r s.jobs }
step receive_event s = receive no_faults true s
step tick_event s = flush no_faults s

-- The records that the channel takes.
abbrev taken : Record → Store → List Record
taken r s = if ltb (length s.queue) channel_cap then r ∷ [] else []

pub accepted_by : Event → Store → List Record
accepted_by (lines_event l) s = taken (line l) s
accepted_by (finish_event f) s = taken (finish f) s
accepted_by e s = []

abbrev pub queued_lines : List StoreLine → List Entry
queued_lines = map λ l. queued (line l)

receive_commits : List Record → List StoreLine → List Entry
receive_commits [] batch = []
receive_commits (line l ∷ queue) batch =
    if leb write_batch_len (length (batch ++ l ∷ [])) then queued_lines (batch ++ l ∷ []) else []
receive_commits (finish f ∷ queue) batch = queued_lines batch ++ queued (finish f) ∷ []

-- What an event commits.
pub committed_by : Event → Store → List Entry
unfolding receive_commits
committed_by (job_event r) s = direct r ∷ []
committed_by receive_event s = receive_commits s.queue s.batch
committed_by tick_event s = queued_lines s.batch
committed_by e s = []

pub run : List Event → Store → Store
run [] s = s
run (e ∷ es) s = run es (step e s)

pub accepted : List Event → Store → List Record
accepted [] s = []
accepted (e ∷ es) s = accepted_by e s ++ accepted es (step e s)

pub committed : List Event → Store → List Entry
committed [] s = []
committed (e ∷ es) s = committed_by e s ++ committed es (step e s)

-- The records that are not yet committed.
abbrev pub pending : Store → List Record
pending s = map line s.batch ++ s.queue

replay-append : (xs ys : List Entry) (t : Tables) → replay (xs ++ ys) t ≡ replay ys (replay xs t)
unfolding replay
replay-append [] ys t = refl
replay-append (e ∷ xs) ys t = replay-append xs ys (commit e t)

replay-queued_lines :
    (batch : List StoreLine) (t : Tables)
    → replay (queued_lines batch) t ≡ record t { lines = insert_lines batch t.lines }
unfolding replay insert_lines
replay-queued_lines [] t = refl
replay-queued_lines (l ∷ batch) t =
    replay-queued_lines batch (record t { lines = upsert_line l t.lines })

records-append : (xs ys : List Entry) → records (xs ++ ys) ≡ records xs ++ records ys
records-append [] ys = refl
records-append (queued r ∷ xs) ys = ap (λ t. r ∷ t) (records-append xs ys)
records-append (direct r ∷ xs) ys = records-append xs ys

records-queued_lines : (batch : List StoreLine) → records (queued_lines batch) ≡ map line batch
records-queued_lines [] = refl
records-queued_lines (l ∷ batch) = ap (λ t. line l ∷ t) (records-queued_lines batch)

-- One record received: the tables, and where the records went.
receive_tables :
    (queue : List Record) (s : Store)
    → tables (take_record no_faults true queue s)
      ≡ replay (receive_commits queue s.batch) (tables s)
unfolding take_record receive_commits replay
receive_tables [] s = refl
receive_tables (line l ∷ queue) s =
    elim (Bool-cases (leb write_batch_len (length (s.batch ++ l ∷ [])))) [
      | inl full ↦
          rw (full, take_record, receive_commits)
            (sym (replay-queued_lines (s.batch ++ l ∷ []) (tables s)))
      | inr room ↦ rw (room, take_record, receive_commits) refl
    ]
receive_tables (finish f ∷ queue) s = sym (
    replay-append (queued_lines s.batch) (queued (finish f) ∷ []) (tables s)
    ∙ ap (commit (queued (finish f))) (replay-queued_lines s.batch (tables s)))

receive_pending :
    (queue : List Record) (s : Store)
    → s.queue ≡ queue
    → map line s.batch ++ queue
      ≡ records (receive_commits queue s.batch) ++ pending (take_record no_faults true queue s)
unfolding take_record receive_commits
receive_pending [] s e = ap (λ q. map line s.batch ++ q) (sym e)
receive_pending (line l ∷ queue) s e =
    let grown : map line (s.batch ++ l ∷ []) ++ queue ≡ map line s.batch ++ line l ∷ queue =
      ap (λ t. t ++ queue) (map-append line s.batch (l ∷ []))
      ∙ append_assoc (map line s.batch) (line l ∷ []) queue in
    elim (Bool-cases (leb write_batch_len (length (s.batch ++ l ∷ [])))) [
      | inl full ↦
          rw (full, take_record, receive_commits)
            (sym grown ∙ ap (λ t. t ++ queue) (sym (records-queued_lines (s.batch ++ l ∷ []))))
      | inr room ↦ rw (room, take_record, receive_commits) (sym grown)
    ]
receive_pending (finish f ∷ queue) s e = sym (
    ap (λ t. t ++ queue)
      (records-append (queued_lines s.batch) (queued (finish f) ∷ [])
        ∙ ap (λ t. t ++ finish f ∷ []) (records-queued_lines s.batch))
    ∙ append_assoc (map line s.batch) (finish f ∷ []) queue)

tables-step : (e : Event) (s : Store) → tables (step e s) ≡ replay (committed_by e s) (tables s)
unfolding step committed_by replay try_enqueue_line finish_job receive flush
tables-step (lines_event l) s = ground arith
tables-step (finish_event f) s = ground arith
tables-step (job_event r) s = refl
tables-step receive_event s = receive_tables s.queue s
tables-step tick_event s = sym (replay-queued_lines s.batch (tables s))

enqueue_pending :
    (r : Record) (s : Store) (s' : Store)
    → s'.batch ≡ s.batch
    → s'.queue ≡ s.queue ++ taken r s
    → pending s ++ taken r s ≡ pending s'
enqueue_pending r s s' b q = append_assoc (map line s.batch) s.queue (taken r s) ∙ rw (b, q) refl

pending-step :
    (e : Event) (s : Store)
    → pending s ++ accepted_by e s ≡ records (committed_by e s) ++ pending (step e s)
unfolding step accepted_by committed_by try_enqueue_line finish_job receive flush
pending-step (lines_event l) s =
    enqueue_pending (line l) s (try_enqueue_line l s) (ground arith)
      (ground (arith, append-nil s.queue))
pending-step (finish_event f) s =
    enqueue_pending (finish f) s (finish_job f s) (ground arith)
      (ground (arith, append-nil s.queue))
pending-step (job_event r) s = append-nil (pending s)
pending-step receive_event s = append-nil (pending s) ∙ receive_pending s.queue s refl
pending-step tick_event s =
    append-nil (pending s) ∙ ap (λ t. t ++ s.queue) (sym (records-queued_lines s.batch))

-- With a database that does not fail, whatever lines, finishes and new jobs arrive and whenever the
-- writer runs: the tables are the replay of what is committed, and the records that the channel took,
-- in its order, are the committed ones followed by those still pending. So a job's finish is
-- committed only after every record that the channel took before it.
pub run_fifo :
    (es : List Event) (s : Store)
    → (tables (run es s) ≡ replay (committed es s) (tables s))
      × (pending s ++ accepted es s ≡ records (committed es s) ++ pending (run es s))
unfolding run accepted committed
run_fifo [] s = (unfold replay in refl, append-nil (pending s))
run_fifo (e ∷ es) s =
    let (t, p) = run_fifo es (step e s) in
    (
      t
          ∙ ap (replay (committed es (step e s))) (tables-step e s)
          ∙ sym (replay-append (committed_by e s) (committed es (step e s)) (tables s)),
      sym (append_assoc (pending s) (accepted_by e s) (accepted es (step e s)))
          ∙ ap (λ q. q ++ accepted es (step e s)) (pending-step e s)
          ∙ append_assoc (records (committed_by e s)) (pending (step e s)) (accepted es (step e s))
          ∙ ap (λ q. records (committed_by e s) ++ q) p
          ∙ sym (
              append_assoc (records (committed_by e s)) (records (committed es (step e s)))
                (pending (run es (step e s))))
          ∙ ap (λ q. q ++ pending (run es (step e s)))
              (sym (records-append (committed_by e s) (committed es (step e s)))),
    )

-- Close commits the writer's open batch and nothing else: a finish record that still waits in the
-- channel is lost, and the row that it was for is left as it was.
pub close_loses_queue :
    (s : Store) (f : StoreFinish) (queue : List Record)
    → s.queue ≡ finish f ∷ queue
    → (tables (close no_faults s) ≡ replay (queued_lines s.batch) (tables s))
      × (query_job f.job_id (close no_faults s) ≡ query_job f.job_id s)
      × ((close no_faults s).queue ≡ finish f ∷ queue)
unfolding close query_job
close_loses_queue s f queue e = (sym (replay-queued_lines s.batch (tables s)), refl, e)
