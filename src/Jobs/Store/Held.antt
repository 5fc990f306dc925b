-- ===== src/Jobs/Store/Held.antt =====
-- The lines of one job in the store, those of the table and those that still wait for the writer
-- (internal/jobsvc/store.go).
use easyworker.Base.{
  ℕ, ◌+◌, ◌≡◌, ◌≢◌, ◌∙◌, refl, sym, ap, subst, true, false, not, List, [], ◌∷◌, ◌++◌, arith, leb,
  ltb, if◌then◌else◌, Bytes, bytes_eq, bytes_eq_iff, length, All, All-of_append, keep, inl, inr,
  Bool-cases,
}
use mathlib.Core.List.{append_assoc, append-nil}
use easyworker.Jobs.Row.{StoreLine, same_key, upsert_line}
use easyworker.Jobs.Store.{
  Store, Record, line, finish, no_faults, write_batch_len, channel_cap, insert_lines, flush,
  take_record, receive, try_enqueue_line, finish_job,
}
use easyworker.Jobs.Store.Fifo.{
  Event, lines_event, finish_event, job_event, receive_event, tick_event, step,
}

abbrev pub of_job : Bytes → List StoreLine → List StoreLine
of_job id = keep λ l. bytes_eq l.job_id id

abbrev pub lines_of : List Record → List StoreLine
lines_of [] = []
lines_of (line l ∷ queue) = l ∷ lines_of queue
lines_of (finish f ∷ queue) = lines_of queue

-- What the tables do not have yet.
abbrev pub waiting : Store → List StoreLine
waiting s = s.batch ++ lines_of s.queue

-- The lines of a job in the order of their acceptance.
abbrev pub held : Bytes → Store → List StoreLine
held id s = of_job id s.lines ++ of_job id (waiting s)

-- The numbers n + 1, n + 2 and so on.
abbrev pub Numbered : ℕ → List StoreLine → Type 0
Numbered n [] = Unit {0}
Numbered n (l ∷ lines) = (l.seq ≡ n + 1) × Numbered (n + 1) lines

-- No two lines have one number.
abbrev pub Distinct : List StoreLine → Type 0
Distinct [] = Unit {0}
Distinct (l ∷ lines) = All (λ r. r.seq ≢ l.seq) lines × Distinct lines

pub of_job-append :
    (id : Bytes) (xs ys : List StoreLine) → of_job id (xs ++ ys) ≡ of_job id xs ++ of_job id ys
of_job-append id [] ys = refl
of_job-append id (x ∷ xs) ys = ground (arith, of_job-append id xs ys)

pub lines_of-append : (xs ys : List Record) → lines_of (xs ++ ys) ≡ lines_of xs ++ lines_of ys
lines_of-append [] ys = refl
lines_of-append (line l ∷ xs) ys = ap (λ t. l ∷ t) (lines_of-append xs ys)
lines_of-append (finish f ∷ xs) ys = lines_of-append xs ys

-- The number of a line is new to the lines before it.
Distinct-fresh :
    (xs ys : List StoreLine) (r : StoreLine)
    → Distinct (xs ++ (r ∷ ys))
    → All (λ l. l.seq ≢ r.seq) xs
Distinct-fresh [] ys r c = tt
Distinct-fresh (x ∷ xs) ys r c =
    let (_, rest) = All-of_append _ xs (r ∷ ys) c.0 in
    (λ e. rest.0 (sym e), Distinct-fresh xs ys r c.1)

key_differs :
    (id : Bytes) (r l : StoreLine)
    → bytes_eq l.job_id id ≡ true
    → (bytes_eq r.job_id id ≡ true → l.seq ≢ r.seq)
    → same_key l r ≡ false
key_differs id r l mine h = elim (Bool-cases (bytes_eq l.job_id r.job_id)) [
  | inl e ↦
      let own : bytes_eq r.job_id id ≡ true =
        subst (λ t. bytes_eq t id ≡ true) ((bytes_eq_iff l.job_id r.job_id).0 e) mine in
      let ne = h own in rw e (ground arith)
  | inr d ↦ rw d refl
]

keep_others :
    (id : Bytes) (r : StoreLine) (lines : List StoreLine)
    → (bytes_eq r.job_id id ≡ true → All (λ l. l.seq ≢ r.seq) (of_job id lines))
    → of_job id (keep (λ l. not (same_key l r)) lines) ≡ of_job id lines
keep_others id r [] h = refl
keep_others id r (l ∷ lines) h = elim (Bool-cases (bytes_eq l.job_id id)) [
  | inl mine ↦
      let d = key_differs id r l mine (λ e. (rw mine at (h e)).0) in
      let rest = keep_others id r lines (λ e. (rw mine at (h e)).1) in
      rw (d, mine) (ap (λ t. l ∷ t) rest)
  | inr other ↦
      let rest = keep_others id r lines (λ e. rw other at (h e)) in
      elim (Bool-cases (same_key l r)) [
        | inl same ↦ rw (same, other) rest
        | inr apart ↦ rw (apart, other) rest
      ]
]

-- A line whose number is new to its job goes behind the lines of the job.
of_job-upsert :
    (id : Bytes) (r : StoreLine) (lines : List StoreLine)
    → (bytes_eq r.job_id id ≡ true → All (λ l. l.seq ≢ r.seq) (of_job id lines))
    → of_job id (upsert_line r lines) ≡ of_job id lines ++ of_job id (r ∷ [])
unfolding upsert_line
of_job-upsert id r lines h =
    of_job-append id (keep (λ l. not (same_key l r)) lines) (r ∷ [])
    ∙ ap (λ t. t ++ of_job id (r ∷ [])) (keep_others id r lines h)

of_job-cons :
    (id : Bytes) (r : StoreLine) (batch : List StoreLine)
    → of_job id (r ∷ batch) ≡ of_job id (r ∷ []) ++ of_job id batch
of_job-cons id r batch = of_job-append id (r ∷ []) batch

-- The inserts of a batch keep the order of a job's lines.
of_job-insert_lines :
    (id : Bytes) (batch rest lines : List StoreLine)
    → Distinct (of_job id lines ++ (of_job id batch ++ rest))
    → of_job id (insert_lines batch lines) ≡ of_job id lines ++ of_job id batch
unfolding insert_lines
of_job-insert_lines id [] rest lines c = sym (append-nil (of_job id lines))
of_job-insert_lines id (r ∷ batch) rest lines c =
    let one =
      of_job-upsert id r lines
        (λ own. Distinct-fresh (of_job id lines) (of_job id batch ++ rest) r (rw own at c)) in
    of_job-insert_lines id batch rest (upsert_line r lines) (subst Distinct (moved one) c)
    ∙ (ap (λ t. t ++ of_job id batch) one
        ∙ (append_assoc (of_job id lines) (of_job id (r ∷ [])) (of_job id batch)
            ∙ ap (λ t. of_job id lines ++ t) (sym (of_job-cons id r batch))))
  where
    moved :
        of_job id (upsert_line r lines) ≡ of_job id lines ++ of_job id (r ∷ [])
        → of_job id lines ++ (of_job id (r ∷ batch) ++ rest)
          ≡ of_job id (upsert_line r lines) ++ (of_job id batch ++ rest)
    moved one =
        ap (λ t. of_job id lines ++ (t ++ rest)) (of_job-cons id r batch)
        ∙ (ap (λ t. of_job id lines ++ t) (append_assoc (of_job id (r ∷ [])) (of_job id batch) rest)
            ∙ (sym (append_assoc (of_job id lines) (of_job id (r ∷ [])) (of_job id batch ++ rest))
                ∙ ap (λ t. t ++ (of_job id batch ++ rest)) (sym one)))

held_split :
    (id : Bytes) (s : Store)
    → held id s ≡ of_job id s.lines ++ (of_job id s.batch ++ of_job id (lines_of s.queue))
held_split id s = ap (λ t. of_job id s.lines ++ t) (of_job-append id s.batch (lines_of s.queue))

-- A batch that is written moves its lines from the writer to the table.
held-insert :
    (id : Bytes) (batch queue lines : List StoreLine)
    → Distinct (of_job id lines ++ of_job id (batch ++ queue))
    → of_job id (insert_lines batch lines) ++ of_job id queue
      ≡ of_job id lines ++ of_job id (batch ++ queue)
held-insert id batch queue lines c =
    let split = ap (λ t. of_job id lines ++ t) (of_job-append id batch queue) in
    ap (λ t. t ++ of_job id queue)
      (of_job-insert_lines id batch (of_job id queue) lines (subst Distinct split c))
    ∙ (append_assoc (of_job id lines) (of_job id batch) (of_job id queue) ∙ sym split)

held-flush :
    (id : Bytes) (s : Store) → Distinct (held id s) → held id (flush no_faults s) ≡ held id s
unfolding flush
held-flush id s c = held-insert id s.batch (lines_of s.queue) s.lines c

held-take_record :
    (id : Bytes) (queue : List Record) (s : Store)
    → s.queue ≡ queue
    → Distinct (held id s)
    → held id (take_record no_faults true queue s) ≡ held id s
unfolding take_record flush
held-take_record id [] s e c = refl
held-take_record id (line l ∷ queue) s e c =
    let moved : s.batch ++ l ∷ [] ++ lines_of queue ≡ waiting s =
      append_assoc s.batch (l ∷ []) (lines_of queue) ∙ ap (λ q. s.batch ++ lines_of q) (sym e) in
    let same = ap (λ t. of_job id s.lines ++ of_job id t) moved in
    elim (Bool-cases (leb write_batch_len (length (s.batch ++ l ∷ [])))) [
      | inl full ↦
          rw (full, take_record)
            (held-insert id (s.batch ++ l ∷ []) (lines_of queue) s.lines
                (subst Distinct (sym same) c)
              ∙ same)
      | inr room ↦ rw (room, take_record) same
    ]
held-take_record id (finish f ∷ queue) s e c =
    let same = ap (λ q. of_job id s.lines ++ of_job id (s.batch ++ lines_of q)) e in
    held-insert id s.batch (lines_of queue) s.lines (subst Distinct same c) ∙ sym same

held_queue :
    (id : Bytes) (s : Store) (r : Record)
    → held id (record s { queue = s.queue ++ r ∷ [] }) ≡ held id s ++ of_job id (lines_of (r ∷ []))
held_queue id s r =
    ap (λ t. of_job id s.lines ++ of_job id (s.batch ++ t)) (lines_of-append s.queue (r ∷ []))
    ∙ (ap (λ t. of_job id s.lines ++ of_job id t)
          (sym (append_assoc s.batch (lines_of s.queue) (lines_of (r ∷ []))))
        ∙ (ap (λ t. of_job id s.lines ++ t) (of_job-append id (waiting s) (lines_of (r ∷ [])))
            ∙ sym (
                append_assoc (of_job id s.lines) (of_job id (waiting s))
                  (of_job id (lines_of (r ∷ []))))))

dropped-take_record :
    (queue : List Record) (s : Store) → (take_record no_faults true queue s).dropped ≡ s.dropped
unfolding take_record flush
dropped-take_record [] s = refl
dropped-take_record (line l ∷ queue) s = ground arith
dropped-take_record (finish f ∷ queue) s = refl

pub dropped-receive : (s : Store) → (step receive_event s).dropped ≡ s.dropped
unfolding step receive
dropped-receive s = dropped-take_record s.queue s

pub dropped-try_enqueue_line :
    (l : StoreLine) (s : Store) → (try_enqueue_line l s).dropped ≡ 0 → s.dropped ≡ 0
unfolding try_enqueue_line
dropped-try_enqueue_line l s z = ground arith

-- The count of the dropped lines never falls back to 0.
pub dropped-step : (e : Event) (s : Store) → (step e s).dropped ≡ 0 → s.dropped ≡ 0
unfolding step finish_job receive flush
dropped-step (lines_event l) s z = dropped-try_enqueue_line l s z
dropped-step (finish_event f) s z = ground arith
dropped-step (job_event r) s z = z
dropped-step receive_event s z = sym (dropped-take_record s.queue s) ∙ z
dropped-step tick_event s z = z

-- A line that the channel takes stands behind the others of its job.
pub held-try_enqueue_line :
    (id : Bytes) (l : StoreLine) (s : Store)
    → (try_enqueue_line l s).dropped ≡ 0
    → held id (try_enqueue_line l s) ≡ held id s ++ of_job id (l ∷ [])
unfolding try_enqueue_line
held-try_enqueue_line id l s z = elim (Bool-cases (ltb (length s.queue) channel_cap)) [
  | inl room ↦ rw (room, try_enqueue_line) (held_queue id s (line l))
  | inr full ↦ absurd (ground (arith, full))
]

-- An event that is not a line of the job.
abbrev pub Foreign : Bytes → Event → Type 0
Foreign id (lines_event l) = bytes_eq l.job_id id ≡ false
Foreign id (finish_event f) = Unit {0}
Foreign id (job_event r) = Unit {0}
Foreign id receive_event = Unit {0}
Foreign id tick_event = Unit {0}

-- No other event adds to the lines of a job, loses one or changes their order.
pub held-step :
    (id : Bytes) (e : Event) (s : Store)
    → Foreign id e
    → (step e s).dropped ≡ 0
    → Distinct (held id s)
    → held id (step e s) ≡ held id s
unfolding step finish_job receive
held-step id (lines_event l) s other z c =
    held-try_enqueue_line id l s z
    ∙ (ap (λ b. held id s ++ (if b then l ∷ [] else [])) other ∙ append-nil (held id s))
held-step id (finish_event f) s other z c = elim (Bool-cases (ltb (length s.queue) channel_cap)) [
  | inl room ↦ rw (room, finish_job) (held_queue id s (finish f) ∙ append-nil (held id s))
  | inr full ↦ rw (full, finish_job) refl
]
held-step id (job_event r) s other z c = refl
held-step id receive_event s other z c = held-take_record id s.queue s refl c
held-step id tick_event s other z c = held-flush id s c
