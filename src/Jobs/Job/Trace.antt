-- ===== src/Jobs/Job/Trace.antt =====
-- What a job and the store go through from the start of the job (internal/jobsvc/manager.go), and the
-- log that they keep on the way.
use easyworker.Base.{
  ℕ, ◌≡◌, refl, sym, subst, List, [], ◌∷◌, ◌++◌, if◌then◌else◌, Bytes, bytes_eq, Bool-cases, inl,
  inr, arith, All-of_append,
}
use mathlib.Core.List.{Permᴰ}
use mathlib.Core.List.Permᴰ
use easyworker.Shell.LineBuffer.{LineBuffer, write, write_byte, flush_line}
use easyworker.Jobs.Row.{StoreLine}
use easyworker.Jobs.Store.{Store}
use easyworker.Jobs.Store.Fifo.{Event, finish_event, step}
use easyworker.Jobs.Store.Held.{Distinct, Foreign, held, held-step, dropped-step}
use easyworker.Jobs.Store.Permuted.{Distinct-Perm, Numbered-Distinct}
use easyworker.Jobs.Job.{
  Job, RunResult, active, finalized, subs_finished, write_stdout, write_stderr, call_back, settle,
  final_state, finish_subs, close_done, subscribe, receive_at, kill,
}
use easyworker.Jobs.Job.Logged.{
  Logged, Unchanged, Logged-Unchanged, write_stdout-Logged, write_stderr-Logged, call_back-Logged,
}

-- What a flush adds to a text: the line feed that ends a pending line.
abbrev pub line_end : Bytes → Bytes
line_end cur = if bytes_eq cur [] then [] else b'\n' ∷ []

-- A flush is a write of the line feed that is missing.
flush_line-write : (seq : ℕ) (lb : LineBuffer) → flush_line seq lb ≡ write (line_end lb.cur) seq lb
unfolding flush_line write write_byte
flush_line-write seq lb = elim (Bool-cases (bytes_eq lb.cur [])) [
  | inl nothing ↦ rw (nothing, flush_line) refl
  | inr pending ↦ rw (pending, flush_line) refl
]

-- From the job `start` on, with the store `before`: a run in which `out` and `err` have been written to
-- the streams, the line ends of the flushes and the report of an error included. A write is its part
-- under the lock of its buffer, or a stretch of it, since the other stream's lines take numbers in
-- between; each of its callbacks is a step of its own, at any later time and in any order.
pub data Trace (start : Job) (before : Store) : Bytes → Bytes → Job → Store → Type 0 where
  begins : Trace start before [] [] start before
  -- the process writes, or the goroutine flushes or reports
  outputs :
      {out err : Bytes} {j : Job} {s : Store} (p : Bytes)
      → Trace start before out err j s
      → j.stage ≡ active
      → Trace start before (out ++ p) err (write_stdout p j) s
  complains :
      {out err : Bytes} {j : Job} {s : Store} (p : Bytes)
      → Trace start before out err j s
      → j.stage ≡ active
      → Trace start before out (err ++ p) (write_stderr p j) s
  calls_back :
      {out err : Bytes} {j : Job} {s : Store} (l : StoreLine) (earlier later : List StoreLine)
      → Trace start before out err j s
      → j.calling ≡ earlier ++ (l ∷ later)
      → Trace start before out err
          (call_back l (earlier ++ later) j s).0
          (call_back l (earlier ++ later) j s).1
  -- the goroutine goes on
  settles :
      {out err : Bytes} {j : Job} {s : Store} (r : RunResult) (now : ℕ)
      → Trace start before out err j s
      → j.stage ≡ active
      → Trace start before out err (settle r now j s).0 (settle r now j s).1
  finishes_subs :
      {out err : Bytes} {j : Job} {s : Store}
      → Trace start before out err j s
      → j.stage ≡ finalized
      → Trace start before out err (finish_subs j) s
  closes_done :
      {out err : Bytes} {j : Job} {s : Store}
      → Trace start before out err j s
      → j.stage ≡ subs_finished
      → Trace start before out err (close_done j) s
  -- a handler
  subscribes :
      {out err : Bytes} {j : Job} {s : Store}
      → Trace start before out err j s
      → Trace start before out err (subscribe j).0 s
  receives :
      {out err : Bytes} {j : Job} {s : Store} (i : ℕ)
      → Trace start before out err j s
      → Trace start before out err (record j { channels = receive_at i j.channels }) s
  kills :
      {out err : Bytes} {j : Job} {s : Store}
      → Trace start before out err j s
      → Trace start before out err (kill j) s
  -- the writer, or another job
  stores :
      {out err : Bytes} {j : Job} {s : Store} (e : Event)
      → Trace start before out err j s
      → Foreign j.id e
      → Trace start before out err j (step e s)

Distinct-front : (xs ys : List StoreLine) → Distinct (xs ++ ys) → Distinct xs
Distinct-front [] ys d = tt
Distinct-front (x ∷ xs) ys d = ((All-of_append _ xs ys d.0).0, Distinct-front xs ys d.1)

-- No two lines of a job in the store have one number.
pub held-Distinct :
    (out err : Bytes) (log : List StoreLine) (j : Job) (s : Store)
    → Logged out err log j s
    → s.dropped ≡ 0
    → Distinct (held j.id s)
held-Distinct out err log j s h z =
    Distinct-front (held j.id s) j.calling
      (Distinct-Perm (Permᴰ.symm (h.entered.stored z)) (Numbered-Distinct 0 log h.entered.numbered))

pub step-Logged :
    (out err : Bytes) (log : List StoreLine) (j : Job) (e : Event) (s : Store)
    → Foreign j.id e
    → Logged out err log j s
    → Logged out err log j (step e s)
step-Logged out err log j e s other h = record {
  entered = record {
    numbered = h.entered.numbered;
    own = h.entered.own;
    streams = h.entered.streams;
    counted = h.entered.counted;
    stored = λ z.
        let earlier = dropped-step e s z in
        subst (λ t. Permᴰ (t ++ j.calling) log)
          (sym (held-step j.id e s other z (held-Distinct out err log j s h earlier)))
          (h.entered.stored earlier);
  };
  stdout = h.stdout;
  stderr = h.stderr;
}

-- A job and its store at the end of two texts, with some log.
abbrev pub HasLog : Bytes → Bytes → Job → Store → Type 0
HasLog out err j s = (log : List StoreLine) × Logged out err log j s

HasLog-Unchanged :
    (out err : Bytes) (j k : Job) (s : Store)
    → Unchanged j k
    → HasLog out err j s
    → HasLog out err k s
HasLog-Unchanged out err j k s u (log, h) = (log, Logged-Unchanged out err log j k s u h)

subscribe-Unchanged : (j : Job) → Unchanged j (subscribe j).0
unfolding subscribe
subscribe-Unchanged j = record {
  id = ground arith;
  seq = ground arith;
  calling = ground arith;
  stdout = ground arith;
  stderr = ground arith;
}

settle-HasLog :
    (out err : Bytes) (r : RunResult) (now : ℕ) (j : Job) (s : Store)
    → HasLog out err j s
    → HasLog out err (settle r now j s).0 (settle r now j s).1
unfolding settle step
settle-HasLog out err r now j s (log, h) =
    let (state, code) = final_state r.error j.canceled r.exit_code in
    let e =
      finish_event (record { job_id = j.id; state = state; exit_code = code; finished_at = now }) in
    HasLog-Unchanged out err j _ (step e s)
      (record { id = refl; seq = refl; calling = refl; stdout = refl; stderr = refl })
      (log, step-Logged out err log j e s tt h)

-- Whatever a job, its callbacks, its watchers, the writer and the other jobs do: there is a log of the
-- job's lines, in the order of their numbers.
pub Trace-HasLog :
    {start : Job} {before : Store} {out err : Bytes} {j : Job} {s : Store}
    → HasLog [] [] start before
    → Trace start before out err j s
    → HasLog out err j s
unfolding finish_subs close_done kill
Trace-HasLog h begins = h
Trace-HasLog h (outputs p t runs) =
    let (log, l) = Trace-HasLog h t in (_, write_stdout-Logged p _ _ log _ _ l)
Trace-HasLog h (complains p t runs) =
    let (log, l) = Trace-HasLog h t in (_, write_stderr-Logged p _ _ log _ _ l)
Trace-HasLog h (calls_back l earlier later t e) =
    let (log, k) = Trace-HasLog h t in (log, call_back-Logged l earlier later _ _ log _ _ e k)
Trace-HasLog h (settles r now t runs) = settle-HasLog _ _ r now _ _ (Trace-HasLog h t)
Trace-HasLog h (finishes_subs t stage) =
    HasLog-Unchanged _ _ _ _ _
      (record { id = refl; seq = refl; calling = refl; stdout = refl; stderr = refl })
      (Trace-HasLog h t)
Trace-HasLog h (closes_done t stage) =
    HasLog-Unchanged _ _ _ _ _
      (record { id = refl; seq = refl; calling = refl; stdout = refl; stderr = refl })
      (Trace-HasLog h t)
Trace-HasLog h (subscribes {j = j} t) =
    HasLog-Unchanged _ _ _ _ _ (subscribe-Unchanged j) (Trace-HasLog h t)
Trace-HasLog h (receives i t) =
    HasLog-Unchanged _ _ _ _ _
      (record { id = refl; seq = refl; calling = refl; stdout = refl; stderr = refl })
      (Trace-HasLog h t)
Trace-HasLog h (kills t) =
    HasLog-Unchanged _ _ _ _ _
      (record { id = refl; seq = refl; calling = refl; stdout = refl; stderr = refl })
      (Trace-HasLog h t)
Trace-HasLog h (stores e t other) =
    let (log, l) = Trace-HasLog h t in (log, step-Logged _ _ log _ e _ other l)
