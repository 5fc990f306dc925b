-- ===== src/Jobs/Job/Steps.antt =====
-- The steps of a job's goroutine, its process and its watchers (internal/jobsvc/manager.go), and what they
-- keep of a watcher's channel.
use easyworker.Base.{
  ℕ, zero, suc, ◌≡◌, ◌∙◌, refl, inl, inr, Bool, true, false, Option, none, some, List, [], ◌∷◌,
  ◌++◌, map, arith, Bytes, bytes_eq, length, Bool-cases,
}
use easyworker.Shell.LineBuffer.{LineRec, write, flush_line}
use easyworker.Jobs.Row.{StoreLine}
use easyworker.Jobs.Store.{Store}
use easyworker.Jobs.Job.{
  Job, Channel, active, finalized, subs_finished, RunResult, offer, publish_line, on_lines,
  set_stdout, set_stderr, write_stdout, write_stderr, call_back, report_text, finalize,
  flush_stdout, flush_stderr, report, finish_subs, finish_channel, close_done, subscribe,
  receive_at, kill,
}

-- One step of the job's goroutine, of its process or of a watcher.
pub data Step : Job → Job → Type 0 where
  -- the process writes; a callback runs, at any time after the write of its line
  outputs : (j : Job) (p : Bytes) → j.stage ≡ active → Step j (write_stdout p j)
  complains : (j : Job) (p : Bytes) → j.stage ≡ active → Step j (write_stderr p j)
  calls_back :
      (j : Job) (s : Store) (l : StoreLine) (before after : List StoreLine)
      → j.calling ≡ before ++ (l ∷ after)
      → Step j (call_back l (before ++ after) j s).0
  -- the goroutine goes on
  finalizes :
      (j : Job) (s : Store) (r : RunResult) (now : ℕ)
      → j.stage ≡ active
      → Step j (finalize r now j s).0
  finishes_subs : (j : Job) → j.stage ≡ finalized → Step j (finish_subs j)
  closes_done : (j : Job) → j.stage ≡ subs_finished → Step j (close_done j)
  -- a handler
  subscribes : (j : Job) → Step j (subscribe j).0
  receives : (j : Job) (i : ℕ) → Step j (record j { channels = receive_at i j.channels })
  kills : (j : Job) → Step j (kill j)

pub data Reach (j : Job) : Job → Type 0 where
  here : Reach j j
  next : {k l : Job} → Reach j k → Step k l → Reach j l

-- Channel `i` exists, open or closed, listed in `subs` or not.
abbrev pub Has : ℕ → Bool → Bool → List Channel → Type 0
Has i closed listed [] = ⊥
Has zero closed listed (c ∷ cs) = (c.closed ≡ closed) × (c.listed ≡ listed)
Has (suc i) closed listed (c ∷ cs) = Has i closed listed cs

Has-map :
    (f : Channel → Channel) (i : ℕ) (b l : Bool) (cs : List Channel)
    → ((c : Channel) → ((f c).closed ≡ c.closed) × ((f c).listed ≡ c.listed))
    → Has i b l cs
    → Has i b l (map f cs)
Has-map f i b l [] keeps h = h
Has-map f zero b l (c ∷ cs) keeps h = ((keeps c).0 ∙ h.0, (keeps c).1 ∙ h.1)
Has-map f (suc i) b l (c ∷ cs) keeps h = Has-map f i b l cs keeps h

pub Has-append : (i : ℕ) (b l : Bool) (cs ds : List Channel) → Has i b l cs → Has i b l (cs ++ ds)
Has-append i b l [] ds h = absurd h
Has-append zero b l (c ∷ cs) ds h = h
Has-append (suc i) b l (c ∷ cs) ds h = Has-append i b l cs ds h

pub Has-new : (cs : List Channel) (c : Channel) → Has (length cs) c.closed c.listed (cs ++ c ∷ [])
Has-new [] c = (refl, refl)
Has-new (d ∷ cs) c = Has-new cs c

pub Has-receive_at :
    (k i : ℕ) (b l : Bool) (cs : List Channel) → Has i b l cs → Has i b l (receive_at k cs)
unfolding receive_at
Has-receive_at k i b l [] h = h
Has-receive_at zero zero b l (c ∷ cs) h = ground arith
Has-receive_at zero (suc i) b l (c ∷ cs) h = h
Has-receive_at (suc k) zero b l (c ∷ cs) h = h
Has-receive_at (suc k) (suc i) b l (c ∷ cs) h = Has-receive_at k i b l cs h

pub Has-finish :
    (i : ℕ) (cs : List Channel) → Has i false true cs → Has i true false (map finish_channel cs)
Has-finish i [] h = h
Has-finish zero (c ∷ cs) h = ground arith
Has-finish (suc i) (c ∷ cs) h = Has-finish i cs h

Has-publish :
    (i : ℕ) (b l : Bool) (x : Bytes) (j : Job)
    → Has i b l j.channels
    → Has i b l (publish_line x j).channels
unfolding publish_line
Has-publish i b l x j h = elim (Bool-cases (bytes_eq x [])) [
  | inl blank ↦ rw (blank, publish_line) h
  | inr text ↦ rw (text, publish_line) (Has-map (offer x) i b l j.channels (λ c. ground arith) h)
]

-- What the callbacks of a stream keep of a job.
pub record Same (i : ℕ) (b l : Bool) (j k : Job) : Type 0 where
  pub stage : k.stage ≡ j.stage
  pub keeps : Has i b l j.channels → Has i b l k.channels

stage-publish : (x : Bytes) (j : Job) → (publish_line x j).stage ≡ j.stage
unfolding publish_line
stage-publish x j = ground arith

on_lines-Same :
    (i : ℕ) (b l : Bool) (stream : ℕ) (recs : List LineRec) (j : Job) (s : Store)
    → Same i b l j (on_lines stream recs j s).0
unfolding on_lines
on_lines-Same i b l stream [] j s = record { stage = refl; keeps = λ h. h }
on_lines-Same i b l stream (r ∷ recs) j s =
    let rest = on_lines-Same i b l stream recs (publish_line r.line j) _ in
    record {
      stage = rest.stage ∙ stage-publish r.line j;
      keeps = λ h. rest.keeps (Has-publish i b l r.line j h);
    }

pub write_stdout-Same : (i : ℕ) (b l : Bool) (p : Bytes) (j : Job) → Same i b l j (write_stdout p j)
unfolding write_stdout
write_stdout-Same i b l p j = record { stage = refl; keeps = λ h. h }

pub write_stderr-Same : (i : ℕ) (b l : Bool) (p : Bytes) (j : Job) → Same i b l j (write_stderr p j)
unfolding write_stderr
write_stderr-Same i b l p j = record { stage = refl; keeps = λ h. h }

pub call_back-Same :
    (i : ℕ) (b l : Bool) (r : StoreLine) (rest : List StoreLine) (j : Job) (s : Store)
    → Same i b l j (call_back r rest j s).0
unfolding call_back
call_back-Same i b l r rest j s = record {
  stage = stage-publish r.line j;
  keeps = λ h. Has-publish i b l r.line j h;
}

flush_stdout-Same : (i : ℕ) (b l : Bool) (j : Job) (s : Store) → Same i b l j (flush_stdout j s).0
unfolding flush_stdout
flush_stdout-Same i b l j s =
    let w =
      on_lines-Same i b l 0 (flush_line j.seq j.stdout).completed
        (set_stdout (flush_line j.seq j.stdout) j) s in
    record { stage = w.stage; keeps = w.keeps }

flush_stderr-Same : (i : ℕ) (b l : Bool) (j : Job) (s : Store) → Same i b l j (flush_stderr j s).0
unfolding flush_stderr
flush_stderr-Same i b l j s =
    let w =
      on_lines-Same i b l 1 (flush_line j.seq j.stderr).completed
        (set_stderr (flush_line j.seq j.stderr) j) s in
    record { stage = w.stage; keeps = w.keeps }

report-Same :
    (i : ℕ) (b l : Bool) (e : Option Bytes) (j : Job) (s : Store) → Same i b l j (report e j s).0
unfolding report
report-Same i b l none j s = record { stage = refl; keeps = λ h. h }
report-Same i b l (some e) j s =
    let w = write (report_text (some e)) j.seq j.stderr in
    let k = on_lines-Same i b l 1 w.completed (set_stderr w j) s in
    record { stage = k.stage; keeps = k.keeps }

pub finalize-Has :
    (i : ℕ) (b l : Bool) (r : RunResult) (now : ℕ) (j : Job) (s : Store)
    → ((finalize r now j s).0.stage ≡ finalized)
      × (Has i b l j.channels → Has i b l (finalize r now j s).0.channels)
unfolding finalize
finalize-Has i b l r now j s =
    let (j1, s1) = flush_stdout j s in
    let (j2, s2) = flush_stderr j1 s1 in
    (
      refl,
      λ h.
          (report-Same i b l r.error j2 s2).keeps
            ((flush_stderr-Same i b l j1 s1).keeps ((flush_stdout-Same i b l j s).keeps h)),
    )
