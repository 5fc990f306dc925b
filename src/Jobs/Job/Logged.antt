-- ===== src/Jobs/Job/Logged.antt =====
-- A job and its log, the append-only list of the lines that its process completed: what the buffers,
-- the channel of the writer and the table hold of it (`Execute`'s callbacks in
-- internal/jobsvc/manager.go).
use easyworker.Base.{
  ℕ, ◌≡◌, ◌∙◌, refl, sym, ap, subst, true, false, ◌==◌, List, [], ◌∷◌, ◌++◌, arith, Bytes,
  bytes_eq_iff, pos, inl, inr,
}
use mathlib.Core.List.{append_assoc, append-nil}
use easyworker.Shell.LineBuffer.{LineRec, LineBuffer, write}
use easyworker.Shell.LineBuffer.Lines.{
  unlines, strip_cr, IsLine, write_spells, write_numbers, unlines-append,
}
use easyworker.Shell.LineBuffer.Ring.{Window, write-Window}
use easyworker.Jobs.Row.{StoreLine, matching}
use easyworker.Jobs.Store.{Store, try_enqueue_line}
use easyworker.Jobs.Manager.Merge.{matching-append}
use easyworker.Jobs.Job.Entered.{Entered, entries-Entered, call_back-Entered}
use easyworker.Jobs.Job.{Job, entries, publish_line, write_stdout, write_stderr, call_back}

-- A buffer at the end of a text: its ring, the lines of the text and what is pending.
pub record Spelled (lb : LineBuffer) (text : Bytes) (recs : List LineRec) : Type 0 where
  pub window : Window lb recs
  pub spelled : unlines recs ++ lb.cur ≡ strip_cr text
  pub clean : IsLine lb.cur

strip_cr-append : (p q : Bytes) → strip_cr (p ++ q) ≡ strip_cr p ++ strip_cr q
strip_cr-append [] q = refl
strip_cr-append (b ∷ p) q = ground (arith, strip_cr-append p q)

write-Spelled :
    (p : Bytes) (seq : ℕ) (lb : LineBuffer) (text : Bytes) (recs : List LineRec)
    → Spelled lb text recs
    → Spelled (write p seq lb).buffer (text ++ p) (recs ++ (write p seq lb).completed)
write-Spelled p seq lb text recs h =
    let w = write p seq lb in
    record {
      window = write-Window p seq lb recs h.window;
      spelled =
          ap (λ t. t ++ w.buffer.cur) (unlines-append recs w.completed)
          ∙ (append_assoc (unlines recs) (unlines w.completed) w.buffer.cur
              ∙ (ap (λ t. unlines recs ++ t) (write_spells p seq lb)
                  ∙ (sym (append_assoc (unlines recs) lb.cur (strip_cr p))
                      ∙ (ap (λ t. t ++ strip_cr p) h.spelled ∙ sym (strip_cr-append text p)))));
      clean = (write_numbers p seq lb h.clean).1;
    }

-- What leaves a job as it is, up to the channels of its watchers.
pub record Unchanged (j k : Job) : Type 0 where
  pub id : k.id ≡ j.id
  pub seq : k.seq ≡ j.seq
  pub calling : k.calling ≡ j.calling
  pub stdout : k.stdout ≡ j.stdout
  pub stderr : k.stderr ≡ j.stderr

matching-entries :
    (id : Bytes) (stream : ℕ) (recs : List LineRec)
    → matching id (pos stream) (entries id stream recs) ≡ recs
unfolding matching entries
matching-entries id stream [] = refl
matching-entries id stream (r ∷ recs) =
    let own = (bytes_eq_iff id id).1 refl in
    let hit : (stream == stream) ≡ true = ground arith in
    rw (own, hit) (ap (λ t. r ∷ t) (matching-entries id stream recs))

matching-entries_other :
    (id : Bytes) (stream k : ℕ) (recs : List LineRec)
    → (stream == k) ≡ false
    → matching id (pos k) (entries id stream recs) ≡ []
unfolding matching entries
matching-entries_other id stream k [] h = refl
matching-entries_other id stream k (r ∷ recs) h =
    let own = (bytes_eq_iff id id).1 refl in rw (own, h) (matching-entries_other id stream k recs h)

-- A job at the end of the texts `out` and `err` of its streams, with the log of their lines.
pub record Logged (out err : Bytes) (log : List StoreLine) (j : Job) (s : Store) : Type 0 where
  pub entered : Entered j.id log j.seq j.calling s
  pub stdout : Spelled j.stdout out (matching j.id (pos 0) log)
  pub stderr : Spelled j.stderr err (matching j.id (pos 1) log)

pub Logged-Unchanged :
    (out err : Bytes) (log : List StoreLine) (j k : Job) (s : Store)
    → Unchanged j k
    → Logged out err log j s
    → Logged out err log k s
Logged-Unchanged out err log j k s u h = record {
  entered =
      subst (λ i. Entered i log k.seq k.calling s) (sym u.id)
        (subst (λ n. Entered j.id log n k.calling s) (sym u.seq)
          (subst (λ c. Entered j.id log j.seq c s) (sym u.calling) h.entered));
  stdout =
      subst (λ i. Spelled k.stdout out (matching i (pos 0) log)) (sym u.id)
        (subst (λ b. Spelled b out (matching j.id (pos 0) log)) (sym u.stdout) h.stdout);
  stderr =
      subst (λ i. Spelled k.stderr err (matching i (pos 1) log)) (sym u.id)
        (subst (λ b. Spelled b err (matching j.id (pos 1) log)) (sym u.stderr) h.stderr);
}

-- The records of a write in its own stream, and none in the other.
own_stream :
    (id : Bytes) (stream : ℕ) (log : List StoreLine) (recs : List LineRec)
    → matching id (pos stream) (log ++ entries id stream recs)
      ≡ matching id (pos stream) log ++ recs
own_stream id stream log recs =
    matching-append id (pos stream) log (entries id stream recs)
    ∙ ap (λ t. matching id (pos stream) log ++ t) (matching-entries id stream recs)

other_stream :
    (id : Bytes) (stream k : ℕ) (log : List StoreLine) (recs : List LineRec)
    → (stream == k) ≡ false
    → matching id (pos k) (log ++ entries id stream recs) ≡ matching id (pos k) log
other_stream id stream k log recs h =
    matching-append id (pos k) log (entries id stream recs)
    ∙ (ap (λ t. matching id (pos k) log ++ t) (matching-entries_other id stream k recs h)
        ∙ append-nil (matching id (pos k) log))

-- The log goes on by what is written to stdout.
pub write_stdout-Logged :
    (p out err : Bytes) (log : List StoreLine) (j : Job) (s : Store)
    → Logged out err log j s
    → Logged
        (out ++ p)
        err
        (log ++ entries j.id 0 (write p j.seq j.stdout).completed)
        (write_stdout p j)
        s
unfolding write_stdout
write_stdout-Logged p out err log j s h =
    let w = write p j.seq j.stdout in
    let (_, _, numbered, counted) = write_numbers p j.seq j.stdout h.stdout.clean in
    let e =
      entries-Entered j.id 0 w.completed log j.seq j.calling s (inl refl) numbered h.entered in
    let new = entries j.id 0 w.completed in
    record {
      entered = subst (λ n. Entered j.id (log ++ new) n (j.calling ++ new) s) (sym counted) e;
      stdout =
          subst (Spelled w.buffer (out ++ p)) (sym (own_stream j.id 0 log w.completed))
            (write-Spelled p j.seq j.stdout out (matching j.id (pos 0) log) h.stdout);
      stderr =
          subst (Spelled j.stderr err) (sym (other_stream j.id 0 1 log w.completed refl)) h.stderr;
    }

-- And by what is written to stderr.
pub write_stderr-Logged :
    (p out err : Bytes) (log : List StoreLine) (j : Job) (s : Store)
    → Logged out err log j s
    → Logged out
        (err ++ p)
        (log ++ entries j.id 1 (write p j.seq j.stderr).completed)
        (write_stderr p j)
        s
unfolding write_stderr
write_stderr-Logged p out err log j s h =
    let w = write p j.seq j.stderr in
    let (_, _, numbered, counted) = write_numbers p j.seq j.stderr h.stderr.clean in
    let e =
      entries-Entered j.id 1 w.completed log j.seq j.calling s (inr refl) numbered h.entered in
    let new = entries j.id 1 w.completed in
    record {
      entered = subst (λ n. Entered j.id (log ++ new) n (j.calling ++ new) s) (sym counted) e;
      stdout =
          subst (Spelled j.stdout out) (sym (other_stream j.id 1 0 log w.completed refl)) h.stdout;
      stderr =
          subst (Spelled w.buffer (err ++ p)) (sym (own_stream j.id 1 log w.completed))
            (write-Spelled p j.seq j.stderr err (matching j.id (pos 1) log) h.stderr);
    }

-- A callback leaves the log as it is.
pub call_back-Logged :
    (l : StoreLine) (before after : List StoreLine) (out err : Bytes) (log : List StoreLine)
    (j : Job) (s : Store)
    → j.calling ≡ before ++ (l ∷ after)
    → Logged out err log j s
    → Logged out err log (call_back l (before ++ after) j s).0 (call_back l (before ++ after) j s).1
unfolding call_back publish_line
call_back-Logged l before after out err log j s e h =
    Logged-Unchanged out err log (record j { calling = before ++ after }) _ (try_enqueue_line l s)
      (record {
        id = ground arith;
        seq = ground arith;
        calling = refl;
        stdout = ground arith;
        stderr = ground arith;
      })
      (record {
        entered =
            call_back-Entered j.id l before after log j.seq s
              (subst (λ c. Entered j.id log j.seq c s) e h.entered);
        stdout = h.stdout;
        stderr = h.stderr;
      })
