-- ===== src/Jobs/Job/Outcome.antt =====
-- The end of a run (`Execute`'s goroutine in internal/jobsvc/manager.go): the state of the job and its
-- buffers.
use easyworker.Base.{
  ℕ, ◌≡◌, ◌∙◌, refl, sym, ap, ◌↔◌, Bool, true, false, Option, none, some, List, [], ◌∷◌, ◌++◌,
  arith, ◌==◌, Bytes, bytes, bytes_eq, bytes_eq_iff, Bool-cases, inl, inr,
}
use mathlib.Core.List.{append_assoc}
use easyworker.Shell.LineBuffer.{LineRec, LineBuffer, write, write_byte, flush_line, push_rec}
use easyworker.Shell.LineBuffer.Lines.{write-append}
use easyworker.Jobs.Row.{finished, killed}
use easyworker.Jobs.Store.{Store}
use easyworker.Jobs.Job.{
  Job, RunResult, final_state, on_lines, publish_line, flush_stdout, flush_stderr, report, settle,
  finalize, set_stdout, set_stderr,
}

-- What the callbacks of a stream leave alone.
record Kept (j k : Job) : Type 0 where
  stdout : k.stdout ≡ j.stdout
  stderr : k.stderr ≡ j.stderr
  canceled : k.canceled ≡ j.canceled

publish_line-Kept : (x : Bytes) (j : Job) → Kept j (publish_line x j)
unfolding publish_line
publish_line-Kept x j = record {
  stdout = ground arith;
  stderr = ground arith;
  canceled = ground arith;
}

on_lines-Kept :
    (stream : ℕ) (recs : List LineRec) (j : Job) (s : Store) → Kept j (on_lines stream recs j s).0
unfolding on_lines
on_lines-Kept stream [] j s = record { stdout = refl; stderr = refl; canceled = refl }
on_lines-Kept stream (r ∷ recs) j s =
    let one = publish_line-Kept r.line j in
    let rest = on_lines-Kept stream recs (publish_line r.line j) _ in
    record {
      stdout = rest.stdout ∙ one.stdout;
      stderr = rest.stderr ∙ one.stderr;
      canceled = rest.canceled ∙ one.canceled;
    }

push_rec-cur : (r : LineRec) (lb : LineBuffer) → (push_rec r lb).cur ≡ []
unfolding push_rec
push_rec-cur r lb = ground arith

flush_line-cur : (seq : ℕ) (lb : LineBuffer) → (flush_line seq lb).buffer.cur ≡ []
unfolding flush_line
flush_line-cur seq lb = elim (Bool-cases (bytes_eq lb.cur [])) [
  | inl blank ↦ rw (blank, flush_line) ((bytes_eq_iff lb.cur []).0 blank)
  | inr text ↦ rw (text, flush_line) (push_rec-cur _ lb)
]

newline-cur : (seq : ℕ) (lb : LineBuffer) → (write (b'\n' ∷ []) seq lb).buffer.cur ≡ []
unfolding write write_byte
newline-cur seq lb = push_rec-cur _ lb

-- A write that ends in a line feed leaves nothing pending.
write-newline-cur :
    (p : Bytes) (seq : ℕ) (lb : LineBuffer) → (write (p ++ b'\n' ∷ []) seq lb).buffer.cur ≡ []
write-newline-cur p seq lb =
    let first = write p seq lb in
    ap (λ b. b.cur) (write-append p (b'\n' ∷ []) seq lb).1 ∙ newline-cur first.seq first.buffer

report_ends :
    (e : Option Bytes) (j : Job) (s : Store)
    → j.stdout.cur ≡ []
    → j.stderr.cur ≡ []
    → let k = (report e j s).0 in
      (k.stdout.cur ≡ []) × (k.stderr.cur ≡ []) × (k.canceled ≡ j.canceled)
unfolding report
report_ends none j s o e = (o, e, refl)
report_ends (some x) j s o e =
    let text = bytes "builtin shell error: " ++ (x ++ b'\n' ∷ []) in
    let w = write text j.seq j.stderr in
    let k = on_lines-Kept 1 w.completed (set_stderr w j) s in
    (
      ap (λ b. b.cur) k.stdout ∙ o,
      ap (λ b. b.cur) k.stderr
          ∙ (ap (λ t. (write t j.seq j.stderr).buffer.cur)
                (sym (append_assoc (bytes "builtin shell error: ") x (b'\n' ∷ [])))
              ∙ write-newline-cur (bytes "builtin shell error: " ++ x) j.seq j.stderr),
      k.canceled,
    )

flush_ends :
    (j : Job) (s : Store)
    → let (j1, s1) = flush_stdout j s in
      let k = (flush_stderr j1 s1).0 in
      (k.stdout.cur ≡ []) × (k.stderr.cur ≡ []) × (k.canceled ≡ j.canceled)
unfolding flush_stdout flush_stderr
flush_ends j s =
    let w = flush_line j.seq j.stdout in
    let k = on_lines-Kept 0 w.completed (set_stdout w j) s in
    let (j1, s1) = on_lines 0 w.completed (set_stdout w j) s in
    let v = flush_line j1.seq j1.stderr in
    let m = on_lines-Kept 1 v.completed (set_stderr v j1) s1 in
    (
      ap (λ b. b.cur) (m.stdout ∙ k.stdout) ∙ flush_line-cur j.seq j.stdout,
      ap (λ b. b.cur) m.stderr ∙ flush_line-cur j1.seq j1.stderr,
      m.canceled ∙ k.canceled,
    )

final_state-table :
    (e : Option Bytes) (c canceled : Bool) (code : ℕ)
    → c ≡ canceled
    → let f = final_state e c code in
      ((f.0 ≡ finished) ↔ ((e ≡ none) × (canceled ≡ false) × (code ≡ 0)))
      × ((f.0 ≡ killed) ↔ ((e ≡ none) × (canceled ≡ true)))
      × (f.1 ≡ code)
final_state-table (some x) c d code q = ground arith
final_state-table none true d code q = ground arith
final_state-table none false d code q = elim (Bool-cases (code == 0)) [
  | inl z ↦ ground arith
  | inr n ↦ ground arith
]

-- Where the end of a run leaves the job. Both streams have no unfinished line, also when an error was
-- reported on stderr. The state is `finished` exactly for a run without an error, not canceled and with
-- exit code 0, and `killed` exactly for a canceled run without an error. The exit code is that of the
-- run.
pub finalize_outcome :
    (r : RunResult) (now : ℕ) (j : Job) (s : Store)
    → let k = (finalize r now j s).0 in
      (k.stdout.cur ≡ [])
      × (k.stderr.cur ≡ [])
      × ((k.state ≡ finished) ↔ ((r.error ≡ none) × (j.canceled ≡ false) × (r.exit_code ≡ 0)))
      × ((k.state ≡ killed) ↔ ((r.error ≡ none) × (j.canceled ≡ true)))
      × (k.exit_code ≡ r.exit_code)
unfolding finalize settle
finalize_outcome r now j s =
    let (j1, s1) = flush_stdout j s in
    let (j2, s2) = flush_stderr j1 s1 in
    let flushed = flush_ends j s in
    let ends = report_ends r.error j2 s2 flushed.0 flushed.1 in
    let same = ends.2 ∙ flushed.2 in
    let table = final_state-table r.error _ j.canceled r.exit_code same in
    (ends.0, ends.1, table.0, table.1, table.2)

-- The state and the exit code at the end of a run.
pub finalize-final_state :
    (r : RunResult) (now : ℕ) (j : Job) (s : Store)
    → let k = (finalize r now j s).0 in
      (k.state ≡ (final_state r.error j.canceled r.exit_code).0)
      × (k.exit_code ≡ (final_state r.error j.canceled r.exit_code).1)
unfolding finalize settle
finalize-final_state r now j s =
    let (j1, s1) = flush_stdout j s in
    let (j2, s2) = flush_stderr j1 s1 in
    let flushed = flush_ends j s in
    let same = (report_ends r.error j2 s2 flushed.0 flushed.1).2 ∙ flushed.2 in
    (
      ap (λ c. (final_state r.error c r.exit_code).0) same,
      ap (λ c. (final_state r.error c r.exit_code).1) same,
    )
