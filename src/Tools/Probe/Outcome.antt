-- ===== src/Tools/Probe/Outcome.antt =====
-- What trustprobe concludes from the events that `WatchJob` sends (cmd/trustprobe/main.go,
-- internal/service.go).
use easyworker.Base.{
  ℕ, ◌+◌, ◌≤◌, ◌≡◌, ◌≢◌, ◌↔◌, ◌∙◌, refl, sym, ap, inl, inr, Bool, true, false, ◌&&◌, some, List, [],
  ◌∷◌, ◌++◌, map, arith, if◌then◌else◌, Bytes, bytes_eq, bytes_eq_iff, ℤ, pos, negsuc, reverse, All,
  All-append, All-reverse, Bool-cases,
}
use mathlib.Core.List.{append_assoc, append-nil, reverse-reverse}
use easyworker.Auth.Space.{trim_space}
use easyworker.Service.Watch.{
  Event, output, finished, Ending, completed, send_failed, context_error, rejected, watch_job,
}
use easyworker.Service.Watch.Delivery.{Watched, watch_job-Watched}
use easyworker.Jobs.Job.{Job, subscribe, result}
use easyworker.Jobs.Manager.{Manager, find_job}
use easyworker.Tools.Probe.{
  Probe, Ran, run, receive_all, split, last_line, drop_newlines, Verdict, errored, skipped, passed,
  failed, judge, command_of, Tally, count, is_wanted, run_probes, wanted, probe_main,
}

abbrev pub concat : List Bytes → Bytes
concat [] = []
concat (l ∷ lines) = l ++ concat lines

receive_all_outputs :
    (out : Bytes) (code : ℤ) (lines : List Bytes) (c : ℕ) (so se : Bytes)
    → receive_all out code (map output lines ++ finished c so se ∷ [])
      ≡ (out ++ concat lines, pos c)
unfolding receive_all
receive_all_outputs out code [] c so se = ap (λ o. (o, pos c)) (sym (append-nil out))
receive_all_outputs out code (l ∷ lines) c so se =
    receive_all_outputs (out ++ l) code lines c so se
    ∙ ap (λ o. (o, pos c)) (append_assoc out l (concat lines))

run-Watched :
    (w : List Event × Ending) (lines : List Bytes) (c : ℕ) (so se : Bytes)
    → Watched w lines (finished c so se)
    → w.1 ≡ completed
    → run (some w) ≡ record { out = concat lines; code = pos c; failed = false }
unfolding run
run-Watched (events, completed) lines c so se w e =
    rw (w, run, receive_all_outputs [] (negsuc 0) lines c so se) refl
run-Watched (events, send_failed) lines c so se w e = cc
run-Watched (events, context_error) lines c so se w e = cc
run-Watched (events, rejected x) lines c so se w e = cc

-- From a completed watch of a job in the worker's memory, a probe's run has no error, the exit code of
-- that job after the close of its channel, and as its output the replay and the lines that followed,
-- one after the other with nothing between them.
pub run-watch_job :
    (sends gone : ℕ → Bool) (read_ok row_ok : Bool) (id : Bytes) (m : Manager) (lines : List Bytes)
    (j after : Job)
    → bytes_eq id [] ≡ false
    → find_job id m.jobs ≡ some j
    → (watch_job sends gone read_ok row_ok id m lines after).1 ≡ completed
    → run (some (watch_job sends gone read_ok row_ok id m lines after)) ≡ record {
      out = concat ((subscribe j).1 ++ lines);
      code = pos after.exit_code;
      failed = false;
    }
unfolding result
run-watch_job sends gone read_ok row_ok id m lines j after named found done =
    let seen = watch_job-Watched sends gone read_ok row_ok id m lines j after named found in
    run-Watched (watch_job sends gone read_ok row_ok id m lines after) ((subscribe j).1 ++ lines)
      after.exit_code (result after).stdout (result after).stderr seen done

abbrev pub IsLine : Bytes → Type 0
IsLine = All λ b. b ≢ b'\n'

concat-IsLine : (lines : List Bytes) → All IsLine lines → IsLine (concat lines)
concat-IsLine [] h = tt
concat-IsLine (l ∷ lines) h = All-append _ l (concat lines) h.0 (concat-IsLine lines h.1)

split_line : (s : Bytes) → IsLine s → split b'\n' s ≡ s ∷ []
unfolding split
split_line [] h = refl
split_line (b ∷ s) h = rw (split_line s h.1) (ground (arith, h.0))

drop_newlines_line : (s : Bytes) → IsLine s → drop_newlines s ≡ s
unfolding drop_newlines
drop_newlines_line [] h = refl
drop_newlines_line (b ∷ s) h = ground (arith, h.0)

reverse-IsLine : (s : Bytes) → IsLine s → IsLine (reverse s)
reverse-IsLine s h = All-reverse _ s h

-- The last line that a probe shows of a job whose lines have no newline in them is the whole output of
-- the job, run together and trimmed.
pub last_line_whole :
    (lines : List Bytes) → All IsLine lines → last_line (concat lines) ≡ trim_space (concat lines)
unfolding last_line
last_line_whole lines h =
    let whole = concat lines in
    let plain = concat-IsLine lines h in
    let kept = drop_newlines_line (reverse whole) (reverse-IsLine whole plain) in
    rw (kept, last_line, reverse-reverse whole, split_line whole plain) refl

abbrev pub is_failure : Verdict → Bool
is_failure errored = true
is_failure failed = true
is_failure _ = false

abbrev pub fails : (Bytes → Ran) → List Bytes → Probe → Bool
fails answer want p = is_wanted want p && is_failure (judge (answer (command_of p)))

counted : (Bytes → Ran) → List Bytes → Probe → Tally → Tally
unfolding count
counted answer want p t = if is_wanted want p then count (judge (answer (command_of p))) t else t

count-fail : (v : Verdict) (t : Tally) → (count v t).fail ≡ t.fail + (if is_failure v then 1 else 0)
unfolding count
count-fail errored t = refl
count-fail skipped t = omega arith
count-fail passed t = omega arith
count-fail failed t = refl

counted-fail :
    (answer : Bytes → Ran) (want : List Bytes) (p : Probe) (t : Tally)
    → (counted answer want p t).fail ≡ t.fail + (if fails answer want p then 1 else 0)
unfolding counted
counted-fail answer want p t = elim (Bool-cases (is_wanted want p)) [
  | inl run_it ↦ rw (run_it) (count-fail (judge (answer (command_of p))) t)
  | inr not_it ↦ rw (not_it) (omega arith)
]

run_probes-fail :
    (answer : Bytes → Ran) (want : List Bytes) (probes : List Probe) (t : Tally)
    → t.fail ≤ (run_probes answer want probes t).fail
unfolding run_probes counted
run_probes-fail answer want [] t = omega arith
run_probes-fail answer want (p ∷ probes) t = omega (
  arith,
  run_probes-fail answer want probes (counted answer want p t),
  counted-fail answer want p t,
)

run_probes_clean :
    (answer : Bytes → Ran) (want : List Bytes) (probes : List Probe) (t : Tally)
    → ((run_probes answer want probes t).fail ≡ t.fail)
      ↔ All (λ p. fails answer want p ≡ false) probes
unfolding run_probes counted
run_probes_clean answer want [] t = (λ _. tt, λ _. refl)
run_probes_clean answer want (p ∷ probes) t =
    let next = counted answer want p t in
    let step = counted-fail answer want p t in
    let up = run_probes-fail answer want probes next in
    let rest = run_probes_clean answer want probes next in
    elim (Bool-cases (fails answer want p)) [
      | inl bad ↦
          (λ e. absurd (ground (arith, bad, step, up, e)), λ h. absurd (ground (arith, bad, h.0)))
      | inr good ↦
          let same : next.fail ≡ t.fail = ground (arith, good, step) in
          (λ e. (good, rest.0 (e ∙ sym same)), λ h. rest.1 h.1 ∙ same)
    ]

-- The tool ends with exit code 0 exactly when it has an address and no probe that it was to run ends in
-- an error or with an exit code other than 0 and 127.
pub probe_main-zero :
    (addr only : Bytes) (answer : Bytes → Ran) (probes : List Probe)
    → (probe_main addr only answer probes ≡ 0)
      ↔ ((addr ≢ []) × All (λ p. fails answer (wanted only) p ≡ false) probes)
unfolding probe_main
probe_main-zero addr only answer probes = ground (
  arith,
  bytes_eq_iff addr [],
  run_probes_clean answer (wanted only) probes (record { pass = 0; fail = 0 }),
)
