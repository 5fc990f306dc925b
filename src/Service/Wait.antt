-- ===== src/Service/Wait.antt =====
-- `JobWait` of internal/service.go for a job in memory: the poll loop, over what it sees. `seen` is
-- the job at each check of `done`, and `gone` says whether the select behind it ends with the request.
use easyworker.Base.{
  ℕ, zero, suc, ◌+◌, ◌/◌, ◌≤◌, ◌<◌, ◌≡◌, ◌∙◌, sym, ap, Bool, true, false, ◌||◌, arith, inl, inr,
  ltb, if◌then◌else◌, ℤ, pos, ltb_ℤ, is_nonpos, pos_part, Bool-cases,
}
use easyworker.Jobs.Row.{JobState}
use easyworker.Jobs.Job.{Job, is_ended}

pub data Waited : Type 0 where
  answered : JobState → ℕ → Waited
  canceled : Waited

-- jobWaitMax, in milliseconds
abbrev pub job_wait_max : ℤ
job_wait_max = pos 60000

-- `iters`
unfoldable pub rounds : ℤ → ℕ
rounds timeout =
    let t = if is_nonpos timeout || ltb_ℤ job_wait_max timeout then job_wait_max else timeout in
    let iters = pos_part t / 25 in if ltb iters 1 then 1 else iters

-- The loop at its i-th round, `left` rounds before the last.
poll : (ℕ → Job) → (ℕ → Bool) → ℕ → ℕ → Waited
poll seen gone zero i = answered (seen i).state (seen i).exit_code
poll seen gone (suc left) i =
    let rest = poll seen gone left (i + 1) in
    if is_ended (seen i).stage
    then answered (seen i).state (seen i).exit_code
    else if gone i
    then canceled
    else rest

unfoldable pub job_wait : ℤ → (ℕ → Job) → (ℕ → Bool) → Waited
unfolding poll rounds
job_wait timeout seen gone = poll seen gone (rounds timeout) 0

module _ (seen : ℕ → Job) (gone : ℕ → Bool) where
  abbrev pub StaysEnded : Type 0
  StaysEnded = (i : ℕ) → is_ended (seen i).stage ≡ true → seen (i + 1) ≡ seen i

  stays : (n i k : ℕ) → StaysEnded → k ≡ i + n → is_ended (seen i).stage ≡ true → seen k ≡ seen i
  stays zero i k st e h = ap seen (omega (arith, e))
  stays (suc n) i k st e h =
      stays n (i + 1) k st (omega (arith, e)) (ap (λ j. is_ended j.stage) (st i h) ∙ h) ∙ st i h

  poll_ended :
      (left n i k : ℕ)
      → StaysEnded
      → k ≡ i + n
      → n ≤ left
      → ((m : ℕ) → m < k → gone m ≡ false)
      → is_ended (seen k).stage ≡ true
      → poll seen gone left i ≡ answered (seen k).state (seen k).exit_code
  unfolding poll
  poll_ended zero n i k st e le quiet over =
      ap (λ m. answered (seen m).state (seen m).exit_code) (omega (arith, e, le))
  poll_ended (suc left) zero i k st e le quiet over =
      let same : i ≡ k = omega (arith, e) in
      rw (ap (λ m. is_ended (seen m).stage) same ∙ over, poll)
        (ap (λ m. answered (seen m).state (seen m).exit_code) same)
  poll_ended (suc left) (suc n) i k st e le quiet over =
      elim (Bool-cases (is_ended (seen i).stage)) [
        | inl now ↦
            rw (now, poll)
              (ap (λ j. answered j.state j.exit_code) (sym (stays (suc n) i k st e now)))
        | inr later ↦
            rw (later, quiet i (omega (arith, e)), poll)
              (poll_ended left n (i + 1) k st (omega (arith, e)) (omega arith) quiet over)
      ]

-- A wait answers the final state and exit code of a job that is over at some check of the wait, if the
-- request is not canceled before that check and a job that is over stays as it is.
pub job_wait_lem :
    (timeout : ℤ) (seen : ℕ → Job) (gone : ℕ → Bool) (k : ℕ)
    → StaysEnded seen gone
    → k ≤ rounds timeout
    → ((m : ℕ) → m < k → gone m ≡ false)
    → is_ended (seen k).stage ≡ true
    → job_wait timeout seen gone ≡ answered (seen k).state (seen k).exit_code
unfolding job_wait
job_wait_lem timeout seen gone k st le quiet over =
    poll_ended seen gone (rounds timeout) k 0 k st (omega arith) le quiet over
