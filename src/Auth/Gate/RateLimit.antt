-- ===== src/Auth/Gate/RateLimit.antt =====
-- The budget of failed claims (`allowAttemptLocked` of internal/auth/auth.go) over a history.
use easyworker.Base.{
  ℕ, zero, suc, ◌+◌, ◌*◌, ◌≤◌, ◌<◌, ◌≡◌, refl, ◌∙◌, ◌⊎◌, inl, inr, List, [], ◌∷◌, arith, Bytes, All,
}
use easyworker.Auth.Hex.{Entropy, Fills}
use easyworker.Auth.Gate.{Gate, Result, err, bad_code, allow_attempt, claim}
use easyworker.Auth.Gate.Invariant.{IsValid, claim-IsValid}
use easyworker.Auth.Store.{StateStore}

pub record Attempt : Type 0 where
  pub code : Bytes
  pub owner : Bytes
  pub now : ℕ
  pub at : ℕ
  pub entropy : Entropy

-- 1 for an attempt that was refused for its code.
abbrev pub cost : Result Bytes → ℕ
cost (err bad_code) = 1
cost _ = 0

-- Clock readings that do not go back, from `t` to `end`.
abbrev pub Timed : ℕ → List Attempt → ℕ → Type 0
Timed t [] end = t ≤ end
Timed t (a ∷ rest) end = (t ≤ a.now) × Timed a.now rest end

Timed-le : (t : ℕ) (rest : List Attempt) (end : ℕ) → Timed t rest end → t ≤ end
Timed-le t [] end h = h
Timed-le t (a ∷ rest) end h = omega (arith, Timed-le a.now rest end h.1)

Timed-mono : (s t : ℕ) (rest : List Attempt) (end : ℕ) → s ≤ t → Timed t rest end → Timed s rest end
Timed-mono s t [] end le h = omega arith
Timed-mono s t (a ∷ rest) end le h = (omega (arith, h.0), h.1)

-- A new window leaves one window fewer.
windows_left :
    (k now end w l : ℕ)
    → now ≤ end
    → w + l < now
    → end < w + suc k * (l + 1)
    → (j : ℕ) × (k ≡ suc j) × (end < now + suc j * (l + 1))
windows_left zero now end w l h p b = absurd (omega arith)
windows_left (suc j) now end w l h p b = (j, refl, omega arith)

module _ {S : Type 0} (st : StateStore S) where
  abbrev attempt : Gate S → Attempt → Gate S × Result Bytes
  attempt g a = claim st g a.code a.owner a.now a.at a.entropy

  -- How many of the attempts get to test a wrong code.
  pub wrong_codes : Gate S → List Attempt → ℕ
  wrong_codes g [] = 0
  wrong_codes g (a ∷ rest) = let (g', r) = attempt g a in cost r + wrong_codes g' rest

  -- An attempt stays in its window, or opens a new one more than a lockout later.
  attempt_window :
      (g : Gate S) (a : Attempt)
      → IsValid g
      → g.failure_window ≤ a.now
      → let (g', r) = attempt g a in
        ((g.failure_window ≤ g'.failure_window)
          × (g'.failure_window ≤ a.now)
          × (g'.failures ≡ g.failures + cost r)
          × (g'.failures ≤ g.max_failures))
        ⊎ ((g.failure_window + g.failure_lockout < a.now)
            × (g'.failure_window ≡ a.now)
            × (g'.failures ≡ cost r))
  unfolding claim allow_attempt
  attempt_window g a v h = ground arith

  attempt_limits :
      (g : Gate S) (a : Attempt)
      → let g' = (attempt g a).0 in
        (g'.max_failures ≡ g.max_failures) × (g'.failure_lockout ≡ g.failure_lockout)
  unfolding claim allow_attempt
  attempt_limits g a = ground arith

  abbrev after : Gate S → Attempt → Gate S
  after g a = (attempt g a).0

  after-IsValid : (g : Gate S) (a : Attempt) → Fills a.entropy → IsValid g → IsValid (after g a)
  after-IsValid g a f v = claim-IsValid st g a.code a.owner a.now a.at a.entropy f v

  -- The attempts are paid for out of the windows that are left, one lockout and a tick each.
  windows_bound :
      (limit lockout : ℕ) (g : Gate S) (rest : List Attempt) (end k : ℕ)
      → g.max_failures ≡ limit
      → g.failure_lockout ≡ lockout
      → All (λ a. Fills a.entropy) rest
      → IsValid g
      → Timed g.failure_window rest end
      → end < g.failure_window + suc k * (lockout + 1)
      → wrong_codes g rest + g.failures ≤ suc k * limit
  unfolding wrong_codes
  windows_bound m l g [] end k em el f v h b = grind (arith, v.within_budget)
  windows_bound m l g (a ∷ rest) end k em el f v h b = elim (attempt_window g a v h.0) [
    | inl (later, past, paid, fits) ↦
        let ih =
          windows_bound m l (after g a) rest end k ((attempt_limits g a).0 ∙ em)
            ((attempt_limits g a).1 ∙ el) f.1 (after-IsValid g a f.0 v)
            (Timed-mono (after g a).failure_window a.now rest end past h.1) (omega arith) in
        omega (arith, ih)
    | inr (expired, moved, paid) ↦
        let (j, e, b') =
          windows_left k a.now end g.failure_window l (Timed-le a.now rest end h.1)
            (omega (arith, el)) b in
        let ih =
          windows_bound m l (after g a) rest end j ((attempt_limits g a).0 ∙ em)
            ((attempt_limits g a).1 ∙ el) f.1 (after-IsValid g a f.0 v)
            (Timed-mono (after g a).failure_window a.now rest end (omega arith) h.1)
            (omega (arith, b', moved)) in
        rw e (omega (arith, ih, v.within_budget, em))
  ]

  -- Whatever codes are tried, and however the attempts are spaced, the gate tests at most
  -- `max_failures` wrong ones for each lockout that the attempts span, begun lockouts included.
  -- Clock readings do not go back, reads of the random source fill their buffers, and `k` lockouts,
  -- a nanosecond more each, cover the time from the first window on.
  pub wrong_codes-le :
      (g : Gate S) (rest : List Attempt) (end k : ℕ)
      → All (λ a. Fills a.entropy) rest
      → IsValid g
      → Timed g.failure_window rest end
      → end < g.failure_window + suc k * (g.failure_lockout + 1)
      → wrong_codes g rest + g.failures ≤ suc k * g.max_failures
  wrong_codes-le g rest end k f v h b =
      windows_bound g.max_failures g.failure_lockout g rest end k refl refl f v h b
