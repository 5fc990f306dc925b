-- ===== src/Auth/Gate/History.antt =====
-- Histories of calls on a gate (internal/auth/auth.go), against the enrollment automaton that a
-- client can follow from the replies alone.
use easyworker.Base.{
  ℕ, ◌≡◌, ◌≢◌, ◌↔◌, ◌∙◌, ap, refl, Bool, true, false, some, List, [], ◌∷◌, arith, Bytes, bytes_eq,
  bytes_eq_iff, All, if◌then◌else◌,
}
use easyworker.Auth.Hex.{Entropy, Fills, random_hex, constant_equal, constant_equal_iff}
use easyworker.Auth.Gate.{
  Gate, Options, Error, Result, new, ok, err, authorized, allow_attempt, claim, release,
}
use easyworker.Auth.Store.{StateStore}
use easyworker.Auth.Gate.Invariant.{IsValid, claim-IsValid, release-IsValid, new-IsValid}

pub data Call : Type 0 where
  -- code, owner, the two clock readings, the random source
  claims : Bytes → Bytes → ℕ → ℕ → Entropy → Call
  -- bearer, owner, the random source
  releases : Bytes → Bytes → Entropy → Call

abbrev pub entropy_of : Call → Entropy
entropy_of (claims code owner now at e) = e
entropy_of (releases bearer owner e) = e

-- The enrollment automaton.
pub data Phase : Type 0 where
  open_access : Phase
  managed : Bytes → Phase
  unclaimed : Bytes → Phase
  owned : Bytes → Phase

-- What a client concludes from a call and its reply.
abbrev pub follow : Phase → Call → Result Bytes → Phase
follow p (claims code owner now at e) (ok tok) = owned tok
follow p (releases bearer owner e) (ok code) = unclaimed code
follow p c (err x) = p

abbrev pub accepts : Phase → Bytes → Bool
accepts open_access b = true
accepts (managed tok) b = bytes_eq tok b
accepts (owned tok) b = bytes_eq tok b
accepts (unclaimed code) b = false

module _ {S : Type 0} where
  abbrev pub phase : Gate S → Phase
  phase g =
      if g.disabled
      then open_access
      else if g.preauth
      then managed g.token
      else if g.claimed
      then owned g.token
      else unclaimed g.code

module _ {S : Type 0} (st : StateStore S) where
  unfoldable pub step : Gate S → Call → Gate S × Result Bytes
  step g (claims code owner now at e) = claim st g code owner now at e
  step g (releases bearer owner e) = release st g bearer owner e

  pub run : Gate S → List Call → Gate S
  run g [] = g
  run g (c ∷ cs) = run (step g c).0 cs

  -- The phase that the replies to a history show.
  pub shown : Phase → Gate S → List Call → Phase
  shown p g [] = p
  shown p g (c ∷ cs) = let (g', r) = step g c in shown (follow p c r) g' cs

  step-IsValid : (g : Gate S) (c : Call) → Fills (entropy_of c) → IsValid g → IsValid (step g c).0
  unfolding step
  step-IsValid g (claims code owner now at e) f v = claim-IsValid st g code owner now at e f v
  step-IsValid g (releases bearer owner e) f v = release-IsValid st g bearer owner e f v

  -- Every call moves the gate as its reply says.
  phase-step :
      (g : Gate S) (c : Call) → IsValid g → phase (step g c).0 ≡ follow (phase g) c (step g c).1
  unfolding step claim release allow_attempt
  phase-step g (claims code owner now at e) v = ground arith
  phase-step g (releases bearer owner e) v = ground arith

  pub authorized-accepts :
      (g : Gate S) (b : Bytes) → IsValid g → authorized st g b ≡ accepts (phase g) b
  unfolding authorized constant_equal
  authorized-accepts g b v = ground (arith, bytes_eq_iff g.token [], bytes_eq_iff g.token b)

  pub run-IsValid :
      (g : Gate S) (cs : List Call)
      → All (λ c. Fills (entropy_of c)) cs
      → IsValid g
      → IsValid (run g cs)
  unfolding run
  run-IsValid g [] f v = v
  run-IsValid g (c ∷ cs) f v = run-IsValid (step g c).0 cs f.1 (step-IsValid g c f.0 v)

  step-disabled : (g : Gate S) (c : Call) → (step g c).0.disabled ≡ g.disabled
  unfolding step claim release allow_attempt
  step-disabled g (claims code owner now at e) = ground arith
  step-disabled g (releases bearer owner e) = ground arith

  authorized-none : (g : Gate S) → g.disabled ≡ false → authorized st g [] ≡ false
  unfolding authorized
  authorized-none g on = ground (arith, bytes_eq_iff g.token [], constant_equal_iff g.token [])

  phase-run :
      (g : Gate S) (cs : List Call)
      → All (λ c. Fills (entropy_of c)) cs
      → IsValid g
      → phase (run g cs) ≡ shown (phase g) g cs
  unfolding run shown
  phase-run g [] f v = refl
  phase-run g (c ∷ cs) f v =
      phase-run (step g c).0 cs f.1 (step-IsValid g c f.0 v)
      ∙ ap (λ p. shown p (step g c).0 cs) (phase-step g c v)

  -- Every gate that `New` returns is valid after any history of claims and releases, refused ones
  -- included: a holder has a token and no code is left, or there is no token, and a code unless auth is
  -- off; failed attempts stay within the budget. Reads of the random source fill their buffers.
  pub run-new-IsValid :
      (o : Options S) (e : Entropy) (g : Gate S) (cs : List Call)
      → Fills e
      → All (λ c. Fills (entropy_of c)) cs
      → new st o e ≡ ok g
      → IsValid (run g cs)
  run-new-IsValid o e g cs f fs h = run-IsValid g cs fs (new-IsValid st o e g f h)

  pub run-disabled : (g : Gate S) (cs : List Call) → (run g cs).disabled ≡ g.disabled
  unfolding run
  run-disabled g [] = refl
  run-disabled g (c ∷ cs) = run-disabled (step g c).0 cs ∙ step-disabled g c

  -- With auth on, a request without a bearer is refused after any history.
  pub authorized-run_none :
      (g : Gate S) (cs : List Call) → g.disabled ≡ false → authorized st (run g cs) [] ≡ false
  authorized-run_none g cs on = authorized-none (run g cs) (run-disabled g cs ∙ on)

  -- After any history the gate accepts a bearer exactly when the automaton that follows the replies
  -- does: the token of the last successful claim while no release followed it, the launcher's token
  -- on a managed worker, anything when auth is off, and nothing else.
  pub authorized-run :
      (g : Gate S) (cs : List Call) (b : Bytes)
      → All (λ c. Fills (entropy_of c)) cs
      → IsValid g
      → authorized st (run g cs) b ≡ accepts (shown (phase g) g cs) b
  authorized-run g cs b f v =
      authorized-accepts (run g cs) b (run-IsValid g cs f v)
      ∙ ap (λ p. accepts p b) (phase-run g cs f v)

  -- A claim succeeds exactly when auth is on, nobody holds the worker, the attempt is within the
  -- budget, the code is the gate's own, not empty, and the random source answers; the reply is then
  -- the minted token.
  pub claim_ok_iff :
      (g : Gate S) (code owner tok : Bytes) (now at : ℕ) (e : Entropy)
      → ((claim st g code owner now at e).1 ≡ ok tok) ↔ (
          (g.disabled ≡ false)
          × (g.claimed ≡ false)
          × ((allow_attempt st g now).1 ≡ true)
          × (code ≢ [])
          × (code ≡ g.code)
          × (random_hex 32 e ≡ some tok))
  unfolding claim allow_attempt
  claim_ok_iff g code owner tok now at e = (
    λ h. ground (arith, bytes_eq_iff code [], bytes_eq_iff code g.code),
    λ h. ground (arith, bytes_eq_iff code [], bytes_eq_iff code g.code),
  )

  pub claim_installs :
      (g : Gate S) (code owner tok : Bytes) (now at : ℕ) (e : Entropy)
      → (claim st g code owner now at e).1 ≡ ok tok
      → ((claim st g code owner now at e).0.token ≡ tok)
        × ((claim st g code owner now at e).0.disabled ≡ false)
  unfolding claim allow_attempt
  claim_installs g code owner tok now at e h = ground arith

  -- A release succeeds exactly on a worker that was claimed by code, from its present holder, when
  -- the random source answers; the reply is then the fresh code.
  pub release_ok_iff :
      (g : Gate S) (bearer owner code : Bytes) (e : Entropy)
      → ((release st g bearer owner e).1 ≡ ok code) ↔ (
          (g.disabled ≡ false)
          × (g.preauth ≡ false)
          × (g.claimed ≡ true)
          × (g.token ≡ bearer)
          × (random_hex 16 e ≡ some code))
  unfolding release
  release_ok_iff g bearer owner code e = (
    λ h. ground (arith, constant_equal_iff g.token bearer),
    λ h. ground (arith, constant_equal_iff g.token bearer),
  )

  -- A call that is refused leaves the phase and the store as they were.
  pub step_refused :
      (g : Gate S) (c : Call) (x : Error)
      → IsValid g
      → (step g c).1 ≡ err x
      → (phase (step g c).0 ≡ phase g) × ((step g c).0.store ≡ g.store)
  unfolding step claim release allow_attempt
  step_refused g (claims code owner now at e) x v h = ground arith
  step_refused g (releases bearer owner e) x v h = ground arith
