-- ===== src/Enroll.antt =====
-- internal/enroll.go: the WorkerEnroll handlers over the gate.
use easyworker.Base.{
  ℕ, ◌≡◌, ◌≢◌, ◌↔◌, refl, ap, ◌⊎◌, Bool, true, false, ◌&&◌, [], ◌∷◌, ◌++◌, arith, Bytes, bytes_eq,
  bytes_eq_iff, take, drop, length, length-append, ltb, if◌then◌else◌, cut_prefix-append,
}
use easyworker.Rpc.{
  Rpc, reply, fail, already_exists, permission_denied, resource_exhausted, unauthenticated,
}
use easyworker.Auth.Hex.{Entropy, Graphic, constant_equal_iff}
use easyworker.Auth.Store.{StateStore}
use easyworker.Auth.Gate.{
  Gate, Result, ok, err, already_claimed, rate_limited, authorized, status, claim, release,
  allow_attempt,
}
use easyworker.Auth.Interceptor.{bearer_prefix, bearer, check}
use easyworker.Auth.Space.{trim_space-pad}

pub record StatusResponse : Type 0 where
  pub claimed : Bool
  pub needs_code : Bool
  pub preauthorized : Bool
  pub boot_id : Bytes

unfoldable pub bearer_of : Bytes → Bytes
bearer_of header =
    let n = length bearer_prefix in
    if ltb n (length header) && bytes_eq (take n header) bearer_prefix then drop n header else []

-- The reply that carries a token.
unfoldable pub claim_reply : Result Bytes → Rpc Bytes
claim_reply (ok tok) = reply tok
claim_reply (err already_claimed) = fail already_exists
claim_reply (err rate_limited) = fail resource_exhausted
claim_reply (err x) = fail unauthenticated

unfoldable pub release_reply : Result Bytes → Rpc Bytes
release_reply (ok code) = reply code
release_reply (err x) = fail permission_denied

module _ {S : Type 0} (st : StateStore S) where
  unfoldable pub enroll_status : Gate S → StatusResponse
  enroll_status g =
      let s = status st g in
      record {
        claimed = s.claimed;
        needs_code = s.needs_code;
        preauthorized = s.preauthorized;
        boot_id = s.boot_id;
      }

  unfoldable pub enroll_claim : Gate S → Bytes → Bytes → ℕ → ℕ → Entropy → Gate S × Rpc Bytes
  unfolding claim_reply
  enroll_claim g code owner now at e =
      let (g', r) = claim st g code owner now at e in (g', claim_reply r)

  unfoldable pub unrelease : Gate S → Bytes → Bytes → Entropy → Gate S × Rpc Bytes
  unfolding release_reply bearer_of
  unrelease g header owner e =
      let (g', r) = release st g (bearer_of header) owner e in (g', release_reply r)

  -- Claim answers AlreadyExists exactly on a worker with auth off or a holder, ResourceExhausted
  -- exactly on an unclaimed one whose budget is spent, and a token exactly when the gate's claim
  -- succeeds with it.
  pub enroll_claim_codes :
      (g : Gate S) (code owner tok : Bytes) (now at : ℕ) (e : Entropy)
      → let r = (enroll_claim g code owner now at e).1 in
        ((r ≡ fail already_exists) ↔ ((g.disabled ≡ true) ⊎ (g.claimed ≡ true)))
        × ((r ≡ fail resource_exhausted)
            ↔ ((g.disabled ≡ false) × (g.claimed ≡ false) × ((allow_attempt st g now).1 ≡ false)))
        × ((r ≡ reply tok) ↔ ((claim st g code owner now at e).1 ≡ ok tok))
  unfolding enroll_claim claim allow_attempt
  enroll_claim_codes g code owner tok now at e = (
    (λ h. ground arith, λ h. ground arith),
    (λ h. ground arith, λ h. ground arith),
    (λ h. ground arith, λ h. ground arith),
  )

-- What Unrelease reads behind "Bearer " is all that follows it.
pub bearer_of-attach : (t : Bytes) → t ≢ [] → bearer_of (bearer_prefix ++ t) ≡ t
unfolding bearer_of bytes_eq
bearer_of-attach [] ne = absurd (ne refl)
bearer_of-attach (c ∷ t) ne = ground arith

append-ne-nil : (t : Bytes) → t ++ b' ' ∷ [] ≢ []
append-ne-nil [] e = cc
append-ne-nil (c ∷ t) e = cc

longer : (t : Bytes) → t ≢ t ++ b' ' ∷ []
longer t e = omega (arith, ap length e, length-append t (b' ' ∷ []))

bearer-pad : (t : Bytes) → Graphic t → t ≢ [] → bearer (bearer_prefix ++ (t ++ b' ' ∷ [])) ≡ t
unfolding bearer
bearer-pad [] g ne = absurd (ne refl)
bearer-pad (c ∷ t) g ne =
    rw (cut_prefix-append bearer_prefix ((c ∷ t) ++ b' ' ∷ []), bearer) (trim_space-pad c t g)

module _ {S : Type 0} (st : StateStore S) where
  -- The two readers of the header disagree on padding: the holder of a printable token who sends it
  -- with one space behind is served by the worker and is refused the release.
  pub padded_bearer_cannot_release :
      (g : Gate S) (owner : Bytes) (e : Entropy)
      → Graphic g.token
      → g.token ≢ []
      → let header = bearer_prefix ++ (g.token ++ b' ' ∷ []) in
        (check st g header ≡ true) × ((unrelease st g header owner e).1 ≡ fail permission_denied)
  unfolding unrelease release check authorized
  padded_bearer_cannot_release g owner e gr ne =
      let text = g.token ++ b' ' ∷ [] in
      let padded = bearer_of-attach text (append-ne-nil g.token) in
      let trimmed = bearer-pad g.token gr ne in
      (
        rw trimmed (ground (arith, bytes_eq_iff g.token [], constant_equal_iff g.token g.token)),
        rw padded (ground (arith, constant_equal_iff g.token text, longer g.token)),
      )
