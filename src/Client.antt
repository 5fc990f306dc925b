-- ===== src/Client.antt =====
-- client/client.go: the enrollment handshake and the bearer that every later request carries. The
-- transport is a parameter of each call: what the service answered.
pub mod HandOver
use easyworker.Base.{
  ℕ, ◌≡◌, ◌≢◌, ◌∙◌, refl, ap, true, false, some, [], ◌∷◌, ◌++◌, arith, Bytes, ◌==◌, bytes_eq,
  bytes_eq_iff, if◌then◌else◌, reverse,
}
use mathlib.Core.List.{reverse-append, reverse-reverse}
use easyworker.Rpc.{Code, Rpc, reply, fail, already_exists}
use easyworker.Auth.Hex.{
  Entropy, Fills, random_hex, random_hex-Graphic, random_hex-ne-nil, constant_equal_iff,
}
use easyworker.Auth.Store.{StateStore}
use easyworker.Auth.Gate.{Gate, authorized, allow_attempt}
use easyworker.Auth.Gate.History.{claim_ok_iff, claim_installs}
use easyworker.Auth.Interceptor.{bearer_prefix, bearer-attach, check}
use easyworker.Auth.Space.{Graphic-IsTrimmed}
use easyworker.Enroll.{enroll_claim, enroll_claim_codes}

pub data EnrollError : Type 0 where
  already_claimed no_token : EnrollError
  -- any other error of the call, as it came
  rpc : Code → EnrollError

pub data Enrolled : Type 0 where
  enrolled : Bytes → Enrolled
  refused : EnrollError → Enrolled

-- `Enroll`, on the answer of the claim; the empty message stands for a nil one too.
unfoldable pub enroll : Rpc Bytes → Enrolled
enroll (reply tok) = if bytes_eq tok [] then refused no_token else enrolled tok
enroll (fail already_exists) = refused already_claimed
enroll (fail c) = refused (rpc c)

-- `bearerInterceptor`: the Authorization header of a request, unary or streaming.
unfoldable pub attach : Bytes → Bytes → Bytes
attach token header = if bytes_eq token [] then header else bearer_prefix ++ token

drop_slashes : Bytes → Bytes
drop_slashes [] = []
drop_slashes (c ∷ s) = let rest = drop_slashes s in if c == b'/' then rest else c ∷ s

-- The loop of `trimSlash` takes bytes off the end.
unfoldable pub trim_slash : Bytes → Bytes
unfolding drop_slashes
trim_slash s = reverse (drop_slashes (reverse s))

drop_slashes_idem : (s : Bytes) → drop_slashes (drop_slashes s) ≡ drop_slashes s
unfolding drop_slashes
drop_slashes_idem [] = refl
drop_slashes_idem (c ∷ s) = ground (arith, drop_slashes_idem s)

-- A slash more at the end of the base URL changes nothing, and neither does a second pass.
pub trim_slash_stable :
    (s : Bytes)
    → (trim_slash (s ++ b'/' ∷ []) ≡ trim_slash s) × (trim_slash (trim_slash s) ≡ trim_slash s)
unfolding trim_slash
trim_slash_stable s = (
  ap (λ (t : Bytes). reverse (drop_slashes t)) (reverse-append s (b'/' ∷ [])),
  ap reverse (
      ap drop_slashes (reverse-reverse (drop_slashes (reverse s))) ∙ drop_slashes_idem (reverse s)),
)

module _ {S : Type 0} (st : StateStore S) where
  -- A caller who presents the gate's code to an unclaimed worker, within the budget of failed claims
  -- and with the random source answering, is enrolled, and a request that carries the token it got
  -- passes the worker's gate.
  pub enroll_then_call :
      (g : Gate S) (owner tok header : Bytes) (now at : ℕ) (e : Entropy)
      → Fills e
      → g.disabled ≡ false
      → g.claimed ≡ false
      → g.code ≢ []
      → (allow_attempt st g now).1 ≡ true
      → random_hex 32 e ≡ some tok
      → let (g', answer) = enroll_claim st g g.code owner now at e in
        (enroll answer ≡ enrolled tok) × (check st g' (attach tok header) ≡ true)
  unfolding enroll attach enroll_claim check authorized
  enroll_then_call g owner tok header now at e f on free has_code budget minted =
      let claimed =
        (claim_ok_iff st g g.code owner tok now at e).1
          (on, free, budget, has_code, refl, minted) in
      let answer = (enroll_claim_codes st g g.code owner tok now at e).2.1 claimed in
      let ne = random_hex-ne-nil 32 e tok f (omega arith) minted in
      let trimmed = Graphic-IsTrimmed tok (random_hex-Graphic 32 e tok f minted) in
      let installed = claim_installs st g g.code owner tok now at e claimed in
      (
        rw answer (ground (arith, bytes_eq_iff tok [])),
        ground (
          arith,
          bytes_eq_iff tok [],
          bearer-attach tok trimmed,
          constant_equal_iff tok tok,
          installed,
        ),
      )
