-- ===== src/Client/HandOver.antt =====
-- A release and the next enrollment, from the two clients' side (client/client.go, internal/enroll.go,
-- internal/auth/auth.go).
use easyworker.Base.{ℕ, ◌<◌, ◌≡◌, ◌≢◌, refl, sym, true, false, some, [], arith, Bytes, bytes_eq_iff}
use easyworker.Rpc.{reply}
use easyworker.Auth.Hex.{Entropy, Fills, Graphic, random_hex, random_hex-ne-nil, constant_equal_iff}
use easyworker.Auth.Store.{StateStore}
use easyworker.Auth.Gate.{Gate, ok, claim, release, allow_attempt, authorized}
use easyworker.Auth.Gate.History.{claim_installs, claim_ok_iff}
use easyworker.Auth.Interceptor.{bearer-attach, check}
use easyworker.Auth.Space.{Graphic-IsTrimmed}
use easyworker.Enroll.{unrelease, enroll_claim, bearer_of, bearer_of-attach}
use easyworker.Client.{attach, enroll, enrolled, enroll_then_call}

module _ {S : Type 0} (st : StateStore S) where
  released :
      (g : Gate S) (owner code : Bytes) (e : Entropy)
      → g.disabled ≡ false
      → g.preauth ≡ false
      → g.claimed ≡ true
      → random_hex 16 e ≡ some code
      → let (g', r) = release st g g.token owner e in
        (r ≡ ok code)
        × (g'.disabled ≡ false)
        × (g'.claimed ≡ false)
        × (g'.code ≡ code)
        × (g'.failures ≡ 0)
        × (g'.max_failures ≡ g.max_failures)
  unfolding release
  released g owner code e on free held minted =
      let own = (constant_equal_iff g.token g.token).1 refl in
      rw (on, free, held, own, minted, release) (refl, refl, refl, refl, refl, refl)

  fresh_budget :
      (g : Gate S) (now : ℕ)
      → g.failures ≡ 0
      → 0 < g.max_failures
      → (allow_attempt st g now).1 ≡ true
  unfolding allow_attempt
  fresh_budget g now none_failed some_left = ground (arith, none_failed, some_left)

  unreleased :
      (g : Gate S) (owner code : Bytes) (e : Entropy)
      → g.token ≢ []
      → (release st g g.token owner e).1 ≡ ok code
      → unrelease st g (attach g.token []) owner e ≡ ((release st g g.token owner e).0, reply code)
  unfolding unrelease attach
  unreleased g owner code e some_token h =
      let sent : bearer_of (attach g.token []) ≡ g.token =
        ground (arith, bytes_eq_iff g.token [], bearer_of-attach g.token some_token) in
      rw (sent, h, unrelease) refl

  old_token_fails :
      (g : Gate S) (owner tok old header : Bytes) (now at : ℕ) (e : Entropy)
      → Graphic old
      → old ≢ []
      → old ≢ tok
      → (claim st g g.code owner now at e).1 ≡ ok tok
      → check st (enroll_claim st g g.code owner now at e).0 (attach old header) ≡ false
  unfolding enroll_claim attach check authorized
  old_token_fails g owner tok old header now at e graphic some_token other claimed = ground (
    arith,
    bytes_eq_iff old [],
    bearer-attach old (Graphic-IsTrimmed old graphic),
    constant_equal_iff tok old,
    claim_installs st g g.code owner tok now at e claimed,
  )

  -- The holder of a claimed worker, which is not managed, releases it with its token and gets a code;
  -- whoever claims with that code is enrolled, with no regard to the failures before the release; a
  -- request with the new token passes, and one with the old token, if it is a printable one and another
  -- than the new, does not.
  pub hand_over :
      (g : Gate S) (owner owner' code tok header : Bytes) (now at : ℕ) (e e' : Entropy)
      → Fills e
      → Fills e'
      → g.disabled ≡ false
      → g.preauth ≡ false
      → g.claimed ≡ true
      → 0 < g.max_failures
      → Graphic g.token
      → g.token ≢ []
      → g.token ≢ tok
      → random_hex 16 e ≡ some code
      → random_hex 32 e' ≡ some tok
      → let (g1, answer) = unrelease st g (attach g.token []) owner e in
        let (g2, claimed) = enroll_claim st g1 code owner' now at e' in
        (answer ≡ reply code)
        × (enroll claimed ≡ enrolled tok)
        × (check st g2 (attach tok header) ≡ true)
        × (check st g2 (attach g.token header) ≡ false)
  hand_over g owner owner' code tok header now at e e' f f' on free held left graphic some_token
        other minted drawn =
      let g1 = (release st g g.token owner e).0 in
      let r = released g owner code e on free held minted in
      let budget = fresh_budget g1 now r.4 (rw (r.5) left) in
      let some_code : g1.code ≢ [] =
        rw (r.3) (random_hex-ne-nil 16 e code f (omega arith) minted) in
      let call =
        enroll_then_call st g1 owner' tok header now at e' f' r.1 r.2 some_code budget drawn in
      let claimed =
        (claim_ok_iff st g1 g1.code owner' tok now at e').1
          (r.1, r.2, budget, some_code, refl, drawn) in
      let old =
        old_token_fails g1 owner' tok g.token header now at e' graphic some_token other claimed in
      rw (unreleased g owner code e some_token r.0, sym r.3) (refl, call.0, call.1, old)
