-- ===== src/Examples/Client.antt =====
-- The handlers and the client of enrollment on the gates of Auth (internal/enroll.go, client).
use easyworker.Base.{◌≡◌, ◌↔◌, refl, ◌⊎◌, true, false, [], arith, Bytes, bytes}
use easyworker.Rpc.{reply, fail, already_exists, resource_exhausted}
use easyworker.Auth.Hex.{Graphic}
use easyworker.Auth.Gate.{ok, allow_attempt, claim}
use easyworker.Auth.Gate.History.{phase, accepts, shown, run}
use easyworker.Auth.Interceptor.{served, bearer, check, wrap, wrap_iff}
use easyworker.Enroll.{enroll_claim, unrelease, enroll_claim_codes}
use easyworker.Client.{enrolled, enroll, attach}
use easyworker.Client.HandOver.{hand_over}
use easyworker.Examples.Auth.{
  steady, steady-Fills, disk, fresh, fresh-IsValid, taken, minted, recoded, minted-drawn,
  recoded-drawn, ann, calls, calls-Fills,
}

abbrev header : Bytes
header = bytes "Bearer t0"

wrap_iff_example :
    (wrap disk (run disk fresh calls) header ann ≡ served ann)
    ↔ (accepts (shown disk (phase fresh) fresh calls) (bearer header) ≡ true)
wrap_iff_example = wrap_iff disk fresh calls header ann calls-Fills fresh-IsValid

enroll_claim_codes_example :
    let r = (enroll_claim disk fresh (bytes "c0de") ann 2 2 steady).1 in
    ((r ≡ fail already_exists) ↔ ((fresh.disabled ≡ true) ⊎ (fresh.claimed ≡ true)))
    × ((r ≡ fail resource_exhausted) ↔ (
        (fresh.disabled ≡ false)
        × (fresh.claimed ≡ false)
        × ((allow_attempt disk fresh 2).1 ≡ false)))
    × ((r ≡ reply minted) ↔ ((claim disk fresh (bytes "c0de") ann 2 2 steady).1 ≡ ok minted))
enroll_claim_codes_example = enroll_claim_codes disk fresh (bytes "c0de") ann minted 2 2 steady

taken-Graphic : Graphic taken.token
taken-Graphic = ((omega arith, omega arith), ((omega arith, omega arith), tt))

hand_over_example :
    let (g1, answer) = unrelease disk taken (attach taken.token []) ann steady in
    let (g2, claimed) = enroll_claim disk g1 recoded (bytes "bob") 2 2 steady in
    (answer ≡ reply recoded)
    × (enroll claimed ≡ enrolled minted)
    × (check disk g2 (attach minted []) ≡ true)
    × (check disk g2 (attach taken.token []) ≡ false)
hand_over_example =
    hand_over disk taken ann (bytes "bob") recoded minted [] 2 2 steady steady steady-Fills
      steady-Fills refl refl refl (omega arith) taken-Graphic (λ e. cc) (λ e. cc) recoded-drawn
      minted-drawn
