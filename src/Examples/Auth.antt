-- ===== src/Examples/Auth.antt =====
-- The gate, its interceptor and its handlers (internal/auth, internal/enroll.go, client) on a worker
-- with the code "c0de" and a store that keeps what it is given.
use easyworker.Base.{
  ℕ, bytes_eq, zero, suc, ◌≡◌, ◌≢◌, ◌≤◌, ◌<◌, ◌+◌, ◌*◌, ◌↔◌, refl, ap, inl, inr, true, false, some,
  List, [], ◌∷◌, arith, Bytes, bytes, length, All,
}
use easyworker.Auth.Hex.{Entropy, Fills, random_hex}
use easyworker.Auth.Store.{StateStore}
use easyworker.Auth.Gate.{Gate, Options, empty_gate, ok, authorized, allow_attempt, claim, new}
use easyworker.Auth.Gate.Invariant.{IsValid}
use easyworker.Auth.Gate.History.{
  Call, claims, releases, entropy_of, phase, accepts, shown, run, authorized-run, run-new-IsValid,
  claim_ok_iff,
}
use easyworker.Auth.Gate.RateLimit.{Attempt, wrong_codes, wrong_codes-le}

abbrev fives : ℕ → Bytes
fives zero = []
fives (suc n) = 5 ∷ fives n

abbrev pub steady : Entropy
steady n = some (fives n)

length-fives : (n : ℕ) → length (fives n) ≡ n
length-fives zero = refl
length-fives (suc n) = ap suc (length-fives n)

All-fives : (n : ℕ) → All (λ x. x < 256) (fives n)
All-fives zero = tt
All-fives (suc n) = (omega arith, All-fives n)

pub steady-Fills : Fills steady
steady-Fills = record {
  filled = λ n b h. subst_length n b (some_same n b h);
  octets = λ n b h. subst_all n b (some_same n b h);
}
  where
    some_same : (n : ℕ) (b : Bytes) → some (fives n) ≡ some b → fives n ≡ b
    some_same n b h = cc

    subst_length : (n : ℕ) (b : Bytes) → fives n ≡ b → length b ≡ n
    subst_length n b e = omega (arith, ap length e, length-fives n)

    subst_all : (n : ℕ) (b : Bytes) → fives n ≡ b → All (λ x. x < 256) b
    subst_all n b e = rw (← e) (All-fives n)

pub record Disk : Type 0 where
  token : Bytes
  owner : Bytes
  code : Bytes

abbrev blank : Disk
blank = record { token = []; owner = []; code = [] }

abbrev pub disk : StateStore Disk
disk = record {
  load_token = λ s. (s.token, s.owner);
  load_code = λ s. s.code;
  save_token = λ t owner s. record { token = t; owner = owner; code = [] };
  save_code = λ c s. record { token = []; owner = []; code = c };
  clear = λ s. blank;
}

abbrev options : Options Disk
options = record {
  pre_authorized_token = [];
  disabled = false;
  boot_id = bytes "boot";
  state = some blank;
}

abbrev pub fresh : Gate Disk
fresh = record (empty_gate disk options) { code = bytes "c0de" }

abbrev pub taken : Gate Disk
taken = record (empty_gate disk options) {
  token = bytes "t0";
  claimed = true;
  owner_id = bytes "ann";
}

pub fresh-IsValid : IsValid fresh
fresh-IsValid = record {
  shape = inr (refl, refl, refl, inl λ e. cc);
  within_budget = omega arith;
  some_budget = omega arith;
}

pub taken-IsValid : IsValid taken
taken-IsValid = record {
  shape = inl (refl, λ e. cc, refl, refl);
  within_budget = omega arith;
  some_budget = omega arith;
}

abbrev pub minted : Bytes
minted = bytes "0505050505050505050505050505050505050505050505050505050505050505"

abbrev pub recoded : Bytes
recoded = bytes "05050505050505050505050505050505"

pub minted-drawn : random_hex 32 steady ≡ some minted
unfolding random_hex
minted-drawn = refl

pub recoded-drawn : random_hex 16 steady ≡ some recoded
unfolding random_hex
recoded-drawn = refl

abbrev pub ann : Bytes
ann = bytes "ann"

-- A wrong code, the right one, and the holder's release.
abbrev pub calls : List Call
calls =
    claims (bytes "nope") ann 1 1 steady
    ∷ claims (bytes "c0de") ann 2 2 steady
    ∷ releases minted ann steady
    ∷ []

pub calls-Fills : All (λ c. Fills (entropy_of c)) calls
calls-Fills = (steady-Fills, (steady-Fills, (steady-Fills, tt)))

authorized-run_example :
    authorized disk (run disk fresh calls) minted
    ≡ accepts (shown disk (phase fresh) fresh calls) minted
authorized-run_example = authorized-run disk fresh calls minted calls-Fills fresh-IsValid

claim_ok_iff_example : ((claim disk fresh (bytes "c0de") ann 2 2 steady).1 ≡ ok minted) ↔ (
    (fresh.disabled ≡ false)
    × (fresh.claimed ≡ false)
    × ((allow_attempt disk fresh 2).1 ≡ true)
    × (bytes "c0de" ≢ [])
    × (bytes "c0de" ≡ fresh.code)
    × (random_hex 32 steady ≡ some minted))
claim_ok_iff_example = claim_ok_iff disk fresh (bytes "c0de") ann minted 2 2 steady

abbrev started : Gate Disk
started = record (empty_gate disk options) {
  code = recoded;
  store = some (record blank { code = recoded });
}

started-new : new disk options steady ≡ ok started
unfolding new random_hex bytes_eq
started-new = refl

abbrev guess : ℕ → Attempt
guess t = record { code = bytes "nope"; owner = ann; now = t; at = t; entropy = steady }

abbrev guesses : List Attempt
guesses = guess 1 ∷ guess 2 ∷ []

wrong_codes-le_example : wrong_codes disk fresh guesses + fresh.failures ≤ 1 * fresh.max_failures
wrong_codes-le_example =
    wrong_codes-le disk fresh guesses 5 0 (steady-Fills, (steady-Fills, tt)) fresh-IsValid
      (omega arith, (omega arith, omega arith)) (omega arith)

pub fresh-budget : (allow_attempt disk fresh 2).1 ≡ true
unfolding allow_attempt
fresh-budget = refl

claim-minted : (claim disk fresh (bytes "c0de") ann 2 2 steady).1 ≡ ok minted
claim-minted =
    (claim_ok_iff disk fresh (bytes "c0de") ann minted 2 2 steady).1
      (refl, refl, fresh-budget, λ e. cc, refl, minted-drawn)

run-new-IsValid_example : IsValid (run disk started calls)
run-new-IsValid_example =
    run-new-IsValid disk options steady started calls steady-Fills calls-Fills started-new
