-- ===== src/Examples/Boot.antt =====
-- A worker that starts with an empty environment but for WORKER_STATE_FILE=off (cmd/easyworker).
use easyworker.Base.{
  ◌∷◌, Bytes, true, false, Bool, not, ◌&&◌, ◌==◌, arith, ◌≡◌, ◌≢◌, refl, none, some, [], bytes,
  bytes_eq, cut_prefix, if◌then◌else◌,
}
use easyworker.Auth.Gate.{allow_attempt, claim, authorized, Gate, empty_gate, ok, new}
use easyworker.Auth.Gate.History.{run, claim_ok_iff}
use easyworker.Auth.Hex.{random_hex}
use easyworker.Auth.FileStore.{
  load_token, load_code, save_code, read, write, contents, FileStore, absent, file_store,
}
use easyworker.Auth.Interceptor.{bearer, wrap, unauthenticated}
use easyworker.Boot.{
  Host, notice, resumed, Flags, getenv, boot_gate, settings, worker_state_file, state_store,
  gate_options,
}
use easyworker.Boot.Resume.{boot_gate-resumes}
use easyworker.Boot.Start.{boot_gate-fails_closed}
use easyworker.Examples.Auth.{steady, recoded, minted, minted-drawn}
use easyworker.Examples.Store.{codec, codec-JsonLaws, NoZero}

abbrev host : Host
host k = if bytes_eq k (bytes "WORKER_STATE_FILE") then some (bytes "off") else none

abbrev flags : Flags
flags = record { addr = []; workspace = bytes "/w"; db = bytes "jobs.db" }

abbrev booted : Gate FileStore
booted = record (empty_gate (file_store codec) (gate_options host [] none)) { code = recoded }

booted-boot : boot_gate codec flags host none [] absent [] steady ≡ ok booted
unfolding boot_gate new random_hex bytes_eq settings worker_state_file state_store gate_options
booted-boot = refl

no_bearer : bearer (bytes "Basic x") ≡ []
unfolding bearer cut_prefix
no_bearer = refl

auth_on : getenv host (bytes "WORKER_REQUIRE_AUTH") ≢ bytes "0"
unfolding bytes_eq
auth_on e = cc

boot_gate-fails_closed_example :
    wrap (file_store codec) (run (file_store codec) booted []) (bytes "Basic x") recoded
    ≡ unauthenticated
boot_gate-fails_closed_example =
    boot_gate-fails_closed codec flags host none [] absent [] steady booted [] (bytes "Basic x")
      recoded auth_on booted-boot no_bearer

-- With a state file at /s.
abbrev saving : Host
saving k = if bytes_eq k (bytes "WORKER_STATE_FILE") then some (bytes "/s") else none

abbrev before : FileStore
before = record { path = bytes "/s"; file = absent; faults = [] }

abbrev coded : FileStore
coded = record { path = bytes "/s"; file = contents (0 ∷ 0 ∷ recoded); faults = [] }

abbrev waiting : Gate FileStore
waiting = record (empty_gate (file_store codec) (gate_options saving [] (some before))) {
  code = recoded;
  store = some coded;
}

waiting-boot : boot_gate codec flags saving none [] absent [] steady ≡ ok waiting
unfolding boot_gate new random_hex bytes_eq settings worker_state_file state_store gate_options
    load_token load_code save_code read write
waiting-boot = refl

saving-on : getenv saving (bytes "WORKER_REQUIRE_AUTH") ≢ bytes "0"
unfolding bytes_eq
saving-on e = cc

saving-own : getenv saving (bytes "WORKER_TOKEN") ≡ []
unfolding bytes_eq
saving-own = refl

saving-path : (settings flags saving none).state_file ≢ []
unfolding settings worker_state_file bytes_eq
saving-path e = cc

no_zero : Bytes → Bool
no_zero [] = true
no_zero (c ∷ s) = not (c == 0) && no_zero s

no_zero-NoZero : (s : Bytes) → no_zero s ≡ true → NoZero s
unfolding no_zero
no_zero-NoZero [] h = tt
no_zero-NoZero (c ∷ s) h = (ground arith, no_zero-NoZero s (ground arith))

waiting-budget : (allow_attempt (file_store codec) waiting 2).1 ≡ true
unfolding allow_attempt
waiting-budget = refl

minted-no_zero : no_zero minted ≡ true
unfolding no_zero
minted-no_zero = refl

waiting-on : waiting.disabled ≡ false
unfolding gate_options bytes_eq
waiting-on = refl

waiting-claim : (claim (file_store codec) waiting recoded [] 2 2 steady).1 ≡ ok minted
waiting-claim =
    (claim_ok_iff (file_store codec) waiting recoded [] minted 2 2 steady).1
      (waiting-on, refl, waiting-budget, λ e. cc, refl, minted-drawn)

boot_gate-resumes_example :
    let g' = (claim (file_store codec) waiting recoded [] 2 2 steady).0 in
    (left : FileStore) × (g'.store ≡ some left)
    × ((h : Gate FileStore) × (boot_gate codec flags saving none (bytes "b2") left.file [] steady
          ≡ ok h)
        × (notice h ≡ resumed)
        × (authorized (file_store codec) h minted ≡ authorized (file_store codec) g' minted))
boot_gate-resumes_example =
    boot_gate-resumes codec codec-JsonLaws flags saving none [] (bytes "b2") absent waiting recoded
      [] minted minted 2 2 steady steady steady saving-on saving-own saving-path
      (no_zero-NoZero minted minted-no_zero) tt (λ e. cc) waiting-boot waiting-claim
