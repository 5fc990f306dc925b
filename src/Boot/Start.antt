-- ===== src/Boot/Start.antt =====
-- The gate that `main` of cmd/easyworker/main.go starts with, towards its callers.
use easyworker.Base.{
  ℕ, ◌≡◌, ◌≢◌, ◌∙◌, ap, subst, true, false, Option, some, List, [], arith, ◌<◌, Bytes, bytes,
  bytes_eq, bytes_eq_iff,
}
use easyworker.Auth.Hex.{Entropy, Fills, random_hex}
use easyworker.Auth.Store.{StateStore}
use easyworker.Auth.Gate.{Gate, Options, ok, new, authorized, allow_attempt}
use easyworker.Auth.Gate.History.{Call, run, run-disabled, authorized-run_none}
use easyworker.Auth.FileStore.{FileStore, Json, File, Faults, file_store}
use easyworker.Auth.Interceptor.{bearer, check, wrap, unauthenticated}
use easyworker.Boot.{Host, Flags, getenv, boot_gate, notice, unclaimed}
use easyworker.Client.{enroll, enrolled, attach, enroll_then_call}
use easyworker.Enroll.{enroll_claim}

module _ {S : Type 0} (st : StateStore S) where
  new-disabled :
      (o : Options S) (e : Entropy) (g : Gate S) → new st o e ≡ ok g → g.disabled ≡ o.disabled
  unfolding new
  new-disabled o e g h = ground arith

  -- A gate that starts with a code is one that can be claimed.
  record Open (g : Gate S) : Type 0 where
    on : g.disabled ≡ false
    free : g.claimed ≡ false
    unspent : g.failures < g.max_failures

  new-Open : (o : Options S) (e : Entropy) (g : Gate S) → new st o e ≡ ok g → g.code ≢ [] → Open g
  unfolding new
  new-Open o e g h c = ground arith

  allow_attempt-unspent :
      (g : Gate S) (now : ℕ) → g.failures < g.max_failures → (allow_attempt st g now).1 ≡ true
  unfolding allow_attempt
  allow_attempt-unspent g now h = ground arith

not_zero : (s : Bytes) → s ≢ bytes "0" → bytes_eq s (bytes "0") ≡ false
not_zero s h = ground (arith, bytes_eq_iff s (bytes "0"))

module _ (j : Json) where
  -- The worker fails closed: unless WORKER_REQUIRE_AUTH is "0", no request without a bearer token is
  -- served, whatever the flags, the rest of the environment and the state file are, and whatever calls
  -- of enrollment came before.
  pub boot_gate-fails_closed :
      {A : Type 0} (f : Flags) (host : Host) (home : Option Bytes) (boot_id : Bytes) (file : File)
      (faults : List Faults) (e : Entropy) (g : Gate FileStore) (cs : List Call) (header : Bytes)
      (next : A)
      → getenv host (bytes "WORKER_REQUIRE_AUTH") ≢ bytes "0"
      → boot_gate j f host home boot_id file faults e ≡ ok g
      → bearer header ≡ []
      → wrap (file_store j) (run (file_store j) g cs) header next ≡ unauthenticated
  unfolding wrap check boot_gate
  boot_gate-fails_closed f host home boot_id file faults e g cs header next on started missing =
      let st = file_store j in
      let needed = new-disabled st _ e g started in
      let off = not_zero (getenv host (bytes "WORKER_REQUIRE_AUTH")) on in
      let shut = authorized-run_none st g cs (needed ∙ off) in
      ground (
        arith,
        ap (λ b. authorized st (run st g cs) b) missing,
        shut,
        run-disabled st g cs,
        needed,
        off,
      )

  notice-code :
      (g : Gate FileStore) (c : Bytes) → notice g ≡ unclaimed c → (g.code ≡ c) × (g.code ≢ [])
  unfolding notice
  notice-code g c h = ground (arith, bytes_eq_iff g.code [])

  -- The code that an unclaimed worker logs at its start enrolls the first caller who presents it, if
  -- the random source answers, and a request with the token that this caller gets passes the gate.
  pub boot_gate-enroll :
      (f : Flags) (host : Host) (home : Option Bytes) (boot_id : Bytes) (file : File)
      (faults : List Faults) (e : Entropy) (g : Gate FileStore) (code owner tok header : Bytes)
      (now at : ℕ) (e' : Entropy)
      → boot_gate j f host home boot_id file faults e ≡ ok g
      → notice g ≡ unclaimed code
      → Fills e'
      → random_hex 32 e' ≡ some tok
      → let (g', answer) = enroll_claim (file_store j) g code owner now at e' in
        (enroll answer ≡ enrolled tok) × (check (file_store j) g' (attach tok header) ≡ true)
  unfolding boot_gate
  boot_gate-enroll f host home boot_id file faults e g code owner tok header now at e' started
        logged fills drawn =
      let st = file_store j in
      let (same, some_code) = notice-code g code logged in
      let o = new-Open st _ e g started some_code in
      subst
        (λ c.
          let (g', answer) = enroll_claim st g c owner now at e' in
          (enroll answer ≡ enrolled tok) × (check st g' (attach tok header) ≡ true))
        same
        (enroll_then_call st g owner tok header now at e' fills o.on o.free some_code
          (allow_attempt-unspent st g now o.unspent) drawn)
