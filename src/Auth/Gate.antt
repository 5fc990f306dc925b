-- ===== src/Auth/Gate.antt =====
-- `Gate` of internal/auth/auth.go. Its mutex makes each method one step. Times are nanoseconds,
-- `time.Now()` and `rand.Read` are arguments, and the store is a section's parameter.
pub mod Invariant
pub mod History
pub mod RateLimit
pub mod Restart
use easyworker.Base.{
  ℕ, ◌+◌, ◌*◌, ◌-◌, ◌^◌, Bool, true, false, not, ◌&&◌, ◌||◌, Option, none, some, [], ltb, leb, ◌==◌,
  if◌then◌else◌, Bytes, bytes_eq,
}
use easyworker.Auth.Hex.{Entropy, random_hex, constant_equal}
use easyworker.Auth.Store.{StateStore}

pub record Gate (S : Type 0) : Type 0 where
  pub disabled : Bool
  pub boot_id : Bytes
  pub preauth : Bool
  pub resumed : Bool
  pub token : Bytes
  pub code : Bytes
  pub claimed : Bool
  pub owner_id : Bytes
  pub claimed_at : ℕ
  pub store : Option S
  pub failures : ℕ
  pub failure_window : ℕ
  pub max_failures : ℕ
  pub failure_lockout : ℕ

pub record Options (S : Type 0) : Type 0 where
  pub pre_authorized_token : Bytes
  pub disabled : Bool
  pub boot_id : Bytes
  pub state : Option S

pub data Error : Type 0 where
  already_claimed bad_code rate_limited mint_failed release_forbidden : Error

pub data Result (A : Type 0) : Type 0 where
  ok : A → Result A
  err : Error → Result A

pub record Status : Type 0 where
  pub claimed : Bool
  pub needs_code : Bool
  pub preauthorized : Bool
  pub resumed : Bool
  pub boot_id : Bytes

-- time.Minute
abbrev pub minute : ℕ
minute = 60 * 10 ^ 9

abbrev is_empty : Bytes → Bool
is_empty s = bytes_eq s []

module _ {S : Type 0} (st : StateStore S) where
  -- g.store.SaveCode and g.store.SaveToken behind the nil test.
  abbrev save_code : Bytes → Option S → Option S
  save_code c none = none
  save_code c (some s) = some (st.save_code c s)

  abbrev save_token : Bytes → Bytes → Option S → Option S
  save_token t owner none = none
  save_token t owner (some s) = some (st.save_token t owner s)

  abbrev pub empty_gate : Options S → Gate S
  empty_gate o = record {
    disabled = o.disabled;
    boot_id = o.boot_id;
    preauth = false;
    resumed = false;
    token = [];
    code = [];
    claimed = false;
    owner_id = [];
    claimed_at = 0;
    store = o.state;
    failures = 0;
    failure_window = 0;
    max_failures = 10;
    failure_lockout = minute;
  }

  mint : Gate S → Option Bytes → Result (Gate S)
  mint g none = err mint_failed
  mint g (some code) = ok (record g { code = code; store = save_code code g.store })

  from_store : Gate S → Option S → Option Bytes → Result (Gate S)
  unfolding mint
  from_store g none drawn = mint g drawn
  from_store g (some s) drawn =
      let (tok, owner) = st.load_token s in
      if not (is_empty tok)
      then ok (record g { token = tok; owner_id = owner; claimed = true; resumed = true })
      else if not (is_empty (st.load_code s))
      then ok (record g { code = st.load_code s })
      else mint g drawn

  unfoldable pub new : Options S → Entropy → Result (Gate S)
  unfolding from_store
  new o e =
      let g = empty_gate o in
      if o.disabled
      then ok g
      else if not (is_empty o.pre_authorized_token)
      then ok (record g { preauth = true; token = o.pre_authorized_token; claimed = true })
      else from_store g o.state (random_hex 16 e)

  unfoldable pub authorized : Gate S → Bytes → Bool
  authorized g bearer =
      if g.disabled then true else if is_empty g.token then false else constant_equal g.token bearer

  unfoldable pub status : Gate S → Status
  status g = record {
    claimed = g.disabled || g.claimed;
    needs_code = not g.disabled && not g.claimed;
    preauthorized = g.preauth;
    resumed = g.resumed;
    boot_id = g.boot_id;
  }

  abbrev failed : Gate S → Bool
  failed g = leb g.max_failures g.failures

  abbrev reopen : Gate S → ℕ → Gate S
  reopen g now =
      if failed g && ltb g.failure_lockout (now - g.failure_window)
      then record g { failures = 0 }
      else g

  -- allowAttemptLocked
  unfoldable pub allow_attempt : Gate S → ℕ → Gate S × Bool
  allow_attempt g now =
      let g' = reopen g now in
      if failed g'
      then (g', false)
      else (if g'.failures == 0 then record g' { failure_window = now } else g', true)

  install : Gate S → Bytes → ℕ → Option Bytes → Gate S × Result Bytes
  install g owner at none = (g, err mint_failed)
  install g owner at (some tok) = (
    record g {
      token = tok;
      claimed = true;
      owner_id = owner;
      claimed_at = at;
      code = [];
      store = save_token tok owner g.store;
    },
    ok tok,
  )

  -- The code test, and what follows it.
  redeem : Gate S → Bytes → Bytes → ℕ → Option Bytes → Gate S × Result Bytes
  unfolding install
  redeem g code owner at drawn =
      if is_empty code || not (bytes_eq code g.code)
      then (record g { failures = g.failures + 1 }, err bad_code)
      else install g owner at drawn

  -- `now` is the clock of allowAttemptLocked, `at` that of the claim.
  unfoldable pub claim : Gate S → Bytes → Bytes → ℕ → ℕ → Entropy → Gate S × Result Bytes
  unfolding redeem
  claim g code owner now at e =
      if g.disabled
      then (g, err already_claimed)
      else if g.claimed
      then (g, err already_claimed)
      else let (g', allowed) = allow_attempt g now in
        if allowed then redeem g' code owner at (random_hex 32 e) else (g', err rate_limited)

  reset : Gate S → Bytes → Option Bytes → Gate S × Result Bytes
  reset g owner none = (g, err mint_failed)
  reset g owner (some code) = (
    record g {
      token = [];
      claimed = false;
      resumed = false;
      owner_id = owner;
      claimed_at = 0;
      code = code;
      failures = 0;
      store = save_code code g.store;
    },
    ok code,
  )

  unfoldable pub release : Gate S → Bytes → Bytes → Entropy → Gate S × Result Bytes
  unfolding reset
  release g bearer owner e =
      if g.disabled || (g.preauth || not g.claimed)
      then (g, err release_forbidden)
      else if not (constant_equal g.token bearer)
      then (g, err release_forbidden)
      else reset g owner (random_hex 16 e)
