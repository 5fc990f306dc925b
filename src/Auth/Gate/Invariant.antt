-- ===== src/Auth/Gate/Invariant.antt =====
-- The gate's states (internal/auth/auth.go): what every method keeps.
use easyworker.Base.{
  ℕ, ◌≤◌, ◌<◌, ◌≡◌, ◌≢◌, ◌⊎◌, inl, inr, true, false, Option, none, some, [], arith, Bytes,
  bytes_eq_iff, Option-cases,
}
use easyworker.Auth.Hex.{Entropy, Fills, random_hex, random_hex-ne-nil}
use easyworker.Auth.Store.{StateStore}
use easyworker.Auth.Gate.{
  Gate, Options, ok, empty_gate, mint, from_store, new, allow_attempt, claim, release,
}

-- Claimed: a token and no code. Unclaimed: no token, and a code unless auth is off.
pub record IsValid {S : Type 0} (g : Gate S) : Type 0 where
  pub shape :
      ((g.claimed ≡ true) × (g.token ≢ []) × (g.code ≡ []) × (g.disabled ≡ false))
      ⊎ ((g.claimed ≡ false)
          × (g.token ≡ [])
          × (g.preauth ≡ false)
          × ((g.code ≢ []) ⊎ (g.disabled ≡ true)))
  pub within_budget : g.failures ≤ g.max_failures
  pub some_budget : 0 < g.max_failures

module _ {S : Type 0} (st : StateStore S) where
  allow_attempt-IsValid : (g : Gate S) (now : ℕ) → IsValid g → IsValid (allow_attempt st g now).0
  unfolding allow_attempt
  allow_attempt-IsValid g now v = ground arith

  -- A claim, refused or not, takes a valid gate to a valid one: a holder has a token and no code is left,
  -- or there is no token; failed attempts stay within the budget. A read of the random source that
  -- succeeds fills its buffer.
  pub claim-IsValid :
      (g : Gate S) (code owner : Bytes) (now at : ℕ) (e : Entropy)
      → Fills e
      → IsValid g
      → IsValid (claim st g code owner now at e).0
  unfolding claim allow_attempt
  claim-IsValid g code owner now at e f v = elim (Option-cases (random_hex 32 e)) [
    | inl failed ↦ rw (failed, claim) (ground arith)
    | inr (t, minted) ↦
        let fresh : t ≢ [] = random_hex-ne-nil 32 e t f (omega arith) minted in
        rw (minted, claim) (ground arith)
  ]

  -- A release, refused or not, takes a valid gate to a valid one, if a read of the random source that
  -- succeeds fills its buffer.
  pub release-IsValid :
      (g : Gate S) (bearer owner : Bytes) (e : Entropy)
      → Fills e
      → IsValid g
      → IsValid (release st g bearer owner e).0
  unfolding release
  release-IsValid g bearer owner e f v = elim (Option-cases (random_hex 16 e)) [
    | inl failed ↦ rw (failed, release) (ground arith)
    | inr (t, minted) ↦
        let fresh : t ≢ [] = random_hex-ne-nil 16 e t f (omega arith) minted in
        rw (minted, release) (ground arith)
  ]

  -- A gate that holds no token yet.
  abbrev IsBlank : Gate S → Type 0
  IsBlank g =
      (g.claimed ≡ false)
      × (g.token ≡ [])
      × (g.code ≡ [])
      × (g.preauth ≡ false)
      × (g.disabled ≡ false)
      × (g.failures ≡ 0)
      × (0 < g.max_failures)

  mint-IsValid :
      (g g' : Gate S) (e : Entropy)
      → Fills e
      → IsBlank g
      → mint st g (random_hex 16 e) ≡ ok g'
      → IsValid g'
  unfolding mint
  mint-IsValid g g' e f b h = elim (Option-cases (random_hex 16 e)) [
    | inl failed ↦ absurd (ground (arith, failed))
    | inr (t, minted) ↦
        let fresh : t ≢ [] = random_hex-ne-nil 16 e t f (omega arith) minted in
        ground (arith, minted)
  ]

  from_store-IsValid :
      (g g' : Gate S) (o : Option S) (e : Entropy)
      → Fills e
      → IsBlank g
      → from_store st g o (random_hex 16 e) ≡ ok g'
      → IsValid g'
  unfolding from_store
  from_store-IsValid g g' none e f b h = mint-IsValid g g' e f b h
  from_store-IsValid g g' (some s) e f b h = ground (
    arith,
    mint-IsValid g g' e f b,
    bytes_eq_iff (st.load_token s).0 [],
    bytes_eq_iff (st.load_code s) [],
  )

  -- Every gate that `New` returns is valid, whatever the options and the state file are, if a read of
  -- the random source that succeeds fills its buffer.
  pub new-IsValid :
      (o : Options S) (e : Entropy) (g : Gate S) → Fills e → new st o e ≡ ok g → IsValid g
  unfolding new
  new-IsValid o e g f h = ground (
    arith,
    from_store-IsValid (empty_gate st o) g o.state e f,
    bytes_eq_iff o.pre_authorized_token [],
  )
