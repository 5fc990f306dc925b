-- ===== src/Auth/Gate/Restart.antt =====
-- A new process on the state that the last one left (`New` after `Claim` or `Release`,
-- internal/auth/auth.go).
use easyworker.Base.{
  ℕ, ◌≡◌, ◌≢◌, refl, sym, ◌∙◌, true, false, Option, some, [], arith, Bytes, bytes_eq_iff,
  bytes_eq_refl,
}
use easyworker.Auth.Hex.{Entropy}
use easyworker.Auth.Gate.{
  Gate, Options, empty_gate, ok, new, authorized, allow_attempt, claim, release,
}
use easyworker.Auth.Store.{StateStore, Persists}

module _ {S : Type 0} (st : StateStore S) where
  abbrev claimed_gate : Gate S → Bytes → Bytes → ℕ → ℕ → Entropy → Gate S
  claimed_gate g code owner now at e = (claim st g code owner now at e).0

  pub claim_saves :
      (g : Gate S) (s : S) (code owner tok : Bytes) (now at : ℕ) (e : Entropy)
      → g.store ≡ some s
      → (claim st g code owner now at e).1 ≡ ok tok
      → let g' = (claim st g code owner now at e).0 in
        (g'.store ≡ some (st.save_token tok owner s)) × (g'.token ≡ tok) × (g'.disabled ≡ false)
  unfolding claim allow_attempt
  claim_saves g s code owner tok now at e hs hc = ground arith

  release_saves :
      (g : Gate S) (s : S) (bearer owner code : Bytes) (e : Entropy)
      → g.store ≡ some s
      → (release st g bearer owner e).1 ≡ ok code
      → (release st g bearer owner e).0.store ≡ some (st.save_code code s)
  unfolding release
  release_saves g s bearer owner code e hs hc = ground arith

  pub new_resumes :
      (o : Options S) (s : S) (tok owner : Bytes) (e : Entropy)
      → o.disabled ≡ false
      → o.pre_authorized_token ≡ []
      → o.state ≡ some s
      → st.load_token s ≡ (tok, owner)
      → tok ≢ []
      → (g : Gate S) × (new st o e ≡ ok g)
        × (g.resumed ≡ true)
        × (g.code ≡ [])
        × (g.token ≡ tok)
        × (g.disabled ≡ false)
  unfolding new
  new_resumes o s tok owner e hd ha hs hl ne = (
    record (empty_gate st o) { token = tok; owner_id = owner; claimed = true; resumed = true },
    rw (hd, ha, hs, new)
        (ground (arith, bytes_eq_refl [], hl, hd, bytes_eq_iff (st.load_token s).0 [])),
    refl,
    refl,
    refl,
    hd,
  )

  new_reuses_code :
      (o : Options S) (s : S) (code : Bytes) (e : Entropy)
      → o.disabled ≡ false
      → o.pre_authorized_token ≡ []
      → o.state ≡ some s
      → st.load_token s ≡ ([], [])
      → st.load_code s ≡ code
      → code ≢ []
      → (g : Gate S) × (new st o e ≡ ok g)
        × (g.code ≡ code)
        × (g.claimed ≡ false)
        × (g.token ≡ [])
        × (g.disabled ≡ false)
  unfolding new
  new_reuses_code o s code e hd ha hs hl hc ne = (
    record (empty_gate st o) { code = code },
    rw (hd, ha, hs, new)
        (ground (
          arith,
          bytes_eq_refl [],
          hl,
          hd,
          hc,
          bytes_eq_iff (st.load_token s).0 [],
          bytes_eq_iff (st.load_code s) [],
        )),
    refl,
    refl,
    refl,
    hd,
  )

  pub authorized_same_token :
      (g g' : Gate S) (b : Bytes)
      → g.token ≡ g'.token
      → g.disabled ≡ g'.disabled
      → authorized st g b ≡ authorized st g' b
  unfolding authorized
  authorized_same_token g g' b e d = rw (e, d)

  authorized_no_token :
      (g : Gate S) (b : Bytes) → g.token ≡ [] → g.disabled ≡ false → authorized st g b ≡ false
  unfolding authorized
  authorized_no_token g b e d = rw (e, d, bytes_eq_refl [])

-- What the next process is started with: auth on, no launcher's token, the state that is left.
pub record Restarts {S : Type 0} (o : Options S) (left : Option S) : Type 0 where
  pub enabled : o.disabled ≡ false
  pub unmanaged : o.pre_authorized_token ≡ []
  pub same_state : o.state ≡ left

module _ {S : Type 0} (st : StateStore S) (p : Persists st) where
  -- After a claim on a healthy store, a process that starts with auth on and no launcher's token
  -- resumes: it starts, holds no code, and accepts exactly the bearers that the claimed gate accepts.
  pub new-claim :
      (g : Gate S) (s : S) (o : Options S) (code owner tok b : Bytes) (now at : ℕ) (e e' : Entropy)
      → p.Healthy s
      → p.Plain tok
      → p.Plain owner
      → tok ≢ []
      → g.store ≡ some s
      → (claim st g code owner now at e).1 ≡ ok tok
      → Restarts o (claim st g code owner now at e).0.store
      → (g' : Gate S) × (new st o e' ≡ ok g')
        × (g'.resumed ≡ true)
        × (g'.code ≡ [])
        × (authorized st g' b ≡ authorized st (claim st g code owner now at e).0 b)
  new-claim g s o code owner tok b now at e e' h pt po ne hs hc r =
      let (saved, held, on) = claim_saves st g s code owner tok now at e hs hc in
      let (g', started, resumed, no_code, token, on') =
        new_resumes st o (st.save_token tok owner s) tok owner e' r.enabled r.unmanaged
          (r.same_state ∙ saved) (p.load_token-save_token tok owner s pt po h) ne in
      (
        g',
        started,
        resumed,
        no_code,
        authorized_same_token st g' (claimed_gate st g code owner now at e) b (token ∙ sym held)
            (on' ∙ sym on),
      )

  -- After a release on a healthy store, such a process starts unclaimed under the code that the
  -- release replied, and accepts no bearer.
  pub new-release :
      (g : Gate S) (s : S) (o : Options S) (bearer owner code b : Bytes) (e e' : Entropy)
      → p.Healthy s
      → p.Plain code
      → code ≢ []
      → g.store ≡ some s
      → (release st g bearer owner e).1 ≡ ok code
      → Restarts o (release st g bearer owner e).0.store
      → (g' : Gate S) × (new st o e' ≡ ok g')
        × (g'.code ≡ code)
        × (g'.claimed ≡ false)
        × (authorized st g' b ≡ false)
  new-release g s o bearer owner code b e e' h pc ne hs hr r =
      let (g', started, same_code, unheld, no_token, on) =
        new_reuses_code st o (st.save_code code s) code e' r.enabled r.unmanaged
          (r.same_state ∙ release_saves st g s bearer owner code e hs hr)
          (p.load_token-save_code code s pc h) (p.load_code-save_code code s pc h) ne in
      (g', started, same_code, unheld, authorized_no_token st g' b no_token on)
