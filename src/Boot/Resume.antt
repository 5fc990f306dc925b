-- ===== src/Boot/Resume.antt =====
-- A worker that is started again on the state file of the last one (cmd/easyworker/main.go,
-- internal/auth).
use easyworker.Base.{
  ℕ, ◌≡◌, ◌≢◌, ◌∙◌, refl, sym, ap₂, true, false, Option, some, [], arith, Bytes, bytes, bytes_eq,
  bytes_eq_iff, ◌⊎◌, inl, inr, Option-cases,
}
use easyworker.Auth.Hex.{Entropy, random_hex}
use easyworker.Auth.Store.{StateStore}
use easyworker.Auth.Gate.{Gate, Options, ok, new, authorized, claim}
use easyworker.Auth.Gate.Restart.{claim_saves, new_resumes, authorized_same_token}
use easyworker.Auth.FileStore.{
  FileStore, FileState, Json, JsonLaws, File, file_store, load_token-save_token, write, save_token,
  save_code,
}
use easyworker.Boot.{
  Host, notice, resumed, Flags, getenv, boot_gate, settings, state_store, gate_options,
}

module _ {S : Type 0} (st : StateStore S) where
  -- What a start leaves in the store.
  new-store :
      (o : Options S) (s : S) (e : Entropy) (g : Gate S)
      → o.state ≡ some s
      → new st o e ≡ ok g
      → (g.store ≡ some s) ⊎ ((c : Bytes) × (g.store ≡ some (st.save_code c s)))
  unfolding new
  new-store o s e g stored h = elim (Option-cases (random_hex 16 e)) [
    | inl dry ↦ inl (ground (arith, stored, dry, h))
    | inr (c, drawn) ↦
        let either : (g.store ≡ some s) ⊎ (g.store ≡ some (st.save_code c s)) =
          ground (arith, stored, drawn, h) in
        elim either [ inl kept ↦ inl kept | inr saved ↦ inr (c, saved) ]
  ]

module _ (j : Json) where
  -- The store at a path, with no fault to come.
  record At (path : Bytes) (s : FileStore) : Type 0 where
    place : s.path ≡ path
    faultless : s.faults ≡ []

  write-At : (path : Bytes) (st : FileState) (s : FileStore) → At path s → At path (write j st s)
  unfolding write
  write-At path st s a =
      let same : (write j st s).path ≡ s.path = ground arith in
      record { place = same ∙ a.place; faultless = ground (arith, a.faultless) }

  new-At :
      (o : Options FileStore) (path : Bytes) (s : FileStore) (e : Entropy) (g : Gate FileStore)
      → o.state ≡ some s
      → At path s
      → new (file_store j) o e ≡ ok g
      → (left : FileStore) × (g.store ≡ some left) × At path left
  unfolding save_code
  new-At o path s e g stored a h = elim (new-store (file_store j) o s e g stored h) [
    | inl kept ↦ (s, kept, a)
    | inr (c, saved) ↦ (save_code j c s, saved, write-At path _ s a)
  ]

  state_store-file :
      (path : Bytes) (s : FileStore) → path ≢ [] → At path s → state_store path s.file [] ≡ some s
  unfolding state_store
  state_store-file path s ne a =
      let named : bytes_eq path [] ≡ false = ground (arith, bytes_eq_iff path []) in
      rw (named) (
        ap₂ (λ p fs. some (record { path = p; file = s.file; faults = fs })) (sym a.place)
          (sym a.faultless))

  notice-resumed : (h : Gate FileStore) → h.resumed ≡ true → notice h ≡ resumed
  unfolding notice
  notice-resumed h e = rw (e) refl

  module _ (laws : JsonLaws j) where
    -- A worker with a state file that was claimed, and is started again on the file that this left with
    -- the same flags and environment, resumes: it starts and says so, and accepts exactly the bearers
    -- that were accepted before. Auth is on, WORKER_TOKEN is not set, no call of a write fails, and JSON
    -- carries the token and the owner's name unchanged.
    pub boot_gate-resumes :
        (f : Flags) (host : Host) (home : Option Bytes) (boot_id boot_id' : Bytes) (file : File)
        (g : Gate FileStore) (code owner tok bearer : Bytes) (now at : ℕ) (e e' e'' : Entropy)
        → getenv host (bytes "WORKER_REQUIRE_AUTH") ≢ bytes "0"
        → getenv host (bytes "WORKER_TOKEN") ≡ []
        → (settings f host home).state_file ≢ []
        → laws.Plain tok
        → laws.Plain owner
        → tok ≢ []
        → boot_gate j f host home boot_id file [] e ≡ ok g
        → (claim (file_store j) g code owner now at e').1 ≡ ok tok
        → let g' = (claim (file_store j) g code owner now at e').0 in
          (left : FileStore) × (g'.store ≡ some left)
          × ((h : Gate FileStore) × (boot_gate j f host home boot_id' left.file [] e'' ≡ ok h)
              × (notice h ≡ resumed)
              × (authorized (file_store j) h bearer ≡ authorized (file_store j) g' bearer))
    unfolding boot_gate gate_options save_token
    boot_gate-resumes f host home boot_id boot_id' file g code owner tok bearer now at e e' e'' on
          own path_set pt po ne started claimed =
        let path = (settings f host home).state_file in
        let first : FileStore = record { path = path; file = file; faults = [] } in
        let opened =
          state_store-file path first path_set (record { place = refl; faultless = refl }) in
        let (s, kept, place) =
          new-At _ path first e g opened (record { place = refl; faultless = refl }) started in
        let left = save_token j tok owner s in
        let left-At = write-At path _ s place in
        let st = file_store j in
        let claimed_gate = (claim st g code owner now at e').0 in
        let (saved, held, shut) = claim_saves st g s code owner tok now at e' kept claimed in
        let reopened = state_store-file path left path_set left-At in
        let enabled : bytes_eq (getenv host (bytes "WORKER_REQUIRE_AUTH")) (bytes "0") ≡ false =
          ground (arith, bytes_eq_iff (getenv host (bytes "WORKER_REQUIRE_AUTH")) (bytes "0")) in
        let read_back =
          load_token-save_token j laws tok owner s pt po (λ e. path_set (sym place.place ∙ e))
            place.faultless in
        let (h, booted, again, no_code, token, open') =
          new_resumes st (gate_options host boot_id' (state_store path left.file [])) left tok owner
            e'' enabled own reopened read_back ne in
        (
          left,
          saved,
          (
            h,
            booted,
            notice-resumed h again,
            authorized_same_token st h claimed_gate bearer (token ∙ sym held) (open' ∙ sym shut),
          ),
        )
