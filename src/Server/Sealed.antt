-- ===== src/Server/Sealed.antt =====
-- What the mux of cmd/easyworker/main.go lets nobody do who has neither the token nor the code.
use easyworker.Base.{
  ℕ, ◌≡◌, ◌∙◌, refl, sym, subst, Bool, false, List, [], ◌∷◌, arith, Bytes, bytes_eq, bytes_eq_iff,
  All,
}
use easyworker.Rpc.{reply, fail}
use easyworker.Auth.Hex.{Entropy, Fills}
use easyworker.Auth.Store.{StateStore}
use easyworker.Auth.Gate.{
  Gate, Result, Error, ok, err, already_claimed, bad_code, rate_limited, mint_failed,
  release_forbidden, claim as gate_claim, release as gate_release,
}
use easyworker.Auth.Gate.History.{
  Phase, open_access, managed, unclaimed, owned, accepts, phase, authorized-accepts, claim_ok_iff,
  release_ok_iff, step_refused, step, claims, releases,
}
use easyworker.Auth.Gate.Invariant.{IsValid, claim-IsValid, release-IsValid}
use easyworker.Auth.Interceptor.{served, unauthenticated, bearer, check, check-authorized, wrap}
use easyworker.Enroll.{bearer_of, claim_reply, release_reply, enroll_claim, unrelease}
use easyworker.Files.Service.{Os}
use easyworker.Files.Sync.{Archives}
use easyworker.Service.Handlers.{Worker, Pipe}
use easyworker.Server.{
  System, Call, Request, worker, status, claim, release, healthz, Response, worker_response,
  status_response, claim_response, release_response, health, serve, serve_all, admit,
}

-- The code of an unclaimed gate.
abbrev pub redeems : Phase → Bytes → Bool
redeems open_access c = false
redeems (managed t) c = false
redeems (owned t) c = false
redeems (unclaimed code) c = bytes_eq c code

-- A request that shows neither the gate's token nor its code.
abbrev pub Ignorant : Phase → Request → Type 0
Ignorant p (worker header c) = accepts p (bearer header) ≡ false
Ignorant p (claim code owner now at e) = (redeems p code ≡ false) × Fills e
Ignorant p (release header owner e) = (accepts p (bearer_of header) ≡ false) × Fills e
Ignorant p status = Unit {0}
Ignorant p healthz = Unit {0}

-- A response that neither serves a call nor hands out a token or a code.
abbrev pub Denied : Response → Type 0
Denied (worker_response (served a)) = ⊥
Denied (claim_response (reply tok)) = ⊥
Denied (release_response (reply code)) = ⊥
Denied (worker_response unauthenticated) = Unit {0}
Denied (claim_response (fail c)) = Unit {0}
Denied (release_response (fail c)) = Unit {0}
Denied (status_response r) = Unit {0}
Denied (health text) = Unit {0}

-- A result that gives nothing is an error.
error_of : (r : Result Bytes) → ((t : Bytes) → r ≡ ok t → ⊥) → (x : Error) × (r ≡ err x)
error_of (ok t) h = absurd (h t refl)
error_of (err x) h = (x, refl)

claim_reply-Denied : (x : Error) → Denied (claim_response (claim_reply (err x)))
unfolding claim_reply
claim_reply-Denied already_claimed = tt
claim_reply-Denied bad_code = tt
claim_reply-Denied rate_limited = tt
claim_reply-Denied mint_failed = tt
claim_reply-Denied release_forbidden = tt

module _ {S : Type 0} (st : StateStore S) where
  claim_fails :
      (g : Gate S) (code owner : Bytes) (now at : ℕ) (e : Entropy)
      → IsValid g
      → redeems (phase g) code ≡ false
      → (x : Error) × ((gate_claim st g code owner now at e).1 ≡ err x)
  claim_fails g code owner now at e v h = error_of (gate_claim st g code owner now at e).1 (λ t won.
      let (on, free, _, _, same, _) = (claim_ok_iff st g code owner t now at e).0 won in
      ground (arith, bytes_eq_iff code g.code))

  release_fails :
      (g : Gate S) (bearer owner : Bytes) (e : Entropy)
      → IsValid g
      → accepts (phase g) bearer ≡ false
      → (x : Error) × ((gate_release st g bearer owner e).1 ≡ err x)
  release_fails g bearer owner e v h = error_of (gate_release st g bearer owner e).1 (λ t won.
      let (on, own, held, same, _) = (release_ok_iff st g bearer owner t e).0 won in
      ground (arith, bytes_eq_iff g.token bearer))

  -- A claim without the code gets no token and leaves the gate's phase.
  claim-Denied :
      (g : Gate S) (code owner : Bytes) (now at : ℕ) (e : Entropy)
      → IsValid g
      → redeems (phase g) code ≡ false
      → let (g', r) = enroll_claim st g code owner now at e in
        Denied (claim_response r) × (phase g' ≡ phase g)
  unfolding enroll_claim step
  claim-Denied g code owner now at e v h =
      let (x, lost) = claim_fails g code owner now at e v h in
      (
        subst (λ r. Denied (claim_response (claim_reply r))) (sym lost) (claim_reply-Denied x),
        (step_refused st g (claims code owner now at e) x v lost).0,
      )

  -- A release without the token gets no code and leaves the gate's phase.
  release-Denied :
      (g : Gate S) (header owner : Bytes) (e : Entropy)
      → IsValid g
      → accepts (phase g) (bearer_of header) ≡ false
      → let (g', r) = unrelease st g header owner e in
        Denied (release_response r) × (phase g' ≡ phase g)
  unfolding unrelease step
  release-Denied g header owner e v h =
      let (x, lost) = release_fails g (bearer_of header) owner e v h in
      (
        subst (λ r. Denied (release_response (release_reply r))) (sym lost) tt,
        (step_refused st g (releases (bearer_of header) owner e) x v lost).0,
      )

-- What a system keeps: its jobs and their history, its files, the pipes to its jobs, and who may call.
pub record Kept {S F P : Type 0} (s s' : System S F P) : Type 0 where
  pub manager : s'.manager ≡ s.manager
  pub world : s'.world ≡ s.world
  pub pipes : s'.pipes ≡ s.pipes
  pub same_phase : phase s'.gate ≡ phase s.gate

module _ {S F P : Type 0} (st : StateStore S) (os : Os F) (pipe : Pipe P) (ar : Archives)
    (goos goarch : Bytes) (w : Worker) where
  shut :
      (g : Gate S) (header : Bytes)
      → IsValid g
      → accepts (phase g) (bearer header) ≡ false
      → check st g header ≡ false
  shut g header v h = check-authorized st g header ∙ (authorized-accepts st g (bearer header) v ∙ h)

  serve-worker :
      (header : Bytes) (c : Call) (s : System S F P)
      → check st s.gate header ≡ false
      → serve st os pipe ar goos goarch w (worker header c) s ≡ (s, worker_response unauthenticated)
  unfolding serve wrap admit
  serve-worker header c s h = rw (h, wrap) refl

  -- One request.
  serve-Denied :
      (r : Request) (s : System S F P)
      → IsValid s.gate
      → Ignorant (phase s.gate) r
      → let (s', a) = serve st os pipe ar goos goarch w r s in
        Kept s s' × Denied a × IsValid s'.gate
  unfolding serve enroll_claim unrelease
  serve-Denied (worker header c) s v h =
      let same = serve-worker header c s (shut s.gate header v h) in
      subst (λ sa. Kept s sa.0 × Denied sa.1 × IsValid sa.0.gate) (sym same)
        (record { manager = refl; world = refl; pipes = refl; same_phase = refl }, tt, v)
  serve-Denied status s v h =
      (record { manager = refl; world = refl; pipes = refl; same_phase = refl }, tt, v)
  serve-Denied (claim code owner now at e) s v h =
      let (denied, same) = claim-Denied st s.gate code owner now at e v h.0 in
      (
        record { manager = refl; world = refl; pipes = refl; same_phase = same },
        denied,
        claim-IsValid st s.gate code owner now at e h.1 v,
      )
  serve-Denied (release header owner e) s v h =
      let (denied, same) = release-Denied st s.gate header owner e v h.0 in
      (
        record { manager = refl; world = refl; pipes = refl; same_phase = same },
        denied,
        release-IsValid st s.gate (bearer_of header) owner e h.1 v,
      )
  serve-Denied healthz s v h =
      (record { manager = refl; world = refl; pipes = refl; same_phase = refl }, tt, v)

  Ignorant-phase :
      (p q : Phase) (rs : List Request) → p ≡ q → All (Ignorant p) rs → All (Ignorant q) rs
  Ignorant-phase p q rs e h = subst (λ t. All (Ignorant t) rs) e h

  -- Requests in a row.
  pub serve_all-Denied :
      (rs : List Request) (s : System S F P)
      → IsValid s.gate
      → All (Ignorant (phase s.gate)) rs
      → let (s', answers) = serve_all st os pipe ar goos goarch w rs s in
        Kept s s' × All Denied answers × IsValid s'.gate
  unfolding serve_all
  serve_all-Denied [] s v h =
      (record { manager = refl; world = refl; pipes = refl; same_phase = refl }, tt, v)
  serve_all-Denied (r ∷ rs) s v h =
      let (s1, a) = serve st os pipe ar goos goarch w r s in
      let (one, denied, v1) = serve-Denied r s v h.0 in
      let (rest, all, valid) =
        serve_all-Denied rs s1 v1
          (Ignorant-phase (phase s.gate) (phase s1.gate) rs (sym one.same_phase) h.1) in
      (
        record {
          manager = rest.manager ∙ one.manager;
          world = rest.world ∙ one.world;
          pipes = rest.pipes ∙ one.pipes;
          same_phase = rest.same_phase ∙ one.same_phase;
        },
        (denied, all),
        valid,
      )

  -- Whatever requests come, in whatever order: where none of them shows the gate's token or, on an
  -- unclaimed worker, its code, no handler of the worker runs and no token or code is handed out, and
  -- the jobs and their history, the files, the pipes and the phase of the gate are as before. Reads
  -- of the random source fill their buffers.
  pub serve_all_sealed :
      (rs : List Request) (s : System S F P)
      → IsValid s.gate
      → All (Ignorant (phase s.gate)) rs
      → let (s', answers) = serve_all st os pipe ar goos goarch w rs s in
        Kept s s' × All Denied answers
  serve_all_sealed rs s v h =
      let (kept, denied, valid) = serve_all-Denied rs s v h in (kept, denied)
