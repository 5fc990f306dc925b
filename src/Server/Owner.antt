-- ===== src/Server/Owner.antt =====
-- What the mux of cmd/easyworker/main.go answers the holder of the token, whoever else calls.
use easyworker.Base.{◌≡◌, ◌∙◌, refl, ap, sym, true, List, Bytes, All}
use easyworker.Auth.Store.{StateStore}
use easyworker.Auth.Gate.{Gate}
use easyworker.Auth.Gate.History.{accepts, phase, authorized-accepts}
use easyworker.Auth.Gate.Invariant.{IsValid}
use easyworker.Auth.Interceptor.{served, bearer, check-authorized, wrap}
use easyworker.Files.Service.{Os}
use easyworker.Files.Sync.{Archives}
use easyworker.Service.Handlers.{Worker, Pipe}
use easyworker.Server.{
  System, Call, call_info, call_jobs, call_execute, call_output, call_wait, call_watch, call_stdin,
  call_kill, call_read, call_list, call_write, call_sync, Request, worker, worker_response, serve,
  serve_all, admit, handle,
}
use easyworker.Server.Sealed.{Ignorant, Kept, serve_all-Denied}

module _ {S F P : Type 0} (st : StateStore S) (os : Os F) (pipe : Pipe P) (ar : Archives)
    (goos goarch : Bytes) (w : Worker) where
  -- No handler looks at the gate.
  handle_gate :
      (c : Call) (g : Gate S) (s : System S F P)
      → (handle st os pipe ar goos goarch w c (record s { gate = g })).1
        ≡ (handle st os pipe ar goos goarch w c s).1
  unfolding handle
  handle_gate call_info g s = refl
  handle_gate (call_jobs read_ok) g s = refl
  handle_gate (call_execute wrote id command now) g s = refl
  handle_gate (call_output read_ok row_ok id stream start end') g s = refl
  handle_gate (call_wait row_ok id timeout seen gone) g s = refl
  handle_gate (call_watch sends gone read_ok row_ok id lines after) g s = refl
  handle_gate (call_stdin id text close_after) g s = refl
  handle_gate (call_kill id) g s = refl
  handle_gate (call_read path) g s = refl
  handle_gate (call_list path) g s = refl
  handle_gate (call_write path content) g s = refl
  handle_gate (call_sync tarball dest clean) g s = refl

  handle-Kept :
      (c : Call) (s s' : System S F P)
      → Kept s s'
      → (handle st os pipe ar goos goarch w c s').1 ≡ (handle st os pipe ar goos goarch w c s).1
  handle-Kept c s s' k =
      let same : record s' { gate = s.gate } ≡ s = λ i. record {
        gate = s.gate;
        manager = k.manager i;
        world = k.world i;
        pipes = k.pipes i;
      } in
      sym (handle_gate c s.gate s') ∙ ap (λ x. (handle st os pipe ar goos goarch w c x).1) same

  serve_shown :
      (header : Bytes) (c : Call) (s : System S F P)
      → IsValid s.gate
      → accepts (phase s.gate) (bearer header) ≡ true
      → (serve st os pipe ar goos goarch w (worker header c) s).1
        ≡ worker_response (served (handle st os pipe ar goos goarch w c s).1)
  unfolding serve wrap admit
  serve_shown header c s v h =
      let open' =
        check-authorized st s.gate header ∙ (authorized-accepts st s.gate (bearer header) v ∙ h) in
      rw (open', wrap) refl

  -- Nobody without the token or the code changes what its holder is answered: whatever requests of
  -- others came before that show neither, a request that shows the token is served, with the answer that it
  -- would have got had they not come.
  pub owner_served :
      (rs : List Request) (header : Bytes) (c : Call) (s : System S F P)
      → IsValid s.gate
      → All (Ignorant (phase s.gate)) rs
      → accepts (phase s.gate) (bearer header) ≡ true
      → let (s', answers) = serve_all st os pipe ar goos goarch w rs s in
        (serve st os pipe ar goos goarch w (worker header c) s').1
        ≡ worker_response (served (handle st os pipe ar goos goarch w c s).1)
  owner_served rs header c s v h shown =
      let (s', answers) = serve_all st os pipe ar goos goarch w rs s in
      let (kept, denied, valid) = serve_all-Denied st os pipe ar goos goarch w rs s v h in
      serve_shown header c s' valid (ap (λ p. accepts p (bearer header)) kept.same_phase ∙ shown)
      ∙ ap (λ a. worker_response (served a)) (handle-Kept c s s' kept)
