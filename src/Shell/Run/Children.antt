-- ===== src/Shell/Run/Children.antt =====
-- The registry of the live commands: `track`, `untrack` and `KillAll` of internal/shellh/runner.go,
-- over every interleaving of the commands. A handler starts its process, tracks it, waits, and
-- untracks it last.
use easyworker.Base.{
  ℕ, zero, suc, ap, ◌+◌, ◌≡◌, ◌≢◌, ◌∙◌, refl, sym, ◌⊎◌, inl, inr, Bool, true, false, not, ◌||◌,
  List, [], ◌∷◌, arith, keep, ◌==◌, ==_iff, if◌then◌else◌, Bool-cases,
}

-- The keys of the map `childs`, each once.
unfoldable pub untrack : ℕ → List ℕ → List ℕ
untrack pid childs = keep (λ q. not (q == pid)) childs

unfoldable pub track : ℕ → List ℕ → List ℕ
track pid childs = pid ∷ untrack pid childs

unfoldable pub contains : ℕ → List ℕ → Bool
contains pid [] = false
contains pid (q ∷ childs) = q == pid || contains pid childs

abbrev pub update {ℓ} : {A : Type ℓ} → ℕ → A → (ℕ → A) → ℕ → A
update pid v f q = if q == pid then v else f q

-- Whether a process with an id is there: not, started by a handler that has yet to track it, tracked.
pub data Life : Type 0 where
  gone starting live : Life

-- The registry; what the system has under each id; and how many handlers have waited for a process
-- of that id and have yet to untrack it.
pub record World : Type 0 where
  pub childs : List ℕ
  pub process : ℕ → Life
  pub waited : ℕ → ℕ

abbrev pub at_start : World
at_start = record { childs = []; process = λ p. gone; waited = λ p. 0 }

pub data Step : World → World → Type 0 where
  -- the system gives a new process an id that no process has
  starts :
      (w : World) (p : ℕ)
      → w.process p ≡ gone
      → Step w (record w { process = update p starting w.process })
  tracks :
      (w : World) (p : ℕ)
      → w.process p ≡ starting
      → Step w (record w { childs = track p w.childs; process = update p live w.process })
  -- Wait has reaped the process, and its id is free
  reaps :
      (w : World) (p : ℕ)
      → w.process p ≡ live
      → Step w (record w {
        process = update p gone w.process;
        waited = update p (w.waited p + 1) w.waited;
      })
  untracks :
      (w : World) (p n : ℕ)
      → w.waited p ≡ suc n
      → Step w (record w { childs = untrack p w.childs; waited = update p n w.waited })

-- No process gets an id that a handler has yet to untrack.
abbrev pub NoReuse : {w v : World} → Step w v → Type 0
NoReuse (starts w p h) = w.waited p ≡ 0
NoReuse (tracks w p h) = Unit {0}
NoReuse (reaps w p h) = Unit {0}
NoReuse (untracks w p n h) = Unit {0}

pub data Reach (w : World) : World → Type 0 where
  here : Reach w w
  next : {u v : World} → Reach w u → (s : Step u v) → Reach w v

pub data Careful (w : World) : World → Type 0 where
  here : Careful w w
  next : {u v : World} → Careful w u → (s : Step u v) → NoReuse s → Careful w v

contains-untrack :
    (p q : ℕ) (childs : List ℕ)
    → contains q (untrack p childs) ≡ (if q == p then false else contains q childs)
unfolding contains untrack
contains-untrack p q [] = ground arith
contains-untrack p q (c ∷ childs) = ground (arith, contains-untrack p q childs)

contains-track :
    (p q : ℕ) (childs : List ℕ)
    → contains q (track p childs) ≡ (if q == p then true else contains q childs)
unfolding contains track
contains-track p q childs = ground (arith, contains-untrack p q childs)

-- What the registry says of an id, by its process and the handlers that have yet to untrack it.
abbrev Fits : Life → ℕ → Bool → Type 0
Fits gone zero b = b ≡ false
Fits gone (suc zero) b = b ≡ true
Fits gone (suc (suc n)) b = ⊥
Fits starting zero b = b ≡ false
Fits starting (suc n) b = ⊥
Fits live zero b = b ≡ true
Fits live (suc n) b = ⊥

abbrev Fitting : World → ℕ → Type 0
Fitting w q = Fits (w.process q) (w.waited q) (contains q w.childs)

other : (q p : ℕ) → (q == p) ≡ false → q ≢ p
other q p h e = ground (arith, h)

starts-Fits : (l : Life) (n : ℕ) (b : Bool) → l ≡ gone → n ≡ 0 → Fits l n b → Fits starting n b
starts-Fits gone zero b e z f = f
starts-Fits gone (suc n) b e z f = absurd (omega (arith, z))
starts-Fits starting n b e z f = cc
starts-Fits live n b e z f = cc

tracks-Fits : (l : Life) (n : ℕ) (b : Bool) → l ≡ starting → Fits l n b → Fits live n true
tracks-Fits gone n b e f = cc
tracks-Fits starting zero b e f = refl
tracks-Fits starting (suc n) b e f = f
tracks-Fits live n b e f = cc

reaps-Fits : (l : Life) (n m : ℕ) (b : Bool) → l ≡ live → m ≡ n + 1 → Fits l n b → Fits gone m b
reaps-Fits gone n m b e g f = cc
reaps-Fits starting n m b e g f = cc
reaps-Fits live zero m b e g f = rw g f
reaps-Fits live (suc n) m b e g f = absurd f

untracks-Fits : (l : Life) (n m : ℕ) (b : Bool) → n ≡ suc m → Fits l n b → Fits l m false
untracks-Fits gone zero m b e f = absurd (omega (arith, e))
untracks-Fits gone (suc zero) zero b e f = refl
untracks-Fits gone (suc zero) (suc m) b e f = absurd (omega (arith, e))
untracks-Fits gone (suc (suc n)) m b e f = absurd f
untracks-Fits starting zero m b e f = absurd (omega (arith, e))
untracks-Fits starting (suc n) m b e f = absurd f
untracks-Fits live zero m b e f = absurd (omega (arith, e))
untracks-Fits live (suc n) m b e f = absurd f

Step-Fitting :
    {w v : World} (s : Step w v) → NoReuse s → ((q : ℕ) → Fitting w q) → (q : ℕ) → Fitting v q
Step-Fitting (starts w p h) careful f q = elim (Bool-cases (q == p)) [
  | inl e ↦
      let same = (==_iff q p).0 e in
      rw e (
        starts-Fits (w.process q) (w.waited q) _ (ap w.process same ∙ h)
          (ap w.waited same ∙ careful) (f q))
  | inr e ↦ rw e (f q)
]
Step-Fitting (tracks w p h) careful f q = elim (Bool-cases (q == p)) [
  | inl e ↦
      let same = (==_iff q p).0 e in
      rw (contains-track p q w.childs, e)
        (tracks-Fits (w.process q) (w.waited q) _ (ap w.process same ∙ h) (f q))
  | inr e ↦ rw (contains-track p q w.childs, e) (f q)
]
Step-Fitting (reaps w p h) careful f q = elim (Bool-cases (q == p)) [
  | inl e ↦
      let same = (==_iff q p).0 e in
      rw e (
        reaps-Fits (w.process q) (w.waited q) (w.waited p + 1) _ (ap w.process same ∙ h)
          (ap (λ r. w.waited r + 1) (sym same)) (f q))
  | inr e ↦ rw e (f q)
]
Step-Fitting (untracks w p n h) careful f q = elim (Bool-cases (q == p)) [
  | inl e ↦
      let same = (==_iff q p).0 e in
      rw (contains-untrack p q w.childs, e)
        (untracks-Fits (w.process q) (w.waited q) n _ (ap w.waited same ∙ h) (f q))
  | inr e ↦ rw (contains-untrack p q w.childs, e) (f q)
]

Careful-Fitting : {w : World} → Careful at_start w → (q : ℕ) → Fitting w q
unfolding contains
Careful-Fitting here q = refl
Careful-Fitting (next r s careful) q = Step-Fitting s careful (Careful-Fitting r) q

Fits-contains : (l : Life) (n : ℕ) (b : Bool) → l ≡ live → Fits l n b → b ≡ true
Fits-contains gone n b e f = cc
Fits-contains starting n b e f = cc
Fits-contains live zero b e f = f
Fits-contains live (suc n) b e f = absurd f

Fits-only : (l : Life) (n : ℕ) (b : Bool) → b ≡ true → Fits l n b → (l ≡ live) ⊎ (n ≡ 1)
Fits-only gone zero b e f = cc
Fits-only gone (suc zero) b e f = inr refl
Fits-only gone (suc (suc n)) b e f = absurd f
Fits-only starting zero b e f = cc
Fits-only starting (suc n) b e f = absurd f
Fits-only live n b e f = inl refl

-- As long as no process gets an id that a handler has yet to untrack: KillAll kills every command that
-- runs and was tracked, and what it kills beside these are ids whose process was waited for and whose
-- handler has yet to untrack it.
pub contains_iff :
    (w : World) (q : ℕ)
    → Careful at_start w
    → ((w.process q ≡ live) → (contains q w.childs ≡ true))
      × ((contains q w.childs ≡ true) → ((w.process q ≡ live) ⊎ (w.waited q ≡ 1)))
contains_iff w q r =
    let f = Careful-Fitting r q in
    (
      λ h. Fits-contains (w.process q) (w.waited q) _ h f,
      λ h. Fits-only (w.process q) (w.waited q) _ h f,
    )

-- With a reused id the registry loses a command: from every state in which a handler has waited for an
-- id that no process has, and has yet to untrack it, a state can be reached in which a command with
-- this id runs, was tracked, and is none that KillAll kills.
pub reused_id_lost :
    (w : World) (p n : ℕ)
    → w.process p ≡ gone
    → w.waited p ≡ suc n
    → (v : World) × Reach w v × (v.process p ≡ live) × (contains p v.childs ≡ false)
reused_id_lost w p n free left =
    let itself : (p == p) ≡ true = (==_iff p p).1 refl in
    let u1 : World = record w { process = update p starting w.process } in
    let u2 : World = record u1 { childs = track p u1.childs; process = update p live u1.process } in
    let u3 : World = record u2 { childs = untrack p u2.childs; waited = update p n u2.waited } in
    (
      u3,
      next (next (next here (starts w p free)) (tracks u1 p (rw itself refl)))
          (untracks u2 p n left),
      rw itself refl,
      rw (contains-untrack p p u2.childs, itself) refl,
    )
