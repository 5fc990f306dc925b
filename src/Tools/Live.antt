-- ===== src/Tools/Live.antt =====
-- The polling helpers of cmd/ewtest/main.go. What the worker answers and what the clock says at each
-- pass are parameters.
use easyworker.Base.{
  ℕ, zero, suc, ◌+◌, ◌<◌, ◌≡◌, ◌∙◌, refl, ap, inl, inr, Bool, true, false, ◌||◌, not, Option, none,
  some, List, [], ◌∷◌, arith, if◌then◌else◌, Bytes, Option-cases,
}

-- An answer of JobOutput, as far as it is read; an error is `none`.
pub record Page : Type 0 where
  pub lines : List Bytes
  pub done : Bool

-- A loop on fuel: the first pass that returns; `none` is out of fuel.
first_of : {A : Type 0} → (ℕ → Option A) → ℕ → ℕ → Option A
first_of pass zero i = none
first_of pass (suc n) i =
    let rest = first_of pass n (i + 1) in elim (pass i) [ none ↦ rest | some a ↦ some a ]

is_nil : List Bytes → Bool
is_nil [] = true
is_nil (l ∷ lines) = false

-- What a pass of `waitForLines` finds in its answer.
found : Bool → Option Page → Option (List Bytes)
unfolding is_nil
found instant none = none
found instant (some p) =
    if p.done || instant
    then (if not (is_nil p.lines) then some p.lines else if p.done then some p.lines else none)
    else none

abbrev pub is_done : Option Page → Bool
is_done none = false
is_done (some p) = p.done

-- A pass of `waitForLines`: `instant` is d == 0, `late` is time.Now().After(deadline). The nil of the
-- source is the empty list.
lines_pass : Bool → (ℕ → Option Page) → (ℕ → Bool) → ℕ → Option (List Bytes)
unfolding found
lines_pass instant answers late i = elim (found instant (answers i)) [
  | none ↦ if late i then some [] else if instant then some [] else none
  | some lines ↦ some lines
]

unfoldable pub wait_for_lines : Bool → (ℕ → Option Page) → (ℕ → Bool) → ℕ → Option (List Bytes)
unfolding first_of lines_pass
wait_for_lines instant answers late fuel = first_of (lines_pass instant answers late) fuel 0

first_line : Option (List Bytes) → Option Bytes
first_line none = none
first_line (some []) = none
first_line (some (l ∷ lines)) = some l

-- A pass of `waitForOutput`, with one instant pass of `waitForLines` in it; `before` is
-- time.Now().Before(deadline), and `late` the clock of the inner call.
output_pass : (ℕ → Option Page) → (ℕ → Bool) → (ℕ → Bool) → ℕ → Option Bytes
unfolding first_line lines_pass
output_pass answers late before i =
    if before i then first_line (lines_pass true answers late i) else some []

unfoldable pub wait_for_output : (ℕ → Option Page) → (ℕ → Bool) → (ℕ → Bool) → ℕ → Option Bytes
unfolding first_of output_pass
wait_for_output answers late before fuel = first_of (output_pass answers late before) fuel 0

module _ {A : Type 0} (pass : ℕ → Option A) where
  abbrev Returns : ℕ → ℕ → A → Type 0
  Returns k i b = (fuel : ℕ) → k < fuel → first_of pass fuel i ≡ some b

  Returns-now : (k i : ℕ) (b : A) → pass i ≡ some b → Returns k i b
  unfolding first_of
  Returns-now k i b now zero le = absurd (omega (arith, le))
  Returns-now k i b now (suc fuel) le = rw (now, first_of) refl

  Returns-later : (k i : ℕ) (b : A) → pass i ≡ none → Returns k (i + 1) b → Returns (suc k) i b
  unfolding first_of
  Returns-later k i b not_yet rest zero le = absurd (omega (arith, le))
  Returns-later k i b not_yet rest (suc fuel) le =
      rw (not_yet, first_of) (rest fuel (omega (arith, le)))

  first_of_ends : (k i : ℕ) (a : A) → pass (i + k) ≡ some a → (b : A) × Returns k i b
  first_of_ends zero i a h = (a, Returns-now zero i a (ap pass (omega arith) ∙ h))
  first_of_ends (suc k) i a h = elim (Option-cases (pass i)) [
    | inl not_yet ↦
        let (b, rest) = first_of_ends k (i + 1) a (ap pass (omega arith) ∙ h) in
        (b, Returns-later k i b not_yet rest)
    | inr (b, now) ↦ (b, Returns-now (suc k) i b now)
  ]

  first_of_at :
      (k i : ℕ) (a : A)
      → pass (i + k) ≡ some a
      → ((m : ℕ) → m < k → pass (i + m) ≡ none)
      → Returns k i a
  first_of_at zero i a h quiet = Returns-now zero i a (ap pass (omega arith) ∙ h)
  first_of_at (suc k) i a h quiet =
      Returns-later k i a (ap pass (omega arith) ∙ quiet 0 (omega arith)) (
        first_of_at k (i + 1) a (ap pass (omega arith) ∙ h)
          (λ m le. ap pass (omega arith) ∙ quiet (m + 1) (omega (arith, le))))

-- Both waiting loops end: if the clock is past the deadline at the k-th pass, the loop returns at that
-- pass or before it, with the same value however much fuel above k it has.
pub waits_end :
    (instant : Bool) (answers : ℕ → Option Page) (late before : ℕ → Bool) (k : ℕ)
    → late k ≡ true
    → before k ≡ false
    → ((lines : List Bytes) × ((fuel : ℕ)
          → k < fuel
          → wait_for_lines instant answers late fuel ≡ some lines))
      × ((out : Bytes) × ((fuel : ℕ)
            → k < fuel
            → wait_for_output answers late before fuel ≡ some out))
unfolding wait_for_lines wait_for_output lines_pass output_pass
waits_end instant answers late before k over past =
    let last_lines : (ls : List Bytes) × (lines_pass instant answers late k ≡ some ls) =
      elim (Option-cases (found instant (answers k))) [
        | inl nothing ↦ ([], rw (nothing, over, lines_pass) refl)
        | inr (ls, e) ↦ (ls, rw (e, lines_pass) refl)
      ] in
    let last_out : output_pass answers late before k ≡ some [] = rw (past, output_pass) refl in
    (
      first_of_ends (lines_pass instant answers late) k 0 last_lines.0
          (ap (lines_pass instant answers late) (omega arith) ∙ last_lines.1),
      first_of_ends (output_pass answers late before) k 0 []
          (ap (output_pass answers late before) (omega arith) ∙ last_out),
    )

found_done :
    (lines : List Bytes) → found false (some (record { lines = lines; done = true })) ≡ some lines
unfolding found
found_done [] = refl
found_done (l ∷ lines) = refl

found_running : (o : Option Page) → is_done o ≡ false → found false o ≡ none
unfolding found
found_running none e = refl
found_running (some p) e = rw (e) refl

-- A wait for a job's lines gives those of the first answer that says that the job is done, if every
-- pass before it has an answer that does not say so, or an error, and is before the deadline.
pub wait_for_lines_done :
    (answers : ℕ → Option Page) (late : ℕ → Bool) (k : ℕ) (lines : List Bytes) (fuel : ℕ)
    → answers k ≡ some (record { lines = lines; done = true })
    → ((m : ℕ) → m < k → late m ≡ false)
    → ((m : ℕ) → m < k → is_done (answers m) ≡ false)
    → k < fuel
    → wait_for_lines false answers late fuel ≡ some lines
unfolding wait_for_lines lines_pass
wait_for_lines_done answers late k lines fuel over early running le =
    let pass = lines_pass false answers late in
    let ends : pass k ≡ some lines = rw (over, found_done lines, lines_pass) refl in
    let quiet : (m : ℕ) → m < k → pass m ≡ none =
      λ m first. rw (found_running (answers m) (running m first), early m first, lines_pass) refl in
    first_of_at pass k 0 lines (ap pass {x = 0 + k} {y = k} (omega arith) ∙ ends)
      (λ m first. ap pass {x = 0 + m} {y = m} (omega arith) ∙ quiet m first) fuel le
