-- ===== src/Jobs/Manager/Beyond.antt =====
-- The lines of a job beyond the highest that is stored (`readMerged` of internal/jobsvc/manager.go): what the
-- rings add to the table when lines were stored before earlier ones.
use easyworker.Base.{
  ℕ, ◌+◌, ◌≡◌, ◌≤◌, ◌<◌, ◌∙◌, refl, sym, ap, ap₂, subst, Bool, true, List, [], ◌∷◌, ◌++◌, arith,
  leb, if◌then◌else◌, Bytes, length, length-append, All, keep, ℤ, pos, inl, inr, Bool-cases,
}
use mathlib.Core.List.{Permᴰ}
use mathlib.Core.List.Permᴰ.{nil, cons, swap, trans}
use easyworker.Shell.LineBuffer.{LineRec, LineBuffer}
use easyworker.Shell.LineBuffer.Ring.{Window}
use easyworker.Jobs.Row.{StoreLine, selected, matching, sort_seq}
use easyworker.Jobs.Store.{Store}
use easyworker.Jobs.Store.Held.{Numbered, of_job}
use easyworker.Jobs.Store.Parted.{low, high, keep-Perm, keep_lines-append, Numbered-cut}
use easyworker.Jobs.Job.{Job}
use easyworker.Jobs.Job.Logged.{Logged}
use easyworker.Jobs.Manager.{highest_seq, wants, newer, mem_suffix}
use easyworker.Jobs.Manager.Merge.{Above, part, matching-append, merge-Streams}
use easyworker.Jobs.Manager.Lost.{
  unstored, without, without-Perm, log-Distinct, keep-All, All-matching,
}
use easyworker.Jobs.Manager.History.{
  Upto, selected_wanted, Numbered-of_append, newer-Window, length-matching,
}

highest-Upto : (n : ℕ) (recs : List LineRec) → highest_seq recs ≤ n → Upto n recs
unfolding highest_seq
highest-Upto n [] le = tt
highest-Upto n (r ∷ recs) le = (omega (arith, le), highest-Upto n recs (omega (arith, le)))

Upto-Above-nil : (n : ℕ) (recs : List LineRec) → Upto n recs → Above n recs → recs ≡ []
Upto-Above-nil n [] u a = refl
Upto-Above-nil n (r ∷ recs) u a = absurd (omega (arith, u.0, a.0))

high-above : (n : ℕ) (xs : List StoreLine) → All (λ l. n < l.seq) (keep (high n) xs)
high-above n [] = tt
high-above n (x ∷ xs) = elim (Bool-cases (leb x.seq n)) [
  | inl below ↦ rw below (high-above n xs)
  | inr above ↦ rw above (ground (arith, above), high-above n xs)
]

low-below : (n : ℕ) (xs : List StoreLine) → All (λ l. l.seq ≤ n) (keep (low n) xs)
low-below n [] = tt
low-below n (x ∷ xs) = elim (Bool-cases (leb x.seq n)) [
  | inl below ↦ rw below (ground (arith, below), low-below n xs)
  | inr above ↦ rw above (low-below n xs)
]

All-matching_le :
    (id : Bytes) (stream : ℤ) (n : ℕ) (log : List StoreLine)
    → All (λ r. r.seq ≤ n) log
    → Upto n (matching id stream log)
unfolding matching
All-matching_le id stream n [] h = tt
All-matching_le id stream n (l ∷ log) h = elim (Bool-cases (selected id stream l)) [
  | inl hit ↦ rw (hit, matching) (h.0, All-matching_le id stream n log h.1)
  | inr miss ↦ rw (miss, matching) (All-matching_le id stream n log h.1)
]

matching_one :
    (id : Bytes) (stream : ℤ) (l : StoreLine) (log : List StoreLine)
    → length (matching id stream (l ∷ log))
      ≡ (if selected id stream l then 1 else 0) + length (matching id stream log)
unfolding matching
matching_one id stream l log = ground arith

length-matching-Perm :
    (id : Bytes) (stream : ℤ) {xs ys : List StoreLine}
    → Permᴰ xs ys
    → length (matching id stream xs) ≡ length (matching id stream ys)
length-matching-Perm id stream nil = refl
length-matching-Perm id stream (cons {a = a} {b = b} {l₁ = xs} {l₂ = ys} e p) =
    let ih = length-matching-Perm id stream p in
    subst
      (λ (x : StoreLine).
        length (matching id stream (a ∷ xs)) ≡ length (matching id stream (x ∷ ys)))
      e (omega (arith, matching_one id stream a xs, matching_one id stream a ys, ih))
length-matching-Perm id stream (swap {a = a} {b = b} {b' = b'} {l = l} e f) =
    subst
      (λ (x : StoreLine).
        length (matching id stream (a ∷ b ∷ l)) ≡ length (matching id stream (x ∷ b' ∷ l)))
      f
      (subst
        (λ (x : StoreLine).
          length (matching id stream (a ∷ b ∷ l)) ≡ length (matching id stream (b ∷ x ∷ l)))
        e
        (omega (
          arith,
          matching_one id stream a (b ∷ l),
          matching_one id stream b l,
          matching_one id stream b (a ∷ l),
          matching_one id stream a l,
        )))
length-matching-Perm id stream (trans p q) =
    length-matching-Perm id stream p ∙ length-matching-Perm id stream q

length-keep : (p : StoreLine → Bool) (xs : List StoreLine) → length (keep p xs) ≤ length xs
length-keep p [] = omega arith
length-keep p (x ∷ xs) = let ih = length-keep p xs in ground (arith, ih)

Upto-matching-keep :
    (id : Bytes) (stream : ℤ) (p : StoreLine → Bool) (n : ℕ) (log : List StoreLine)
    → Upto n (matching id stream log)
    → Upto n (matching id stream (keep p log))
unfolding matching
Upto-matching-keep id stream p n [] u = tt
Upto-matching-keep id stream p n (l ∷ log) u = elim (Bool-cases (selected id stream l)) [
  | inl hit ↦
      let rest = Upto-matching-keep id stream p n log (rw (hit, matching) at u).1 in
      elim (Bool-cases (p l)) [
        | inl kept ↦ rw (kept, hit, matching) ((rw (hit, matching) at u).0, rest)
        | inr cut ↦ rw cut rest
      ]
  | inr miss ↦
      let rest = Upto-matching-keep id stream p n log (rw (miss, matching) at u) in
      elim (Bool-cases (p l)) [ inl kept ↦ rw (kept, miss, matching) rest | inr cut ↦ rw cut rest ]
]

-- Nothing of the lines that are read lies beyond the highest of them.
beyond_highest :
    (id : Bytes) (stream : ℤ) (n : ℕ) (xs : List StoreLine)
    → highest_seq (matching id stream xs) ≤ n
    → matching id stream (keep (high n) xs) ≡ []
beyond_highest id stream n xs le =
    Upto-Above-nil n (matching id stream (keep (high n) xs))
      (Upto-matching-keep id stream (high n) n xs (highest-Upto n _ le))
      (All-matching id stream n _ (high-above n xs))

length-matching_wanted :
    (id : Bytes) (stream : ℤ) (k : ℕ) (xs : List StoreLine)
    → wants stream k ≡ true
    → length (matching id (pos k) xs) ≤ length (matching id stream xs)
unfolding matching
length-matching_wanted id stream k [] wanted = omega arith
length-matching_wanted id stream k (x ∷ xs) wanted =
    let ih = length-matching_wanted id stream k xs wanted in
    elim (Bool-cases (selected id (pos k) x)) [
      | inl hit ↦ rw (hit, selected_wanted id stream k x wanted hit, matching) (omega (arith, ih))
      | inr miss ↦ rw (miss, matching) (omega (arith, ih, matching_one id stream x xs))
    ]

-- A stream that is read has no more lines beyond the highest stored number than were not stored.
beyond_fits :
    (id : Bytes) (stream : ℤ) (k n : ℕ) (kept lost log : List StoreLine)
    → wants stream k ≡ true
    → Numbered 0 log
    → Permᴰ (kept ++ lost) log
    → highest_seq (matching id stream (without lost log)) ≤ n
    → length (matching id (pos k) (keep (high n) log)) ≤ length lost
beyond_fits id stream k n kept lost log wanted c p le =
    let left = without-Perm kept lost log (log-Distinct (kept ++ lost) log c p) p in
    let moved = length-matching-Perm id (pos k) (keep-Perm (high n) p) in
    let parts =
      ap (λ t. length (matching id (pos k) t)) (keep_lines-append (high n) kept lost)
      ∙ (ap length (matching-append id (pos k) (keep (high n) kept) (keep (high n) lost))
          ∙ length-append (matching id (pos k) (keep (high n) kept)) _) in
    let same = length-matching-Perm id (pos k) (keep-Perm (high n) left) in
    let fewer = length-matching_wanted id stream k (keep (high n) (without lost log)) wanted in
    let empty = ap length (beyond_highest id stream n (without lost log) le) in
    let some_lost = length-matching id (pos k) (keep (high n) lost) in
    omega (arith, moved, parts, same, fewer, empty, some_lost, length-keep (high n) lost)

-- What a ring of a job has beyond a number, where those lines fit in it.
ring_beyond :
    (id : Bytes) (k n : ℕ) (lb : LineBuffer) (log : List StoreLine)
    → Numbered 0 log
    → Window lb (matching id (pos k) log)
    → length (matching id (pos k) (keep (high n) log)) ≤ lb.max_lines
    → keep (newer n) lb.recs ≡ matching id (pos k) (keep (high n) log)
ring_beyond id k n lb log c w fits =
    let split =
      ap (matching id (pos k)) (sym (Numbered-cut n 0 log c))
      ∙ matching-append id (pos k) (keep (low n) log) (keep (high n) log) in
    newer-Window n lb (matching id (pos k) (keep (low n) log))
      (matching id (pos k) (keep (high n) log)) (subst (Window lb) split w) fits
      (All-matching_le id (pos k) n _ (low-below n log))
      (All-matching id (pos k) n _ (high-above n log))

part_beyond :
    (id : Bytes) (stream : ℤ) (k n : ℕ) (lb : LineBuffer) (kept lost log : List StoreLine)
    → Numbered 0 log
    → Permᴰ (kept ++ lost) log
    → highest_seq (matching id stream (without lost log)) ≤ n
    → Window lb (matching id (pos k) log)
    → length lost ≤ lb.max_lines
    → (if wants stream k then keep (newer n) lb.recs else []) ≡ part id stream k (keep (high n) log)
part_beyond id stream k n lb kept lost log c p le w fits = elim (Bool-cases (wants stream k)) [
  | inl wanted ↦
      let size = beyond_fits id stream k n kept lost log wanted c p le in
      rw wanted (ring_beyond id k n lb log c w (omega (arith, size, fits)))
  | inr unwanted ↦ rw unwanted refl
]

-- What the memory adds are the lines of the log beyond the highest stored number.
pub mem_suffix-beyond :
    (out err : Bytes) (stream : ℤ) (n : ℕ) (j : Job) (s : Store) (log : List StoreLine)
    → Logged out err log j s
    → Permᴰ (of_job j.id s.lines ++ unstored j s) log
    → highest_seq (matching j.id stream (without (unstored j s) log)) ≤ n
    → length (unstored j s) ≤ j.stdout.max_lines
    → length (unstored j s) ≤ j.stderr.max_lines
    → mem_suffix stream n j ≡ matching j.id stream (keep (high n) log)
unfolding mem_suffix
mem_suffix-beyond out err stream n j s log h p le fo fe =
    let kept = of_job j.id s.lines in
    let lost = unstored j s in
    let c = h.entered.numbered in
    let cut = Numbered-cut n 0 log c in
    let new =
      (Numbered-of_append 0 (keep (low n) log) (keep (high n) log)
        (subst (Numbered 0) (sym cut) c)).1 in
    ap₂ (λ a b. sort_seq (a ++ b))
      (part_beyond j.id stream 0 n j.stdout kept lost log c p le h.stdout.window fo)
      (part_beyond j.id stream 1 n j.stderr kept lost log c p le h.stderr.window fe)
    ∙ merge-Streams j.id stream (0 + length (keep (low n) log)) (keep (high n) log)
        (keep-All (high n) _ log h.entered.own) (keep-All (high n) _ log h.entered.streams) new
