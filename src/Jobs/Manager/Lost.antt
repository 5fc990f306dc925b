-- ===== src/Jobs/Manager/Lost.antt =====
-- The history that is left of a log when some of its lines never reach the table (`readMerged` of
-- internal/jobsvc/manager.go after a restart).
use easyworker.Base.{
  ℕ, ◌+◌, ◌≡◌, ◌≢◌, ◌<◌, ◌∙◌, refl, ap, ap₂, subst, Bool, true, false, not, ◌||◌, ◌==◌, List, [],
  ◌∷◌, ◌++◌, arith, Bytes, All, All-of_append, keep, ℤ, inl, inr, Bool-cases,
}
use mathlib.Core.List.{append-nil, Permᴰ}
use mathlib.Core.List.Permᴰ
use easyworker.Jobs.Row.{StoreLine, selected, matching, sort_seq}
use easyworker.Jobs.Store.Held.{Numbered, Distinct}
use easyworker.Jobs.Store.Permuted.{Distinct-Perm, Numbered-Distinct, sort-Perm}
use easyworker.Jobs.Store.Parted.{keep-Perm, keep_lines-append, Numbered-high}
use easyworker.Jobs.Manager.Merge.{Above, Strict, sort-Strict}
use easyworker.Jobs.Store.{Store}
use easyworker.Jobs.Store.Held.{of_job, waiting}
use easyworker.Jobs.Job.{Job}

-- The lines of a job that the table does not have: they wait for the writer, or their callbacks have not
-- run.
abbrev pub unstored : Job → Store → List StoreLine
unstored j s = of_job j.id (waiting s) ++ j.calling

-- One of the lines has the number of `l`.
abbrev is_among : List StoreLine → StoreLine → Bool
is_among [] l = false
is_among (r ∷ lines) l = r.seq == l.seq || is_among lines l

-- The log without those lines.
abbrev pub without : List StoreLine → List StoreLine → List StoreLine
without lost = keep λ l. not (is_among lost l)

among_cons :
    (y : StoreLine) (ys xs : List StoreLine)
    → All (λ l. is_among ys l ≡ true) xs
    → All (λ l. is_among (y ∷ ys) l ≡ true) xs
among_cons y ys [] h = tt
among_cons y ys (x ∷ xs) h = (ground (arith, h.0), among_cons y ys xs h.1)

self_among : (ys : List StoreLine) → All (λ l. is_among ys l ≡ true) ys
self_among [] = tt
self_among (y ∷ ys) = (ground arith, among_cons y ys ys (self_among ys))

not_among :
    (l : StoreLine) (ys : List StoreLine) → All (λ r. r.seq ≢ l.seq) ys → is_among ys l ≡ false
not_among l [] h = refl
not_among l (y ∷ ys) h =
    let rest = not_among l ys h.1 in let apart = h.0 in ground (arith, rest, apart)

apart_parts : (xs ys : List StoreLine) → Distinct (xs ++ ys) → All (λ l. is_among ys l ≡ false) xs
apart_parts [] ys d = tt
apart_parts (x ∷ xs) ys d = (not_among x ys (All-of_append _ xs ys d.0).1, apart_parts xs ys d.1)

without_others : (ys xs : List StoreLine) → All (λ l. is_among ys l ≡ false) xs → without ys xs ≡ xs
without_others ys [] h = refl
without_others ys (x ∷ xs) h = rw h.0 (ap (λ t. x ∷ t) (without_others ys xs h.1))

without_self : (ys xs : List StoreLine) → All (λ l. is_among ys l ≡ true) xs → without ys xs ≡ []
without_self ys [] h = refl
without_self ys (x ∷ xs) h = rw h.0 (without_self ys xs h.1)

pub keep-All :
    (p : StoreLine → Bool) (P : StoreLine → Type 0) (xs : List StoreLine)
    → All P xs
    → All P (keep p xs)
keep-All p P [] h = tt
keep-All p P (x ∷ xs) h = elim (Bool-cases (p x)) [
  | inl kept ↦ rw kept (h.0, keep-All p P xs h.1)
  | inr cut ↦ rw cut (keep-All p P xs h.1)
]

-- The numbers rise.
Rising : List StoreLine → Type 0
Rising [] = Unit {0}
Rising (l ∷ lines) = All (λ r. l.seq < r.seq) lines × Rising lines

Numbered-Rising : (n : ℕ) (log : List StoreLine) → Numbered n log → Rising log
unfolding Rising
Numbered-Rising n [] c = tt
Numbered-Rising n (l ∷ log) c =
    (Numbered-high l.seq (n + 1) log (omega (arith, c.0)) c.1, Numbered-Rising (n + 1) log c.1)

keep-Rising : (p : StoreLine → Bool) (log : List StoreLine) → Rising log → Rising (keep p log)
unfolding Rising
keep-Rising p [] h = tt
keep-Rising p (l ∷ log) h = elim (Bool-cases (p l)) [
  | inl kept ↦ rw kept (keep-All p (λ r. l.seq < r.seq) log h.0, keep-Rising p log h.1)
  | inr cut ↦ rw cut (keep-Rising p log h.1)
]

pub All-matching :
    (id : Bytes) (stream : ℤ) (n : ℕ) (log : List StoreLine)
    → All (λ r. n < r.seq) log
    → Above n (matching id stream log)
unfolding matching
All-matching id stream n [] h = tt
All-matching id stream n (l ∷ log) h = elim (Bool-cases (selected id stream l)) [
  | inl hit ↦ rw (hit, matching) (h.0, All-matching id stream n log h.1)
  | inr miss ↦ rw (miss, matching) (All-matching id stream n log h.1)
]

Rising-Strict :
    (id : Bytes) (stream : ℤ) (log : List StoreLine) → Rising log → Strict (matching id stream log)
unfolding Rising matching
Rising-Strict id stream [] h = tt
Rising-Strict id stream (l ∷ log) h = elim (Bool-cases (selected id stream l)) [
  | inl hit ↦
      rw (hit, matching) (All-matching id stream l.seq log h.0, Rising-Strict id stream log h.1)
  | inr miss ↦ rw (miss, matching) (Rising-Strict id stream log h.1)
]

Distinct-kept : (q : StoreLine → Bool) (xs : List StoreLine) → Distinct xs → Distinct (keep q xs)
Distinct-kept q [] d = tt
Distinct-kept q (x ∷ xs) d = elim (Bool-cases (q x)) [
  | inl in_it ↦ rw in_it (keep-All q (λ r. r.seq ≢ x.seq) xs d.0, Distinct-kept q xs d.1)
  | inr cut ↦ rw cut (Distinct-kept q xs d.1)
]

-- When a part of a log's lines and the lost ones make up the log, in any order, the part has the lines
-- of the log without those that are lost.
pub without-Perm :
    (kept lost log : List StoreLine)
    → Distinct (kept ++ lost)
    → Permᴰ (kept ++ lost) log
    → Permᴰ kept (without lost log)
without-Perm kept lost log distinct p =
    let rest = λ (l : StoreLine). not (is_among lost l) in
    let same =
      keep_lines-append rest kept lost
      ∙ (ap₂ (λ s t. s ++ t) (without_others lost kept (apart_parts kept lost distinct))
            (without_self lost lost (self_among lost))
          ∙ append-nil kept) in
    subst (λ t. Permᴰ t (without lost log)) same (keep-Perm rest p)

pub log-Distinct : (xs log : List StoreLine) → Numbered 0 log → Permᴰ xs log → Distinct xs
log-Distinct xs log c p = Distinct-Perm (Permᴰ.symm p) (Numbered-Distinct 0 log c)

-- In order, that part is the log without those that are lost.
pub sort-without :
    (id : Bytes) (stream : ℤ) (kept lost log : List StoreLine)
    → Numbered 0 log
    → Permᴰ (kept ++ lost) log
    → sort_seq (matching id stream kept) ≡ matching id stream (without lost log)
sort-without id stream kept lost log c p =
    let rest = λ (l : StoreLine). not (is_among lost l) in
    let order = without-Perm kept lost log (log-Distinct (kept ++ lost) log c p) p in
    let rising = keep-Rising rest log (Numbered-Rising 0 log c) in
    sort-Perm id stream order
      (Distinct-Perm (Permᴰ.symm order) (Distinct-kept rest log (Numbered-Distinct 0 log c)))
    ∙ sort-Strict _ (Rising-Strict id stream (without lost log) rising)
