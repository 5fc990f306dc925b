-- ===== src/Jobs/Store/Parted.antt =====
-- The lines of a job in its table and those behind them (internal/jobsvc/store.go): a log that is cut
-- where the table ends.
use easyworker.Base.{
  ℕ, ◌+◌, ◌≡◌, ◌≤◌, ◌<◌, ◌∙◌, refl, ap, ap₂, subst, Bool, true, false, not, List, [], ◌∷◌, ◌++◌,
  arith, leb, length, All, keep, inl, inr, Bool-cases,
}
use mathlib.Core.List.{append-nil, Permᴰ}
use mathlib.Core.List.Permᴰ.{nil, cons, swap, trans}
use mathlib.Core.List.Permᴰ
use easyworker.Jobs.Row.{StoreLine}
use easyworker.Jobs.Store.Held.{Numbered}

pub length-Perm : {xs ys : List StoreLine} → Permᴰ xs ys → length xs ≡ length ys
length-Perm nil = refl
length-Perm (cons e p) = omega (arith, length-Perm p)
length-Perm (swap e f) = refl
length-Perm (trans p q) = length-Perm p ∙ length-Perm q

pub keep_lines-append :
    (p : StoreLine → Bool) (xs ys : List StoreLine) → keep p (xs ++ ys) ≡ keep p xs ++ keep p ys
keep_lines-append p [] ys = refl
keep_lines-append p (x ∷ xs) ys = ground (arith, keep_lines-append p xs ys)

keep_two :
    (p : StoreLine → Bool) (a b : StoreLine) (l : List StoreLine)
    → Permᴰ (keep p (a ∷ b ∷ l)) (keep p (b ∷ a ∷ l))
keep_two p a b l = elim (Bool-cases (p a)) [
  | inl pa ↦ elim (Bool-cases (p b)) [
    | inl pb ↦ rw (pa, pb) (swap refl refl)
    | inr pb ↦ rw (pa, pb) (Permᴰ.refl _)
  ]
  | inr pa ↦ rw pa (Permᴰ.refl _)
]

keep_one :
    (p : StoreLine → Bool) (a : StoreLine) (xs ys : List StoreLine)
    → Permᴰ (keep p xs) (keep p ys)
    → Permᴰ (keep p (a ∷ xs)) (keep p (a ∷ ys))
keep_one p a xs ys h = elim (Bool-cases (p a)) [
  | inl hit ↦ rw hit (cons refl h)
  | inr miss ↦ rw miss h
]

-- What is kept of lines does not depend on their order.
pub keep-Perm :
    (p : StoreLine → Bool) {xs ys : List StoreLine} → Permᴰ xs ys → Permᴰ (keep p xs) (keep p ys)
keep-Perm p nil = nil
keep-Perm p (cons {a = a} {b = b} {l₁ = xs} {l₂ = ys} e h) =
    subst (λ (x : StoreLine). Permᴰ (keep p (a ∷ xs)) (keep p (x ∷ ys))) e
      (keep_one p a xs ys (keep-Perm p h))
keep-Perm p (swap {a = a} {b = b} {b' = b'} {l = l} e f) =
    subst (λ (x : StoreLine). Permᴰ (keep p (a ∷ b ∷ l)) (keep p (x ∷ b' ∷ l))) f
      (subst (λ (x : StoreLine). Permᴰ (keep p (a ∷ b ∷ l)) (keep p (b ∷ x ∷ l))) e
        (keep_two p a b l))
keep-Perm p (trans h k) = trans (keep-Perm p h) (keep-Perm p k)

-- Up to a number, and beyond it.
abbrev pub low : ℕ → StoreLine → Bool
low n l = leb l.seq n

abbrev pub high : ℕ → StoreLine → Bool
high n l = not (leb l.seq n)

keep-low :
    (n : ℕ) (xs : List StoreLine)
    → All (λ l. l.seq ≤ n) xs
    → (keep (low n) xs ≡ xs) × (keep (high n) xs ≡ [])
keep-low n [] h = (refl, refl)
keep-low n (x ∷ xs) h =
    let (a, b) = keep-low n xs h.1 in
    let hit : leb x.seq n ≡ true = ground (arith, h.0) in rw hit (ap (λ t. x ∷ t) a, b)

keep-high :
    (n : ℕ) (xs : List StoreLine)
    → All (λ l. n < l.seq) xs
    → (keep (low n) xs ≡ []) × (keep (high n) xs ≡ xs)
keep-high n [] h = (refl, refl)
keep-high n (x ∷ xs) h =
    let (a, b) = keep-high n xs h.1 in
    let miss : leb x.seq n ≡ false = ground (arith, h.0) in rw miss (a, ap (λ t. x ∷ t) b)

pub Numbered-high :
    (n k : ℕ) (log : List StoreLine) → n ≤ k → Numbered k log → All (λ l. n < l.seq) log
Numbered-high n k [] le c = tt
Numbered-high n k (l ∷ log) le c =
    (omega (arith, le, c.0), Numbered-high n (k + 1) log (omega (arith, le)) c.1)

-- A numbered log is cut at a number.
pub Numbered-cut :
    (n k : ℕ) (log : List StoreLine) → Numbered k log → keep (low n) log ++ keep (high n) log ≡ log
Numbered-cut n k [] c = refl
Numbered-cut n k (l ∷ log) c = elim (Bool-cases (leb l.seq n)) [
  | inl below ↦ rw below (ap (λ t. l ∷ t) (Numbered-cut n (k + 1) log c.1))
  | inr above ↦
      let beyond : n ≤ k + 1 = ground (arith, above, c.0) in
      let (a, b) = keep-high n log (Numbered-high n (k + 1) log beyond c.1) in
      rw above (ap₂ (λ s t. s ++ (l ∷ t)) a b)
]

-- Lines that make up a log in any order, those of the first part up to a number and the others beyond
-- it: the log is cut in two parts that have the same lines.
pub log_parts :
    (n : ℕ) (xs ys log : List StoreLine)
    → All (λ l. l.seq ≤ n) xs
    → All (λ l. n < l.seq) ys
    → Numbered 0 log
    → Permᴰ (xs ++ ys) log
    → (old : List StoreLine) × (new : List StoreLine) × (old ++ new ≡ log)
      × Permᴰ xs old
      × Permᴰ ys new
log_parts n xs ys log hx hy c p =
    let (xl, xh) = keep-low n xs hx in
    let (yl, yh) = keep-high n ys hy in
    let lows = keep_lines-append (low n) xs ys ∙ (ap₂ (λ s t. s ++ t) xl yl ∙ append-nil xs) in
    let highs = keep_lines-append (high n) xs ys ∙ ap₂ (λ s t. s ++ t) xh yh in
    (
      keep (low n) log,
      keep (high n) log,
      Numbered-cut n 0 log c,
      subst (λ t. Permᴰ t (keep (low n) log)) lows (keep-Perm (low n) p),
      subst (λ t. Permᴰ t (keep (high n) log)) highs (keep-Perm (high n) p),
    )
