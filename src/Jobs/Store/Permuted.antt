-- ===== src/Jobs/Store/Permuted.antt =====
-- Lines in another order than that of their numbers (internal/jobsvc/store.go), and the sorting that
-- makes up for it.
use easyworker.Base.{
  ℕ, ◌+◌, ◌≡◌, ◌≢◌, ◌≤◌, ◌∙◌, refl, sym, ap, ap₂, subst, List, [], ◌∷◌, arith, if◌then◌else◌, Bytes,
  All, ℤ, inl, inr, Bool-cases,
}
use mathlib.Core.List.{Permᴰ}
use mathlib.Core.List.Permᴰ.{nil, cons, swap, trans}
use easyworker.Shell.LineBuffer.{LineRec}
use easyworker.Jobs.Row.{StoreLine, rec_of, selected, matching, sort_seq, insert_seq}
use easyworker.Jobs.Store.Held.{Numbered, Distinct}

pub All-Perm : (P : StoreLine → Type 0) {xs ys : List StoreLine} → Permᴰ xs ys → All P xs → All P ys
All-Perm P nil h = tt
All-Perm P (cons e p) h = (subst P e h.0, All-Perm P p h.1)
All-Perm P (swap e f) h = (subst P f h.1.0, (subst P e h.0, h.1.1))
All-Perm P (trans p q) h = All-Perm P q (All-Perm P p h)

pub Distinct-Perm : {xs ys : List StoreLine} → Permᴰ xs ys → Distinct xs → Distinct ys
Distinct-Perm nil h = tt
Distinct-Perm {ys = y ∷ ys} (cons e p) h = (
  subst (λ (x : StoreLine). All (λ r. r.seq ≢ x.seq) ys) e (All-Perm _ p h.0),
  Distinct-Perm p h.1,
)
Distinct-Perm (swap {b = b} {b' = b'} {l = l} e f) h =
    subst (λ (x : StoreLine). Distinct (x ∷ b' ∷ l)) f
      (subst (λ (x : StoreLine). Distinct (b ∷ x ∷ l)) e
        (((λ same. h.0.0 (sym same), h.1.0), (h.0.1, h.1.1))))
Distinct-Perm (trans p q) h = Distinct-Perm q (Distinct-Perm p h)

Numbered-apart :
    (k n : ℕ) (log : List StoreLine) → k ≤ n → Numbered n log → All (λ r. r.seq ≢ k) log
Numbered-apart k n [] le c = tt
Numbered-apart k n (l ∷ log) le c =
    (λ e. absurd (omega (arith, c.0, e, le)), Numbered-apart k (n + 1) log (omega (arith, le)) c.1)

pub Numbered-Distinct : (n : ℕ) (log : List StoreLine) → Numbered n log → Distinct log
Numbered-Distinct n [] c = tt
Numbered-Distinct n (l ∷ log) c =
    (Numbered-apart l.seq (n + 1) log (omega (arith, c.0)) c.1, Numbered-Distinct (n + 1) log c.1)

-- Two lines of different numbers find their places in either order.
insert_insert :
    (r s : LineRec) (recs : List LineRec)
    → r.seq ≢ s.seq
    → insert_seq r (insert_seq s recs) ≡ insert_seq s (insert_seq r recs)
unfolding insert_seq
insert_insert r s [] ne = ground arith
insert_insert r s (t ∷ recs) ne = let ih = insert_insert r s recs ne in ground (arith, ih)

-- A line in a sorted history, if it is one of the lines that are read.
abbrev put : Bytes → ℤ → StoreLine → List LineRec → List LineRec
put id stream l recs = if selected id stream l then insert_seq (rec_of l) recs else recs

sort-cons :
    (id : Bytes) (stream : ℤ) (l : StoreLine) (log : List StoreLine)
    → sort_seq (matching id stream (l ∷ log)) ≡ put id stream l (sort_seq (matching id stream log))
unfolding matching sort_seq
sort-cons id stream l log = elim (Bool-cases (selected id stream l)) [
  | inl hit ↦ rw (hit, matching, sort_seq) refl
  | inr miss ↦ rw (miss, matching) refl
]

put-put :
    (id : Bytes) (stream : ℤ) (a b : StoreLine) (recs : List LineRec)
    → a.seq ≢ b.seq
    → put id stream a (put id stream b recs) ≡ put id stream b (put id stream a recs)
put-put id stream a b recs ne = elim (Bool-cases (selected id stream a)) [
  | inl ha ↦ elim (Bool-cases (selected id stream b)) [
    | inl hb ↦ rw (ha, hb) (insert_insert (rec_of a) (rec_of b) recs ne)
    | inr hb ↦ rw (ha, hb) refl
  ]
  | inr ha ↦ rw ha refl
]

-- Lines of different numbers have one sorted history, whatever their order.
pub sort-Perm :
    (id : Bytes) (stream : ℤ) {xs ys : List StoreLine}
    → Permᴰ xs ys
    → Distinct xs
    → sort_seq (matching id stream xs) ≡ sort_seq (matching id stream ys)
sort-Perm id stream nil d = refl
sort-Perm id stream (cons {a = a} {b = b} {l₁ = xs} {l₂ = ys} e p) d =
    sort-cons id stream a xs
    ∙ (ap₂ (put id stream) e (sort-Perm id stream p d.1) ∙ sym (sort-cons id stream b ys))
sort-Perm id stream (swap {a = a} {b = b} {a' = a'} {b' = b'} {l = l} e f) d =
    sort-cons id stream a (b ∷ l)
    ∙ (ap (put id stream a) (sort-cons id stream b l)
        ∙ (put-put id stream a b (sort_seq (matching id stream l)) (λ same. d.0.0 (sym same))
            ∙ (ap (put id stream b) (sym (sort-cons id stream a l))
                ∙ (sym (sort-cons id stream b (a ∷ l))
                    ∙ ap₂ (λ (x y : StoreLine). sort_seq (matching id stream (x ∷ y ∷ l))) f e))))
sort-Perm id stream (trans p q) d =
    sort-Perm id stream p d ∙ sort-Perm id stream q (Distinct-Perm p d)
