-- ===== src/Jobs/Manager/Pages.antt =====
-- The pages of `OutputLines` (internal/jobsvc/manager.go).
use easyworker.Base.{
  ℕ, ◌%◌, ◌||◌, zero, suc, ◌-◌, ◌≤◌, ◌<◌, ◌≡◌, ◌∙◌, refl, sym, ap, true, some, List, [], ◌∷◌, ◌++◌,
  map, arith, inl, inr, ltb, if◌then◌else◌, length, length-drop, take, drop, ℤ, pos, negsuc, int32,
  take-append-drop, Bool-cases,
}
use easyworker.Shell.LineBuffer.{LineRec, line_of}
use easyworker.Jobs.Manager.{Page, page, slice, page_start, page_end, cut_page}

-- The first line of a page: a negative number counts from the end.
abbrev pub first_line : ℕ → ℤ → ℕ
first_line n (pos s) = if ltb n s then n else s
first_line n (negsuc s) = n - suc s

-- The line behind the page; no positive number is the end.
abbrev pub line_behind : ℕ → ℕ → ℤ → ℕ
line_behind n s (negsuc e) = n
line_behind n s (pos e) = if ltb n e || ltb e 1 then n else if ltb e s then s else e

abbrev pub part : ℕ → ℕ → List LineRec → Page
part s e recs = record {
  lines = map line_of (take (e - s) (drop s recs));
  total = pos (length recs);
  start_line = pos s;
  end_line = pos e;
}

-- A start that `int32` can hold.
abbrev pub IsStart : ℤ → Type 0
IsStart (pos s) = s < 2147483648
IsStart (negsuc s) = s < 2147483648

int32-small : (n : ℕ) → n < 2147483648 → int32 (pos n) ≡ pos n
int32-small n h =
    let same : n % 4294967296 ≡ n = omega arith in
    let low : ltb (n % 4294967296) 2147483648 ≡ true = ground (arith, same) in rw (low, same) refl

int32-small_neg : (n : ℕ) → n < 2147483648 → int32 (negsuc n) ≡ negsuc n
int32-small_neg n h =
    let same : n % 4294967296 ≡ n = omega arith in
    let low : ltb (n % 4294967296) 2147483648 ≡ true = ground (arith, same) in rw (low, same) refl

page_start-first_line :
    (n : ℕ) (start : ℤ)
    → n < 2147483648
    → IsStart start
    → page_start (pos n) start ≡ pos (first_line n start)
unfolding page_start
page_start-first_line n (pos s) h hs = ground arith
page_start-first_line n (negsuc s) h hs = elim (Bool-cases (ltb s n)) [
  | inl inside ↦
      let small = int32-small (n - suc s) (omega arith) in
      rw (page_start, inside, small) (ground (arith, inside))
  | inr before ↦
      let small = int32-small_neg (s - n) (omega arith) in
      rw (page_start, before, small) (ground (arith, before))
]

page_end-line_behind :
    (n s : ℕ) (end' : ℤ) → s ≤ n → page_end (pos n) (pos s) end' ≡ pos (line_behind n s end')
unfolding page_end
page_end-line_behind n s (pos e) le = ground arith
page_end-line_behind n s (negsuc e) le = ground arith

first_line-le : (n : ℕ) (start : ℤ) → first_line n start ≤ n
first_line-le n (pos s) = ground arith
first_line-le n (negsuc s) = omega arith

line_behind-bounds :
    (n s : ℕ) (end' : ℤ) → s ≤ n → (s ≤ line_behind n s end') × (line_behind n s end' ≤ n)
line_behind-bounds n s (pos e) le = (ground arith, ground arith)
line_behind-bounds n s (negsuc e) le = (le, omega arith)

slice_whole :
    (s e : ℕ) (recs : List LineRec)
    → s ≤ e
    → e ≤ length recs
    → slice (pos s) (pos e) recs ≡ some (take (e - s) (drop s recs))
unfolding slice
slice_whole s e recs a b = ground arith

cut_page_whole :
    (s e : ℕ) (recs : List LineRec)
    → s ≤ e
    → e ≤ length recs
    → cut_page (pos (length recs)) (pos s) (pos e) recs ≡ some (part s e recs)
unfolding cut_page
cut_page_whole s e recs a b = rw (slice_whole s e recs a b, cut_page) refl

-- A history of fewer than 2^31 lines is paged without a panic, whatever range is asked for: the page
-- has the lines from the first up to the one behind it, and reports these two and the total.
pub page-part :
    (start end' : ℤ) (recs : List LineRec)
    → length recs < 2147483648
    → IsStart start
    → let s = first_line (length recs) start in
      let e = line_behind (length recs) s end' in
      (s ≤ e) × (e ≤ length recs) × (page start end' recs ≡ some (part s e recs))
unfolding page
page-part start end' recs h hs =
    let n = length recs in
    let s = first_line n start in
    let e = line_behind n s end' in
    let (a, b) = line_behind-bounds n s end' (first_line-le n start) in
    (
      a,
      b,
      ap (λ m. cut_page m (page_start m start) (page_end m (page_start m start) end') recs)
            (int32-small n h)
          ∙ (ap (λ t. cut_page (pos n) t (page_end (pos n) t end') recs)
                (page_start-first_line n start h hs)
              ∙ (ap (λ t. cut_page (pos n) (pos s) t recs)
                    (page_end-line_behind n s end' (first_line-le n start))
                  ∙ cut_page_whole s e recs a b)),
    )

take_all : (n : ℕ) (recs : List LineRec) → length recs ≡ n → take n recs ≡ recs
take_all zero [] h = refl
take_all zero (r ∷ recs) h = absurd (omega (arith, h))
take_all (suc n) [] h = refl
take_all (suc n) (r ∷ recs) h = ap (λ t. r ∷ t) (take_all n recs (omega (arith, h)))

map-append : (xs ys : List LineRec) → map line_of (xs ++ ys) ≡ map line_of xs ++ map line_of ys
map-append [] ys = refl
map-append (x ∷ xs) ys = ap (λ t. x.line ∷ t) (map-append xs ys)

-- A client that reads a history of fewer than 2^31 lines in two requests, up to line k and from line k
-- to the end, gets every line once and in order, for each k from 1 up to the number of lines.
pub pages_cover :
    (k : ℕ) (recs : List LineRec)
    → length recs < 2147483648
    → 0 < k
    → k ≤ length recs
    → (p : Page) × (q : Page) × (page (pos 0) (pos k) recs ≡ some p)
      × (page (pos k) (pos 0) recs ≡ some q)
      × (p.lines ++ q.lines ≡ map line_of recs)
pages_cover k recs h z le =
    let n = length recs in
    let (_, _, first) = page-part (pos 0) (pos k) recs h (omega arith) in
    let (_, _, second) = page-part (pos k) (pos 0) recs h (omega arith) in
    let s1 : first_line n (pos 0) ≡ 0 = ground arith in
    let e1 : line_behind n 0 (pos k) ≡ k = ground arith in
    let s2 : first_line n (pos k) ≡ k = ground arith in
    let e2 : line_behind n k (pos 0) ≡ n = ground arith in
    let whole : k - 0 ≡ k = omega arith in
    (
      part 0 k recs,
      part k n recs,
      rw (s1, e1) at first,
      rw (s2, e2) at second,
      ap (λ m. map line_of (take m recs) ++ map line_of (take (n - k) (drop k recs))) whole
          ∙ sym (map-append (take k recs) (take (n - k) (drop k recs)))
          ∙ ap (map line_of) (
              ap (λ t. take k recs ++ t) (take_all (n - k) (drop k recs) (length-drop k recs))
              ∙ take-append-drop k recs),
    )
