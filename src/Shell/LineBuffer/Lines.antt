-- ===== src/Shell/LineBuffer/Lines.antt =====
-- What the completed lines of a `LineBuffer` spell (internal/shellh/runner.go).
use easyworker.Base.{
  ℕ, ◌+◌, ◌≡◌, ◌≢◌, ◌∙◌, refl, sym, ap, subst, inl, inr, false, Bool-cases, List, [], ◌∷◌, ◌++◌,
  arith, ◌==◌, not, Bytes, length, length-append, All, All-append, keep,
}
use easyworker.Shell.LineBuffer.{LineRec, LineBuffer, Written, push_rec, write_byte, write}
use mathlib.Core.List.{append_assoc, append-nil}

-- The text without its carriage returns.
abbrev pub strip_cr : Bytes → Bytes
strip_cr = keep λ b. not (b == b'\r')

-- Each record's line, a line feed behind it.
abbrev pub unlines : List LineRec → Bytes
unlines [] = []
unlines (r ∷ rest) = r.line ++ (b'\n' ∷ unlines rest)

abbrev pub IsLine : Bytes → Type 0
IsLine = All λ b. (b ≢ b'\n') × (b ≢ b'\r')

-- Sequence numbers from n + 1 on, without a gap.
abbrev pub Consecutive : ℕ → List LineRec → Type 0
Consecutive n [] = Unit {0}
Consecutive n (r ∷ rest) = (r.seq ≡ n + 1) × Consecutive (n + 1) rest

pub unlines-append : (xs ys : List LineRec) → unlines (xs ++ ys) ≡ unlines xs ++ unlines ys
unlines-append [] ys = refl
unlines-append (r ∷ xs) ys = simp (unlines-append xs ys, append_assoc)

write_byte_spells :
    (b seq : ℕ) (lb : LineBuffer) (t : Bytes)
    → let w = write_byte b seq lb in
      unlines w.completed ++ (w.buffer.cur ++ t) ≡ lb.cur ++ (strip_cr (b ∷ []) ++ t)
unfolding write_byte
write_byte_spells b seq lb t =
    ground (arith, append_assoc lb.cur (b ∷ []) t, append_assoc lb.cur (b'\n' ∷ []) t)

strip_cr-cons : (b : ℕ) (p : Bytes) → strip_cr (b ∷ p) ≡ strip_cr (b ∷ []) ++ strip_cr p
strip_cr-cons b p = ground arith

-- A write spells its text: what was pending and the text without carriage returns are the
-- completed lines, a line feed behind each, and what is pending now.
pub write_spells :
    (p : Bytes) (seq : ℕ) (lb : LineBuffer)
    → let w = write p seq lb in unlines w.completed ++ w.buffer.cur ≡ lb.cur ++ strip_cr p
unfolding write
write_spells [] seq lb = sym (append-nil lb.cur)
write_spells (b ∷ p) seq lb =
    let one = write_byte b seq lb in
    let rest = write p one.seq one.buffer in
    simp (unlines-append one.completed rest.completed, append_assoc)
      (ap (λ t. unlines one.completed ++ t) (write_spells p one.seq one.buffer)
        ∙ write_byte_spells b seq lb (strip_cr p)
        ∙ ap (λ t. lb.cur ++ t) (sym (strip_cr-cons b p)))

-- What one round completes, numbers and leaves pending.
record Cut (seq : ℕ) (w : Written) : Type 0 where
  pub clean_lines : All (λ r. IsLine r.line) w.completed
  pub clean_rest : IsLine w.buffer.cur
  pub numbered : Consecutive seq w.completed
  pub counted : w.seq ≡ seq + length w.completed

ne_of_test : (b c : ℕ) → (b == c) ≡ false → b ≢ c
ne_of_test b c h = ground arith

write_byte-Cut : (b seq : ℕ) (lb : LineBuffer) → IsLine lb.cur → Cut seq (write_byte b seq lb)
unfolding write_byte push_rec
write_byte-Cut b seq lb h = elim (Bool-cases (b == b'\r')) [
  | inl cr ↦
      rw (cr, write_byte)
        (record { clean_lines = tt; clean_rest = h; numbered = tt; counted = omega arith })
  | inr not_cr ↦ elim (Bool-cases (b == b'\n')) [
    | inl lf ↦
        rw (not_cr, lf, write_byte)
          (record {
            clean_lines = (h, tt);
            clean_rest = ground arith;
            numbered = (refl, tt);
            counted = refl;
          })
    | inr not_lf ↦
        rw (not_cr, not_lf, write_byte)
          (record {
            clean_lines = tt;
            clean_rest =
                All-append _ lb.cur (b ∷ []) h
                  ((ne_of_test b b'\n' not_lf, ne_of_test b b'\r' not_cr), tt);
            numbered = tt;
            counted = omega arith;
          })
  ]
]

Consecutive-append :
    (n : ℕ) (xs ys : List LineRec)
    → Consecutive n xs
    → Consecutive (n + length xs) ys
    → Consecutive n (xs ++ ys)
Consecutive-append n [] ys hx hy = subst (λ m. Consecutive m ys) (omega arith) hy
Consecutive-append n (r ∷ xs) ys hx hy =
    (hx.0, Consecutive-append (n + 1) xs ys hx.1 (subst (λ m. Consecutive m ys) (omega arith) hy))

write-Cut : (p : Bytes) (seq : ℕ) (lb : LineBuffer) → IsLine lb.cur → Cut seq (write p seq lb)
unfolding write
write-Cut [] seq lb h = record {
  clean_lines = tt;
  clean_rest = h;
  numbered = tt;
  counted = omega arith;
}
write-Cut (b ∷ p) seq lb h =
    let one = write_byte b seq lb in
    let c = write_byte-Cut b seq lb h in
    let rest = write p one.seq one.buffer in
    let d = write-Cut p one.seq one.buffer c.clean_rest in
    record {
      clean_lines = All-append _ one.completed rest.completed c.clean_lines d.clean_lines;
      clean_rest = d.clean_rest;
      numbered =
          Consecutive-append seq one.completed rest.completed c.numbered
            (subst (λ m. Consecutive m rest.completed) c.counted d.numbered);
      counted = omega (arith, c.counted, d.counted, length-append one.completed rest.completed);
    }

-- From a buffer whose pending text has no line end, a write completes lines without line ends,
-- numbers them on from the counter without a gap, leaves the counter at the last number, and
-- leaves no line end pending.
pub write_numbers :
    (p : Bytes) (seq : ℕ) (lb : LineBuffer)
    → IsLine lb.cur
    → let w = write p seq lb in
      All (λ r. IsLine r.line) w.completed
      × IsLine w.buffer.cur
      × Consecutive seq w.completed
      × (w.seq ≡ seq + length w.completed)
write_numbers p seq lb h =
    let c = write-Cut p seq lb h in (c.clean_lines, c.clean_rest, c.numbered, c.counted)

-- How a process cuts its output into writes makes no difference: two writes leave the counter and
-- the buffer of one write of both texts, and complete the same records.
pub write-append :
    (p q : Bytes) (seq : ℕ) (lb : LineBuffer)
    → let first = write p seq lb in
      let second = write q first.seq first.buffer in
      let both = write (p ++ q) seq lb in
      (both.seq ≡ second.seq)
      × (both.buffer ≡ second.buffer)
      × (both.completed ≡ first.completed ++ second.completed)
unfolding write
write-append [] q seq lb = (refl, refl, refl)
write-append (b ∷ p) q seq lb =
    let one = write_byte b seq lb in
    let (s, f, c) = write-append p q one.seq one.buffer in
    (s, f, ap (λ t. one.completed ++ t) c ∙ sym (append_assoc one.completed _ _))
