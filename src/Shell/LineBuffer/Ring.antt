-- ===== src/Shell/LineBuffer/Ring.antt =====
-- The ring of a `LineBuffer` as a window on its history (internal/shellh/runner.go).
use easyworker.Base.{
  ℕ, suc, ◌-◌, ◌≡◌, ◌≤◌, ◌<◌, ◌∙◌, refl, sym, ap, List, [], ◌∷◌, ◌++◌, arith, Bytes, map, bytes_eq,
  bytes_eq_iff, length, length-append, length-drop, drop, drop-append, drop_one-drop, lt→ltb,
  ltb-false, dec_lt, Bool-cases, ◌==◌, inl, inr, ◌⊎◌,
}
use easyworker.Shell.LineBuffer.{
  LineRec, LineBuffer, join, line_of, push_rec, write_byte, write, flush_line,
}
use mathlib.Core.List.{append_assoc, append-nil}

-- The ring is the end of all the lines that were ever completed, `max_lines` of them at most, and
-- `dropped` counts the others.
pub record Window (lb : LineBuffer) (all : List LineRec) : Type 0 where
  pub newest : lb.recs ≡ drop (length all - lb.max_lines) all
  pub lost : lb.dropped ≡ length all - lb.max_lines

same_drop : (m n : ℕ) (xs : List LineRec) → m ≡ n → drop m xs ≡ drop n xs
same_drop m n xs e = ap (λ k. drop k xs) e

Window-cases :
    (lb : LineBuffer) (all : List LineRec)
    → Window lb all
    → ((length all < lb.max_lines) × (lb.recs ≡ all))
      ⊎ ((lb.max_lines ≤ length all) × (length lb.recs ≡ lb.max_lines))
Window-cases lb all w = elim (dec_lt (length all) lb.max_lines) [
  | yes room ↦ inl (room, w.newest ∙ same_drop (length all - lb.max_lines) 0 all (omega arith))
  | no full ↦
      inr (
        omega arith,
        omega (arith, ap length w.newest, length-drop (length all - lb.max_lines) all),
      )
]

push_rec-Window :
    (r : LineRec) (lb : LineBuffer) (all : List LineRec)
    → Window lb all
    → Window (push_rec r lb) (all ++ r ∷ [])
unfolding push_rec
push_rec-Window r lb all w = elim (Window-cases lb all w) [
  | inl (room, same) ↦
      let n = length-append lb.recs (r ∷ []) in
      let m = length-append all (r ∷ []) in
      rw
        (
          ltb-false lb.max_lines (length (lb.recs ++ r ∷ [])) (omega (arith, n, ap length same)),
          push_rec,
        )
        (record {
          newest =
              ap (λ t. t ++ r ∷ []) same
              ∙ same_drop 0 (length (all ++ r ∷ []) - lb.max_lines) (all ++ r ∷ [])
                  (omega (arith, m));
          lost = omega (arith, w.lost, m);
        })
  | inr (full, size) ↦
      let n = length-append lb.recs (r ∷ []) in
      let m = length-append all (r ∷ []) in
      rw (lt→ltb lb.max_lines (length (lb.recs ++ r ∷ [])) (omega (arith, n, size)), push_rec)
        (record {
          newest =
              ap (λ t. drop 1 (t ++ r ∷ [])) w.newest
              ∙ ap (drop 1)
                  (sym (drop-append (length all - lb.max_lines) all (r ∷ []) (omega arith)))
              ∙ drop_one-drop (length all - lb.max_lines) (all ++ r ∷ [])
              ∙ same_drop (suc (length all - lb.max_lines)) (length (all ++ r ∷ []) - lb.max_lines)
                  (all ++ r ∷ []) (omega (arith, m));
          lost = omega (arith, w.lost, m);
        })
]

write_byte-Window :
    (b seq : ℕ) (lb : LineBuffer) (all : List LineRec)
    → Window lb all
    → Window (write_byte b seq lb).buffer (all ++ (write_byte b seq lb).completed)
unfolding write_byte
write_byte-Window b seq lb all w = elim (Bool-cases (b == b'\r')) [
  | inl cr ↦ rw (cr, write_byte, append-nil) w
  | inr not_cr ↦ elim (Bool-cases (b == b'\n')) [
    | inl lf ↦ rw (not_cr, lf, write_byte) (push_rec-Window _ lb all w)
    | inr not_lf ↦
        rw (not_cr, not_lf, write_byte, append-nil) (record { newest = w.newest; lost = w.lost })
  ]
]

-- The ring stays a window: after a write it holds the newest `max_lines` lines of the history and
-- what the write completed, and `dropped` counts the others.
pub write-Window :
    (p : Bytes) (seq : ℕ) (lb : LineBuffer) (all : List LineRec)
    → Window lb all
    → Window (write p seq lb).buffer (all ++ (write p seq lb).completed)
unfolding write
write-Window [] seq lb all w = rw append-nil w
write-Window (b ∷ p) seq lb all w =
    let one = write_byte b seq lb in
    rw (← append_assoc)
      (write-Window p one.seq one.buffer (all ++ one.completed) (write_byte-Window b seq lb all w))

push_rec-cur : (r : LineRec) (lb : LineBuffer) → (push_rec r lb).cur ≡ []
unfolding push_rec
push_rec-cur r lb = ground arith

-- A flush keeps the ring a window, leaves nothing pending, and its records spell what was pending.
pub flush_line-Window :
    (seq : ℕ) (lb : LineBuffer) (all : List LineRec)
    → Window lb all
    → let w = flush_line seq lb in
      Window w.buffer (all ++ w.completed)
      × (w.buffer.cur ≡ [])
      × (join [] (map line_of w.completed) ≡ lb.cur)
unfolding flush_line
flush_line-Window seq lb all w = elim (Bool-cases (bytes_eq lb.cur [])) [
  | inl nothing ↦
      let empty = (bytes_eq_iff lb.cur []).0 nothing in
      rw (nothing, flush_line, append-nil) (w, empty, sym empty)
  | inr partial ↦ rw (partial, flush_line) (push_rec-Window _ lb all w, push_rec-cur _ lb, refl)
]
