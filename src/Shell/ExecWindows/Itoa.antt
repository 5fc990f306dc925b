-- ===== src/Shell/ExecWindows/Itoa.antt =====
-- Decimal numbers (`itoa` of internal/shellh/exec_windows.go).
use easyworker.Base.{
  ℕ, zero, suc, ◌-◌, ◌*◌, ◌/◌, ◌%◌, ◌+◌, ◌≤◌, ◌<◌, ◌≡◌, ◌∙◌, refl, ap, true, none, some, [], ◌∷◌,
  arith, ◌==◌, ltb, lt→ltb, if◌then◌else◌, Bytes, ℤ, pos, negsuc, length, All, pos_part, neg_part,
  Bool-cases, inl, inr,
}
use easyworker.Shell.ExecWindows.{digits, itoa}

-- The number that digits spell behind a number.
abbrev pub value_from : ℕ → Bytes → ℕ
value_from n [] = n
value_from n (c ∷ s) = value_from (n * 10 + (c - b'0')) s

abbrev minus : ℕ → ℤ
minus zero = pos 0
minus (suc n) = negsuc n

-- The integer that a text spells.
abbrev pub value : Bytes → ℤ
value [] = pos 0
value (c ∷ s) = if c == b'-' then minus (value_from 0 s) else pos (value_from 0 (c ∷ s))

pow10 : ℕ → ℕ
pow10 zero = 1
pow10 (suc n) = 10 * pow10 n

abbrev Digits : Bytes → Type 0
Digits = All λ c. (b'0' ≤ c) × (c ≤ b'9')

record Spelt (i : ℕ) (out s : Bytes) (room : ℕ) : Type 0 where
  same : value_from 0 s ≡ value_from i out
  plain : Digits out → Digits s
  fits : length s ≤ room + length out

-- With room for its digits a number is spelt, in front of what is there.
digits-Spelt :
    (room i : ℕ) (out : Bytes)
    → i < pow10 room
    → (s : Bytes) × (digits room i out ≡ some s) × Spelt i out s room
unfolding digits pow10
digits-Spelt zero i out h = (
  out,
  ground arith,
  record { same = ap (λ n. value_from n out) (omega arith); plain = λ d. d; fits = omega arith },
)
digits-Spelt (suc room) i out h = elim (Bool-cases (i == 0)) [
  | inl z ↦ (
    out,
    rw z refl,
    record { same = ap (λ n. value_from n out) (ground arith); plain = λ d. d; fits = omega arith },
  )
  | inr more ↦
      let (s, e, v) = digits-Spelt room (i / 10) ((b'0' + i % 10) ∷ out) (omega arith) in
      (
        s,
        rw more e,
        record {
          same = v.same ∙ ap (λ n. value_from n out) (omega arith);
          plain = λ d. v.plain ((omega arith, omega arith), d);
          fits = omega (arith, v.fits);
        },
      )
]

-- One place more changes nothing.
digits-suc :
    (room i : ℕ) (out s : Bytes) → digits room i out ≡ some s → digits (suc room) i out ≡ some s
unfolding digits
digits-suc zero i out s e = elim (Bool-cases (i == 0)) [
  | inl z ↦ rw z (rw z at e)
  | inr more ↦ absurd (none-ne-some s (rw more at e))
]
  where
    none-ne-some : (t : Bytes) → none ≡ some t → ⊥
    none-ne-some t q = cc
digits-suc (suc room) i out s e = elim (Bool-cases (i == 0)) [
  | inl z ↦ rw z (rw z at e)
  | inr more ↦ rw more (digits-suc room (i / 10) ((b'0' + i % 10) ∷ out) s (rw more at e))
]

value-Digits : (s : Bytes) → Digits s → value s ≡ pos (value_from 0 s)
value-Digits [] d = refl
value-Digits (c ∷ s) d = ground (arith, d.0)

-- 2^63
abbrev pub int_bound : ℕ
int_bound = 9223372036854775808

pow10_pos : (n : ℕ) → 0 < pow10 n
unfolding pow10
pow10_pos zero = omega arith
pow10_pos (suc n) = omega (arith, pow10_pos n)

pow10_mono : (m n : ℕ) → m ≤ n → pow10 m ≤ pow10 n
unfolding pow10
pow10_mono zero n h = pow10_pos n
pow10_mono (suc m) zero h = absurd (omega arith)
pow10_mono (suc m) (suc n) h = omega (arith, pow10_mono m n (omega arith))

nineteen_digits : int_bound ≤ pow10 19
unfolding pow10
nineteen_digits = omega arith

below_pow10 : (room n : ℕ) → 19 ≤ room → n < int_bound → n < pow10 room
below_pow10 room n r h = omega (arith, pow10_mono 19 room r, nineteen_digits)

-- What `itoa` writes of an integer above -2^63 and below 2^63 reads back as the integer, and its
-- buffer of 20 places is enough.
pub value-itoa :
    (i : ℤ)
    → pos_part i < int_bound
    → neg_part i < int_bound
    → (s : Bytes) × (itoa i ≡ some s) × (value s ≡ i) × (length s ≤ 20)
unfolding itoa
value-itoa (pos n) h k = elim (Bool-cases (n == 0)) [
  | inl z ↦ (b'0' ∷ [], rw z refl, ap pos (ground arith), omega arith)
  | inr more ↦
      let (s, e, v) = digits-Spelt 20 n [] (below_pow10 20 n (omega arith) h) in
      (s, rw (more, e) refl, value-Digits s (v.plain tt) ∙ ap pos v.same, omega (arith, v.fits))
]
value-itoa (negsuc n) h k =
    let (s, e, v) = digits-Spelt 19 (suc n) [] (below_pow10 19 (suc n) (omega arith) k) in
    let room : ltb (length s) 20 ≡ true = lt→ltb (length s) 20 (omega (arith, v.fits)) in
    (b'-' ∷ s, rw (digits-suc 19 (suc n) [] s e, room) refl, ap minus v.same, omega (arith, v.fits))
