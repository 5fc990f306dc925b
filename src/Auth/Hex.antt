-- ===== src/Auth/Hex.antt =====
-- `randomHex` and `constantEqual` of internal/auth/auth.go.
use easyworker.Base.{
  ℕ, ◌+◌, ◌*◌, ◌/◌, ◌%◌, ◌≡◌, ◌≢◌, ◌↔◌, ◌≢◌, ◌≤◌, ◌<◌, subst, inl, inr, Bool, true, false, Option,
  none, some, [], ◌∷◌, arith, ltb, ◌==◌, if◌then◌else◌, Bytes, bytes_eq, bytes_eq_iff, length, All,
  Option-cases,
}

-- What the system's random source answers to a read of n bytes; `none` is a failed read.
abbrev pub Entropy : Type 0
Entropy = ℕ → Option Bytes

-- A read that succeeds fills the whole buffer with bytes (crypto/rand).
pub record Fills (e : Entropy) : Type 0 where
  pub filled : (n : ℕ) (b : Bytes) → e n ≡ some b → length b ≡ n
  pub octets : (n : ℕ) (b : Bytes) → e n ≡ some b → All (λ x. x < 256) b

hex_digit : ℕ → ℕ
hex_digit d = if ltb d 10 then b'0' + d else 87 + d

-- hex.EncodeToString
hex : Bytes → Bytes
unfolding hex_digit
hex [] = []
hex (b ∷ s) = hex_digit (b / 16) ∷ hex_digit (b % 16) ∷ hex s

abbrev hex_option : Option Bytes → Option Bytes
hex_option none = none
hex_option (some b) = some (hex b)

unfoldable pub random_hex : ℕ → Entropy → Option Bytes
unfolding hex
random_hex n e = hex_option (e n)

-- Slices of different lengths are unequal for subtle.ConstantTimeCompare.
unfoldable pub constant_equal : Bytes → Bytes → Bool
constant_equal a b = if length a == length b then bytes_eq a b else false

length-hex : (b : Bytes) → length (hex b) ≡ 2 * length b
unfolding hex
length-hex [] = omega arith
length-hex (x ∷ b) = omega (arith, length-hex b)

-- A minted text has two digits for each byte that was asked for.
pub length-random_hex :
    (n : ℕ) (e : Entropy) (t : Bytes) → Fills e → random_hex n e ≡ some t → length t ≡ 2 * n
unfolding random_hex
length-random_hex n e t f h = elim (Option-cases (e n)) [
  | inl failed ↦ absurd (ground (arith, failed))
  | inr (b, drawn) ↦ ground (arith, drawn, length-hex b, f.filled n b drawn)
]

pub random_hex-ne-nil :
    (n : ℕ) (e : Entropy) (t : Bytes) → Fills e → 0 < n → random_hex n e ≡ some t → t ≢ []
random_hex-ne-nil n e t f p h z = omega (arith, length-random_hex n e t f h, ap-length z)
  where
    ap-length : t ≡ [] → length t ≡ 0
    ap-length q = ground (arith, q)

-- The comparison that hides its timing is equality.
pub constant_equal_iff : (a b : Bytes) → (constant_equal a b ≡ true) ↔ (a ≡ b)
unfolding constant_equal
constant_equal_iff a b = ground (arith, bytes_eq_iff a b)

-- Printable ASCII, as every hexadecimal text is.
abbrev pub Graphic : Bytes → Type 0
Graphic = All λ c. (33 ≤ c) × (c < 127)

hex-Graphic : (b : Bytes) → All (λ x. x < 256) b → Graphic (hex b)
unfolding hex
hex-Graphic [] h = tt
hex-Graphic (x ∷ b) h = ground (arith, hex-Graphic b h.1)

pub random_hex-Graphic :
    (n : ℕ) (e : Entropy) (t : Bytes) → Fills e → random_hex n e ≡ some t → Graphic t
unfolding random_hex
random_hex-Graphic n e t f h = elim (Option-cases (e n)) [
  | inl failed ↦ absurd (ground (arith, failed))
  | inr (b, drawn) ↦
      let same : hex b ≡ t = ground (arith, drawn) in
      subst Graphic same (hex-Graphic b (f.octets n b drawn))
]
