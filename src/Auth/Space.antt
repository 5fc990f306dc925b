-- ===== src/Auth/Space.antt =====
-- `strings.TrimSpace` on UTF-8 bytes, as `bearer` of internal/auth/interceptor.go uses it.
use mathlib.Core.List.{reverse-append, reverse-reverse}
use easyworker.Auth.Hex.{Graphic}
use easyworker.Base.{
  ℕ, zero, suc, ◌≤◌, ◌<◌, ◌≡◌, ◌≢◌, refl, ap, ◌∙◌, inl, inr, Option, none, some, List, [], ◌∷◌,
  ◌++◌, map, reverse, arith, Bytes, cut_prefix, cut_prefix-eq-some, length, length-append, All,
  All-reverse, length-reverse, subst, Option-cases,
}

-- The encodings of the runes that unicode.IsSpace accepts.
abbrev pub spaces : List Bytes
spaces =
    (9 ∷ [])
    ∷ (10 ∷ [])
    ∷ (11 ∷ [])
    ∷ (12 ∷ [])
    ∷ (13 ∷ [])
    ∷ (32 ∷ [])
    ∷ (0xc2 ∷ 0x85 ∷ [])
    ∷ (0xc2 ∷ 0xa0 ∷ [])
    ∷ (0xe1 ∷ 0x9a ∷ 0x80 ∷ [])
    ∷ (0xe2 ∷ 0x80 ∷ 0x80 ∷ [])
    ∷ (0xe2 ∷ 0x80 ∷ 0x81 ∷ [])
    ∷ (0xe2 ∷ 0x80 ∷ 0x82 ∷ [])
    ∷ (0xe2 ∷ 0x80 ∷ 0x83 ∷ [])
    ∷ (0xe2 ∷ 0x80 ∷ 0x84 ∷ [])
    ∷ (0xe2 ∷ 0x80 ∷ 0x85 ∷ [])
    ∷ (0xe2 ∷ 0x80 ∷ 0x86 ∷ [])
    ∷ (0xe2 ∷ 0x80 ∷ 0x87 ∷ [])
    ∷ (0xe2 ∷ 0x80 ∷ 0x88 ∷ [])
    ∷ (0xe2 ∷ 0x80 ∷ 0x89 ∷ [])
    ∷ (0xe2 ∷ 0x80 ∷ 0x8a ∷ [])
    ∷ (0xe2 ∷ 0x80 ∷ 0xa8 ∷ [])
    ∷ (0xe2 ∷ 0x80 ∷ 0xa9 ∷ [])
    ∷ (0xe2 ∷ 0x80 ∷ 0xaf ∷ [])
    ∷ (0xe2 ∷ 0x81 ∷ 0x9f ∷ [])
    ∷ (0xe3 ∷ 0x80 ∷ 0x80 ∷ [])
    ∷ []

-- The same from their last byte, for the end of a text.
abbrev pub spaces_reversed : List Bytes
spaces_reversed = map reverse spaces

-- The text after the first of the prefixes that it has.
unfoldable pub cut_any : List Bytes → Bytes → Option Bytes
cut_any [] s = none
cut_any (p ∷ ps) s =
    let rest = cut_any ps s in elim (cut_prefix p s) [ none ↦ rest | some r ↦ some r ]

-- Each round takes a byte at least, so the length of the text is fuel enough.
unfoldable pub trim_left : ℕ → List Bytes → Bytes → Bytes
trim_left zero ps s = s
trim_left (suc n) ps s = elim (cut_any ps s) [ none ↦ s | some r ↦ trim_left n ps r ]

unfoldable pub trim_space : Bytes → Bytes
unfolding trim_left cut_any cut_prefix
trim_space s =
    let front = trim_left (length s) spaces s in
    reverse (trim_left (length front) spaces_reversed (reverse front))

-- No space at either end.
pub record IsTrimmed (s : Bytes) : Type 0 where
  pub front : cut_any spaces s ≡ none
  pub back : cut_any spaces_reversed (reverse s) ≡ none

length-cut_any :
    (ps : List Bytes) (s r : Bytes)
    → All (λ p. 0 < length p) ps
    → cut_any ps s ≡ some r
    → length r < length s
unfolding cut_any
length-cut_any [] s r h e = cc
length-cut_any (p ∷ ps) s r h e = elim (Option-cases (cut_prefix p s)) [
  | inl missing ↦ length-cut_any ps s r h.1 (rw (missing, cut_any) at e)
  | inr (r', cut) ↦
      let same : r' ≡ r = ground (arith, cut) in
      subst (λ (t : Bytes). length t < length s) same
        (omega (arith, ap length (cut_prefix-eq-some p s r' cut), length-append p r', h.0))
]

trim_left-none : (n : ℕ) (ps : List Bytes) (s : Bytes) → cut_any ps s ≡ none → trim_left n ps s ≡ s
unfolding trim_left
trim_left-none zero ps s h = refl
trim_left-none (suc n) ps s h = rw (h, trim_left)

trim_left_done :
    (n : ℕ) (ps : List Bytes) (s : Bytes)
    → All (λ p. 0 < length p) ps
    → length s ≤ n
    → cut_any ps (trim_left n ps s) ≡ none
unfolding trim_left
trim_left_done zero ps s h le = elim (Option-cases (cut_any ps s)) [
  | inl clear ↦ clear
  | inr (r, cut) ↦ absurd (omega (arith, length-cut_any ps s r h cut))
]
trim_left_done (suc n) ps s h le = elim (Option-cases (cut_any ps s)) [
  | inl clear ↦ rw (clear, trim_left) clear
  | inr (r, cut) ↦
      rw (cut, trim_left) (trim_left_done n ps r h (omega (arith, length-cut_any ps s r h cut)))
]

-- A text with no space at its ends is left alone.
pub trim_space_trimmed : (s : Bytes) → IsTrimmed s → trim_space s ≡ s
unfolding trim_space
trim_space_trimmed s t =
    rw
      (
        trim_left-none (length s) spaces s t.front,
        trim_left-none (length s) spaces_reversed (reverse s) t.back,
      )
      (reverse-reverse s)

-- No result of TrimSpace ends in a space.
pub trim_space-back : (s : Bytes) → cut_any spaces_reversed (reverse (trim_space s)) ≡ none
unfolding trim_space
trim_space-back s =
    let front = trim_left (length s) spaces s in
    rw (reverse-reverse (trim_left (length front) spaces_reversed (reverse front))) (
      trim_left_done (length front) spaces_reversed (reverse front) (omega arith)
        (omega (arith, length-reverse front)))

abbrev StartsOff : ℕ → Bytes → Type 0
StartsOff c [] = ⊥
StartsOff c (b ∷ p) = b ≢ c

cut_any_off :
    (ps : List Bytes) (c : ℕ) (s : Bytes) → All (StartsOff c) ps → cut_any ps (c ∷ s) ≡ none
unfolding cut_any cut_prefix
cut_any_off [] c s h = refl
cut_any_off ([] ∷ ps) c s h = absurd h.0
cut_any_off ((b ∷ p) ∷ ps) c s h = ground (arith, cut_any_off ps c s h.1)

cut_any-Graphic : (s : Bytes) → Graphic s → cut_any spaces s ≡ none
unfolding cut_any cut_prefix
cut_any-Graphic [] g = refl
cut_any-Graphic (c ∷ s) g = cut_any_off spaces c s (omega arith)

cut_any-Graphic_reversed : (s : Bytes) → Graphic s → cut_any spaces_reversed s ≡ none
unfolding cut_any cut_prefix
cut_any-Graphic_reversed [] g = refl
cut_any-Graphic_reversed (c ∷ s) g = cut_any_off spaces_reversed c s (omega arith)

-- A text of printable ASCII has no space at its ends.
pub Graphic-IsTrimmed : (s : Bytes) → Graphic s → IsTrimmed s
Graphic-IsTrimmed s g = record {
  front = cut_any-Graphic s g;
  back = cut_any-Graphic_reversed (reverse s) (All-reverse _ s g);
}

trim_left_pad :
    (n : ℕ) (r : Bytes)
    → trim_left (suc n) spaces_reversed (b' ' ∷ r) ≡ trim_left n spaces_reversed r
unfolding trim_left cut_any cut_prefix
trim_left_pad n r = refl

-- One space behind such a text is trimmed.
pub trim_space-pad :
    (c : ℕ) (s : Bytes) → Graphic (c ∷ s) → trim_space ((c ∷ s) ++ b' ' ∷ []) ≡ c ∷ s
unfolding trim_space
trim_space-pad c s g =
    let text = (c ∷ s) ++ b' ' ∷ [] in
    let front : trim_left (length text) spaces text ≡ text =
      trim_left-none (length text) spaces text
        (cut_any_off spaces c (s ++ b' ' ∷ []) (omega arith)) in
    let back : trim_left (length text) spaces_reversed (reverse text) ≡ reverse (c ∷ s) =
      ap (trim_left (length text) spaces_reversed) (reverse-append (c ∷ s) (b' ' ∷ []))
      ∙ trim_left_pad (length (s ++ b' ' ∷ [])) (reverse (c ∷ s))
      ∙ trim_left-none (length (s ++ b' ' ∷ [])) spaces_reversed (reverse (c ∷ s))
          (cut_any-Graphic_reversed (reverse (c ∷ s)) (All-reverse _ (c ∷ s) g)) in
    rw front (rw back (reverse-reverse (c ∷ s)))
