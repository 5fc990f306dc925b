-- ===== src/FilePath/Elements.antt =====
-- What filepath.Clean leaves of a path from the root.
use easyworker.Base.{
  ℕ, ◌≡◌, ◌≢◌, ◌∙◌, refl, ap, inl, inr, true, false, ◌||◌, List, [], ◌∷◌, ◌++◌, reverse, arith,
  ◌==◌, Bytes, bytes_eq, bytes_eq_iff, All, All-reverse, Bool-cases,
}
use easyworker.Shell.LineBuffer.{join}
use easyworker.FilePath.{slash, dot, dotdot, split, is_abs, pop, push, normalise, clean, cons_head}

-- An element that names an entry: not empty, no dot element, no slash.
pub record IsName (e : Bytes) : Type 0 where
  pub some_text : e ≢ []
  pub not_dot : e ≢ dot
  pub not_dotdot : e ≢ dotdot
  pub one_element : All (λ c. c ≢ b'/') e

abbrev NoSlash : Bytes → Type 0
NoSlash = All λ c. c ≢ b'/'

cons_head-NoSlash :
    (c : ℕ) (es : List Bytes) → c ≢ b'/' → All NoSlash es → All NoSlash (cons_head c es)
cons_head-NoSlash c [] h hs = ((h, tt), tt)
cons_head-NoSlash c (e ∷ es) h hs = ((h, hs.0), hs.1)

split-NoSlash : (s : Bytes) → All NoSlash (split s)
unfolding split
split-NoSlash [] = (tt, tt)
split-NoSlash (c ∷ s) = elim (Bool-cases (c == b'/')) [
  | inl cut ↦ rw (cut, split) (tt, split-NoSlash s)
  | inr letter ↦ rw (letter, split) (cons_head-NoSlash c (split s) (ground arith) (split-NoSlash s))
]

pop-names : (stack : List Bytes) → All IsName stack → All IsName (pop true stack)
unfolding pop
pop-names [] h = tt
pop-names (d ∷ stack) h = elim (Bool-cases (bytes_eq d dotdot)) [
  | inl up ↦ absurd (h.0.not_dotdot ((bytes_eq_iff d dotdot).0 up))
  | inr down ↦ rw (down, pop) h.1
]

IsName-of_tests :
    (e : Bytes)
    → NoSlash e
    → (bytes_eq e [] || bytes_eq e dot) ≡ false
    → bytes_eq e dotdot ≡ false
    → IsName e
IsName-of_tests e h plain up = record {
  some_text = ground (arith, bytes_eq_iff e []);
  not_dot = ground (arith, bytes_eq_iff e dot);
  not_dotdot = ground (arith, bytes_eq_iff e dotdot);
  one_element = h;
}

push-names :
    (e : Bytes) (stack : List Bytes) → NoSlash e → All IsName stack → All IsName (push true e stack)
unfolding push
push-names e stack h hs = elim (Bool-cases (bytes_eq e [] || bytes_eq e dot)) [
  | inl skip ↦ rw (skip, push) hs
  | inr plain ↦ elim (Bool-cases (bytes_eq e dotdot)) [
    | inl up ↦ rw (plain, up, push) (pop-names stack hs)
    | inr name ↦ rw (plain, name, push) (IsName-of_tests e h plain name, hs)
  ]
]

normalise-names :
    (stack es : List Bytes)
    → All NoSlash es
    → All IsName stack
    → All IsName (normalise true stack es)
unfolding normalise
normalise-names stack [] h hs = hs
normalise-names stack (e ∷ es) h hs =
    normalise-names (push true e stack) es h.1 (push-names e stack h.0 hs)

differs : (c : ℕ) → c ≢ b'/' → (c == b'/') ≡ false
differs c h = ground arith

split-name : (e : Bytes) → NoSlash e → split e ≡ e ∷ []
unfolding split
split-name [] h = refl
split-name (c ∷ e) h = rw (differs c h.0, split) (rw (split-name e h.1))

split-name_slash : (e rest : Bytes) → NoSlash e → split (e ++ (b'/' ∷ rest)) ≡ e ∷ split rest
unfolding split
split-name_slash [] rest h = refl
split-name_slash (c ∷ e) rest h = rw (differs c h.0, split) (rw (split-name_slash e rest h.1))

-- The elements of a text that was joined from names are those names.
split-join :
    (e : Bytes) (es : List Bytes) → All IsName (e ∷ es) → split (join slash (e ∷ es)) ≡ e ∷ es
split-join e [] h = split-name e h.0.one_element
split-join e (d ∷ es) h =
    split-name_slash e (join slash (d ∷ es)) h.0.one_element ∙ ap (λ t. e ∷ t) (split-join d es h.1)

-- No element of a text climbs.
abbrev pub NoDotdot : Bytes → Type 0
NoDotdot p = All (λ e. e ≢ dotdot) (split p)

names-NoDotdot : (es : List Bytes) → All IsName es → All (λ e. e ≢ dotdot) es
names-NoDotdot [] h = tt
names-NoDotdot (e ∷ es) h = (h.0.not_dotdot, names-NoDotdot es h.1)

split-slash : (p : Bytes) → split (b'/' ∷ p) ≡ [] ∷ split p
unfolding split
split-slash p = refl

render-NoDotdot : (es : List Bytes) → All IsName es → NoDotdot (b'/' ∷ join slash es)
unfolding split
render-NoDotdot [] h = (λ e. cc, (λ e. cc, tt))
render-NoDotdot (e ∷ es) h = (λ e. cc, rw (split-join e es h) (names-NoDotdot (e ∷ es) h))

-- Clean leaves no ".." in a path from the root.
pub clean-NoDotdot : (p : Bytes) → is_abs p ≡ true → NoDotdot (clean p)
unfolding clean
clean-NoDotdot p h =
    rw (h, clean)
      (render-NoDotdot (reverse (normalise true [] (split p)))
        (All-reverse _ _ (normalise-names [] (split p) (split-NoSlash p) tt)))

split-some : (a : Bytes) → (e : Bytes) × (es : List Bytes) × (split a ≡ e ∷ es)
unfolding split
split-some [] = ([], [], refl)
split-some (c ∷ a) = elim (Bool-cases (c == b'/')) [
  | inl cut ↦ ([], split a, rw (cut, split))
  | inr letter ↦ let (e, es, here) = split-some a in (c ∷ e, es, rw (letter, split) (rw here))
]

split-append : (a b : Bytes) → split (a ++ (b'/' ∷ b)) ≡ split a ++ split b
unfolding split
split-append [] b = refl
split-append (c ∷ a) b = elim (Bool-cases (c == b'/')) [
  | inl cut ↦ rw (cut, split) (ap (λ t. [] ∷ t) (split-append a b))
  | inr letter ↦
      let (e, es, here) = split-some a in rw (letter, split) (rw (split-append a b) (rw here))
]

All-right {ℓ κ} : {A : Type ℓ} (P : A → Type κ) (xs ys : List A) → All P (xs ++ ys) → All P ys
All-right P [] ys h = h
All-right P (x ∷ xs) ys h = All-right P xs ys h.1

-- Nor is one in what follows a slash of such a text.
pub NoDotdot-after : (a b : Bytes) → NoDotdot (a ++ (b'/' ∷ b)) → NoDotdot b
NoDotdot-after a b h = All-right _ (split a) (split b) (rw (split-append a b) at h)
