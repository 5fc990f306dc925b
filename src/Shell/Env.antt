-- ===== src/Shell/Env.antt =====
-- The environment of a job: `RunWithEnv` of internal/shellh/runner.go and `jobEnv` of
-- cmd/easyworker/main.go. An environment is a list of texts key=value, of which the last for a key
-- counts (os/exec).
use easyworker.Base.{
  ◌≡◌, ◌≢◌, ◌∙◌, refl, sym, ap, ap₂, subst, ℕ_discrete, inl, inr, Option, none, some, List, [], ◌∷◌,
  ◌++◌, arith, if◌then◌else◌, Bytes, bytes_eq, bytes_eq_iff, cut_prefix, cut_prefix-append, All,
  Bool-cases,
}
use mathlib.Core.List.{append_assoc}

abbrev pub equals_sign : Bytes
equals_sign = b'=' ∷ []

unfoldable pub setting : Bytes → Bytes → Bytes
setting key value = key ++ (equals_sign ++ value)

-- The pairs of a Go map in the order that its iteration happens to take.
unfoldable pub settings : List (Bytes × Bytes) → List Bytes
unfolding setting
settings [] = []
settings ((k, v) ∷ env) = setting k v ∷ settings env

-- The environment of a run with additions; no additions leave the base as it is.
unfoldable pub merged_env : List Bytes → List (Bytes × Bytes) → List Bytes
merged_env base [] = base
merged_env base (kv ∷ env) = base ++ settings (kv ∷ env)

abbrev pub or_else : Option Bytes → Option Bytes → Option Bytes
or_else (some v) o = some v
or_else none o = o

-- The value that a process sees for a key: that of its last setting.
unfoldable pub value_of : Bytes → List Bytes → Option Bytes
value_of key [] = none
value_of key (kv ∷ env) = or_else (value_of key env) (cut_prefix (key ++ equals_sign) kv)

-- What a map holds for a key.
unfoldable pub lookup : Bytes → List (Bytes × Bytes) → Option Bytes
lookup key [] = none
lookup key ((k, v) ∷ env) = let rest = lookup key env in if bytes_eq k key then some v else rest

-- Keys have no "=" in them, and a map has each once.
abbrev pub IsKey : Bytes → Type 0
IsKey = All λ c. c ≢ b'='

abbrev pub Keys : List (Bytes × Bytes) → Type 0
Keys [] = Unit {0}
Keys ((k, v) ∷ env) = IsKey k × (lookup k env ≡ none) × Keys env

pub or_else-none : (o : Option Bytes) → or_else o none ≡ o
or_else-none none = refl
or_else-none (some v) = refl

or_else_assoc : (a b c : Option Bytes) → or_else (or_else a b) c ≡ or_else a (or_else b c)
or_else_assoc none b c = refl
or_else_assoc (some v) b c = refl

pub value_of-append :
    (key : Bytes) (xs ys : List Bytes)
    → value_of key (xs ++ ys) ≡ or_else (value_of key ys) (value_of key xs)
unfolding value_of
value_of-append key [] ys = ground arith
value_of-append key (x ∷ xs) ys =
    ap (λ o. or_else o (cut_prefix (key ++ equals_sign) x)) (value_of-append key xs ys)
    ∙ or_else_assoc (value_of key ys) (value_of key xs) (cut_prefix (key ++ equals_sign) x)

-- A setting of another key does not match.
pub cut_prefix-other :
    (k key v : Bytes)
    → IsKey k
    → IsKey key
    → k ≢ key
    → cut_prefix (key ++ equals_sign) (setting k v) ≡ none
unfolding cut_prefix setting
cut_prefix-other [] [] v hk h ne = absurd (ne refl)
cut_prefix-other [] (c ∷ key) v hk h ne = ground (arith, h.0)
cut_prefix-other (a ∷ k) [] v hk h ne = ground (arith, hk.0)
cut_prefix-other (a ∷ k) (c ∷ key) v hk h ne = elim (ℕ_discrete c a) [
  | yes e ↦
      ground
        (arith, e, cut_prefix-other k key v hk.1 h.1 (λ same. ne (ap₂ (λ x y. x ∷ y) (sym e) same)))
  | no diff ↦ ground (arith, diff)
]

value_of-settings :
    (key : Bytes) (env : List (Bytes × Bytes))
    → IsKey key
    → Keys env
    → value_of key (settings env) ≡ lookup key env
unfolding value_of settings lookup
value_of-settings key [] h hs = refl
value_of-settings key ((k, v) ∷ env) h (hk, fresh, hs) = elim (Bool-cases (bytes_eq k key)) [
  | inl e ↦
      let same = (bytes_eq_iff k key).0 e in
      let gone = value_of-settings key env h hs ∙ subst (λ x. lookup x env ≡ none) same fresh in
      let here =
        subst (λ x. cut_prefix (x ++ equals_sign) (setting k v) ≡ some v) same
          (subst (λ s. cut_prefix (k ++ equals_sign) s ≡ some v) (append_assoc k equals_sign v)
            (cut_prefix-append (k ++ equals_sign) v)) in
      rw (e, gone, here) refl
  | inr e ↦
      let ne : k ≢ key = λ same. ground (arith, e, (bytes_eq_iff k key).1 same) in
      rw (e, cut_prefix-other k key v hk h ne, value_of-settings key env h hs)
        (or_else-none (lookup key env))
]

-- A job sees its own setting of a key where it has one, and else that of the base environment.
pub value_of-merged_env :
    (key : Bytes) (base : List Bytes) (env : List (Bytes × Bytes))
    → IsKey key
    → Keys env
    → value_of key (merged_env base env) ≡ or_else (lookup key env) (value_of key base)
unfolding merged_env lookup value_of
value_of-merged_env key base [] h hs = refl
value_of-merged_env key base (kv ∷ env) h hs =
    value_of-append key base (settings (kv ∷ env))
    ∙ ap (λ o. or_else o (value_of key base)) (value_of-settings key (kv ∷ env) h hs)
