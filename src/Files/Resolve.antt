-- ===== src/Files/Resolve.antt =====
-- `resolve` of internal/filesvc/service.go with internal/filesvc/fold_unix.go.
use easyworker.Base.{
  ℕ, ◌≡◌, ◌∙◌, refl, sym, ap, ap₂, subst, take-append-drop, ◌⊎◌, inl, inr, Bool, true, false, not,
  ◌&&◌, Option, none, some, [], ◌∷◌, ◌++◌, arith, ltb, if◌then◌else◌, Bytes, bytes_eq, bytes_eq_iff,
  length, take, drop, Bool-cases,
}
use easyworker.FilePath.{slash, is_abs, clean, join_path}
use easyworker.FilePath.Elements.{NoDotdot, clean-NoDotdot, NoDotdot-after}

-- filepath.EvalSymlinks; `none` is an error, such as a path that does not exist.
abbrev pub Symlinks : Type 0
Symlinks = Bytes → Option Bytes

abbrev pub or_same : Option Bytes → Bytes → Bytes
or_same none p = p
or_same (some q) p = q

unfoldable pub path_equal : Bytes → Bytes → Bool
path_equal a b = bytes_eq a b

-- p[len(root)] == '/'
slash_at : ℕ → Bytes → Bool
slash_at n p = bytes_eq (take 1 (drop n p)) slash

unfoldable pub has_root_prefix : Bytes → Bytes → Bool
unfolding slash_at
has_root_prefix p root =
    let n = length root in ltb n (length p) && (bytes_eq (take n p) root && slash_at n p)

-- The path before its links are resolved.
unfoldable pub lexical : Bytes → Bytes → Bytes
lexical root path = if not (is_abs path) then join_path root path else clean path

unfoldable pub resolve : Symlinks → Bytes → Bytes → Option Bytes
resolve links root path =
    let p = or_same (links (lexical root path)) (lexical root path) in
    let r = or_same (links root) root in
    if not (path_equal p r) && not (has_root_prefix p r) then none else some p

-- The root as the check sees it.
abbrev pub real_root : Symlinks → Bytes → Bytes
real_root links root = or_same (links root) root

starts_with_slash :
    (d : Bytes) → bytes_eq (take 1 d) slash ≡ true → (rest : Bytes) × (d ≡ b'/' ∷ rest)
unfolding bytes_eq
starts_with_slash [] k = cc
starts_with_slash (c ∷ d) k = (d, ground arith)

take-drop-slash :
    (r p : Bytes)
    → bytes_eq (take (length r) p) r ≡ true
    → bytes_eq (take 1 (drop (length r) p)) slash ≡ true
    → (rest : Bytes) × (p ≡ r ++ (b'/' ∷ rest))
take-drop-slash r p h k =
    let (rest, d) = starts_with_slash (drop (length r) p) k in
    let t = (bytes_eq_iff (take (length r) p) r).0 h in
    (rest, sym (take-append-drop (length r) p) ∙ ap₂ (λ a b. a ++ b) t d)

-- The path itself or one below it.
pub data IsUnder (root p : Bytes) : Type 0 where
  same : p ≡ root → IsUnder root p
  below : (rest : Bytes) → p ≡ root ++ (b'/' ∷ rest) → IsUnder root p

has_root_prefix-below :
    (p r : Bytes) → has_root_prefix p r ≡ true → (rest : Bytes) × (p ≡ r ++ (b'/' ∷ rest))
unfolding has_root_prefix
has_root_prefix-below p r h = take-drop-slash r p (ground arith) (ground arith)

checked-IsUnder :
    (p r : Bytes) → (not (path_equal p r) && not (has_root_prefix p r)) ≡ false → IsUnder r p
unfolding path_equal
checked-IsUnder p r h = elim (Bool-cases (bytes_eq p r)) [
  | inl equal ↦ same ((bytes_eq_iff p r).0 equal)
  | inr other ↦ let (rest, e) = has_root_prefix-below p r (ground arith) in below rest e
]

-- What a success says: the path is the one that was computed, and it passed the check.
resolve_passed :
    (links : Symlinks) (root path p : Bytes)
    → resolve links root path ≡ some p
    → (p ≡ or_same (links (lexical root path)) (lexical root path))
      × ((not (path_equal p (real_root links root))
            && not (has_root_prefix p (real_root links root)))
          ≡ false)
unfolding resolve
resolve_passed links root path p h = ground arith

is_abs-ne-nil : (r : Bytes) → is_abs r ≡ true → bytes_eq r [] ≡ false
unfolding is_abs bytes_eq
is_abs-ne-nil [] h = cc
is_abs-ne-nil (c ∷ r) h = refl

-- The rest of a path that climbs nowhere climbs nowhere.
split_under :
    (root p : Bytes)
    → IsUnder root p
    → NoDotdot p
    → (p ≡ root) ⊎ ((rest : Bytes) × (p ≡ root ++ (b'/' ∷ rest)) × NoDotdot rest)
split_under root p (same e) h = inl e
split_under root p (below rest e) h = inr (rest, e, NoDotdot-after root rest (subst NoDotdot e h))

-- Every path that is resolved is the resolved root or lies below it, byte by byte, whatever the path
-- and the links are.
pub resolve-IsUnder :
    (links : Symlinks) (root path p : Bytes)
    → resolve links root path ≡ some p
    → IsUnder (real_root links root) p
resolve-IsUnder links root path p h =
    checked-IsUnder p (real_root links root) (resolve_passed links root path p h).1

is_abs-append : (r s : Bytes) → is_abs r ≡ true → is_abs (r ++ s) ≡ true
unfolding is_abs
is_abs-append [] s h = cc
is_abs-append (c ∷ r) s h = h

lexical-NoDotdot : (root path : Bytes) → is_abs root ≡ true → NoDotdot (lexical root path)
unfolding lexical join_path
lexical-NoDotdot root path h = elim (Bool-cases (is_abs path)) [
  | inl absolute ↦ rw (absolute, lexical) (clean-NoDotdot path absolute)
  | inr relative ↦
      let ne : bytes_eq root [] ≡ false = is_abs-ne-nil root h in
      rw (relative, lexical)
        (rw (ne, join_path) (clean-NoDotdot (root ++ (b'/' ∷ path)) (is_abs-append root _ h)))
]

-- Where EvalSymlinks fails, as on a path that is not there yet, what is resolved under an absolute
-- root climbs nowhere below it: it is the root, or the root, a slash, and elements none of which is
-- "..", so that without links on the way the entry lies in the workspace.
pub resolve-NoDotdot :
    (links : Symlinks) (root path p : Bytes)
    → is_abs root ≡ true
    → links (lexical root path) ≡ none
    → resolve links root path ≡ some p
    → (p ≡ real_root links root)
      ⊎ ((rest : Bytes) × (p ≡ real_root links root ++ (b'/' ∷ rest)) × NoDotdot rest)
resolve-NoDotdot links root path p ha hl h =
    let clean_path : NoDotdot p =
      subst NoDotdot
        (sym ((resolve_passed links root path p h).0 ∙ ap (λ o. or_same o (lexical root path)) hl))
        (lexical-NoDotdot root path ha) in
    split_under (real_root links root) p (resolve-IsUnder links root path p h) clean_path
