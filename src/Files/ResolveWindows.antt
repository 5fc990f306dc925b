-- ===== src/Files/ResolveWindows.antt =====
-- `resolve` of internal/filesvc/service.go with internal/filesvc/fold_windows.go. The calls of
-- path/filepath on windows, strings.EqualFold and strings.ToLower are parameters.
use easyworker.Base.{
  ◌≡◌, ◌∙◌, ap, ◌⊎◌, inl, inr, Bool, true, false, not, ◌&&◌, Option, none, some, [], ◌∷◌, ◌++◌,
  arith, if◌then◌else◌, Bytes, bytes, cut_prefix, cut_prefix-eq-some, Bool-cases, Option-cases,
}
use easyworker.Files.Resolve.{Symlinks, or_same}

pub record Windows : Type 0 where
  pub from_slash : Bytes → Bytes
  pub is_abs : Bytes → Bool
  pub join : Bytes → Bytes → Bytes
  pub clean : Bytes → Bytes
  pub equal_fold : Bytes → Bytes → Bool
  pub to_lower : Bytes → Bytes

abbrev pub backslash : Bytes
backslash = b'\\' ∷ []

-- ToLower maps rune by rune, and keeps a backslash.
pub record WindowsLaws (os : Windows) : Type 0 where
  pub to_lower-append : (s : Bytes) → os.to_lower (s ++ backslash) ≡ os.to_lower s ++ backslash

has_prefix : Bytes → Bytes → Bool
has_prefix s prefix = elim (cut_prefix prefix s) [ none ↦ false | some _ ↦ true ]

-- Both prefixes are four bytes long.
unfoldable pub trim_device_prefix : Bytes → Bytes
trim_device_prefix p = elim (cut_prefix (bytes "\\\\?\\") p) [
  | some rest ↦ rest
  | none ↦ elim (cut_prefix (bytes "\\\\.\\") p) [ some rest ↦ rest | none ↦ p ]
]

abbrev pub add_prefix : Option Bytes → Option Bytes
add_prefix none = none
add_prefix (some q) = some (bytes "\\\\?\\" ++ q)

-- The same answers with the device prefix.
abbrev pub prefixed : Symlinks → Symlinks
prefixed links p = add_prefix (links p)

module _ (os : Windows) where
  unfoldable pub path_equal : Bytes → Bytes → Bool
  path_equal a b = os.equal_fold a b

  unfoldable pub has_root_prefix : Bytes → Bytes → Bool
  unfolding has_prefix
  has_root_prefix p root = has_prefix (os.to_lower p) (os.to_lower (root ++ backslash))

  -- The path before its links are resolved.
  lexical : Bytes → Bytes → Bytes
  lexical root path =
      let p = os.from_slash path in if not (os.is_abs p) then os.join root p else os.clean p

  abbrev pub real_root : Symlinks → Bytes → Bytes
  real_root links root = trim_device_prefix (or_same (links root) root)

  unfoldable pub resolve : Symlinks → Bytes → Bytes → Option Bytes
  unfolding lexical
  resolve links root path =
      let p = trim_device_prefix (or_same (links (lexical root path)) (lexical root path)) in
      let r = real_root links root in
      if not (path_equal p r) && not (has_root_prefix p r) then none else some p

  -- The root, or a path below it, where letters of either case are the same.
  abbrev pub IsUnderFold : Bytes → Bytes → Type 0
  IsUnderFold root p =
      (os.equal_fold p root ≡ true)
      ⊎ ((rest : Bytes) × (os.to_lower p ≡ (os.to_lower root ++ backslash) ++ rest))

  has_root_prefix-below :
      WindowsLaws os
      → (p root : Bytes) → has_root_prefix p root ≡ true
      → (rest : Bytes) × (os.to_lower p ≡ (os.to_lower root ++ backslash) ++ rest)
  unfolding has_root_prefix has_prefix
  has_root_prefix-below laws p root h =
      elim (Option-cases (cut_prefix (os.to_lower (root ++ backslash)) (os.to_lower p))) [
        | inl apart ↦ absurd (ground (arith, apart))
        | inr (rest, e) ↦ (
          rest,
          cut_prefix-eq-some (os.to_lower (root ++ backslash)) (os.to_lower p) rest e
              ∙ ap (λ t. t ++ rest) (laws.to_lower-append root),
        )
      ]

  checked-IsUnderFold :
      WindowsLaws os
      → (p root : Bytes) → (not (path_equal p root) && not (has_root_prefix p root)) ≡ false
      → IsUnderFold root p
  unfolding path_equal
  checked-IsUnderFold laws p root h = elim (Bool-cases (os.equal_fold p root)) [
    | inl same ↦ inl same
    | inr other ↦ inr (has_root_prefix-below laws p root (ground arith))
  ]

  resolve_passed :
      (links : Symlinks) (root path p : Bytes)
      → resolve links root path ≡ some p
      → (not (path_equal p (real_root links root))
          && not (has_root_prefix p (real_root links root)))
        ≡ false
  unfolding resolve
  resolve_passed links root path p h = ground arith

  -- Every path that is resolved on windows is the resolved root or lies below it, up to the case of
  -- letters, whatever the path and the links are and with or without a device prefix on either.
  pub resolve-IsUnderFold :
      WindowsLaws os
      → (links : Symlinks) (root path p : Bytes) → resolve links root path ≡ some p
      → IsUnderFold (real_root links root) p
  resolve-IsUnderFold laws links root path p h =
      checked-IsUnderFold laws p (real_root links root) (resolve_passed links root path p h)
