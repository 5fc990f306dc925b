-- ===== src/FilePath.antt =====
-- What the program uses of path/filepath on unix: Clean, Join, IsAbs. FromSlash and ToSlash do
-- nothing there. A path is handled by its elements, the texts between its slashes.
pub mod Elements
use easyworker.Base.{
  ℕ, Bool, true, false, ◌||◌, none, some, List, [], ◌∷◌, ◌++◌, reverse, ◌==◌, if◌then◌else◌, Bytes,
  bytes, bytes_eq, cut_prefix,
}
use easyworker.Shell.LineBuffer.{join}

abbrev pub slash : Bytes
slash = b'/' ∷ []

abbrev pub dot : Bytes
dot = b'.' ∷ []

abbrev pub dotdot : Bytes
dotdot = b'.' ∷ b'.' ∷ []

abbrev cons_head : ℕ → List Bytes → List Bytes
cons_head c [] = (c ∷ []) ∷ []
cons_head c (e ∷ es) = (c ∷ e) ∷ es

-- strings.Split(path, "/")
unfoldable pub split : Bytes → List Bytes
split [] = [] ∷ []
split (c ∷ s) = let rest = split s in if c == b'/' then [] ∷ rest else cons_head c rest

unfoldable pub is_abs : Bytes → Bool
is_abs [] = false
is_abs (c ∷ s) = c == b'/'

-- ".." takes the last element away; at the root it does nothing, and before any element it stays.
pop : Bool → List Bytes → List Bytes
pop true [] = []
pop false [] = dotdot ∷ []
pop rooted (e ∷ stack) = if bytes_eq e dotdot then dotdot ∷ e ∷ stack else stack

push : Bool → Bytes → List Bytes → List Bytes
unfolding pop
push rooted e stack =
    if bytes_eq e [] || bytes_eq e dot
    then stack
    else if bytes_eq e dotdot
    then pop rooted stack
    else e ∷ stack

-- The elements that are left, the last one first.
unfoldable pub normalise : Bool → List Bytes → List Bytes → List Bytes
unfolding push
normalise rooted stack [] = stack
normalise rooted stack (e ∷ es) = normalise rooted (push rooted e stack) es

abbrev render : Bool → List Bytes → Bytes
render true es = b'/' ∷ join slash es
render false [] = dot
render false (e ∷ es) = join slash (e ∷ es)

-- filepath.Clean
unfoldable pub clean : Bytes → Bytes
unfolding normalise split is_abs
clean p = let rooted = is_abs p in render rooted (reverse (normalise rooted [] (split p)))

-- filepath.Join of two elements
unfoldable pub join_path : Bytes → Bytes → Bytes
join_path a b =
    if bytes_eq a [] then (if bytes_eq b [] then [] else clean b) else clean (a ++ (b'/' ∷ b))

drop_name : Bytes → Bytes
drop_name [] = []
drop_name (c ∷ s) = let rest = drop_name s in if c == b'/' then c ∷ s else rest

-- filepath.Dir: what stands before the last slash, the slash included, cleaned.
unfoldable pub dir : Bytes → Bytes
unfolding drop_name
dir p = clean (reverse (drop_name (reverse p)))

-- strings.TrimPrefix
unfoldable pub trim_prefix : Bytes → Bytes → Bytes
trim_prefix prefix s = elim (cut_prefix prefix s) [ none ↦ s | some rest ↦ rest ]
