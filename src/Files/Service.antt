-- ===== src/Files/Service.antt =====
-- `Read`, `Write`, `List` and `rel` of internal/filesvc/service.go. The calls of os that change
-- the file system are data: the call that is made is the one that is noted, with the root that its path
-- was checked against.
use easyworker.Base.{
  ℕ, ◌≡◌, ◌⊎◌, refl, inl, inr, Bool, true, false, Option, none, some, List, [], ◌∷◌, ◌++◌, ◌==◌,
  ltb, if◌then◌else◌, Bytes, bytes, bytes_eq, All, All-append, Bool-cases, Option-cases,
}
use easyworker.FilePath.{slash, dot, join_path, dir, trim_prefix}
use easyworker.Files.Resolve.{Symlinks, resolve, real_root, IsUnder, resolve-IsUnder}

pub record DirEntry : Type 0 where
  pub name : Bytes
  pub is_dir : Bool
  -- Info; `none` is an error
  pub size : Option ℕ

pub data Stat : Type 0 where
  missing : Stat
  plain : ℕ → Stat
  folder : Stat

-- The calls of os and filepath that touch the file system, over its states F; a call that changes it
-- says whether it succeeded.
pub record Os (F : Type 0) : Type 0 where
  pub eval_symlinks : F → Symlinks
  pub mkdir_all : Bytes → F → F × Bool
  pub read_file : Bytes → F → Option Bytes
  pub write_file : Bytes → Bytes → F → F × Bool
  pub stat : Bytes → F → Stat
  pub read_dir : Bytes → F → Option (List DirEntry)
  pub remove_all : Bytes → F → F × Bool
  -- os.OpenFile with O_CREATE|O_TRUNC|O_WRONLY, and io.Copy to it
  pub open_file : Bytes → ℕ → F → F × Bool
  pub copy_to : Bytes → Bytes → F → F × Bool

-- The calls that change the file system.
pub data Call : Type 0 where
  make_dirs remove_tree : Bytes → Call
  write_whole fill : Bytes → Bytes → Call
  open_new : Bytes → ℕ → Call

unfoldable pub apply : {F : Type 0} → Os F → Call → F → F × Bool
apply os (make_dirs p) fs = os.mkdir_all p fs
apply os (remove_tree p) fs = os.remove_all p fs
apply os (write_whole p content) fs = os.write_file p content fs
apply os (fill p content) fs = os.copy_to p content fs
apply os (open_new p mode) fs = os.open_file p mode fs

-- A call that was made, for a path that was checked against the root `root`.
pub record Touch : Type 0 where
  pub root : Bytes
  pub call : Call

pub record World (F : Type 0) : Type 0 where
  pub fs : F
  pub touched : List Touch

pub record Entry : Type 0 where
  pub path : Bytes
  pub size : ℕ
  pub is_dir : Bool

-- Go's order of strings, by bytes.
unfoldable pub bytes_lt : Bytes → Bytes → Bool
bytes_lt [] [] = false
bytes_lt [] (b ∷ t) = true
bytes_lt (a ∷ s) [] = false
bytes_lt (a ∷ s) (b ∷ t) = let rest = bytes_lt s t in if a == b then rest else ltb a b

insert_path : Entry → List Entry → List Entry
unfolding bytes_lt
insert_path e [] = e ∷ []
insert_path e (d ∷ entries) =
    let rest = insert_path e entries in
    if bytes_lt d.path e.path then d ∷ rest else e ∷ (d ∷ entries)

-- sort.Slice by path
unfoldable pub sort_paths : List Entry → List Entry
unfolding insert_path
sort_paths [] = []
sort_paths (e ∷ entries) = insert_path e (sort_paths entries)

-- A path that joins `at` with a name that a listing of `at` gave.
abbrev pub IsListed : {F : Type 0} → Os F → Bytes → Bytes → Type 0
IsListed {F} os at p =
    (fs : F) × (before : List DirEntry) × (d : DirEntry) × (after : List DirEntry) × (os.read_dir at
        fs
      ≡ some (before ++ (d ∷ after)))
    × (p ≡ join_path at d.name)

-- What a call may touch: the path is the root or below it; a folder that is made may also be the parent
-- of such a path; and what is removed is an entry of a folder that is the root or below it.
abbrev pub Allowed : {F : Type 0} → Os F → Bytes → Call → Type 0
Allowed os r (make_dirs p) = IsUnder r p ⊎ ((q : Bytes) × IsUnder r q × (p ≡ dir q))
Allowed os r (remove_tree p) = (at : Bytes) × IsUnder r at × IsListed os at p
Allowed os r (write_whole p content) = IsUnder r p
Allowed os r (fill p content) = IsUnder r p
Allowed os r (open_new p mode) = IsUnder r p

abbrev pub AllUnder : {F : Type 0} → Os F → List Touch → Type 0
AllUnder os = All λ t. Allowed os t.root t.call

-- A call is made, and noted.
unfoldable pub touch : {F : Type 0} → Os F → Bytes → Call → World F → World F × Bool
unfolding apply
touch os root call w =
    let (fs, done) = apply os call w.fs in
    (record { fs = fs; touched = w.touched ++ record { root = root; call = call } ∷ [] }, done)

module _ {F : Type 0} (os : Os F) (root : Bytes) where
  unfoldable pub resolve_in : F → Bytes → Option Bytes
  resolve_in fs path = resolve (os.eval_symlinks fs) root path

  abbrev pub root_in : F → Bytes
  root_in fs = real_root (os.eval_symlinks fs) root

  unfoldable pub read : Bytes → F → Option Bytes
  read path fs = elim (resolve_in fs path) [ none ↦ none | some p ↦ os.read_file p fs ]

  write_at : Bytes → Bytes → Bytes → World F → World F × Bool
  unfolding touch
  write_at r p content w =
      let (w', made) = touch os r (make_dirs (dir p)) w in
      if made then touch os r (write_whole p content) w' else (w', false)

  unfoldable pub write : Bytes → Bytes → World F → World F × Bool
  unfolding write_at
  write path content w = elim (resolve_in w.fs path) [
    | none ↦ (w, false)
    | some p ↦ write_at (root_in w.fs) p content w
  ]

  -- `rel`: the device prefixes, the root and one slash are cut, and nothing is ".".
  unfoldable pub rel : Bytes → Bytes
  rel path =
      let strip = λ (p : Bytes). trim_prefix (bytes "\\\\.\\") (trim_prefix (bytes "\\\\?\\") p) in
      let r = trim_prefix slash (trim_prefix (strip root) (strip path)) in
      if bytes_eq r [] then dot else r

  list_entries : Bytes → List DirEntry → List Entry
  unfolding rel
  list_entries p [] = []
  list_entries p (d ∷ dirents) =
      let rest = list_entries p dirents in
      elim d.size [
        | none ↦ rest
        | some n ↦ record { path = rel (join_path p d.name); size = n; is_dir = d.is_dir } ∷ rest
      ]

  list_folder : Bytes → Option (List DirEntry) → Option (Bool × List Entry)
  unfolding list_entries sort_paths
  list_folder p none = none
  list_folder p (some dirents) = some (true, sort_paths (list_entries p dirents))

  list_at : Bytes → Stat → F → Option (Bool × List Entry)
  unfolding list_folder rel
  list_at p missing fs = none
  list_at p (plain n) fs = some (false, record { path = rel p; size = n; is_dir = false } ∷ [])
  list_at p folder fs = list_folder p (os.read_dir p fs)

  -- `List`: whether the path is a directory, and what it holds.
  unfoldable pub list : Bytes → F → Option (Bool × List Entry)
  unfolding list_at
  list path fs = elim (resolve_in fs path) [ none ↦ none | some p ↦ list_at p (os.stat p fs) fs ]

  pub touch-AllUnder :
      (r : Bytes) (call : Call) (w : World F)
      → Allowed os r call
      → AllUnder os w.touched
      → AllUnder os (touch os r call w).0.touched
  unfolding touch
  touch-AllUnder r call w u h = All-append _ w.touched _ h (u, tt)

  write_at-AllUnder :
      (r p content : Bytes) (w : World F)
      → IsUnder r p
      → AllUnder os w.touched
      → AllUnder os (write_at r p content w).0.touched
  unfolding write_at
  write_at-AllUnder r p content w u h =
      let made = touch os r (make_dirs (dir p)) w in
      let h' = touch-AllUnder r (make_dirs (dir p)) w (inr (p, u, refl)) h in
      elim (Bool-cases made.1) [
        | inl yes' ↦ rw (yes', write_at) (touch-AllUnder r (write_whole p content) made.0 u h')
        | inr no' ↦ rw (no', write_at) h'
      ]

  -- A write touches nothing outside the root but the folder that the root stands in: whatever the path,
  -- the links and the failures of the calls, what it writes is a path under the root that it was checked
  -- against, and the folders that it makes are the parent of such a path.
  pub write-AllUnder :
      (path content : Bytes) (w : World F)
      → AllUnder os w.touched
      → AllUnder os (write path content w).0.touched
  unfolding write resolve_in
  write-AllUnder path content w h =
      elim (Option-cases (resolve (os.eval_symlinks w.fs) root path)) [
        | inl refused ↦ rw (refused, write) h
        | inr (p, e) ↦
            let under = resolve-IsUnder (os.eval_symlinks w.fs) root path p e in
            rw (e, write) (write_at-AllUnder (root_in w.fs) p content w under h)
      ]
