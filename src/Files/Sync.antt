-- ===== src/Files/Sync.antt =====
-- internal/filesvc/sync.go: a tarball into the workspace. archive/tar and compress/gzip are
-- parameters: the entries that the reader gives, up to the end or to an error.
pub mod Contained
pub mod Complete
use easyworker.Base.{
  ℕ, suc, ◌+◌, ◌≤◌, ◌≡◌, refl, ◌⊎◌, inl, inr, Bool, true, false, ◌&&◌, ◌||◌, Option, none, some,
  List, [], ◌∷◌, ◌++◌, arith, ◌==◌, if◌then◌else◌, Bytes, bytes, bytes_eq, length, All, Bool-cases,
  Option-cases,
}
use Prim.Native.Nat.{bit_and, bit_or}
use easyworker.FilePath.{slash, dot, join_path, dir, trim_prefix}
use easyworker.Files.Resolve.{real_root, IsUnder, resolve, resolve-IsUnder}
use easyworker.Files.Service.{
  DirEntry, Os, World, touch, make_dirs, open_new, fill, remove_tree, resolve_in, root_in,
}

pub data Kind : Type 0 where
  folder regular link other : Kind

pub record Header : Type 0 where
  pub name : Bytes
  pub kind : Kind
  pub mode : ℕ
  pub content : Bytes

-- What Next answers until it ends the loop.
pub data Tar : Type 0 where
  -- io.EOF, and any other error
  eof broken : Tar
  entry : Header → Tar → Tar

pub record Archives : Type 0 where
  pub untar : Bytes → Tar
  pub gunzip : Bytes → Option Bytes

pub record Synced : Type 0 where
  pub files : ℕ
  pub failed : Bool

unfoldable pub trim_dot : Bytes → Bytes
trim_dot p = let q = trim_prefix (bytes "./") p in if bytes_eq q dot then [] else q

-- The gzip magic number.
is_gzip : Bytes → Bool
is_gzip [] = false
is_gzip (a ∷ []) = false
is_gzip (a ∷ b ∷ rest) = a == 0x1f && b == 0x8b

tar_of : Archives → Option Bytes → Option Tar
tar_of ar none = none
tar_of ar (some plain) = some (ar.untar plain)

unfoldable pub tar_reader : Archives → Bytes → Option Tar
unfolding is_gzip tar_of
tar_reader ar tarball =
    if is_gzip tarball then tar_of ar (ar.gunzip tarball) else some (ar.untar tarball)

-- os.FileMode(hdr.Mode)&0o777|0o400
abbrev file_mode : ℕ → ℕ
file_mode mode = bit_or (bit_and mode 0o777) 0o400

-- The loop's variables, and whether it goes on.
record Progress (F : Type 0) : Type 0 where
  world : World F
  files : ℕ
  going : Bool

-- The regular files of a tarball, up to its end, that have a name.
abbrev pub is_skipped : Bytes → Bool
is_skipped name = let n = trim_prefix slash name in bytes_eq n [] || bytes_eq n dot

abbrev pub is_regular : Kind → Bool
is_regular regular = true
is_regular _ = false

pub regular_files : Tar → ℕ
regular_files eof = 0
regular_files broken = 0
regular_files (entry h rest) =
    let n = regular_files rest in
    if is_skipped h.name then n else if is_regular h.kind then n + 1 else n

-- The reader comes to the end and not to an error.
abbrev pub IsWhole : Tar → Type 0
IsWhole eof = Unit {0}
IsWhole broken = ⊥
IsWhole (entry h rest) = IsWhole rest

module _ {F : Type 0} (os : Os F) (root : Bytes) where
  -- MkdirAll of the parent, OpenFile, Copy.
  unpack_file : Bytes → Bytes → Header → ℕ → World F → Progress F
  unpack_file r target h n w =
      let (w1, made) = touch os r (make_dirs (dir target)) w in
      let (w2, opened) = touch os r (open_new target (file_mode h.mode)) w1 in
      let (w3, copied) = touch os r (fill target h.content) w2 in
      if made
      then (if opened
          then (if copied
              then record { world = w3; files = n + 1; going = true }
              else record { world = w3; files = n; going = false })
          else record { world = w2; files = n; going = false })
      else record { world = w1; files = n; going = false }

  unpack : Bytes → Bytes → Header → Kind → ℕ → World F → Progress F
  unfolding unpack_file
  unpack r target h folder n w =
      let (w', made) = touch os r (make_dirs target) w in
      record { world = w'; files = n; going = made }
  unpack r target h regular n w = unpack_file r target h n w
  unpack r target h k n w = record { world = w; files = n; going = true }

  -- One round of the loop.
  sync_entry : Bytes → Header → ℕ → World F → Progress F
  unfolding unpack
  sync_entry dest h n w =
      let name = trim_prefix slash h.name in
      if bytes_eq name [] || bytes_eq name dot
      then record { world = w; files = n; going = true }
      else elim (resolve_in os root w.fs (join_path (trim_dot dest) name)) [
        | none ↦ record { world = w; files = n; going = false }
        | some target ↦ unpack (root_in os root w.fs) target h h.kind n w
      ]

  sync_entries : Bytes → Tar → ℕ → World F → World F × Synced
  unfolding sync_entry
  sync_entries dest eof n w = (w, record { files = n; failed = false })
  sync_entries dest broken n w = (w, record { files = n; failed = true })
  sync_entries dest (entry h rest) n w =
      let p = sync_entry dest h n w in
      let after = sync_entries dest rest p.files p.world in
      if p.going then after else (p.world, record { files = p.files; failed = true })

  clear_entries : Bytes → Bytes → List DirEntry → World F → World F × Bool
  clear_entries r at [] w = (w, true)
  clear_entries r at (d ∷ dirents) w =
      let (w', removed) = touch os r (remove_tree (join_path at d.name)) w in
      let after = clear_entries r at dirents w' in if removed then after else (w', false)

  clear_listed : Bytes → Bytes → Option (List DirEntry) → World F → World F × Bool
  unfolding clear_entries
  clear_listed r at none w = (w, false)
  clear_listed r at (some dirents) w = clear_entries r at dirents w

  clear_if : Bool → Bytes → Bytes → World F → World F × Bool
  unfolding clear_listed
  clear_if false r at w = (w, true)
  clear_if true r at w = clear_listed r at (os.read_dir at w.fs) w

  read_tar : Option Tar → Bytes → World F → World F × Synced
  unfolding sync_entries
  read_tar none dest w = (w, record { files = 0; failed = true })
  read_tar (some tar) dest w = sync_entries dest tar 0 w

  sync_at : Archives → Bytes → Bool → Bytes → Bytes → Bytes → World F → World F × Synced
  unfolding clear_if read_tar
  sync_at ar tarball clean r target dest w =
      let (w1, made) = touch os r (make_dirs target) w in
      let (w2, cleared) = clear_if clean r target w1 in
      if made
      then (if cleared
          then read_tar (tar_reader ar tarball) dest w2
          else (w2, record { files = 0; failed = true }))
      else (w1, record { files = 0; failed = true })

  unfoldable pub sync_folder : Archives → Bytes → Bytes → Bool → World F → World F × Synced
  unfolding sync_at
  sync_folder ar tarball dest clean w =
      let d = if bytes_eq dest [] then dot else dest in
      elim (resolve_in os root w.fs d) [
        | none ↦ (w, record { files = 0; failed = true })
        | some target ↦ sync_at ar tarball clean (root_in os root w.fs) target d w
      ]
