-- ===== src/Examples/Files.antt =====
-- A workspace at /w whose calls succeed (internal/filesvc).
use easyworker.Base.{
  ◌++◌, ◌+◌, ◌&&◌, leb, if◌then◌else◌, map, ◌≡◌, refl, true, false, none, some, List, [], ◌∷◌,
  Bytes, bytes, bytes_eq, cut_prefix,
}
use easyworker.FilePath.{is_abs, clean, join_path, trim_prefix}
use easyworker.Files.Resolve.{
  Symlinks, path_equal, has_root_prefix, IsUnder, real_root, lexical, resolve, resolve-IsUnder,
}
use easyworker.Files.ResolveWindows.{Windows}
use easyworker.Files.ResolveWindows
use easyworker.Files.Service.{Os, touch, resolve_in, World, AllUnder, missing}
use easyworker.Files.Sync.{
  trim_dot, Tar, eof, entry, regular, link, Archives, IsWhole, regular_files, tar_reader,
  sync_folder,
}
use easyworker.Files.Sync.Contained.{sync_folder-AllUnder}
use easyworker.Files.Sync.Complete.{sync_folder_complete}

-- The files that were written, the last first.
abbrev pub Disk : Type 0
Disk = List (Bytes × Bytes)

-- EvalSymlinks finds the root only.
abbrev pub links : Symlinks
links p = elim (bytes_eq p (bytes "/w")) [ true ↦ some (bytes "/w") | false ↦ none ]

abbrev pub os : Os Disk
os = record {
  eval_symlinks = λ fs. links;
  mkdir_all = λ p fs. (fs, true);
  read_file = λ p fs. none;
  write_file = λ p c fs. ((p, c) ∷ fs, true);
  stat = λ p fs. missing;
  read_dir = λ p fs. some [];
  remove_all = λ p fs. (fs, true);
  open_file = λ p mode fs. (fs, true);
  copy_to = λ p c fs. ((p, c) ∷ fs, true);
}

abbrev root : Bytes
root = bytes "/w"

abbrev pub empty_world : World Disk
empty_world = record { fs = []; touched = [] }

abbrev pub tar : Tar
tar =
    entry (record { name = bytes "./a/b"; kind = regular; mode = 0o644; content = bytes "x" })
      (entry (record { name = bytes "l"; kind = link; mode = 0; content = [] }) eof)

abbrev pub archives : Archives
archives = record { untar = λ b. tar; gunzip = λ b. none }

resolve_up : resolve links root (bytes "a/../b") ≡ some (bytes "/w/b")
unfolding resolve path_equal bytes_eq lexical is_abs join_path clean has_root_prefix
resolve_up = refl

resolve-IsUnder_example : IsUnder (real_root links root) (bytes "/w/b")
resolve-IsUnder_example = resolve-IsUnder links root (bytes "a/../b") (bytes "/w/b") resolve_up

unresolved : links (lexical root (bytes "a/../b")) ≡ none
unfolding lexical bytes_eq is_abs join_path clean
unresolved = refl

root-abs : is_abs root ≡ true
unfolding is_abs
root-abs = refl

sync_folder-AllUnder_example :
    AllUnder os
      (sync_folder os root archives (bytes "tar") (bytes "sub") true empty_world).0.touched
sync_folder-AllUnder_example =
    sync_folder-AllUnder os root archives (bytes "tar") (bytes "sub") true empty_world tt

sync_folder-succeeds :
    (sync_folder os root archives (bytes "tar") (bytes "sub") true empty_world).1.failed ≡ false
unfolding sync_folder resolve_in resolve path_equal bytes_eq lexical is_abs join_path clean
    has_root_prefix touch tar_reader trim_prefix cut_prefix trim_dot
sync_folder-succeeds = refl

sync_folder_complete_example :
    (t : Tar) × (tar_reader archives (bytes "tar") ≡ some t)
    × IsWhole t
    × ((sync_folder os root archives (bytes "tar") (bytes "sub") true empty_world).1.files
        ≡ regular_files t)
sync_folder_complete_example =
    sync_folder_complete os root archives (bytes "tar") (bytes "sub") true empty_world
      sync_folder-succeeds

-- ToLower and EqualFold on ASCII, and paths with one kind of slash.
abbrev lower : Bytes → Bytes
lower = map λ c. if leb b'A' c && leb c b'Z' then c + 32 else c

abbrev windows : Windows
windows = record {
  from_slash = λ p. p;
  is_abs = λ p. false;
  join = λ r p. r ++ b'\\' ∷ p;
  clean = λ p. p;
  equal_fold = λ a b. bytes_eq (lower a) (lower b);
  to_lower = lower;
}
