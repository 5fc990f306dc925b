-- ===== src/Files/Sync/Contained.antt =====
-- What a sync touches (internal/filesvc/sync.go).
use mathlib.Core.List.{append_assoc}
use easyworker.Base.{
  ◌≡◌, ◌∙◌, refl, sym, ap, ◌++◌, ℕ, inl, inr, Bool, true, false, ◌||◌, Option, none, some, List, [],
  ◌∷◌, if◌then◌else◌, Bytes, bytes_eq, Bool-cases, Option-cases,
}
use easyworker.FilePath.{slash, dot, join_path, dir, trim_prefix}
use easyworker.Files.Resolve.{IsUnder, resolve, resolve-IsUnder}
use easyworker.Files.Service.{
  DirEntry, Os, World, AllUnder, touch, touch-AllUnder, resolve_in, root_in, make_dirs, open_new,
  fill, remove_tree,
}
use easyworker.Files.Sync.{
  Kind, folder, regular, link, other, Header, Tar, eof, broken, entry, Archives, trim_dot,
  tar_reader, file_mode, unpack_file, unpack, sync_entry, sync_entries, clear_entries, clear_listed,
  clear_if, read_tar, sync_at, sync_folder,
}

module _ {F : Type 0} (os : Os F) (root : Bytes) where
  unpack_file-AllUnder :
      (r target : Bytes) (h : Header) (n : ℕ) (w : World F)
      → IsUnder r target
      → AllUnder os w.touched
      → AllUnder os (unpack_file os root r target h n w).world.touched
  unfolding unpack_file
  unpack_file-AllUnder r target h n w u a =
      let t1 = touch os r (make_dirs (dir target)) w in
      let t2 = touch os r (open_new target (file_mode h.mode)) t1.0 in
      let t3 = touch os r (fill target h.content) t2.0 in
      let a1 = touch-AllUnder os root r (make_dirs (dir target)) w (inr (target, u, refl)) a in
      let a2 = touch-AllUnder os root r (open_new target (file_mode h.mode)) t1.0 u a1 in
      let a3 = touch-AllUnder os root r (fill target h.content) t2.0 u a2 in
      elim (Bool-cases t1.1) [
        | inl e1 ↦ elim (Bool-cases t2.1) [
          | inl e2 ↦ elim (Bool-cases t3.1) [
            | inl e3 ↦ rw (e1, e2, e3, unpack_file) a3
            | inr e3 ↦ rw (e1, e2, e3, unpack_file) a3
          ]
          | inr e2 ↦ rw (e1, e2, unpack_file) a2
        ]
        | inr e1 ↦ rw (e1, unpack_file) a1
      ]

  unpack-AllUnder :
      (r target : Bytes) (h : Header) (k : Kind) (n : ℕ) (w : World F)
      → IsUnder r target
      → AllUnder os w.touched
      → AllUnder os (unpack os root r target h k n w).world.touched
  unfolding unpack
  unpack-AllUnder r target h folder n w u a =
      touch-AllUnder os root r (make_dirs target) w (inl u) a
  unpack-AllUnder r target h regular n w u a = unpack_file-AllUnder r target h n w u a
  unpack-AllUnder r target h link n w u a = a
  unpack-AllUnder r target h other n w u a = a

  sync_entry-AllUnder :
      (dest : Bytes) (h : Header) (n : ℕ) (w : World F)
      → AllUnder os w.touched
      → AllUnder os (sync_entry os root dest h n w).world.touched
  unfolding sync_entry resolve_in
  sync_entry-AllUnder dest h n w a =
      let name = trim_prefix slash h.name in
      elim (Bool-cases (bytes_eq name [] || bytes_eq name dot)) [
        | inl skip ↦ rw (skip, sync_entry) a
        | inr go ↦
            elim (Option-cases
              (resolve (os.eval_symlinks w.fs) root (join_path (trim_dot dest) name))) [
                | inl refused ↦ rw (go, refused, sync_entry) a
                | inr (target, e) ↦
                    rw (go, e, sync_entry)
                      (unpack-AllUnder (root_in os root w.fs) target h h.kind n w
                        (resolve-IsUnder (os.eval_symlinks w.fs) root
                          (join_path (trim_dot dest) name) target e)
                        a)
              ]
      ]

  sync_entries-AllUnder :
      (dest : Bytes) (tar : Tar) (n : ℕ) (w : World F)
      → AllUnder os w.touched
      → AllUnder os (sync_entries os root dest tar n w).0.touched
  unfolding sync_entries
  sync_entries-AllUnder dest eof n w a = a
  sync_entries-AllUnder dest broken n w a = a
  sync_entries-AllUnder dest (entry h rest) n w a =
      let p = sync_entry os root dest h n w in
      let b = sync_entry-AllUnder dest h n w a in
      elim (Bool-cases p.going) [
        | inl on ↦ rw (on, sync_entries) (sync_entries-AllUnder dest rest p.files p.world b)
        | inr stop ↦ rw (stop, sync_entries) b
      ]

  clear_entries-AllUnder :
      (r at : Bytes) (fs : F) (before dirents : List DirEntry) (w : World F)
      → IsUnder r at
      → os.read_dir at fs ≡ some (before ++ dirents)
      → AllUnder os w.touched
      → AllUnder os (clear_entries os root r at dirents w).0.touched
  unfolding clear_entries
  clear_entries-AllUnder r at fs before [] w u e a = a
  clear_entries-AllUnder r at fs before (d ∷ dirents) w u e a =
      let call = remove_tree (join_path at d.name) in
      let t = touch os r call w in
      let b = touch-AllUnder os root r call w (at, u, (fs, before, d, dirents, e, refl)) a in
      let e' = e ∙ ap some (sym (append_assoc before (d ∷ []) dirents)) in
      elim (Bool-cases t.1) [
        | inl removed ↦
            rw (removed, clear_entries)
              (clear_entries-AllUnder r at fs (before ++ d ∷ []) dirents t.0 u e' b)
        | inr kept ↦ rw (kept, clear_entries) b
      ]

  clear_if-AllUnder :
      (clean : Bool) (r at : Bytes) (w : World F)
      → IsUnder r at
      → AllUnder os w.touched
      → AllUnder os (clear_if os root clean r at w).0.touched
  unfolding clear_if
  clear_if-AllUnder false r at w u a = a
  clear_if-AllUnder true r at w u a = elim (Option-cases (os.read_dir at w.fs)) [
    | inl unread ↦ rw (unread, clear_listed) a
    | inr (dirents, e) ↦ rw (e, clear_listed) (clear_entries-AllUnder r at w.fs [] dirents w u e a)
  ]

  read_tar-AllUnder :
      (tar : Option Tar) (dest : Bytes) (w : World F)
      → AllUnder os w.touched
      → AllUnder os (read_tar os root tar dest w).0.touched
  unfolding read_tar
  read_tar-AllUnder none dest w a = a
  read_tar-AllUnder (some tar) dest w a = sync_entries-AllUnder dest tar 0 w a

  sync_at-AllUnder :
      (ar : Archives) (tarball : Bytes) (clean : Bool) (r target dest : Bytes) (w : World F)
      → IsUnder r target
      → AllUnder os w.touched
      → AllUnder os (sync_at os root ar tarball clean r target dest w).0.touched
  unfolding sync_at
  sync_at-AllUnder ar tarball clean r target dest w u a =
      let t = touch os r (make_dirs target) w in
      let b = touch-AllUnder os root r (make_dirs target) w (inl u) a in
      let c = clear_if os root clean r target t.0 in
      let d = clear_if-AllUnder clean r target t.0 u b in
      elim (Bool-cases t.1) [
        | inl made ↦ elim (Bool-cases c.1) [
          | inl cleared ↦
              rw (made, cleared, sync_at) (read_tar-AllUnder (tar_reader ar tarball) dest c.0 d)
          | inr left ↦ rw (made, left, sync_at) d
        ]
        | inr unmade ↦ rw (unmade, sync_at) b
      ]

  -- Whatever the tarball holds, with links, ".." or absolute names in it, and whichever calls fail: every
  -- call that a sync makes is noted as it is made, for the root that its path was checked against. What
  -- is opened or filled is under that root, a folder that is made is so too or is the parent of a path
  -- that is, and what is removed is an entry of a listing of a folder under that root.
  pub sync_folder-AllUnder :
      (ar : Archives) (tarball dest : Bytes) (clean : Bool) (w : World F)
      → AllUnder os w.touched
      → AllUnder os (sync_folder os root ar tarball dest clean w).0.touched
  unfolding sync_folder resolve_in
  sync_folder-AllUnder ar tarball dest clean w a =
      let d = if bytes_eq dest [] then dot else dest in
      elim (Option-cases (resolve (os.eval_symlinks w.fs) root d)) [
        | inl refused ↦ rw (refused, sync_folder) a
        | inr (target, e) ↦
            rw (e, sync_folder)
              (sync_at-AllUnder ar tarball clean (root_in os root w.fs) target d w
                (resolve-IsUnder (os.eval_symlinks w.fs) root d target e) a)
      ]
