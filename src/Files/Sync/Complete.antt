-- ===== src/Files/Sync/Complete.antt =====
-- What a sync that succeeds has unpacked (internal/filesvc/sync.go).
use easyworker.Base.{
  ℕ, ◌+◌, ◌≡◌, refl, inl, inr, Bool, true, false, Option, none, some, [], arith, if◌then◌else◌,
  Bytes, bytes_eq, Bool-cases, Option-cases,
}
use easyworker.FilePath.{slash, dot, join_path, trim_prefix}
use easyworker.Files.Service.{Os, World, touch, make_dirs, resolve_in, root_in}
use easyworker.Files.Sync.{
  Kind, folder, regular, link, other, Header, Tar, eof, broken, entry, Archives, trim_dot,
  tar_reader, is_skipped, is_regular, regular_files, IsWhole, unpack, sync_entry, sync_entries,
  clear_if, read_tar, sync_at, sync_folder,
}

module _ {F : Type 0} (os : Os F) (root : Bytes) where
  unpack-counts :
      (r target : Bytes) (h : Header) (k : Kind) (n : ℕ) (w : World F)
      → (unpack os root r target h k n w).going ≡ true
      → (unpack os root r target h k n w).files ≡ n + (if is_regular k then 1 else 0)
  unfolding unpack
  unpack-counts r target h folder n w g = omega arith
  unpack-counts r target h regular n w g = ground arith
  unpack-counts r target h link n w g = omega arith
  unpack-counts r target h other n w g = omega arith

  sync_entry-counts :
      (dest : Bytes) (h : Header) (n : ℕ) (w : World F)
      → (sync_entry os root dest h n w).going ≡ true
      → (sync_entry os root dest h n w).files
        ≡ n + (if is_skipped h.name then 0 else if is_regular h.kind then 1 else 0)
  unfolding sync_entry
  sync_entry-counts dest h n w g = elim (Bool-cases (is_skipped h.name)) [
    | inl skip ↦ rw (skip, sync_entry) (omega arith)
    | inr named ↦
        elim (Option-cases
          (resolve_in os root w.fs (join_path (trim_dot dest) (trim_prefix slash h.name)))) [
            | inl refused ↦ absurd (ground (arith, named, refused))
            | inr (target, e) ↦
                rw (named, e, sync_entry)
                  (unpack-counts (root_in os root w.fs) target h h.kind n w
                    (rw (named, e, sync_entry) at g))
          ]
  ]

  sync_entries_complete :
      (dest : Bytes) (tar : Tar) (n : ℕ) (w : World F)
      → (sync_entries os root dest tar n w).1.failed ≡ false
      → IsWhole tar × ((sync_entries os root dest tar n w).1.files ≡ n + regular_files tar)
  unfolding sync_entries regular_files
  sync_entries_complete dest eof n w ok' = (tt, omega arith)
  sync_entries_complete dest broken n w ok' = cc
  sync_entries_complete dest (entry h rest) n w ok' =
      elim (Bool-cases (sync_entry os root dest h n w).going) [
        | inl on ↦
            let p = sync_entry os root dest h n w in
            let (whole, count) =
              sync_entries_complete dest rest p.files p.world (rw (on, sync_entries) at ok') in
            let here = sync_entry-counts dest h n w on in
            (whole, rw (on, sync_entries) (ground (arith, count, here)))
        | inr stop ↦ absurd (ground (arith, stop))
      ]

  read_tar_complete :
      (tar : Option Tar) (dest : Bytes) (w : World F)
      → (read_tar os root tar dest w).1.failed ≡ false
      → (t : Tar) × (tar ≡ some t)
        × IsWhole t
        × ((read_tar os root tar dest w).1.files ≡ regular_files t)
  unfolding read_tar
  read_tar_complete none dest w h = cc
  read_tar_complete (some t) dest w h =
      let (whole, count) = sync_entries_complete dest t 0 w h in
      (t, refl, whole, omega (arith, count))

  sync_at_complete :
      (ar : Archives) (tarball : Bytes) (clean : Bool) (r target dest : Bytes) (w : World F)
      → (sync_at os root ar tarball clean r target dest w).1.failed ≡ false
      → (t : Tar) × (tar_reader ar tarball ≡ some t)
        × IsWhole t
        × ((sync_at os root ar tarball clean r target dest w).1.files ≡ regular_files t)
  unfolding sync_at
  sync_at_complete ar tarball clean r target dest w h =
      let t = touch os r (make_dirs target) w in
      let c = clear_if os root clean r target t.0 in
      elim (Bool-cases t.1) [
        | inl made ↦ elim (Bool-cases c.1) [
          | inl cleared ↦
              rw (made, cleared, sync_at)
                (read_tar_complete (tar_reader ar tarball) dest c.0
                  (rw (made, cleared, sync_at) at h))
          | inr left ↦ absurd (ground (arith, made, left))
        ]
        | inr unmade ↦ absurd (ground (arith, unmade))
      ]

  -- A sync that does not fail has read the tarball to its end, and reports as many files as the
  -- tarball has regular entries with a name: links and folders are not counted.
  pub sync_folder_complete :
      (ar : Archives) (tarball dest : Bytes) (clean : Bool) (w : World F)
      → (sync_folder os root ar tarball dest clean w).1.failed ≡ false
      → (t : Tar) × (tar_reader ar tarball ≡ some t)
        × IsWhole t
        × ((sync_folder os root ar tarball dest clean w).1.files ≡ regular_files t)
  unfolding sync_folder
  sync_folder_complete ar tarball dest clean w h =
      let d = if bytes_eq dest [] then dot else dest in
      elim (Option-cases (resolve_in os root w.fs d)) [
        | inl refused ↦ absurd (ground (arith, refused))
        | inr (target, e) ↦
            rw (e, sync_folder)
              (sync_at_complete ar tarball clean (root_in os root w.fs) target d w
                (rw (e, sync_folder) at h))
      ]
