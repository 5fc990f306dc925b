-- ===== src/Service/Handlers/Contained.antt =====
-- What the file handlers of internal/service.go answer about a path outside the workspace.
use easyworker.Base.{◌≡◌, refl, Bool, false, none, [], Bytes, bytes_eq}
use easyworker.Rpc.{fail, not_found, internal}
use easyworker.Files.Service.{Os, World, read, write, list, resolve_in}
use easyworker.Files.Sync.{Archives, sync_folder}
use easyworker.Service.Handlers.{file_read, file_write, file_list, sync}

-- A path that does not resolve to a place under the root is refused by each of the four handlers, with
-- NotFound where it would be read and Internal where it would be written, and nothing is touched.
pub refused_path :
    {F : Type 0} (os : Os F) (root path content tarball : Bytes) (ar : Archives) (clean : Bool)
    (w : World F)
    → bytes_eq path [] ≡ false
    → resolve_in os root w.fs path ≡ none
    → (file_read os root path w.fs ≡ fail not_found)
      × (file_list os root path w.fs ≡ fail not_found)
      × (file_write os root path content w ≡ (w, fail internal))
      × (sync os root ar tarball path clean w ≡ (w, fail internal))
unfolding file_read file_list file_write sync read list write sync_folder
refused_path os root path content tarball ar clean w named refused = (
  rw (named, refused, file_read, read) refl,
  rw (refused, file_list, list) refl,
  rw (named, refused, file_write, write) refl,
  rw (named, refused, sync, sync_folder) refl,
)
