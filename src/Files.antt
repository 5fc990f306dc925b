-- ===== src/Files.antt =====
-- internal/filesvc on unix: file operations under the workspace root. The file system is a
-- parameter: what filepath.EvalSymlinks and the calls of os answer.
pub mod Resolve
pub mod ResolveWindows
pub mod Service
pub mod Sync
