-- ===== src/Auth.antt =====
-- internal/auth: the worker's access gate, its random codes, the state file and the interceptor.
pub mod Hex
pub mod Store
pub mod Gate
pub mod FileStore
pub mod Space
pub mod Interceptor
