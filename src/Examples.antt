-- ===== src/Examples.antt =====
-- Concrete runs of the worker's parts, at which the theorems of the library are applied.
pub mod Auth
pub mod Client
pub mod Boot
pub mod Handlers
pub mod Tools
pub mod Store
pub mod History
pub mod Jobs
pub mod Shell
pub mod Files
pub mod Service
pub mod Server
