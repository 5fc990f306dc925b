-- ===== src/Jobs.antt =====
-- internal/jobsvc: the job registry and its sqlite store.
pub mod Row
pub mod Store
pub mod Job
pub mod Manager
