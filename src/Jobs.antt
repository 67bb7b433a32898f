-- ===== src/Jobs.antt =====
-- The job table (src/doccontext/repositories/job.py).
pub mod Database
pub mod Repository
pub mod Rows
pub mod History
pub mod Lifecycle
pub mod Contract
pub mod Memory
