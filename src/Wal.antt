-- ===== src/Wal.antt =====
-- internal/cnpgi/common: archiving and restoring WAL files.
pub mod Hex
pub mod FileName
pub mod Segment
pub mod Env
pub mod Errors
pub mod Routing
pub mod Restore
pub mod Archive
mod Tests
