-- ===== src/RestoreJob.antt =====
-- internal/cnpgi/restore/restore.go: the job that restores a Cluster from a backup.
pub mod Calls
pub mod Load
pub mod Files
pub mod Hook
pub mod Phases
pub mod Guarded
pub mod WalDir
pub mod Destination
mod Tests
