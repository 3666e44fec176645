-- ===== src/Instance.antt =====
-- internal/cnpgi/instance: the sidecar of an instance, beside its WAL service.
pub mod BackupMetadata
pub mod Catalog
pub mod BackupService
pub mod Metrics
mod Tests
