-- ===== src/Process/Capabilities.antt =====
-- GetCapabilities of the services: wal.go of internal/cnpgi/common, reconciler.go of
-- internal/cnpgi/operator, backup.go and metrics.go of internal/cnpgi/instance, and restore.go of
-- internal/cnpgi/restore. That of the lifecycle hook stands with the hook.
use plugin_barman_cloud.Base.{List, [], ◌∷◌}

-- The calls of the WAL service that it can say that it has.
pub data WalRpcType : Type 0 where
  archive_wal restore_wal status set_first_required : WalRpcType

-- The kinds of object that a reconciler can be asked about.
pub data ReconcilerKind : Type 0 where
  kind_cluster kind_backup : ReconcilerKind

pub data BackupRpcType : Type 0 where
  type_backup : BackupRpcType

pub data MetricsRpcType : Type 0 where
  type_metrics : MetricsRpcType

pub data RestoreJobKind : Type 0 where
  kind_restore : RestoreJobKind

abbrev pub wal_capabilities : List WalRpcType
wal_capabilities = archive_wal ∷ restore_wal ∷ []

abbrev pub reconciler_capabilities : List ReconcilerKind
reconciler_capabilities = kind_cluster ∷ kind_backup ∷ []

abbrev pub backup_capabilities : List BackupRpcType
backup_capabilities = type_backup ∷ []

abbrev pub metrics_capabilities : List MetricsRpcType
metrics_capabilities = type_metrics ∷ []

abbrev pub restore_job_capabilities : List RestoreJobKind
restore_job_capabilities = kind_restore ∷ []
