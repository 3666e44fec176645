-- ===== src/RestoreJob/Calls.antt =====
-- internal/cnpgi/restore/restore.go: what the restore job looks at, and what it calls outside.
use plugin_barman_cloud.Base.{ℕ, Bool, Option, List, String, Bytes}
use plugin_barman_cloud.Base.Exec.{Exec}
use plugin_barman_cloud.Api.{
  NamespacedName, SecretKeySelector, BarmanCredentials, BarmanConfiguration, Cluster, ObjectStore,
}
use plugin_barman_cloud.Wal.Errors.{WalError}

-- `JobHookImpl`, less its client.
pub record JobHookImpl : Type 0 where
  pub spool_directory : String
  pub pg_data_path : String
  pub pg_wal_folder_to_symlink : String

-- A backup of the catalog, barman-cloud's `BarmanBackup`; a time is its Unix time.
pub record BarmanBackup : Type 0 where
  pub id : String
  pub backup_name : String
  pub begin_time : ℕ
  pub end_time : ℕ
  pub begin_wal : String
  pub end_wal : String
  pub begin_lsn : String
  pub end_lsn : String
  pub error : String

-- The in-memory Backup that the job builds. `is_completed` says whether its phase is CloudNativePG's
-- constant for that.
pub record Backup : Type 0 where
  pub cluster_name : String
  pub barman_credentials : BarmanCredentials
  pub endpoint_ca : Option SecretKeySelector
  pub endpoint_url : String
  pub destination_path : String
  pub server_name : String
  pub backup_id : String
  pub is_completed : Bool
  pub started_at : ℕ
  pub stopped_at : ℕ
  pub begin_wal : String
  pub end_wal : String
  pub begin_lsn : String
  pub end_lsn : String
  pub error : String
  pub command_output : String
  pub command_error : String

-- The fields of a `RestoreRequest`.
pub record RestoreRequest (J : Type 0) : Type 0 where
  pub cluster_definition : J
  pub check_empty_wal_archive : Option Bool

-- `bootstrap` of a Cluster's specification: none, one without a recovery or without its target, or
-- one with a recovery target, of CloudNativePG's type `T`.
pub data Bootstrap (T : Type 0) : Type 0 where
  no_bootstrap : Bootstrap T
  no_target : Bootstrap T
  recovery_target : T → Bootstrap T

-- The errors of the job: those of other code, plain or under a message of the source, and the
-- dereference of a nil pointer.
pub data JobError (E : Type 0) : Type 0 where
  external : E → JobError E
  cannot_get_credentials : String → E → JobError E
  creating_archiver : E → JobError E
  destination_check : WalError E → JobError E
  no_target_backup_found : JobError E
  first_needed_wal : E → JobError E
  panic : JobError E

-- What the job calls: the Kubernetes client; `EnvSetCloudCredentialsAndCertificates`, on the
-- Cluster's namespace, the configuration and the path of the certificate; the catalog of
-- barman-cloud; the archiver and the restorer of its library, of types `A` and `R`, with what they
-- are built from; barman-cloud-restore, on its options and environment, and the files.
-- `restore_exit_error` says of an `ExitError` what `UnmarshalBarmanCloudRestoreExitCode` makes of it.
-- `read_link` is empty where there is no link.
pub record JobCalls (W E A R T C : Type 0) : Type 0 where
  pub get_object_store : NamespacedName → Exec W E ObjectStore
  pub credentials_env : String → BarmanConfiguration → String → Exec W E (List Bytes)
  pub bootstrap : Cluster → Bootstrap T
  pub get_backup_list : BarmanConfiguration → String → List Bytes → Exec W E C
  pub find_backup_info : C → T → Exec W E (Option BarmanBackup)
  pub latest_backup_info : C → Option BarmanBackup
  pub new_archiver : List Bytes → String → String → String → Exec W E A
  pub append_cloud_provider_options : List String → BarmanConfiguration → Exec W E (List String)
  pub append_restore_additional_command_args : BarmanConfiguration → List String → List String
  pub run_barman_cloud_restore : List String → List Bytes → Exec W E (Unit {0})
  pub restore_exit_error : E → Option (Option E)
  pub new_restorer : List Bytes → String → Exec W E R
  pub cloud_wal_restore_options : BarmanConfiguration → String → Exec W E (List Bytes)
  pub restore_wal : R → String → String → List Bytes → Exec W E (Unit {0})
  pub ensure_parent_directory_exists : String → Exec W E (Unit {0})
  pub ensure_directory_exists : String → Exec W E (Unit {0})
  pub move_directory_content : String → String → Exec W E (Unit {0})
  pub remove_file : String → Exec W E (Unit {0})
  pub symlink : String → String → Exec W E (Unit {0})
  pub read_link : String → W → String
