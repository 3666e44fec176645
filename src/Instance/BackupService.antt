-- ===== src/Instance/BackupService.antt =====
-- internal/cnpgi/instance/backup.go: taking a backup.
pub mod Reported
pub mod Failed
mod Tests
use plugin_barman_cloud.Base.{ℕ, Bool, true, List, String, StringMap, Bytes}
use plugin_barman_cloud.Base.Exec.{Result, ok, err, Exec, pure, fail, lift, try, ◌>>=◌, ◌>>◌}
use plugin_barman_cloud.Api.{Cluster, BarmanConfiguration, ObjectStore}
use plugin_barman_cloud.Config.{PluginConfiguration, new_from_cluster_json, get_barman_object_key}
use plugin_barman_cloud.Wal.Env.{merge_env, get_restore_ca_bundle_env, build_certificate_file_path}
use plugin_barman_cloud.Instance.BackupMetadata.{to_map, new_backup_result_metadata}
use plugin_barman_cloud.Instance.Catalog.{
  CatalogCalls, set_last_failed_backup_time, update_recovery_window,
}

-- What barman-cloud tells of the backup that was taken; a time is its Unix time, and the timeline is
-- as `strconv.Itoa` writes it.
pub record BackupInfo : Type 0 where
  pub id : String
  pub backup_name : String
  pub begin_time : ℕ
  pub end_time : ℕ
  pub begin_wal : String
  pub end_wal : String
  pub begin_lsn : String
  pub end_lsn : String
  pub time_line : String

-- The answer to a request.
pub record BackupResult : Type 0 where
  pub backup_id : String
  pub backup_name : String
  pub started_at : ℕ
  pub stopped_at : ℕ
  pub begin_wal : String
  pub end_wal : String
  pub begin_lsn : String
  pub end_lsn : String
  pub instance_id : String
  pub online : Bool
  pub metadata : StringMap

-- What a backup calls beside the calls of the maintenance: the creation of CloudNativePG's
-- `BackupTemporaryDirectory`; the environment of the process; the collection of the credentials, on a
-- namespace, a configuration, an environment and the path of a certificate; the name that is made of the
-- time; a barman-cloud `BackupCommand`, which gets that directory; the time.
pub record BackupCalls (W E : Type 0) : Type 0 where
  pub ensure_temporary_directory_exists : Exec W E (Unit {0})
  pub environ : List Bytes
  pub credentials_env : String → BarmanConfiguration → List Bytes → String → Exec W E (List Bytes)
  pub new_backup_name : W → String
  pub take : BarmanConfiguration → String → String → List Bytes → Exec W E (Unit {0})
  pub get_executed_backup_info :
      BarmanConfiguration → String → String → List Bytes → Exec W E BackupInfo
  pub now : W → ℕ

module _ {W E : Type 0} (calls : CatalogCalls W E) (backup_calls : BackupCalls W E) where
  -- `handleBackupError`: each attempt takes the time anew.
  unfoldable pub handle_backup_error : PluginConfiguration → Exec W E (Unit {0})
  unfolding set_last_failed_backup_time get_barman_object_key
  handle_backup_error c = calls.retry_on_conflict (λ w.
      set_last_failed_backup_time calls (get_barman_object_key c) c.server_name (backup_calls.now w)
        w)

  -- What follows `Take`: its error is returned, whatever comes of the record of the failure.
  abbrev pub after_take : PluginConfiguration → Result E (Unit {0}) → Exec W E (Unit {0})
  after_take c (ok u) = pure tt
  after_take c (err e) = try {E = E} (handle_backup_error c) >> fail e

  -- The environment of the commands.
  unfoldable pub backup_env : ObjectStore → Exec W E (List Bytes)
  unfolding merge_env get_restore_ca_bundle_env build_certificate_file_path
  backup_env store =
      backup_calls.credentials_env store.namespace store.spec.configuration
        (merge_env backup_calls.environ (get_restore_ca_bundle_env store.spec.configuration))
        (build_certificate_file_path store.name)

  -- `Take`, with what its failure asks for.
  unfoldable pub take_backup :
      PluginConfiguration → ObjectStore → String → List Bytes → Exec W E (Unit {0})
  unfolding handle_backup_error
  take_backup c store name env =
      try (backup_calls.take store.spec.configuration name c.server_name env) >>= after_take c

  -- The update of the recovery window, whose error is only logged.
  unfoldable pub refresh_window :
      PluginConfiguration → ObjectStore → List Bytes → Exec W E (Unit {0})
  unfolding update_recovery_window
  refresh_window c store env =
      calls.get_backup_list store.spec.configuration c.server_name env >>= λ catalog.
      try (update_recovery_window calls catalog store c.server_name) >> pure tt

  -- The answer, for a backup that was taken in the instance of that name.
  unfoldable pub backup_result : String → Cluster → BackupInfo → BackupResult
  unfolding to_map new_backup_result_metadata
  backup_result instance_name cluster info = record {
    backup_id = info.id;
    backup_name = info.backup_name;
    started_at = info.begin_time;
    stopped_at = info.end_time;
    begin_wal = info.begin_wal;
    end_wal = info.end_wal;
    begin_lsn = info.begin_lsn;
    end_lsn = info.end_lsn;
    instance_id = instance_name;
    online = true;
    metadata = to_map (new_backup_result_metadata cluster.uid info.time_line);
  }

  -- `Backup` from the environment on.
  unfoldable pub run_backup :
      String → PluginConfiguration → ObjectStore → List Bytes → String → Exec W E BackupResult
  unfolding take_backup refresh_window backup_result
  run_backup instance_name c store env name = do
    take_backup c store name env
    info ← backup_calls.get_executed_backup_info store.spec.configuration name c.server_name env
    refresh_window c store env
    pure (backup_result instance_name c.cluster info)

  -- `Backup` from the configuration on.
  unfoldable pub backup_configured : String → PluginConfiguration → Exec W E BackupResult
  unfolding backup_env run_backup get_barman_object_key
  backup_configured instance_name c = do
    store ← calls.get_object_store (get_barman_object_key c)
    backup_calls.ensure_temporary_directory_exists
    env ← backup_env store
    λ w. run_backup instance_name c store env (backup_calls.new_backup_name w) w

  -- `Backup`, over the decoder of a Cluster.
  unfoldable pub backup : {J : Type 0} → (J → Result E Cluster) → String → J → Exec W E BackupResult
  unfolding backup_configured new_from_cluster_json
  backup decode instance_name cluster_definition =
      lift (new_from_cluster_json decode cluster_definition) >>= backup_configured instance_name
