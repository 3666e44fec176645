-- ===== src/RestoreJob/Hook.antt =====
-- internal/cnpgi/restore/restore.go: `Restore`.
use plugin_barman_cloud.Base.{Bool, Option, List, String, Bytes, ◌==◌, string_eq, if◌then◌else◌}
use plugin_barman_cloud.Base.Exec.{Result, Exec, pure, lift, wrapping, wrap_result, ◌>>=◌, ◌>>◌}
use plugin_barman_cloud.Api.{Cluster, ObjectStore}
use plugin_barman_cloud.Config.{
  PluginConfiguration, new_from_cluster_json, get_barman_object_key, get_recovery_barman_object_key,
}
use plugin_barman_cloud.Wal.Archive.{ArchiveCalls}
use plugin_barman_cloud.RestoreJob.Calls.{
  JobHookImpl, Backup, RestoreRequest, JobError, external, JobCalls,
}
use plugin_barman_cloud.RestoreJob.Load.{
  check_target_destination, load_backup_object_from_external_cluster,
}
use plugin_barman_cloud.RestoreJob.Files.{
  get_restore_wal_config, restore_data_dir, ensure_archive_contains_last_checkpoint_redo_wal,
  restore_custom_wal_dir,
}

module _ {W E A R T C : Type 0} (calls : JobCalls W E A R T C) (archive_calls : ArchiveCalls W E A)
    (impl : JobHookImpl) where
  -- The check of the destination, where the Cluster archives to an object store.
  unfoldable pub check_target : PluginConfiguration → Option Bool → Exec W (JobError E) (Unit {0})
  unfolding check_target_destination get_barman_object_key
  check_target c decision =
      if c.barman_object_name == ""
      then pure tt
      else (wrapping external (calls.get_object_store (get_barman_object_key c)) >>= λ target.
          check_target_destination calls archive_calls impl c.cluster target.spec.configuration
            target.name decision)

  -- The link to the volume of the WAL, where the Cluster has one.
  unfoldable pub restore_wal_storage : Cluster → Exec W (JobError E) (Unit {0})
  unfolding restore_custom_wal_dir
  restore_wal_storage cluster =
      if cluster.has_wal_storage
      then (restore_custom_wal_dir calls impl >>= λ changed. pure tt)
      else pure tt

  -- `Restore` after the backup is chosen.
  unfoldable pub restore_backup :
      Cluster → ObjectStore → Backup × List Bytes → Exec W (JobError E) (Unit {0})
  unfolding ensure_archive_contains_last_checkpoint_redo_wal restore_data_dir restore_wal_storage
  restore_backup cluster store chosen = do
    ensure_archive_contains_last_checkpoint_redo_wal calls impl chosen.1 chosen.0
        store.spec.configuration
    restore_data_dir calls impl chosen.0 chosen.1 store.spec.configuration
    restore_wal_storage cluster

  -- `Restore` from the configuration on.
  unfoldable pub restore_configured :
      PluginConfiguration → Option Bool → Exec W (JobError E) (Unit {0})
  unfolding check_target load_backup_object_from_external_cluster restore_backup
      get_recovery_barman_object_key
  restore_configured c decision = do
    store ← wrapping external (calls.get_object_store (get_recovery_barman_object_key c))
    check_target c decision
    chosen ←
        load_backup_object_from_external_cluster calls c.cluster store.spec.configuration store.name
          c.recovery_server_name
    restore_backup c.cluster store chosen

  -- `Restore`: the configuration of PostgreSQL. The decoder of a Cluster, and the path and the
  -- name of the log file, are arguments.
  unfoldable pub restore :
      {J : Type 0}
      → (J → Result E Cluster)
      → String
      → String
      → RestoreRequest J
      → Exec W (JobError E) String
  unfolding restore_configured get_restore_wal_config
  restore decode log_path log_file_name request = do
    c ← lift (wrap_result external (new_from_cluster_json decode request.cluster_definition))
    restore_configured c request.check_empty_wal_archive
    pure (get_restore_wal_config log_path log_file_name)
