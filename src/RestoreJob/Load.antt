-- ===== src/RestoreJob/Load.antt =====
-- internal/cnpgi/restore/restore.go: the choice of the backup, and the check of the destination.
use plugin_barman_cloud.Base.{
  Bool, true, ◌&&◌, Option, none, some, List, [], ◌∷◌, map, String, Bytes, lookup, join_path, ◌==◌,
  string_eq, if◌then◌else◌, ℕ,
}
use plugin_barman_cloud.Base.Exec.{Exec, pure, fail, wrapping, ◌>>=◌}
use plugin_barman_cloud.Api.{plugin_name, PluginStanza, Cluster, BarmanConfiguration}
use plugin_barman_cloud.Wal.Env.{build_certificate_file_path}
use plugin_barman_cloud.Wal.Archive.{ArchiveCalls, check_backup_destination}
use plugin_barman_cloud.RestoreJob.Calls.{
  JobHookImpl, BarmanBackup, Backup, Bootstrap, no_bootstrap, no_target, recovery_target, JobError,
  external, cannot_get_credentials, creating_archiver, destination_check, no_target_backup_found,
  panic, JobCalls,
}

-- `ShortBackupCatalogEntry`
pub record ShortBackupCatalogEntry : Type 0 where
  pub backup_id : String
  pub start_time : ℕ
  pub end_time : ℕ

abbrev short_entry : BarmanBackup → ShortBackupCatalogEntry
short_entry b = record {
  backup_id = b.backup_name;
  start_time = b.begin_time;
  end_time = b.end_time;
}

-- `shortenedCatalog`, on the catalog's list; nil is `none`.
unfoldable pub shortened_catalog : Option (List BarmanBackup) → List ShortBackupCatalogEntry
shortened_catalog none = []
shortened_catalog (some backups) = map short_entry backups

-- The Backup of a backup of the catalog.
unfoldable pub backup_of : BarmanConfiguration → String → BarmanBackup → Backup
backup_of c server target = record {
  cluster_name = server;
  barman_credentials = c.credentials;
  endpoint_ca = c.endpoint_ca;
  endpoint_url = c.endpoint_url;
  destination_path = c.destination_path;
  server_name = server;
  backup_id = target.id;
  is_completed = true;
  started_at = target.begin_time;
  stopped_at = target.end_time;
  begin_wal = target.begin_wal;
  end_wal = target.end_wal;
  begin_lsn = target.begin_lsn;
  end_lsn = target.end_lsn;
  error = target.error;
  command_output = "";
  command_error = "";
}

-- `resolveRestoreEmptyWalArchiveCheck`
unfoldable pub resolve_restore_empty_wal_archive_check : Option Bool → Cluster → Bool
resolve_restore_empty_wal_archive_check (some decision) cluster = decision
resolve_restore_empty_wal_archive_check none cluster = cluster.is_empty_wal_check_enabled

-- A value of a plugin's parameters, whose map may be nil.
abbrev pub named_server : Option (List (String × String)) → Option String
named_server none = none
named_server (some m) = lookup "serverName" m

-- The parameter, where it is there.
abbrev pub named_or : String → Option String → String
named_or server none = server
named_or server (some own) = own

-- The body of the loop of `checkBackupDestination`.
abbrev pub next_server_name : PluginStanza → String → String
next_server_name plugin server =
    if plugin.is_enabled && plugin.name == plugin_name
    then named_or server (named_server plugin.parameters)
    else server

-- The loop.
unfoldable pub destination_server_name : String → List PluginStanza → String
unfolding lookup
destination_server_name server [] = server
destination_server_name server (plugin ∷ plugins) =
    destination_server_name (next_server_name plugin server) plugins

module _ {W E A R T C : Type 0} (calls : JobCalls W E A R T C) where
  -- The backup to restore, which may be nil.
  unfoldable pub choose_backup : Bootstrap T → C → Exec W (JobError E) (Option BarmanBackup)
  choose_backup no_bootstrap catalog = fail panic
  choose_backup no_target catalog = pure (calls.latest_backup_info catalog)
  choose_backup (recovery_target t) catalog = wrapping external (calls.find_backup_info catalog t)

  unfoldable pub found_backup :
      BarmanConfiguration
      → String
      → List Bytes
      → Option BarmanBackup
      → Exec W (JobError E) (Backup × List Bytes)
  unfolding backup_of
  found_backup c server env none = fail no_target_backup_found
  found_backup c server env (some target) = pure (backup_of c server target, env)

  -- `loadBackupObjectFromExternalCluster`
  unfoldable pub load_backup_object_from_external_cluster :
      Cluster → BarmanConfiguration → String → String → Exec W (JobError E) (Backup × List Bytes)
  unfolding choose_backup build_certificate_file_path found_backup
  load_backup_object_from_external_cluster cluster c store_name server = do
    env ←
        wrapping external
          (calls.credentials_env cluster.namespace c (build_certificate_file_path store_name))
    catalog ← wrapping external (calls.get_backup_list c server env)
    target ← choose_backup (calls.bootstrap cluster) catalog
    found_backup c server env target

  module _ (archive_calls : ArchiveCalls W E A) (impl : JobHookImpl) where
    -- `checkBackupDestination` from the archiver on.
    unfoldable pub check_with :
        Cluster → BarmanConfiguration → Option Bool → A → Exec W (JobError E) (Unit {0})
    unfolding resolve_restore_empty_wal_archive_check destination_server_name
        check_backup_destination
    check_with cluster c decision arch =
        if resolve_restore_empty_wal_archive_check decision cluster
        then wrapping destination_check (
            check_backup_destination archive_calls arch c
              (destination_server_name cluster.name cluster.plugins))
        else pure tt

    -- `checkBackupDestination` from the environment on: nothing is checked where it is empty.
    unfoldable pub check_in :
        Cluster → BarmanConfiguration → Option Bool → List Bytes → Exec W (JobError E) (Unit {0})
    unfolding check_with
    check_in cluster c decision [] = pure tt
    check_in cluster c decision (e ∷ env) =
        wrapping creating_archiver (
          calls.new_archiver (e ∷ env) impl.spool_directory impl.pg_data_path
            (join_path impl.pg_data_path ".check-empty-wal-archive"))
        >>= check_with cluster c decision

    -- `checkBackupDestination`
    unfoldable pub check_target_destination :
        Cluster → BarmanConfiguration → String → Option Bool → Exec W (JobError E) (Unit {0})
    unfolding build_certificate_file_path check_in
    check_target_destination cluster c store_name decision =
        wrapping (cannot_get_credentials cluster.name)
          (calls.credentials_env cluster.namespace c (build_certificate_file_path store_name))
        >>= check_in cluster c decision
