-- ===== src/RestoreJob/Files.antt =====
-- internal/cnpgi/restore/restore.go: the first WAL, PGDATA, and the directory of the WAL.
use Prim.Native.String
use plugin_barman_cloud.Base.{
  Bool, true, false, Option, none, some, List, [], ◌∷◌, ◌++◌, String, Bytes, join_path, ◌==◌,
  string_eq, if◌then◌else◌,
}
use plugin_barman_cloud.Base.Exec.{
  Result, ok, err, Exec, pure, fail, try, finally, wrapping, ◌>>=◌, ◌>>◌,
}
use plugin_barman_cloud.Api.{BarmanConfiguration}
use plugin_barman_cloud.RestoreJob.Calls.{
  JobHookImpl, Backup, JobError, external, first_needed_wal, JobCalls,
}

-- `testWALPath`: RecoveryTemporaryDirectory + "/test.wal"
abbrev pub test_wal_path : String
test_wal_path = "/controller/recovery/test.wal"

-- The endpoint, if there is one.
abbrev pub endpoint_options : String → List String
endpoint_options url = if url == "" then [] else "--endpoint-url" ∷ url ∷ []

-- `getRestoreWalConfig`, where `postgres.LogPath` and `postgres.LogFileName` are the first two.
unfoldable pub get_restore_wal_config : String → String → String
get_restore_wal_config log_path log_file_name =
    String.◌++◌ "recovery_target_action = promote\nrestore_command = '" (
      String.◌++◌ "/controller/manager wal-restore --log-destination "
        (String.◌++◌ (join_path log_path log_file_name) ".json %f %p'\n"))

module _ {W E A R T C : Type 0} (calls : JobCalls W E A R T C) (impl : JobHookImpl) where
  -- The options of barman-cloud-restore, on those of the cloud provider.
  unfoldable pub restore_options : BarmanConfiguration → Backup → List String → List String
  restore_options c backup options =
      calls.append_restore_additional_command_args c
        (options ++ endpoint_options backup.endpoint_url)
      ++ backup.destination_path ∷ backup.server_name ∷ backup.backup_id ∷ impl.pg_data_path ∷ []

  -- An error, or what its exit code is mapped to, which may be nil.
  abbrev pub mapped_error : E → Option (Option E) → Exec W (JobError E) (Unit {0})
  mapped_error e none = fail (external e)
  mapped_error e (some none) = pure tt
  mapped_error e (some (some e')) = fail (external e')

  -- The error of barman-cloud-restore that is returned, which is nil where its exit code has none.
  abbrev pub restore_result : Result E (Unit {0}) → Exec W (JobError E) (Unit {0})
  restore_result (ok u) = pure tt
  restore_result (err e) = mapped_error e (calls.restore_exit_error e)

  -- `restoreDataDir`
  unfoldable pub restore_data_dir :
      Backup → List Bytes → BarmanConfiguration → Exec W (JobError E) (Unit {0})
  unfolding restore_options
  restore_data_dir backup env c =
      wrapping external (calls.append_cloud_provider_options [] c) >>= λ options.
      try (calls.run_barman_cloud_restore (restore_options c backup options) env) >>= restore_result

  -- `ensureArchiveContainsLastCheckpointRedoWAL` without its deferred call.
  unfoldable pub fetch_first_wal :
      List Bytes → Backup → BarmanConfiguration → Exec W (JobError E) (Unit {0})
  fetch_first_wal env backup c = do
    wrapping external (calls.ensure_parent_directory_exists test_wal_path)
    rest ← wrapping external (calls.new_restorer env impl.spool_directory)
    opts ← wrapping external (calls.cloud_wal_restore_options c backup.server_name)
    wrapping first_needed_wal (calls.restore_wal rest backup.begin_wal test_wal_path opts)

  -- `ensureArchiveContainsLastCheckpointRedoWAL`
  unfoldable pub ensure_archive_contains_last_checkpoint_redo_wal :
      List Bytes → Backup → BarmanConfiguration → Exec W (JobError E) (Unit {0})
  unfolding fetch_first_wal
  ensure_archive_contains_last_checkpoint_redo_wal env backup c =
      finally (fetch_first_wal env backup c) (calls.remove_file test_wal_path)

  -- `path.Join(impl.PgDataPath, "pg_wal")`
  abbrev pub pg_data_wal : String
  pg_data_wal = join_path impl.pg_data_path "pg_wal"

  -- `restoreCustomWalDir` where the link is not there.
  unfoldable pub move_wal_dir : Exec W (JobError E) Bool
  move_wal_dir = do
    wrapping external (calls.ensure_directory_exists impl.pg_wal_folder_to_symlink)
    wrapping external (calls.ensure_directory_exists pg_data_wal)
    wrapping external (calls.move_directory_content pg_data_wal impl.pg_wal_folder_to_symlink)
    wrapping external (calls.remove_file pg_data_wal)
    wrapping external (calls.symlink impl.pg_wal_folder_to_symlink pg_data_wal)
    pure true

  -- `restoreCustomWalDir`; its Boolean means nothing beside an error.
  unfoldable pub restore_custom_wal_dir : Exec W (JobError E) Bool
  unfolding move_wal_dir
  restore_custom_wal_dir w =
      if calls.read_link pg_data_wal w == impl.pg_wal_folder_to_symlink
      then (ok false, w)
      else move_wal_dir w
