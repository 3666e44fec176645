-- ===== src/RestoreJob/Guarded.antt =====
-- PGDATA is not written before the destination and the first WAL file have been looked at.
pub mod Checked
use plugin_barman_cloud.Base.{
  ◌≡◌, ◌≢◌, refl, ap, true, false, Option, none, some, List, [], ◌∷◌, String, Bytes, ◌==◌,
  string_eq, eq_iff, arith, join_path, Bool-cases, ◌++◌, subst, sym, inl, inr,
}
use plugin_barman_cloud.Base.Exec.{
  Result, ok, err, Exec, pure, continue, wrap_result, finally, wrapping, ◌>>=◌,
}
use plugin_barman_cloud.Base.Exec.Phases.{
  Outcome, Leads, Leads-bind, Leads-made, Leads-wrapping, Leads-reached, Leads-kept, Leads-finally,
  Leads-then,
}
use plugin_barman_cloud.Api.{BarmanConfiguration, Cluster, ObjectStore}
use plugin_barman_cloud.Config.{
  PluginConfiguration, get_barman_object_key, get_recovery_barman_object_key,
}
use plugin_barman_cloud.Wal.Errors.{external as wal_external}
use plugin_barman_cloud.Wal.Archive.{ArchiveCalls, check_backup_destination}
use plugin_barman_cloud.Wal.Env.{build_certificate_file_path}
use plugin_barman_cloud.RestoreJob.Calls.{
  JobHookImpl, Backup, BarmanBackup, JobError, external, destination_check, first_needed_wal,
  creating_archiver, cannot_get_credentials, JobCalls, Bootstrap, no_bootstrap, no_target,
  recovery_target,
}
use plugin_barman_cloud.RestoreJob.Load.{
  check_target_destination, check_with, check_in, load_backup_object_from_external_cluster,
  destination_server_name, choose_backup, found_backup, backup_of,
  resolve_restore_empty_wal_archive_check,
}
use plugin_barman_cloud.RestoreJob.Files.{
  test_wal_path, endpoint_options, restore_data_dir, restore_result, mapped_error, restore_options,
  fetch_first_wal, ensure_archive_contains_last_checkpoint_redo_wal, restore_custom_wal_dir,
  move_wal_dir, pg_data_wal,
}
use plugin_barman_cloud.RestoreJob.Hook.{
  check_target, restore_wal_storage, restore_backup, restore_configured,
}
use plugin_barman_cloud.RestoreJob.Phases.{
  Phase, started, checked, found, GuardsPgData, OfRecovery, of_restorer,
}
use plugin_barman_cloud.RestoreJob.Guarded.Checked.{
  kept, then_kept, then_made, check_target-checked, load-checked, load-OfRecovery,
}

module _ {W E A R T C : Type 0} (calls : JobCalls W E A R T C) (archive_calls : ArchiveCalls W E A)
    (impl : JobHookImpl) (c : PluginConfiguration) (P : Phase → W → Type 0)
    (laws : GuardsPgData calls archive_calls impl c P) where
  module _ (store : ObjectStore) (env : List Bytes) (b : BarmanBackup)
      (recovers : OfRecovery calls archive_calls c store env b) where
    abbrev backup : Backup
    backup = backup_of store.spec.configuration c.recovery_server_name b

    first_wal-found :
        Leads P started checked
          (found b)
          (fetch_first_wal calls impl env backup store.spec.configuration)
    unfolding fetch_first_wal backup_of
    first_wal-found =
        then_kept calls archive_calls impl c P laws checked (found b) external
          (calls.ensure_parent_directory_exists test_wal_path) _
          ((laws.kept checked).by_ensure_parent test_wal_path)
          (λ u.
            then_made calls archive_calls impl c P laws checked (found b) external
              (calls.new_restorer env impl.spool_directory) _
              ((laws.kept checked).by_new_restorer env impl.spool_directory)
              (λ rest v0 built.
                then_made calls archive_calls impl c P laws checked (found b) external
                  (calls.cloud_wal_restore_options store.spec.configuration c.recovery_server_name)
                  _
                  ((laws.kept checked).by_wal_options store.spec.configuration
                    c.recovery_server_name)
                  (λ opts v1 answered.
                    Leads-wrapping P started checked (found b) first_needed_wal
                      (calls.restore_wal rest b.begin_wal test_wal_path opts)
                      (Leads-reached P started checked (found b)
                        (calls.restore_wal rest b.begin_wal test_wal_path opts)
                        (laws.by_restore_wal rest b.begin_wal test_wal_path opts)
                        (λ w u.
                          laws.wal_found b rest test_wal_path opts w u
                            (of_restorer store env rest opts v0 v1 recovers built answered))))))

    data_dir-started :
        Leads P started
          (found b)
          started
          (restore_data_dir calls impl backup env store.spec.configuration)
    unfolding restore_data_dir backup_of restore_options
    data_dir-started =
        then_kept calls archive_calls impl c P laws (found b) started external
          (calls.append_cloud_provider_options [] store.spec.configuration) _
          ((laws.kept (found b)).by_cloud_options [] store.spec.configuration)
          (λ options w h. ended _ _ (
            laws.by_data_dir b
              (calls.append_restore_additional_command_args store.spec.configuration
                (options ++ endpoint_options store.spec.configuration.endpoint_url))
              store.spec.configuration.destination_path c.recovery_server_name env w h))
      where
        ended :
            (r : Result E (Unit {0}))
            → Leads P started started started (restore_result calls impl r)
        ended (ok u) w h = h
        ended (err e) w h = mapped (calls.restore_exit_error e)
          where
            mapped :
                (m : Option (Option E))
                → Outcome P started started
                    (mapped_error calls impl e m w).0
                    (mapped_error calls impl e m w).1
            mapped none = h
            mapped (some none) = h
            mapped (some (some e')) = h

  wal_dir-started : Leads P started started started (restore_custom_wal_dir calls impl)
  unfolding restore_custom_wal_dir
  wal_dir-started w h =
      elim (Bool-cases
        (calls.read_link (pg_data_wal calls impl) w == impl.pg_wal_folder_to_symlink)) [
          | inl t ↦ rw (t) h
          | inr t ↦ rw (t) (moved w h)
        ]
    where
      moved : Leads P started started started (move_wal_dir calls impl)
      moved =
          unfold move_wal_dir in
          then_kept calls archive_calls impl c P laws started started external
            (calls.ensure_directory_exists impl.pg_wal_folder_to_symlink) _ (laws.by_ensure _)
            (λ u1.
              then_kept calls archive_calls impl c P laws started started external
                (calls.ensure_directory_exists (pg_data_wal calls impl)) _ (laws.by_ensure _)
                (λ u2.
                  then_kept calls archive_calls impl c P laws started started external
                    (calls.move_directory_content (pg_data_wal calls impl)
                      impl.pg_wal_folder_to_symlink)
                    _ (laws.by_move _ _)
                    (λ u3.
                      then_kept calls archive_calls impl c P laws started started external
                        (calls.remove_file (pg_data_wal calls impl)) _
                        ((laws.kept started).by_remove _)
                        (λ u4.
                          then_kept calls archive_calls impl c P laws started started external
                            (calls.symlink impl.pg_wal_folder_to_symlink (pg_data_wal calls impl)) _
                            (laws.by_symlink _ _) (λ u5 v g. g)))))

  wal_storage-started :
      (cluster : Cluster)
      → Leads P started started started (restore_wal_storage calls archive_calls impl cluster)
  unfolding restore_wal_storage
  wal_storage-started cluster w h = elim (Bool-cases cluster.has_wal_storage) [
    | inl t ↦ rw (t) (
        Leads-bind P started started started started (restore_custom_wal_dir calls impl)
          (λ changed. pure tt) wal_dir-started (λ changed v g. g) w h)
    | inr t ↦ rw (t) h
  ]

  backup-started :
      (store : ObjectStore) (env : List Bytes) (b : BarmanBackup)
      → OfRecovery calls archive_calls c store env b
      → Leads P started checked started (
          restore_backup calls archive_calls impl c.cluster store
            (backup_of store.spec.configuration c.recovery_server_name b, env))
  unfolding restore_backup ensure_archive_contains_last_checkpoint_redo_wal
  backup-started store env b recovers =
      Leads-bind P started checked (found b) started
        (finally
          (fetch_first_wal calls impl env (backup store env b recovers) store.spec.configuration)
          (calls.remove_file test_wal_path))
        _
        (Leads-finally P started checked (found b)
          (fetch_first_wal calls impl env (backup store env b recovers) store.spec.configuration)
          (calls.remove_file test_wal_path) (first_wal-found store env b recovers)
          ((laws.kept (found b)).by_remove test_wal_path)
          ((laws.kept started).by_remove test_wal_path))
        (λ u.
          Leads-bind P started (found b) started started
            (restore_data_dir calls impl (backup store env b recovers) env store.spec.configuration)
            _ (data_dir-started store env b recovers) (λ u'. wal_storage-started c.cluster))

  chosen-started :
      (store : ObjectStore) (v0 : W)
      → (calls.get_object_store (get_recovery_barman_object_key c) v0).0 ≡ ok store
      → (loaded : Backup × List Bytes) (v1 : W)
      → (load_backup_object_from_external_cluster calls c.cluster store.spec.configuration
          store.name c.recovery_server_name v1).0
        ≡ ok loaded
      → Leads P started checked started
          (restore_backup calls archive_calls impl c.cluster store loaded)
  chosen-started store v0 got loaded v1 answered =
      let (b, env, recovers, same) =
        load-OfRecovery calls archive_calls impl c P laws store v0 got loaded v1 answered in
      subst
        (λ (l : Backup × List Bytes).
          Leads P started checked started
            (restore_backup calls archive_calls impl c.cluster store l))
        (sym same) (backup-started store env b recovers)

  -- The job writes PGDATA only after the destination of the new Cluster has passed its check and the
  -- first WAL file that the backup needs was fetched. The destination is the one of the ObjectStore
  -- that the Cluster archives to, with its configuration and the server of the Cluster; the WAL file is
  -- the first one of the backup that was chosen from the catalog of the ObjectStore and the server that
  -- the Cluster recovers from, fetched from there with the credentials of that ObjectStore; and
  -- barman-cloud-restore is run for that backup and PGDATA. Where the Cluster archives to an object
  -- store, the operator asks for the check, and collecting credentials never gives an empty
  -- environment (with an empty one for the destination the code checks nothing): what holds before a
  -- restore and is kept by its other calls, and by barman-cloud-restore of a backup once both are done
  -- for it, holds afterwards, on success and on every error.
  pub restore-guarded :
      (w : W)
      → c.barman_object_name ≢ ""
      → P started w
      → P started (restore_configured calls archive_calls impl c (some true) w).1
  unfolding restore_configured
  restore-guarded w archives h =
      outcome (restore_configured calls archive_calls impl c (some true) w).0 (
        then_made calls archive_calls impl c P laws started started external
          (calls.get_object_store (get_recovery_barman_object_key c)) _
          ((laws.kept started).by_get (get_recovery_barman_object_key c))
          (λ store v0 got.
            Leads-bind P started started checked started
              (check_target calls archive_calls impl c (some true)) _
              (check_target-checked calls archive_calls impl c P laws archives)
              (λ u.
                Leads-made P started checked checked started
                  (load_backup_object_from_external_cluster calls c.cluster store.spec.configuration
                    store.name c.recovery_server_name)
                  (restore_backup calls archive_calls impl c.cluster store)
                  (load-checked calls archive_calls impl c P laws c.cluster store.spec.configuration
                    store.name c.recovery_server_name)
                  (chosen-started store v0 got)))
          w h)
    where
      outcome :
          (r : Result (JobError E) (Unit {0})) {v : W} → Outcome P started started r v → P started v
      outcome (ok u) g = g
      outcome (err e) g = g
