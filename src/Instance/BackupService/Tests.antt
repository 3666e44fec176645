-- ===== src/Instance/BackupService/Tests.antt =====
-- Two backups, of which one fails.
use plugin_barman_cloud.Base.{
  ◌≡◌, refl, sym, ap, true, false, not, some, [], ◌∷◌, String, contains, string_eq,
}
use plugin_barman_cloud.Base.Exec.{Result, ok, err, pure}
use plugin_barman_cloud.Api.{plugin_name, NamespacedName, ObjectStore}
use plugin_barman_cloud.Config.{new_from_cluster}
use plugin_barman_cloud.Rbac.Retry.{last}
use plugin_barman_cloud.Instance.BackupMetadata.{Backup}
use plugin_barman_cloud.Instance.Catalog.{CatalogCalls, is_stale}
use plugin_barman_cloud.Instance.BackupService.{
  BackupInfo, BackupResult, BackupCalls, handle_backup_error, run_backup, backup_configured,
  backup_result,
}
use plugin_barman_cloud.Instance.BackupService.Reported.{backup-is_stale}
use plugin_barman_cloud.Instance.BackupService.Failed.{
  key_of, StoreLaws, Recorded, run_backup-IsRecorded,
}
use plugin_barman_cloud.Examples.{replica, store}

-- The world is the ObjectStore, which a `Get` shows under any name.
abbrev answered_key : NamespacedName → Result String ObjectStore → NamespacedName
answered_key key (ok s) = key_of s
answered_key key (err e) = key

abbrev calls : CatalogCalls ObjectStore String
calls = record {
  get_cluster = λ key. pure replica;
  get_object_store = λ key w. (ok (record w { namespace = key.namespace; name = key.name }), w);
  credentials_env = λ s. pure [];
  delete_backups_by_policy = λ c server env policy. pure tt;
  get_backup_list = λ c server env. pure (record {
    backup_ids = "1" ∷ [];
    first_recoverability_point = some 100;
    last_successful_backup_time = some 200;
  });
  list_backups = λ namespace. pure [];
  delete_backup = λ b. pure tt;
  update_status = λ s w. (ok tt, s);
  enabled_plugin_names = λ ps. plugin_name ∷ [];
  retry_on_conflict = λ m. m;
}

laws : StoreLaws calls
laws = record {
  shown = λ w key. some w;
  get_shows = λ key w s got. sym (ap (answered_key key) got);
  update_shows = λ s w h. refl;
  is_conflict = λ e. false;
  retries = λ attempt w. last w;
}

abbrev info : BackupInfo
info = record {
  id = "1";
  backup_name = "backup-1";
  begin_time = 100;
  end_time = 200;
  begin_wal = "000000010000000000000003";
  end_wal = "000000010000000000000004";
  begin_lsn = "0/3000000";
  end_lsn = "0/4000000";
  time_line = "1";
}

-- barman-cloud, with what its command answers.
abbrev barman : Result String (Unit {0}) → BackupCalls ObjectStore String
barman answer = record {
  ensure_temporary_directory_exists = pure tt;
  environ = [];
  credentials_env = λ n c env p. pure env;
  new_backup_name = λ w. "backup-1";
  take = λ c name server env w. (answer, w);
  get_executed_backup_info = λ c name server env. pure info;
  now = λ w. 300;
}

run_backup-IsRecorded_example :
    let r =
      run_backup calls
        (barman (err "exit 1"))
        "pg-1"
        (new_from_cluster replica)
        store
        []
        "backup-1"
        store in
    (r.0 ≡ err "exit 1")
    × Recorded calls
        (barman (err "exit 1"))
        laws
        (new_from_cluster replica)
        (handle_backup_error calls (barman (err "exit 1")) (new_from_cluster replica) store).0
        r.1
run_backup-IsRecorded_example =
    run_backup-IsRecorded calls (barman (err "exit 1")) laws "pg-1" (new_from_cluster replica) store
      [] "backup-1" store "exit 1" refl

abbrev answer : BackupResult
unfolding backup_result
answer = backup_result calls (barman (ok tt)) "pg-1" replica info

abbrev reported : Backup
unfolding answer
reported = record {
  namespace = "default";
  name = "a";
  cluster_name = "pg";
  is_completed = true;
  is_by_plugin = true;
  plugin_metadata = some answer.metadata;
  backup_id = "1";
}

backup-is_stale_example :
    is_stale replica ("2" ∷ []) reported ≡ not (contains {A = String} ("2" ∷ []) "1")
unfolding answer reported backup_configured new_from_cluster run_backup
backup-is_stale_example =
    backup-is_stale calls (barman (ok tt)) "pg-1" (new_from_cluster replica) store answer ("2" ∷ [])
      reported refl refl refl refl refl refl
