-- ===== src/RestoreJob/Tests.antt =====
-- A restore job on a small world.
use plugin_barman_cloud.Base.{
  ◌≡◌, refl, Bool, true, false, none, some, List, [], ◌∷◌, ◌++◌, String, codes, at, lookup,
  string_eq, differ, All,
}
use plugin_barman_cloud.Base.Exec.{ok, pure}
use plugin_barman_cloud.Config.{new_from_cluster, new_from_cluster_json}
use plugin_barman_cloud.Wal.Archive.{ArchiveCalls}
use plugin_barman_cloud.RestoreJob.Calls.{JobHookImpl, BarmanBackup, no_target, JobCalls}
use plugin_barman_cloud.RestoreJob.Load.{destination_server_name}
use plugin_barman_cloud.RestoreJob.Hook.{restore_configured, restore}
use plugin_barman_cloud.RestoreJob.Phases.{
  Phase, started, checked, found, KeptByCalls, GuardsPgData,
}
use plugin_barman_cloud.RestoreJob.Guarded.{restore-guarded}
use plugin_barman_cloud.RestoreJob.Destination.{destination_server_name-new_from_cluster}
use plugin_barman_cloud.Examples.{replica, store}

-- The world: whether the destination was checked and the first WAL fetched, for each command of
-- barman-cloud-restore whether it had both by then.
record World : Type 0 where
  is_checked : Bool
  is_found : Bool
  commands : List (Bool × Bool)

abbrev newest : BarmanBackup
newest = record {
  id = "20260101T000000";
  backup_name = "backup-1";
  begin_time = 100;
  end_time = 200;
  begin_wal = "000000010000000000000003";
  end_wal = "000000010000000000000004";
  begin_lsn = "0/3000000";
  end_lsn = "0/4000000";
  error = "";
}

abbrev impl : JobHookImpl
impl = record {
  spool_directory = "/controller/wal-restore-spool";
  pg_data_path = "/var/lib/postgresql/data/pgdata";
  pg_wal_folder_to_symlink = "/var/lib/postgresql/wal/pg_wal";
}

abbrev calls : JobCalls World String (Unit {0}) (Unit {0}) (Unit {0}) (List BarmanBackup)
calls = record {
  get_object_store = λ key. pure store;
  credentials_env = λ n c p. pure (codes "HOME=/" ∷ []);
  bootstrap = λ cluster. no_target;
  get_backup_list = λ c s env. pure (newest ∷ []);
  find_backup_info = λ c t. pure none;
  latest_backup_info = λ c. some newest;
  new_archiver = λ env a b c. pure tt;
  append_cloud_provider_options = λ o c. pure (o ++ "--cloud-provider" ∷ "aws-s3" ∷ []);
  append_restore_additional_command_args = λ c o. o;
  run_barman_cloud_restore =
      λ o env w. (ok tt, record w { commands = (w.is_checked, w.is_found) ∷ w.commands });
  restore_exit_error = λ e. none;
  new_restorer = λ env s. pure tt;
  cloud_wal_restore_options = λ c s. pure [];
  restore_wal = λ r wal path o w. (ok tt, record w { is_found = true });
  ensure_parent_directory_exists = λ p. pure tt;
  ensure_directory_exists = λ p. pure tt;
  move_directory_content = λ p q. pure tt;
  remove_file = λ p. pure tt;
  symlink = λ p q. pure tt;
  read_link = λ p w. "";
}

abbrev archive_calls : ArchiveCalls World String (Unit {0})
archive_calls = record {
  get_object_store = λ key. pure store;
  credentials_env = λ s. pure [];
  is_forbidden = λ e. false;
  marker_exists = pure false;
  new_archiver = λ environment. pure tt;
  check_options = λ a c s. pure [];
  check_destination = λ a o w. (ok tt, record w { is_checked = true });
  delete_from_spool = λ a n. pure false;
  archive_options = λ a c s. pure [];
  gather_ready = λ n skip w. ([], w);
  archive_list = λ a fs o w. ([], w);
}

abbrev fresh : World
fresh = record { is_checked = false; is_found = false; commands = [] }

abbrev AllGuarded : World → Type 0
AllGuarded w = All (λ (b : Bool × Bool). (b.0 ≡ true) × (b.1 ≡ true)) w.commands

abbrev InPhase : Phase → World → Type 0
InPhase started w = AllGuarded w
InPhase checked w = AllGuarded w × (w.is_checked ≡ true)
InPhase (found b) w = AllGuarded w × (w.is_checked ≡ true) × (w.is_found ≡ true)

kept_by_calls : (P : World → Type 0) → KeptByCalls calls archive_calls P
kept_by_calls P = record {
  by_get = λ key w h. h;
  by_credentials = λ n c p w h. h;
  by_list = λ c s env w h. h;
  by_find = λ c t w h. h;
  by_new_archiver = λ env a b c w h. h;
  by_check_options = λ a c s w h. h;
  by_cloud_options = λ o c w h. h;
  by_new_restorer = λ env s w h. h;
  by_wal_options = λ c s w h. h;
  by_ensure_parent = λ p w h. h;
  by_remove = λ p w h. h;
}

weakened : (p : Phase) (w : World) → InPhase p w → InPhase started w
weakened started w h = h
weakened checked w h = h.0
weakened (found b) w h = h.0

guards : GuardsPgData calls archive_calls impl (new_from_cluster replica) InPhase
guards = record {
  weaken = weakened;
  kept = λ p. kept_by_calls (InPhase p);
  environment_given = λ n c p w e. cc;
  by_check = λ a o w h. h;
  check_passed = λ a o w u made h e. (h, refl);
  by_restore_wal = λ r wal path o w h. h.0;
  wal_found = λ b r path o w u made h e. (h.0, h.1, refl);
  by_data_dir = λ b o path server env w h. ((h.1, h.2), h.0);
  by_ensure = λ p w h. h;
  by_move = λ p q w h. h;
  by_symlink = λ p q w h. h;
}

restore-guarded_example :
    AllGuarded
      (restore_configured calls archive_calls impl (new_from_cluster replica) (some true) fresh).1
unfolding new_from_cluster at lookup
restore-guarded_example =
    restore-guarded calls archive_calls impl (new_from_cluster replica) InPhase guards fresh
      (differ "store" "" refl) tt

-- A run to its end: PGDATA was written once, after both checks.
restore_runs :
    restore calls archive_calls impl
      (λ j. ok replica)
      "/controller/log"
      "postgres"
      (record { cluster_definition = tt {0}; check_empty_wal_archive = some true })
      fresh
    ≡ (
      ok
          "recovery_target_action = promote\nrestore_command = '/controller/manager wal-restore --log-destination /controller/log/postgres.json %f %p'\n",
      record fresh { is_checked = true; is_found = true; commands = (true, true) ∷ [] },
    )
unfolding restore new_from_cluster new_from_cluster_json at lookup
restore_runs = refl

destination_server_name-new_from_cluster_example :
    destination_server_name "pg" replica.plugins ≡ (new_from_cluster replica).server_name
destination_server_name-new_from_cluster_example = destination_server_name-new_from_cluster replica
