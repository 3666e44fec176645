-- ===== src/Instance/Tests.antt =====
-- The theorems on internal/cnpgi/instance, on a world that lists the names of the deleted Backups.
use plugin_barman_cloud.Base.{
  ℕ, ◌≡◌, refl, true, false, some, List, [], ◌∷◌, String, string_eq, differ, contains, All,
}
use plugin_barman_cloud.Base.Exec.{ok, pure, fail}
use plugin_barman_cloud.Api.{plugin_name, NamespacedName}
use plugin_barman_cloud.Instance.BackupMetadata.{to_map, new_backup_result_metadata, Backup}
use plugin_barman_cloud.Instance.Catalog.{
  BackupCatalog, CatalogCalls, delete_backups_not_in_catalog, cycle_cluster,
}
use plugin_barman_cloud.Instance.Catalog.Deleted.{delete_backups-Holds, cycle_cluster-Holds}
use plugin_barman_cloud.Examples.{replica, store}

abbrev backup : String → String → Backup
unfolding to_map new_backup_result_metadata
backup name id = record {
  namespace = "default";
  name = name;
  cluster_name = "pg";
  is_completed = true;
  is_by_plugin = true;
  plugin_metadata = some (to_map (new_backup_result_metadata "42" "1"));
  backup_id = id;
}

abbrev catalog : BackupCatalog
catalog = record {
  backup_ids = "1" ∷ [];
  first_recoverability_point = some 100;
  last_successful_backup_time = some 200;
}

-- The world: the ids of the Backups that were deleted.
abbrev calls : CatalogCalls (List String) String
unfolding backup
calls = record {
  get_cluster = λ key. pure replica;
  get_object_store = λ key. pure store;
  credentials_env = λ s. pure [];
  delete_backups_by_policy = λ c server env policy. pure tt;
  get_backup_list = λ c server env. pure catalog;
  list_backups = λ namespace. pure (backup "a" "1" ∷ backup "b" "2" ∷ []);
  delete_backup = λ b w. (ok tt, b.backup_id ∷ w);
  update_status = λ s. pure tt;
  enabled_plugin_names = λ ps. plugin_name ∷ [];
  retry_on_conflict = λ m. m;
}

-- Nothing that the catalog has was deleted.
abbrev Spares : List String → Type 0
Spares w = All (λ (id : String). contains catalog.backup_ids id ≡ false) w

delete_backups-Holds_example :
    Spares (delete_backups_not_in_catalog calls replica catalog.backup_ids []).1
unfolding calls
delete_backups-Holds_example =
    delete_backups-Holds calls Spares replica catalog.backup_ids
      (λ b w stale spares. (stale.not_listed, spares)) (λ namespace w h. h) [] tt

cycle_cluster-Holds_example : (cycle_cluster calls "pg-2" replica []).1 ≡ []
unfolding calls
cycle_cluster-Holds_example =
    cycle_cluster-Holds calls (λ w. w ≡ []) (λ key w h. h) "pg-2" replica []
      (differ "pg-1" "pg-2" refl) refl

-- A world is its time, and nothing answers.
abbrev offline : CatalogCalls ℕ String
offline = record {
  get_cluster = λ key. fail "offline";
  get_object_store = λ key. fail "offline";
  credentials_env = λ s. fail "offline";
  delete_backups_by_policy = λ c server env policy. fail "offline";
  get_backup_list = λ c server env. fail "offline";
  list_backups = λ namespace. fail "offline";
  delete_backup = λ b. fail "offline";
  update_status = λ s. fail "offline";
  enabled_plugin_names = λ ps. [];
  retry_on_conflict = λ m. m;
}

abbrev cluster_key : NamespacedName
cluster_key = record { namespace = "default"; name = "pg" }
