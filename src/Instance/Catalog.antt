-- ===== src/Instance/Catalog.antt =====
-- internal/cnpgi/instance/retention.go and recovery_window.go: the maintenance of a backup catalog.
pub mod Deleted
pub mod Window
pub mod Loop
use mathlib.Core.Option
use plugin_barman_cloud.Base.{
  ℤ, pos, ℕ, Bool, true, false, ◌&&◌, ◌||◌, not, Option, none, some, List, [], ◌∷◌, ◌++◌, String,
  Bytes, lookup, insert, contains, ◌==◌, string_eq, if◌then◌else◌,
}
use plugin_barman_cloud.Base.Exec.{Result, ok, err, Exec, pure, fail, try, wrapping, ◌>>=◌, ◌>>◌}
use plugin_barman_cloud.Api.{
  plugin_name, NamespacedName, PluginStanza, Cluster, BarmanConfiguration, RecoveryWindow,
  ObjectStore,
}
use plugin_barman_cloud.Config.{PluginConfiguration, new_from_cluster, get_barman_object_key}
use plugin_barman_cloud.Instance.BackupMetadata.{Backup, use_same_backup_location}

-- What barman-cloud says of a catalog: `GetBackupIDs`, `GetFirstRecoverabilityPoint` and
-- `GetLastSuccessfulBackupTime`; a time is its Unix time, and nil is `none`.
pub record BackupCatalog : Type 0 where
  pub backup_ids : List String
  pub first_recoverability_point : Option ℕ
  pub last_successful_backup_time : Option ℕ

-- What the maintenance calls outside: the Kubernetes client, the collection of the credentials and
-- the barman-cloud commands, with an environment. `enabled_plugin_names` is CloudNativePG's
-- `GetPluginConfigurationEnabledPluginNames`.
pub record CatalogCalls (W E : Type 0) : Type 0 where
  pub get_cluster : NamespacedName → Exec W E Cluster
  pub get_object_store : NamespacedName → Exec W E ObjectStore
  pub credentials_env : ObjectStore → Exec W E (List Bytes)
  pub delete_backups_by_policy :
      BarmanConfiguration → String → List Bytes → String → Exec W E (Unit {0})
  pub get_backup_list : BarmanConfiguration → String → List Bytes → Exec W E BackupCatalog
  pub list_backups : String → Exec W E (List Backup)
  pub delete_backup : Backup → Exec W E (Unit {0})
  pub update_status : ObjectStore → Exec W E (Unit {0})
  pub enabled_plugin_names : List PluginStanza → List String
  -- `retry.RetryOnConflict(retry.DefaultBackoff, …)`
  pub retry_on_conflict : Exec W E (Unit {0}) → Exec W E (Unit {0})

-- The errors: those of other code, of the list of Backups, of deletions (by namespace and name),
-- and of a configuration without an object store.
pub data CatalogError (E : Type 0) : Type 0 where
  external : E → CatalogError E
  while_getting_backups : E → CatalogError E
  while_deleting : List (String × String × E) → CatalogError E
  missing_object_store : CatalogError E

-- An ObjectStore with the recovery window of a server set.
abbrev pub with_window : ObjectStore → String → RecoveryWindow → ObjectStore
with_window store server window = record store {
  server_recovery_window = insert server window store.server_recovery_window;
}

-- `objectStore.Status.ServerRecoveryWindow[serverName]`: the zero value where it is missing.
unfoldable pub window_of : ObjectStore → String → RecoveryWindow
unfolding lookup
window_of store server = Option.get_or (lookup server store.server_recovery_window) (record {
  first_recoverability_point = none;
  last_successful_backup_time = none;
  last_failed_backup_time = none;
})

-- The ObjectStore that `updateRecoveryWindow` writes.
unfoldable pub updated_store : BackupCatalog → ObjectStore → String → ObjectStore
unfolding window_of insert
updated_store catalog store server = with_window store server (record {
  first_recoverability_point = catalog.first_recoverability_point;
  last_successful_backup_time = catalog.last_successful_backup_time;
  last_failed_backup_time = (window_of store server).last_failed_backup_time;
})

-- The ObjectStore that an attempt of `setLastFailedBackupTime` writes.
unfoldable pub failed_store : ObjectStore → String → ℕ → ObjectStore
unfolding window_of insert
failed_store store server time = with_window store server (record {
  first_recoverability_point = (window_of store server).first_recoverability_point;
  last_successful_backup_time = (window_of store server).last_successful_backup_time;
  last_failed_backup_time = some time;
})

-- The test of the loop of `deleteBackupsNotInCatalog`.
unfoldable pub is_stale : Cluster → List String → Backup → Bool
unfolding use_same_backup_location contains
is_stale cluster backup_ids backup =
    if not (backup.cluster_name == cluster.name)
      || (not backup.is_completed || not (use_same_backup_location backup cluster))
    then false
    else not (contains backup_ids backup.backup_id)

module _ {W E : Type 0} (calls : CatalogCalls W E) where
  -- An error that is collected, if it is one.
  abbrev pub deletion_error : Backup → Result E (Unit {0}) → List (String × String × E)
  deletion_error backup (ok u) = []
  deletion_error backup (err e) = (backup.namespace, backup.name, e) ∷ []

  -- The body of the loop: the errors it adds, and the world.
  abbrev pub delete_if_stale : Cluster → List String → Backup → W → List (String × String × E) × W
  delete_if_stale cluster backup_ids backup w =
      if is_stale cluster backup_ids backup
      then (let r = calls.delete_backup backup w in (deletion_error backup r.0, r.1))
      else ([], w)

  -- The loop over the Backups.
  unfoldable pub delete_stale :
      Cluster → List String → List Backup → W → List (String × String × E) × W
  unfolding is_stale
  delete_stale cluster backup_ids [] w = ([], w)
  delete_stale cluster backup_ids (backup ∷ backups) w =
      let first = delete_if_stale cluster backup_ids backup w in
      let rest = delete_stale cluster backup_ids backups first.1 in (first.0 ++ rest.0, rest.1)

  abbrev pub deletion_errors : List (String × String × E) → Result (CatalogError E) (Unit {0})
  deletion_errors [] = ok tt
  deletion_errors (e ∷ es) = err (while_deleting (e ∷ es))

  -- `deleteBackupsNotInCatalog`
  unfoldable pub delete_backups_not_in_catalog :
      Cluster → List String → Exec W (CatalogError E) (Unit {0})
  unfolding delete_stale
  delete_backups_not_in_catalog cluster backup_ids =
      wrapping while_getting_backups (calls.list_backups cluster.namespace) >>= λ backups w.
      let r = delete_stale cluster backup_ids backups w in (deletion_errors r.0, r.1)

  -- `updateRecoveryWindow`
  unfoldable pub update_recovery_window :
      BackupCatalog → ObjectStore → String → Exec W (CatalogError E) (Unit {0})
  unfolding updated_store
  update_recovery_window catalog store server =
      wrapping external (calls.update_status (updated_store catalog store server))

  -- `setLastFailedBackupTime`
  unfoldable pub set_last_failed_backup_time : NamespacedName → String → ℕ → Exec W E (Unit {0})
  unfolding failed_store
  set_last_failed_backup_time key server time =
      calls.retry_on_conflict (
        calls.get_object_store key >>= λ store.
        calls.update_status (failed_store store server time))

  -- The retention policy, if there is one.
  abbrev pub apply_policy : ObjectStore → String → List Bytes → Exec W (CatalogError E) (Unit {0})
  apply_policy store server environment =
      if store.spec.retention_policy == ""
      then pure tt
      else wrapping external (
          calls.delete_backups_by_policy store.spec.configuration server environment
            store.spec.retention_policy)

  -- What `maintenance` does on the current primary. (The event of a failure is left out.)
  unfoldable pub maintain : Cluster → ObjectStore → String → Exec W (CatalogError E) (Unit {0})
  unfolding delete_backups_not_in_catalog update_recovery_window
  maintain cluster store server = do
    environment ← wrapping external (calls.credentials_env store)
    apply_policy store server environment
    catalog ← wrapping external (calls.get_backup_list store.spec.configuration server environment)
    delete_backups_not_in_catalog cluster catalog.backup_ids
    update_recovery_window catalog store server

  -- `maintenance`, in the pod of that name.
  unfoldable pub maintenance : String → Cluster → ObjectStore → Exec W (CatalogError E) (Unit {0})
  unfolding maintain new_from_cluster
  maintenance pod_name cluster store =
      if cluster.current_primary == pod_name
      then maintain cluster store (new_from_cluster cluster).server_name
      else pure tt

  -- `cycle` after it has the Cluster.
  unfoldable pub cycle_cluster : String → Cluster → Exec W (CatalogError E) ℤ
  unfolding maintenance new_from_cluster get_barman_object_key contains
  cycle_cluster pod_name cluster =
      if contains (calls.enabled_plugin_names cluster.plugins) plugin_name
      then (if (new_from_cluster cluster).barman_object_name == ""
          then fail missing_object_store
          else (wrapping external
                (calls.get_object_store (get_barman_object_key (new_from_cluster cluster)))
              >>= λ store.
                  maintenance pod_name cluster store
                  >> pure
                      store.spec.instance_sidecar_configuration.retention_policy_interval_seconds))
      else pure (pos 0)

  -- `cycle`: the seconds to wait until the next one, which no one keeps from being negative.
  unfoldable pub cycle : String → NamespacedName → Exec W (CatalogError E) ℤ
  unfolding cycle_cluster
  cycle pod_name cluster_key =
      wrapping external (calls.get_cluster cluster_key) >>= cycle_cluster pod_name
