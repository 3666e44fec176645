-- ===== src/Instance/Catalog/Deleted.antt =====
-- Which Backups the maintenance deletes, and who does it.
use plugin_barman_cloud.Base.{
  ◌≡◌, ◌≢◌, true, false, List, [], ◌∷◌, String, contains, ◌==◌, string_eq, eq_iff, arith,
  Bool-cases, inl, inr,
}
use plugin_barman_cloud.Base.Exec.{
  Result, ok, err, continue, pure, wrapping, wrap_result, Ensures-bind, ◌>>◌,
}
use plugin_barman_cloud.Api.{plugin_name, NamespacedName, Cluster}
use plugin_barman_cloud.Config.{new_from_cluster, get_barman_object_key}
use plugin_barman_cloud.Instance.BackupMetadata.{Backup, from_map, use_same_backup_location}
use plugin_barman_cloud.Instance.Catalog.{
  CatalogCalls, external, while_getting_backups, is_stale, delete_if_stale, delete_stale,
  deletion_errors, delete_backups_not_in_catalog, maintenance, cycle_cluster,
}

-- A completed Backup of the Cluster, taken by this plugin for the Cluster's UID, that the catalog
-- does not have.
pub record IsStale (cluster : Cluster) (backup_ids : List String) (backup : Backup) : Type 0 where
  pub of_cluster : backup.cluster_name ≡ cluster.name
  pub completed : backup.is_completed ≡ true
  pub by_plugin : backup.is_by_plugin ≡ true
  pub same_uid : (from_map backup.plugin_metadata).cluster_uid ≡ cluster.uid
  pub same_plugin : (from_map backup.plugin_metadata).plugin_name ≡ plugin_name
  pub not_listed : contains backup_ids backup.backup_id ≡ false

is_stale-IsStale :
    (cluster : Cluster) (backup_ids : List String) (backup : Backup)
    → is_stale cluster backup_ids backup ≡ true
    → IsStale cluster backup_ids backup
unfolding is_stale use_same_backup_location
is_stale-IsStale cluster backup_ids backup h = record {
  of_cluster = ground (arith, eq_iff backup.cluster_name cluster.name);
  completed = ground arith;
  by_plugin = ground arith;
  same_uid = ground (arith, eq_iff (from_map backup.plugin_metadata).cluster_uid cluster.uid);
  same_plugin = ground (arith, eq_iff (from_map backup.plugin_metadata).plugin_name plugin_name);
  not_listed = ground arith;
}

module _ {W E : Type 0} (calls : CatalogCalls W E) (Holds : W → Type 0) where
  module _ (cluster : Cluster) (backup_ids : List String)
      (by_delete : (backup : Backup) (w : W)
        → IsStale cluster backup_ids backup
        → Holds w
        → Holds (calls.delete_backup backup w).1) where
    delete_stale-Holds :
        (backups : List Backup) (w : W)
        → Holds w
        → Holds (delete_stale calls cluster backup_ids backups w).1
    unfolding delete_stale
    delete_stale-Holds [] w holds = holds
    delete_stale-Holds (backup ∷ backups) w holds =
        delete_stale-Holds backups (delete_if_stale calls cluster backup_ids backup w).1
          (elim (Bool-cases (is_stale cluster backup_ids backup)) [
            | inl t ↦
                rw (t) (by_delete backup w (is_stale-IsStale cluster backup_ids backup t) holds)
            | inr t ↦ rw (t) holds
          ])

    -- The maintenance deletes only completed Backups of the Cluster that this plugin took for the
    -- Cluster's UID and that the catalog does not have: whatever holds of the outside world and is kept
    -- by the list of Backups and by the deletion of such a Backup, holds afterwards too, on success
    -- and on every error.
    pub delete_backups-Holds :
        (by_list : (namespace : String) (w : W)
          → Holds w
          → Holds (calls.list_backups namespace w).1)
        (w : W)
        → Holds w
        → Holds (delete_backups_not_in_catalog calls cluster backup_ids w).1
    unfolding delete_backups_not_in_catalog
    delete_backups-Holds by_list w holds =
        go (calls.list_backups cluster.namespace w).0 (calls.list_backups cluster.namespace w).1
          (by_list cluster.namespace w holds)
      where
        go :
            (r : Result E (List Backup)) (v : W)
            → Holds v
            → Holds
                (continue
                  (wrap_result while_getting_backups r)
                  (λ backups w.
                    let s = delete_stale calls cluster backup_ids backups w in
                    (deletion_errors calls s.0, s.1))
                  v).1
        go (err e) v h = h
        go (ok backups) v h = delete_stale-Holds backups v h

  -- On an instance that is not the current primary a cycle of the maintenance does nothing but look at
  -- the ObjectStore: what that keeps holds afterwards too.
  pub cycle_cluster-Holds :
      (by_get : (key : NamespacedName) (w : W) → Holds w → Holds (calls.get_object_store key w).1)
      (pod_name : String) (cluster : Cluster) (w : W)
      → cluster.current_primary ≢ pod_name
      → Holds w
      → Holds (cycle_cluster calls pod_name cluster w).1
  unfolding cycle_cluster maintenance
  cycle_cluster-Holds by_get pod_name cluster w replica holds =
      elim (Bool-cases (contains (calls.enabled_plugin_names cluster.plugins) plugin_name)) [
        | inr t ↦ rw (t) holds
        | inl t ↦ elim (Bool-cases ((new_from_cluster cluster).barman_object_name == "")) [
          | inl u ↦ rw (t) (rw (u) holds)
          | inr u ↦ rw (t) (
              rw (u) (
                Ensures-bind Holds (λ r w'. Holds w') (λ r w'. Holds w')
                  (wrapping external
                    (calls.get_object_store (get_barman_object_key (new_from_cluster cluster))))
                  (λ store.
                    maintenance calls pod_name cluster store
                    >> pure
                        store.spec.instance_sidecar_configuration.retention_policy_interval_seconds)
                  (by_get (get_barman_object_key (new_from_cluster cluster)))
                  (λ store v h. rw (not_primary) h) (λ e v h. h) w holds))
        ]
      ]
    where
      not_primary : cluster.current_primary == pod_name ≡ false
      not_primary = ground (arith, eq_iff cluster.current_primary pod_name)
