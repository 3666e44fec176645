-- ===== src/Instance/BackupService/Reported.antt =====
-- A backup that is reported is one that the maintenance knows again.
use plugin_barman_cloud.Base.{
  ◌≡◌, refl, ap, subst, ◌∙◌, true, not, some, List, String, Bytes, contains, ==_refl, string_eq,
}
use plugin_barman_cloud.Base.Exec.{Result, ok, err, pure, Ensures, Ensures-bind}
use plugin_barman_cloud.Api.{Cluster, ObjectStore}
use plugin_barman_cloud.Config.{PluginConfiguration, get_barman_object_key}
use plugin_barman_cloud.Instance.BackupMetadata.{Backup, use_same_backup_location}
use plugin_barman_cloud.Instance.BackupMetadata.Location.{use_same_backup_location-new}
use plugin_barman_cloud.Instance.Catalog.{CatalogCalls, is_stale}
use plugin_barman_cloud.Instance.BackupService.{
  BackupInfo, BackupResult, BackupCalls, take_backup, refresh_window, backup_result, run_backup,
  backup_env, backup_configured,
}

module _ {W E : Type 0} (calls : CatalogCalls W E) (backup_calls : BackupCalls W E) where
  abbrev Anything : W → Type 0
  Anything w = Unit

  abbrev Any : {A : Type 0} → Result E A → W → Type 0
  Any r w = Unit

  -- An answer is that of a backup which barman-cloud has told of.
  abbrev Told : String → Cluster → Result E BackupResult → W → Type 0
  Told instance_name cluster (ok r) w =
      (info : BackupInfo) × (r ≡ backup_result calls backup_calls instance_name cluster info)
  Told instance_name cluster (err e) w = Unit

  run_backup-Told :
      (instance_name : String) (c : PluginConfiguration) (store : ObjectStore) (env : List Bytes)
      (name : String)
      → Ensures Anything
          (run_backup calls backup_calls instance_name c store env name)
          (Told instance_name c.cluster)
  unfolding run_backup
  run_backup-Told instance_name c store env name =
      Ensures-bind Anything Any (Told instance_name c.cluster)
        (take_backup calls backup_calls c store name env) _ (λ w h. tt)
        (λ u.
          Ensures-bind Anything Any (Told instance_name c.cluster)
            (backup_calls.get_executed_backup_info store.spec.configuration name c.server_name env)
            _ (λ w h. tt)
            (λ info.
              Ensures-bind Anything Any (Told instance_name c.cluster)
                (refresh_window calls backup_calls c store env)
                (λ u'. pure (backup_result calls backup_calls instance_name c.cluster info))
                (λ w h. tt) (λ u' w h. (info, refl)) (λ e w h. tt))
            (λ e w h. tt))
        (λ e w h. tt)

  backup-Told :
      (instance_name : String) (c : PluginConfiguration)
      → Ensures Anything
          (backup_configured calls backup_calls instance_name c)
          (Told instance_name c.cluster)
  unfolding backup_configured
  backup-Told instance_name c =
      Ensures-bind Anything Any (Told instance_name c.cluster)
        (calls.get_object_store (get_barman_object_key c)) _ (λ w h. tt)
        (λ store.
          Ensures-bind Anything Any (Told instance_name c.cluster)
            backup_calls.ensure_temporary_directory_exists _ (λ w h. tt)
            (λ u.
              Ensures-bind Anything Any (Told instance_name c.cluster)
                (backup_env calls backup_calls store)
                (λ env w.
                  run_backup calls backup_calls instance_name c store env
                    (backup_calls.new_backup_name w) w)
                (λ w h. tt)
                (λ env w h.
                  run_backup-Told instance_name c store env (backup_calls.new_backup_name w) w h)
                (λ e w h. tt))
            (λ e w h. tt))
        (λ e w h. tt)

  -- A Backup object with the identifier and the metadata that the plugin answered with is known again
  -- by the maintenance: once it is completed, the maintenance deletes it just when the catalog has
  -- no backup with that identifier any more.
  pub backup-is_stale :
      (instance_name : String) (c : PluginConfiguration) (w : W) (r : BackupResult)
      (backup_ids : List String) (backup : Backup)
      → (backup_configured calls backup_calls instance_name c w).0 ≡ ok r
      → backup.plugin_metadata ≡ some r.metadata
      → backup.backup_id ≡ r.backup_id
      → backup.cluster_name ≡ c.cluster.name
      → backup.is_completed ≡ true
      → backup.is_by_plugin ≡ true
      → is_stale c.cluster backup_ids backup ≡ not (contains backup_ids r.backup_id)
  unfolding is_stale backup_result
  backup-is_stale instance_name c w r backup_ids backup answered metadata id named completed
        by_plugin =
      known (
        subst
          (λ x.
            Told instance_name c.cluster x
              (backup_configured calls backup_calls instance_name c w).1)
          answered (backup-Told instance_name c w tt))
    where
      known :
          (info : BackupInfo) × (r ≡ backup_result calls backup_calls instance_name c.cluster info)
          → is_stale c.cluster backup_ids backup ≡ not (contains backup_ids r.backup_id)
      known (info, told) =
          let same : use_same_backup_location backup c.cluster ≡ true =
            (use_same_backup_location-new backup c.cluster c.cluster.uid info.time_line
                (metadata ∙ ap (λ (x : BackupResult). some x.metadata) told)
              ∙ rw (by_plugin) (==_refl c.cluster.uid)) in
          rw (id, named, completed, same, ==_refl c.cluster.name) refl
