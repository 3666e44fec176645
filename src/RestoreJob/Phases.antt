-- ===== src/RestoreJob/Phases.antt =====
-- The phases of the restore job, and what its calls have to keep in each.
use plugin_barman_cloud.Base.{◌≡◌, ◌≢◌, some, [], ◌∷◌, ◌++◌, List, String, Bytes, join_path}
use plugin_barman_cloud.Base.Exec.{ok}
use plugin_barman_cloud.Api.{NamespacedName, BarmanConfiguration, Cluster, ObjectStore}
use plugin_barman_cloud.Config.{
  PluginConfiguration, new_from_cluster, get_barman_object_key, get_recovery_barman_object_key,
}
use plugin_barman_cloud.Wal.Env.{build_certificate_file_path}
use plugin_barman_cloud.Wal.Archive.{ArchiveCalls}
use plugin_barman_cloud.RestoreJob.Calls.{
  JobCalls, JobHookImpl, BarmanBackup, no_target, recovery_target,
}

-- How far a restore has come: the destination has passed its check, and the first WAL file that a
-- backup needs was found.
pub data Phase : Type 0 where
  started checked : Phase
  found : BarmanBackup → Phase

module _ {W E A R T C : Type 0} (calls : JobCalls W E A R T C)
    (archive_calls : ArchiveCalls W E A) where
  -- A property of worlds that is kept by the calls that neither check, fetch a WAL nor write PGDATA.
  pub record KeptByCalls (P : W → Type 0) : Type 0 where
    pub by_get : (key : NamespacedName) (w : W) → P w → P (calls.get_object_store key w).1
    pub by_credentials :
        (n : String) (c : BarmanConfiguration) (p : String) (w : W)
        → P w
        → P (calls.credentials_env n c p w).1
    pub by_list :
        (c : BarmanConfiguration) (s : String) (env : List Bytes) (w : W)
        → P w
        → P (calls.get_backup_list c s env w).1
    pub by_find : (c : C) (t : T) (w : W) → P w → P (calls.find_backup_info c t w).1
    pub by_new_archiver :
        (env : List Bytes) (a b c : String) (w : W) → P w → P (calls.new_archiver env a b c w).1
    pub by_check_options :
        (a : A) (c : BarmanConfiguration) (s : String) (w : W)
        → P w
        → P (archive_calls.check_options a c s w).1
    pub by_cloud_options :
        (o : List String) (c : BarmanConfiguration) (w : W)
        → P w
        → P (calls.append_cloud_provider_options o c w).1
    pub by_new_restorer :
        (env : List Bytes) (s : String) (w : W) → P w → P (calls.new_restorer env s w).1
    pub by_wal_options :
        (c : BarmanConfiguration) (s : String) (w : W)
        → P w
        → P (calls.cloud_wal_restore_options c s w).1
    pub by_ensure_parent :
        (p : String) (w : W) → P w → P (calls.ensure_parent_directory_exists p w).1
    pub by_remove : (p : String) (w : W) → P w → P (calls.remove_file p w).1

  -- An archiver and options for the check of the destination of the new Cluster: the archiver is made
  -- with the credentials of the ObjectStore that the Cluster archives to, and the options from its
  -- configuration and the server of the Cluster.
  pub data OfDestination (impl : JobHookImpl) (c : PluginConfiguration)
      : A → List Bytes → Type 0 where
    of_destination :
        (store : ObjectStore) (env : List Bytes) (a : A) (o : List Bytes) (v0 v1 v2 v3 : W)
        → (calls.get_object_store (get_barman_object_key c) v0).0 ≡ ok store
        → (calls.credentials_env c.cluster.namespace store.spec.configuration
            (build_certificate_file_path store.name)
            v1).0
          ≡ ok env
        → (calls.new_archiver env impl.spool_directory impl.pg_data_path
            (join_path impl.pg_data_path ".check-empty-wal-archive")
            v2).0
          ≡ ok a
        → (archive_calls.check_options a store.spec.configuration
            (new_from_cluster c.cluster).server_name
            v3).0
          ≡ ok o
        → OfDestination impl c a o

  -- The backup of a catalog that a Cluster is restored from: the one for its recovery target, or the
  -- latest one.
  pub data Chosen (cluster : Cluster) (catalog : C) : BarmanBackup → Type 0 where
    latest :
        (b : BarmanBackup)
        → calls.bootstrap cluster ≡ no_target
        → calls.latest_backup_info catalog ≡ some b
        → Chosen cluster catalog b
    targeted :
        (b : BarmanBackup) (t : T) (v : W)
        → calls.bootstrap cluster ≡ recovery_target t
        → (calls.find_backup_info catalog t v).0 ≡ ok (some b)
        → Chosen cluster catalog b

  -- A backup, with the credentials, of the ObjectStore and the server that the Cluster recovers from.
  pub data OfRecovery (c : PluginConfiguration) (store : ObjectStore) (env : List Bytes)
      : BarmanBackup → Type 0 where
    of_recovery :
        (catalog : C) (b : BarmanBackup) (v0 v1 v2 : W)
        → (calls.get_object_store (get_recovery_barman_object_key c) v0).0 ≡ ok store
        → (calls.credentials_env c.cluster.namespace store.spec.configuration
            (build_certificate_file_path store.name)
            v1).0
          ≡ ok env
        → (calls.get_backup_list store.spec.configuration c.recovery_server_name env v2).0
          ≡ ok catalog
        → Chosen c.cluster catalog b
        → OfRecovery c store env b

  -- A restorer and options for a WAL file of a backup that the Cluster recovers from: the restorer is
  -- made with the credentials of that ObjectStore, the options from its configuration and server.
  pub data OfRestorer (impl : JobHookImpl) (c : PluginConfiguration) (b : BarmanBackup)
      : R → List Bytes → Type 0 where
    of_restorer :
        (store : ObjectStore) (env : List Bytes) (r : R) (o : List Bytes) (v0 v1 : W)
        → OfRecovery c store env b
        → (calls.new_restorer env impl.spool_directory v0).0 ≡ ok r
        → (calls.cloud_wal_restore_options store.spec.configuration c.recovery_server_name v1).0
          ≡ ok o
        → OfRestorer impl c b r o

  -- What holds in each phase: a check of the destination of the Cluster that succeeds leads to
  -- `checked`, the first WAL file of a backup that the Cluster recovers from, fetched from there, to
  -- `found` of that backup, and only there barman-cloud-restore of that backup has to keep what holds.
  -- The environment of the credentials extends the one of the process, and is not empty.
  pub record GuardsPgData (impl : JobHookImpl) (c : PluginConfiguration) (P : Phase → W → Type 0)
      : Type 0 where
    pub weaken : (p : Phase) (w : W) → P p w → P started w
    pub kept : (p : Phase) → KeptByCalls (P p)
    pub environment_given :
        (n : String) (b : BarmanConfiguration) (p : String) (w : W)
        → (calls.credentials_env n b p w).0 ≢ ok []
    pub by_check :
        (a : A) (o : List Bytes) (w : W)
        → P started w
        → P started (archive_calls.check_destination a o w).1
    pub check_passed :
        (a : A) (o : List Bytes) (w : W) (u : Unit {0})
        → OfDestination impl c a o
        → P started w
        → (archive_calls.check_destination a o w).0 ≡ ok u
        → P checked (archive_calls.check_destination a o w).1
    pub by_restore_wal :
        (r : R) (wal path : String) (o : List Bytes) (w : W)
        → P checked w
        → P started (calls.restore_wal r wal path o w).1
    pub wal_found :
        (b : BarmanBackup) (r : R) (path : String) (o : List Bytes) (w : W) (u : Unit {0})
        → OfRestorer impl c b r o
        → P checked w
        → (calls.restore_wal r b.begin_wal path o w).0 ≡ ok u
        → P (found b) (calls.restore_wal r b.begin_wal path o w).1
    pub by_data_dir :
        (b : BarmanBackup) (o : List String) (path server : String) (env : List Bytes) (w : W)
        → P (found b) w
        → P started
            (calls.run_barman_cloud_restore
              (o ++ path ∷ server ∷ b.id ∷ impl.pg_data_path ∷ [])
              env
              w).1
    pub by_ensure :
        (p : String) (w : W) → P started w → P started (calls.ensure_directory_exists p w).1
    pub by_move :
        (p q : String) (w : W) → P started w → P started (calls.move_directory_content p q w).1
    pub by_symlink : (p q : String) (w : W) → P started w → P started (calls.symlink p q w).1
