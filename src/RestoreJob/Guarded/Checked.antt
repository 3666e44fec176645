-- ===== src/RestoreJob/Guarded/Checked.antt =====
-- The steps of a restore that look at the destination and at the backup.
use plugin_barman_cloud.Base.{
  ◌≡◌, ◌≢◌, refl, ap, true, false, Option, none, some, List, [], ◌∷◌, String, Bytes, ◌==◌,
  string_eq, eq_iff, arith, join_path, subst, ◌∙◌,
}
use plugin_barman_cloud.Base.Exec.{Result, ok, Exec, wrapping, ◌>>=◌, wrap_result-ok, bind_ok}
use plugin_barman_cloud.Base.Exec.Phases.{
  Leads, Leads-bind, Leads-wrapping, Leads-reached, Leads-kept, Leads-then, Leads-then_made,
}
use plugin_barman_cloud.Api.{BarmanConfiguration, Cluster, ObjectStore}
use plugin_barman_cloud.Config.{
  PluginConfiguration, get_barman_object_key, get_recovery_barman_object_key,
}
use plugin_barman_cloud.Wal.Errors.{external as wal_external}
use plugin_barman_cloud.Wal.Archive.{ArchiveCalls, check_backup_destination}
use plugin_barman_cloud.Wal.Env.{build_certificate_file_path}
use plugin_barman_cloud.RestoreJob.Calls.{
  JobHookImpl, BarmanBackup, external, destination_check, creating_archiver, cannot_get_credentials,
  JobError, JobCalls, Bootstrap, no_bootstrap, no_target, recovery_target, Backup,
}
use plugin_barman_cloud.RestoreJob.Load.{
  check_target_destination, check_with, check_in, load_backup_object_from_external_cluster,
  destination_server_name, choose_backup, found_backup, resolve_restore_empty_wal_archive_check,
  backup_of,
}
use plugin_barman_cloud.RestoreJob.Hook.{check_target}
use plugin_barman_cloud.RestoreJob.Phases.{
  Phase, started, checked, GuardsPgData, OfDestination, of_destination, Chosen, latest, targeted,
  OfRecovery, of_recovery,
}
use plugin_barman_cloud.RestoreJob.Destination.{destination_server_name-new_from_cluster}

module _ {W E A R T C : Type 0} (calls : JobCalls W E A R T C) (archive_calls : ArchiveCalls W E A)
    (impl : JobHookImpl) (c : PluginConfiguration) (P : Phase → W → Type 0)
    (laws : GuardsPgData calls archive_calls impl c P) where
  pub kept :
      {E' F B : Type 0} (p : Phase) (f : F → E') (m : Exec W F B)
      → ((w : W) → P p w → P p (m w).1)
      → Leads P started p p (wrapping f m)
  kept p f m keeps =
      Leads-wrapping P started p p f m (Leads-kept P started p m (laws.weaken p) keeps)

  -- The same, where the rest also knows what the call has answered.
  pub then_made :
      {E' F B D : Type 0} (p q : Phase) (f : F → E') (m : Exec W F B) (k : B → Exec W E' D)
      → ((w : W) → P p w → P p (m w).1)
      → ((b : B) (w : W) → (m w).0 ≡ ok b → Leads P started p q (k b))
      → Leads P started p q (wrapping f m >>= k)
  then_made p q f m k keeps rest = Leads-then_made P started p q f m k (laws.weaken p) keeps rest

  pub then_kept :
      {E' F B D : Type 0} (p q : Phase) (f : F → E') (m : Exec W F B) (k : B → Exec W E' D)
      → ((w : W) → P p w → P p (m w).1)
      → ((b : B) → Leads P started p q (k b))
      → Leads P started p q (wrapping f m >>= k)
  then_kept p q f m k keeps rest = Leads-then P started p q f m k (laws.weaken p) keeps rest

  destination-checked :
      (a : A) (b : BarmanConfiguration) (server : String)
      → ((o : List Bytes) (w : W)
          → (archive_calls.check_options a b server w).0 ≡ ok o
          → OfDestination calls archive_calls impl c a o)
      → Leads P started started checked (check_backup_destination archive_calls a b server)
  unfolding check_backup_destination
  destination-checked a b server made =
      then_made started checked wal_external (archive_calls.check_options a b server) _
        ((laws.kept started).by_check_options a b server)
        (λ options v answered.
          Leads-wrapping P started started checked wal_external
            (archive_calls.check_destination a options)
            (Leads-reached P started started checked (archive_calls.check_destination a options)
              (laws.by_check a options)
              (λ w u. laws.check_passed a options w u (made options v answered))))

  module _ (store : ObjectStore) (v0 : W)
      (got : (calls.get_object_store (get_barman_object_key c) v0).0 ≡ ok store) where
    check_in-checked :
        (env : List Bytes) (v1 : W)
        → (calls.credentials_env c.cluster.namespace store.spec.configuration
            (build_certificate_file_path store.name)
            v1).0
          ≡ ok env
        → env ≢ []
        → Leads P started started checked
            (check_in calls archive_calls impl c.cluster store.spec.configuration (some true) env)
    unfolding check_in check_with resolve_restore_empty_wal_archive_check
    check_in-checked [] v1 collected given = absurd (given refl)
    check_in-checked (e ∷ env) v1 collected given =
        then_made started checked creating_archiver
          (calls.new_archiver (e ∷ env) impl.spool_directory impl.pg_data_path
            (join_path impl.pg_data_path ".check-empty-wal-archive"))
          _
          ((laws.kept started).by_new_archiver (e ∷ env) impl.spool_directory impl.pg_data_path
            (join_path impl.pg_data_path ".check-empty-wal-archive"))
          (λ a v2 built. Leads-wrapping P started started checked destination_check _ (
            destination-checked a store.spec.configuration
              (destination_server_name c.cluster.name c.cluster.plugins)
              (λ o v3 made. of_destination store (e ∷ env) a o v0 v1 v2 v3 got collected built (
                subst
                  (λ (s : String).
                    (archive_calls.check_options a store.spec.configuration s v3).0 ≡ ok o)
                  (destination_server_name-new_from_cluster c.cluster) made))))

    target_destination-checked : Leads P started started checked (
        check_target_destination calls archive_calls impl c.cluster store.spec.configuration
          store.name
          (some true))
    unfolding check_target_destination
    target_destination-checked =
        then_made started checked (cannot_get_credentials c.cluster.name)
          (calls.credentials_env c.cluster.namespace store.spec.configuration
            (build_certificate_file_path store.name))
          _
          ((laws.kept started).by_credentials c.cluster.namespace store.spec.configuration
            (build_certificate_file_path store.name))
          (λ env v1 collected. check_in-checked env v1 collected (λ empty.
            laws.environment_given c.cluster.namespace store.spec.configuration
              (build_certificate_file_path store.name) v1 (collected ∙ ap ok empty)))

  pub check_target-checked :
      c.barman_object_name ≢ ""
      → Leads P started started checked (check_target calls archive_calls impl c (some true))
  unfolding check_target
  check_target-checked archives = rw (absent) (
      then_made started checked external (calls.get_object_store (get_barman_object_key c)) _
        ((laws.kept started).by_get (get_barman_object_key c))
        (λ store v0 got. target_destination-checked store v0 got))
    where
      absent : c.barman_object_name == "" ≡ false
      absent = ground (arith, eq_iff c.barman_object_name "")

  pub load-checked :
      (cluster : Cluster) (b : BarmanConfiguration) (store_name server : String)
      → Leads P started checked checked
          (load_backup_object_from_external_cluster calls cluster b store_name server)
  unfolding load_backup_object_from_external_cluster found_backup choose_backup
  load-checked cluster b store_name server =
      then_kept checked checked external
        (calls.credentials_env cluster.namespace b (build_certificate_file_path store_name)) _
        ((laws.kept checked).by_credentials cluster.namespace b
          (build_certificate_file_path store_name))
        (λ env.
          then_kept checked checked external (calls.get_backup_list b server env) _
            ((laws.kept checked).by_list b server env)
            (λ catalog.
              Leads-bind P started checked checked checked
                (choose_backup calls (calls.bootstrap cluster) catalog)
                (found_backup calls b server env) (chosen (calls.bootstrap cluster) catalog)
                (built env)))
    where
      chosen :
          (t : Bootstrap T) (catalog : C)
          → Leads P started checked checked (choose_backup calls t catalog)
      chosen no_bootstrap catalog w h = laws.weaken checked w h
      chosen no_target catalog w h = h
      chosen (recovery_target t) catalog w h =
          kept checked external (calls.find_backup_info catalog t)
            ((laws.kept checked).by_find catalog t) w h

      built :
          (env : List Bytes) (target : Option BarmanBackup)
          → Leads P started checked checked (found_backup calls b server env target)
      built env none w h = laws.weaken checked w h
      built env (some target) w h = h

  -- What was loaded is a backup that the Cluster recovers from.
  pub load-OfRecovery :
      (store : ObjectStore) (v0 : W)
      → (calls.get_object_store (get_recovery_barman_object_key c) v0).0 ≡ ok store
      → (loaded : Backup × List Bytes) (v1 : W)
      → (load_backup_object_from_external_cluster calls c.cluster store.spec.configuration
          store.name c.recovery_server_name v1).0
        ≡ ok loaded
      → (b : BarmanBackup) × (env : List Bytes) × OfRecovery calls archive_calls c store env b
        × (loaded ≡ (backup_of store.spec.configuration c.recovery_server_name b, env))
  unfolding load_backup_object_from_external_cluster
  load-OfRecovery store v0 got loaded v1 h =
      let (env, u1, collected, h1) = bind_ok collect (λ env. listed_from env) v1 loaded h in
      let (catalog, u2, listed, h2) =
        bind_ok (list_backups env) (λ catalog. chosen_with env catalog) u1 loaded h1 in
      let (target, u3, chosen, h3) =
        bind_ok (choose catalog) (λ target. found_with env target) u2 loaded h2 in
      from_target env catalog target u2 u3 (wrap_result-ok external (collected_at v1) env collected)
        u1 (wrap_result-ok external (listed_at env u1) catalog listed) chosen h3
    where
      collected_at : W → Result E (List Bytes)
      collected_at v =
          (calls.credentials_env c.cluster.namespace store.spec.configuration
            (build_certificate_file_path store.name) v).0

      listed_at : List Bytes → W → Result E C
      listed_at env v =
          (calls.get_backup_list store.spec.configuration c.recovery_server_name env v).0

      collect : Exec W (JobError E) (List Bytes)
      collect = wrapping external (
          calls.credentials_env c.cluster.namespace store.spec.configuration
            (build_certificate_file_path store.name))

      list_backups : List Bytes → Exec W (JobError E) C
      list_backups env =
          wrapping external
            (calls.get_backup_list store.spec.configuration c.recovery_server_name env)

      choose : C → Exec W (JobError E) (Option BarmanBackup)
      choose catalog = choose_backup calls (calls.bootstrap c.cluster) catalog

      found_with : List Bytes → Option BarmanBackup → Exec W (JobError E) (Backup × List Bytes)
      found_with env target =
          found_backup calls store.spec.configuration c.recovery_server_name env target

      chosen_with : List Bytes → C → Exec W (JobError E) (Backup × List Bytes)
      chosen_with env catalog = choose catalog >>= λ target. found_with env target

      listed_from : List Bytes → Exec W (JobError E) (Backup × List Bytes)
      listed_from env = list_backups env >>= λ catalog. chosen_with env catalog

      Loaded : Type 0
      Loaded =
          (b : BarmanBackup) × (env : List Bytes) × OfRecovery calls archive_calls c store env b
          × (loaded ≡ (backup_of store.spec.configuration c.recovery_server_name b, env))

      chosen_from :
          (catalog : C) (b : BarmanBackup) (v : W) (t : Bootstrap T)
          → calls.bootstrap c.cluster ≡ t
          → (choose_backup calls t catalog v).0 ≡ ok (some b)
          → Chosen calls archive_calls c.cluster catalog b
      chosen_from catalog b v no_bootstrap e g = absurd (unfold choose_backup in cc)
      chosen_from catalog b v no_target e g = latest b e (unfold choose_backup in cc)
      chosen_from catalog b v (recovery_target t) e g =
          targeted b t v e (unfold choose_backup in wrap_result-ok external _ (some b) g)

      from_target :
          (env : List Bytes) (catalog : C) (target : Option BarmanBackup) (u2 u3 : W)
          → (calls.credentials_env c.cluster.namespace store.spec.configuration
              (build_certificate_file_path store.name)
              v1).0
            ≡ ok env
          → (u1 : W)
          → (calls.get_backup_list store.spec.configuration c.recovery_server_name env u1).0
            ≡ ok catalog
          → (choose_backup calls (calls.bootstrap c.cluster) catalog u2).0 ≡ ok target
          → (found_backup calls store.spec.configuration c.recovery_server_name env target u3).0
            ≡ ok loaded
          → Loaded
      from_target env catalog none u2 u3 collected u1 listed chosen g =
          absurd (unfold found_backup in cc)
      from_target env catalog (some b) u2 u3 collected u1 listed chosen g = (
        b,
        env,
        of_recovery catalog b v0 v1 u1 got collected listed
            (chosen_from catalog b u2 (calls.bootstrap c.cluster) refl chosen),
        (unfold found_backup in cc),
      )
