-- ===== src/Wal/Archive.antt =====
-- internal/cnpgi/common/wal.go and check.go: `Archive`.
pub mod Checked
use plugin_barman_cloud.Base.{
  ℕ, ◌-◌, Bool, true, false, ◌&&◌, Option, none, some, List, [], ◌∷◌, String, Bytes, ltb,
  if◌then◌else◌,
}
use plugin_barman_cloud.Base.Exec.{
  Result, ok, err, Exec, pure, fail, lift, try, wrapping, wrap_result, ◌>>=◌, ◌>>◌,
}
use plugin_barman_cloud.Api.{NamespacedName, Cluster, BarmanConfiguration, ObjectStore}
use plugin_barman_cloud.Config.{PluginConfiguration, new_from_cluster_json, get_barman_object_key}
use plugin_barman_cloud.Wal.Errors.{
  WalError, external, wrapped, spool_management, missing_permissions,
}
use plugin_barman_cloud.Wal.FileName.{base}

-- What `Archive` calls outside this repository: the Kubernetes client, the collection of the
-- credentials, the test for the marker file, a `WALArchiver`, of type `A`, and the list of the WAL files
-- that are ready, at most so many and without those to skip. `is_forbidden` is `apierrors.IsForbidden`.
pub record ArchiveCalls (W E A : Type 0) : Type 0 where
  pub get_object_store : NamespacedName → Exec W E ObjectStore
  pub credentials_env : ObjectStore → Exec W E (List Bytes)
  pub is_forbidden : E → Bool
  pub marker_exists : Exec W E Bool
  pub new_archiver : List Bytes → Exec W E A
  pub check_options : A → BarmanConfiguration → String → Exec W E (List Bytes)
  pub check_destination : A → List Bytes → Exec W E (Unit {0})
  pub delete_from_spool : A → Bytes → Exec W E Bool
  pub archive_options : A → BarmanConfiguration → String → Exec W E (List Bytes)
  pub gather_ready : ℕ → List Bytes → W → List Bytes × W
  pub archive_list : A → List Bytes → List Bytes → W → List (Option E) × W

-- The fields of a `WALArchiveRequest`.
pub record ArchiveRequest (J : Type 0) : Type 0 where
  pub source_file_name : Bytes
  pub cluster_definition : J
  pub check_empty_wal_archive : Option Bool

-- `maxParallel`
unfoldable pub max_parallel : BarmanConfiguration → ℕ
max_parallel c = elim c.wal_max_parallel [ none ↦ 1 | some n ↦ if ltb 0 n then n else 1 ]

-- The first error of the uploads, if there is one.
unfoldable pub first_error : {E : Type 0} → List (Option E) → Result (WalError E) Bool
first_error [] = ok true
first_error (none ∷ results) = first_error results
first_error (some e ∷ results) = err (external e)

module _ {W E A : Type 0} (calls : ArchiveCalls W E A) where
  -- `resolveArchiveEmptyWalArchiveCheck`
  unfoldable pub resolve_check : Option Bool → Cluster → Exec W (WalError E) Bool
  resolve_check (some decision) cluster = pure decision
  resolve_check none cluster =
      wrapping (wrapped "while checking for empty wal archive check file") calls.marker_exists
      >>= λ present. pure (cluster.is_empty_wal_check_enabled && present)

  -- The credentials: a forbidden access has an error of its own.
  abbrev pub archive_env : Result E (List Bytes) → Exec W (WalError E) (List Bytes)
  archive_env (ok environment) = pure environment
  archive_env (err e) = if calls.is_forbidden e then fail missing_permissions else fail (external e)

  -- `CheckBackupDestination`
  unfoldable pub check_backup_destination :
      A → BarmanConfiguration → String → Exec W (WalError E) (Unit {0})
  check_backup_destination arch c server =
      wrapping external (calls.check_options arch c server) >>= λ options.
      wrapping external (calls.check_destination arch options)

  -- Step 4, to its end: the requested file is the first one.
  unfoldable pub upload : A → BarmanConfiguration → Bytes → List Bytes → Exec W (WalError E) Bool
  unfolding max_parallel first_error base
  upload arch c source options w =
      let ready = calls.gather_ready (max_parallel c - 1) (base source ∷ []) w in
      let results = calls.archive_list arch (source ∷ ready.0) options ready.1 in
      (first_error results.0, results.1)

  -- Steps 3 and 4; `false` is the nil result for a file that had been archived.
  unfoldable pub archive_file : A → BarmanConfiguration → String → Bytes → Exec W (WalError E) Bool
  unfolding upload base
  archive_file arch c server source =
      wrapping (spool_management (base source)) (calls.delete_from_spool arch (base source))
      >>= λ deleted.
          if deleted
          then pure false
          else (wrapping external (calls.archive_options arch c server) >>= upload arch c source)

  -- Step 2, where it is asked for.
  abbrev pub checked : A → BarmanConfiguration → String → Bool → Exec W (WalError E) (Unit {0})
  checked arch c server true = check_backup_destination arch c server
  checked arch c server false = pure tt

  -- `Archive` from the object store on.
  unfoldable pub archive_to :
      Cluster → ObjectStore → String → Option Bool → Bytes → Exec W (WalError E) Bool
  unfolding resolve_check check_backup_destination archive_file
  archive_to cluster store server decision source = do
    environment ← try (calls.credentials_env store) >>= archive_env
    arch ← wrapping external (calls.new_archiver environment)
    check ← resolve_check decision cluster
    checked arch store.spec.configuration server check
    archive_file arch store.spec.configuration server source

  -- `Archive`, over the decoder of a Cluster.
  unfoldable pub archive :
      {J : Type 0} → (J → Result E Cluster) → ArchiveRequest J → Exec W (WalError E) Bool
  unfolding archive_to
  archive decode request = do
    configuration ←
        lift (wrap_result external (new_from_cluster_json decode request.cluster_definition))
    store ← wrapping external (calls.get_object_store (get_barman_object_key configuration))
    archive_to configuration.cluster store configuration.server_name request.check_empty_wal_archive
        request.source_file_name
