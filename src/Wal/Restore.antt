-- ===== src/Wal/Restore.antt =====
-- internal/cnpgi/common/wal.go: `Restore` and the end-of-wal-stream flag.
pub mod Flag
pub mod Steps
pub mod OneShot
use plugin_barman_cloud.Base.{
  Bool, true, false, ◌&&◌, ◌||◌, Option, none, some, List, [], ◌∷◌, String, Bytes, if◌then◌else◌,
}
use plugin_barman_cloud.Base.Exec.{
  Result, Exec, pure, fail, lift, wrapping, wrap_result, ◌>>=◌, ◌>>◌,
}
use plugin_barman_cloud.Api.{NamespacedName, Cluster, BarmanConfiguration, ObjectStore}
use plugin_barman_cloud.Config.{PluginConfiguration, new_from_cluster_json}
use plugin_barman_cloud.Wal.Env.{get_restore_ca_bundle_env, merge_env}
use plugin_barman_cloud.Wal.Errors.{
  WalErrors, WalError, external, wrapped, end_of_wal_stream_reached, panic,
  classify_wal_restore_error,
}
use plugin_barman_cloud.Wal.Segment.{is_wal_file}
use plugin_barman_cloud.Wal.Routing.{
  resolve_restore_object_store, max_wal_files_per_invocation, should_use_end_of_wal_stream_flag,
  gather_wal_files_to_restore,
}

-- A `barmanRestorer.Result`: a file, and the error of its download.
pub record RestoreResult (E : Type 0) : Type 0 where
  pub wal_name : Bytes
  pub error : Option E

-- What `Restore` calls outside this repository: the Kubernetes client, the collection of the
-- credentials into the process environment, the options of barman-cloud-wal-restore, and a
-- `WALRestorer`, of type `R`, with its spool directory and its flag.
pub record RestoreCalls (W E R : Type 0) : Type 0 where
  pub get_object_store : NamespacedName → Exec W E ObjectStore
  pub credentials_env : ObjectStore → Exec W E (List Bytes)
  pub wal_restore_options : BarmanConfiguration → String → Exec W E (List Bytes)
  pub new_restorer : List Bytes → Exec W E R
  pub restore_from_spool : R → Bytes → Bytes → Exec W E Bool
  pub is_end_of_wal_stream : R → Exec W E Bool
  pub reset_end_of_wal_stream : R → Exec W E (Unit {0})
  pub set_end_of_wal_stream : R → Exec W E (Unit {0})
  pub restore_list : R → List Bytes → Bytes → List Bytes → W → List (RestoreResult E) × W

-- The fields of a `WALRestoreRequest`; `is_rewind` says whether the mode is `MODE_REWIND`.
pub record RestoreRequest (J : Type 0) : Type 0 where
  pub source_wal_name : Bytes
  pub destination_file_name : Bytes
  pub cluster_definition : J
  pub is_rewind : Bool

-- `isEndOfWALStream`
unfoldable pub is_end_of_wal_stream : {E : Type 0} → WalErrors E → List (RestoreResult E) → Bool
is_end_of_wal_stream errs [] = false
is_end_of_wal_stream errs (result ∷ results) =
    elim result.error [ none ↦ false | some e ↦ errs.is_wal_not_found e ]
    || is_end_of_wal_stream errs results

-- The files of step 3.
unfoldable pub files_to_restore : BarmanConfiguration → Bytes → Bool → Option (List Bytes)
files_to_restore c wal_name rewind_mode =
    if is_wal_file wal_name
    then gather_wal_files_to_restore wal_name (max_wal_files_per_invocation c rewind_mode)
    else some (wal_name ∷ [])

module _ {W E R : Type 0} (calls : RestoreCalls W E R) where
  -- `checkEndOfWALStreamFlag`
  unfoldable pub check_end_of_wal_stream_flag : R → Exec W (WalError E) (Unit {0})
  check_end_of_wal_stream_flag r = do
    contain ← wrapping external (calls.is_end_of_wal_stream r)
    if contain
        then (wrapping external (calls.reset_end_of_wal_stream r) >> fail end_of_wal_stream_reached)
        else pure tt

  -- `clearEndOfWALStreamFlag`
  unfoldable pub clear_end_of_wal_stream_flag : R → Exec W (WalError E) (Unit {0})
  clear_end_of_wal_stream_flag r = do
    contain ← wrapping external (calls.is_end_of_wal_stream r)
    if contain then wrapping external (calls.reset_end_of_wal_stream r) else pure tt

  module _ (errs : WalErrors E) where
    -- What follows the download: the error of the first file, or the flag. `walStatus[0]` panics
    -- where there is no result.
    unfoldable pub after_download :
        R → Bool → List (RestoreResult E) → Exec W (WalError E) (Unit {0})
    unfolding is_end_of_wal_stream
    after_download r use_flag [] = fail panic
    after_download r use_flag (first ∷ rest) = elim first.error [
      | some e ↦ fail (classify_wal_restore_error errs first.wal_name e)
      | none ↦
          if use_flag && is_end_of_wal_stream errs (first ∷ rest)
          then wrapping external (calls.set_end_of_wal_stream r)
          else pure tt
    ]

    -- Steps 3 and 4.
    unfoldable pub download :
        R
        → List Bytes
        → BarmanConfiguration
        → Bytes
        → Bytes
        → Bool
        → Bool
        → Exec W (WalError E) (Unit {0})
    unfolding after_download files_to_restore
    download r options c wal_name destination rewind_mode use_flag =
        elim (files_to_restore c wal_name rewind_mode) [
          | none ↦ fail panic
          | some files ↦ λ w.
              let (results, w') = calls.restore_list r files destination options w in
              after_download r use_flag results w'
        ]

    -- Steps 2 to 4.
    unfoldable pub fetch :
        R
        → List Bytes
        → Cluster
        → String
        → BarmanConfiguration
        → Bytes
        → Bytes
        → Bool
        → Exec W (WalError E) (Unit {0})
    unfolding check_end_of_wal_stream_flag download
    fetch r options cluster instance_name c wal_name destination rewind_mode =
        let use_flag = should_use_end_of_wal_stream_flag (some cluster) instance_name rewind_mode in
        (if use_flag then check_end_of_wal_stream_flag r else pure tt)
        >> download r options c wal_name destination rewind_mode use_flag

    -- `restoreFromBarmanObjectStore`
    unfoldable pub restore_from_barman_object_store :
        Cluster
        → String
        → ObjectStore
        → String
        → Bytes
        → Bytes
        → Bool
        → Exec W (WalError E) (Unit {0})
    unfolding clear_end_of_wal_stream_flag fetch
    restore_from_barman_object_store cluster instance_name store server_name wal_name destination
          rewind_mode =
        do
          let c = store.spec.configuration
          credentials ←
              wrapping (wrapped "while getting recover credentials") (calls.credentials_env store)
          let env = merge_env (get_restore_ca_bundle_env c) credentials
          options ←
              wrapping (wrapped "while getting barman-cloud-wal-restore options")
                (calls.wal_restore_options c server_name)
          r ← wrapping (wrapped "while creating the restorer") (calls.new_restorer env)
          (if rewind_mode then clear_end_of_wal_stream_flag r else pure tt)
          was_in_spool ←
              wrapping (wrapped "while restoring a file from the spool directory")
                (calls.restore_from_spool r wal_name destination)
          if was_in_spool
              then pure tt
              else fetch r options cluster instance_name c wal_name destination rewind_mode

    -- `Restore`, on an instance of that name, over the decoder of a Cluster.
    unfoldable pub restore :
        {J : Type 0}
        → (J → Result E Cluster)
        → String
        → RestoreRequest J
        → Exec W (WalError E) (Unit {0})
    unfolding restore_from_barman_object_store
    restore decode instance_name request = do
      configuration ←
          lift (wrap_result external (new_from_cluster_json decode request.cluster_definition))
      let target = resolve_restore_object_store configuration instance_name
      store ← wrapping external (calls.get_object_store target.1)
      restore_from_barman_object_store configuration.cluster instance_name store target.0
          request.source_wal_name request.destination_file_name request.is_rewind
