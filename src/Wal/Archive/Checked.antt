-- ===== src/Wal/Archive/Checked.antt =====
-- No WAL file is uploaded to a destination that has not passed its check.
use plugin_barman_cloud.Base.{
  ℕ, ◌-◌, ◌≡◌, refl, Bool, true, false, some, List, [], ◌∷◌, String, Bytes, Bool-cases, inl, inr,
  if◌then◌else◌,
}
use plugin_barman_cloud.Base.Exec.{
  Result, ok, err, pure, wrapping, wrap_result, try, ◌>>=◌, Ensures, Ensures-bind, Ensures-made,
  wrap_result-ok,
}
use plugin_barman_cloud.Api.{Cluster, BarmanConfiguration, ObjectStore}
use plugin_barman_cloud.Wal.Errors.{external, spool_management}
use plugin_barman_cloud.Wal.FileName.{base}
use plugin_barman_cloud.Wal.Archive.{
  ArchiveCalls, max_parallel, archive_env, check_backup_destination, upload, archive_file,
  resolve_check, archive_to,
}

-- A property of worlds that the calls keep which neither check nor upload.
pub record KeptByCalls {W E A : Type 0} (calls : ArchiveCalls W E A) (P : W → Type 0) : Type 0 where
  pub by_credentials : (s : ObjectStore) (w : W) → P w → P (calls.credentials_env s w).1
  pub by_new : (environment : List Bytes) (w : W) → P w → P (calls.new_archiver environment w).1
  pub by_check_options :
      (a : A) (c : BarmanConfiguration) (s : String) (w : W)
      → P w
      → P (calls.check_options a c s w).1
  pub by_spool : (a : A) (n : Bytes) (w : W) → P w → P (calls.delete_from_spool a n w).1
  pub by_options :
      (a : A) (c : BarmanConfiguration) (s : String) (w : W)
      → P w
      → P (calls.archive_options a c s w).1
  pub by_gather : (n : ℕ) (skip : List Bytes) (w : W) → P w → P (calls.gather_ready n skip w).1

-- For the destination of a configuration and a server: `IsChecked a` holds after a check that succeeded
-- with the archiver `a` and options that were made for this destination, and an upload by `a`, with
-- options made for it, has to keep `Holds` only where `IsChecked a` holds.
pub record ChecksDestination {W E A : Type 0} (calls : ArchiveCalls W E A) (c : BarmanConfiguration)
    (server : String) (Holds : W → Type 0) (IsChecked : A → W → Type 0) : Type 0 where
  pub holds_kept : KeptByCalls calls Holds
  pub checked_kept : (a : A) → KeptByCalls calls (IsChecked a)
  pub by_check :
      (a : A) (o : List Bytes) (w : W) → Holds w → Holds (calls.check_destination a o w).1
  pub check_passed :
      (a : A) (o : List Bytes) (v w : W)
      → (calls.check_options a c server v).0 ≡ ok o
      → (calls.check_destination a o w).0 ≡ ok tt
      → IsChecked a (calls.check_destination a o w).1
  pub by_upload :
      (a : A) (fs o : List Bytes) (v w : W)
      → (calls.archive_options a c server v).0 ≡ ok o
      → IsChecked a w
      → Holds w
      → Holds (calls.archive_list a fs o w).1

module _ {W E A : Type 0} (calls : ArchiveCalls W E A) (c : BarmanConfiguration) (server : String)
    (Holds : W → Type 0) (IsChecked : A → W → Type 0)
    (laws : ChecksDestination calls c server Holds IsChecked) where
  abbrev Both : A → W → Type 0
  Both a w = Holds w × IsChecked a w

  archive_file-Holds :
      (a : A) (source : Bytes)
      → Ensures (Both a) (archive_file calls a c server source) (λ r w. Holds w)
  unfolding archive_file upload
  archive_file-Holds a source =
      Ensures-bind (Both a) (λ r w. Both a w) (λ r w. Holds w)
        (wrapping (spool_management (base source)) (calls.delete_from_spool a (base source)))
        (λ deleted.
          if deleted
          then pure false
          else (wrapping external (calls.archive_options a c server) >>= upload calls a c source))
        (λ w h. (
          laws.holds_kept.by_spool a (base source) w h.0,
          (laws.checked_kept a).by_spool a (base source) w h.1,
        ))
        rest (λ e w h. h.0)
    where
      rest :
          (deleted : Bool)
          → Ensures
              (Both a)
              (if deleted
                then pure false
                else (wrapping external (calls.archive_options a c server)
                    >>= upload calls a c source))
              (λ r w. Holds w)
      rest true = λ w h. h.0
      rest false =
          Ensures-made (Both a) (λ r w. Both a w) (λ r w. Holds w)
            (wrapping external (calls.archive_options a c server)) (upload calls a c source)
            (λ w h. (
              laws.holds_kept.by_options a c server w h.0,
              (laws.checked_kept a).by_options a c server w h.1,
            ))
            (λ options v made w h.
              laws.by_upload a _ options v _ (wrap_result-ok external _ options made)
                ((laws.checked_kept a).by_gather (max_parallel c - 1) (base source ∷ []) w h.1)
                (laws.holds_kept.by_gather (max_parallel c - 1) (base source ∷ []) w h.0))
            (λ e w h. h.0)

  abbrev Passed : {E : Type 0} → A → Result E (Unit {0}) → W → Type 0
  Passed a (ok u) w = Both a w
  Passed a (err e) w = Holds w

  check-Passed : (a : A) → Ensures Holds (check_backup_destination calls a c server) (Passed a)
  unfolding check_backup_destination
  check-Passed a =
      Ensures-made Holds (λ r w. Holds w) (Passed a)
        (wrapping external (calls.check_options a c server))
        (λ options. wrapping external (calls.check_destination a options))
        (laws.holds_kept.by_check_options a c server)
        (λ options v made w h.
          passed (calls.check_destination a options w).0 (calls.check_destination a options w).1
            (laws.by_check a options w h)
            (laws.check_passed a options v w (wrap_result-ok external _ options made)))
        (λ e w h. h)
    where
      passed :
          (r : Result E (Unit {0})) (v : W)
          → Holds v
          → (r ≡ ok tt → IsChecked a v)
          → Passed a (wrap_result external r) v
      passed (ok u) v h is_checked = (h, is_checked refl)
      passed (err e) v h is_checked = h

  credentials-Holds :
      (store : ObjectStore)
      → Ensures Holds (try (calls.credentials_env store) >>= archive_env calls) (λ r w. Holds w)
  credentials-Holds store w h =
      go (calls.credentials_env store w).0 (calls.credentials_env store w).1
        (laws.holds_kept.by_credentials store w h)
    where
      go : (r : Result E (List Bytes)) → Ensures Holds (archive_env calls r) (λ r w. Holds w)
      go (ok environment) v g = g
      go (err e) v g = elim (Bool-cases (calls.is_forbidden e)) [
        | inl t ↦ rw (t) g
        | inr t ↦ rw (t) g
      ]

-- Where the operator asks for the check, no WAL file is uploaded before the destination has passed
-- it, by the same archiver: whatever is kept by the calls before, by the check, and by an upload that
-- an archiver makes with the options for the configuration of the ObjectStore and the server of the
-- Cluster after its own check, with the options for the same configuration and server, has succeeded,
-- is kept by `Archive`, on success and on every error.
pub archive_to-Holds :
    {W E A : Type 0} (calls : ArchiveCalls W E A) (Holds : W → Type 0) (IsChecked : A → W → Type 0)
    (cluster : Cluster) (store : ObjectStore) (server : String)
    → ChecksDestination calls store.spec.configuration server Holds IsChecked
    → (source : Bytes) (w : W) → Holds w
    → Holds (archive_to calls cluster store server (some true) source w).1
unfolding archive_to resolve_check
archive_to-Holds calls Holds IsChecked cluster store server laws source =
    Ensures-bind Holds (λ r w. Holds w) (λ r w. Holds w)
      (try (calls.credentials_env store) >>= archive_env calls) _
      (credentials-Holds calls store.spec.configuration server Holds IsChecked laws store)
      (λ environment.
        Ensures-bind Holds (λ r w. Holds w) (λ r w. Holds w)
          (wrapping external (calls.new_archiver environment)) _
          (laws.holds_kept.by_new environment)
          (λ a.
            Ensures-bind Holds (Passed calls store.spec.configuration server Holds IsChecked laws a)
              (λ r w. Holds w) (check_backup_destination calls a store.spec.configuration server)
              (λ u. archive_file calls a store.spec.configuration server source)
              (check-Passed calls store.spec.configuration server Holds IsChecked laws a)
              (λ u.
                archive_file-Holds calls store.spec.configuration server Holds IsChecked laws a
                  source)
              (λ e w h. h))
          (λ e w h. h))
      (λ e w h. h)
