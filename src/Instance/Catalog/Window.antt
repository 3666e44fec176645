-- ===== src/Instance/Catalog/Window.antt =====
-- The two writers of a recovery window do not undo each other.
use plugin_barman_cloud.Base.{
  ℕ, ◌≡◌, refl, ap, ◌∙◌, sym, false, some, String, lookup-insert, ◌==◌, ==_refl, string_eq,
  if◌then◌else◌, Bool-cases, inl, inr,
}
use plugin_barman_cloud.Api.{RecoveryWindow, ObjectStore}
use plugin_barman_cloud.Instance.Catalog.{
  BackupCatalog, with_window, window_of, updated_store, failed_store,
}

-- The windows after one has been set.
window_of-with :
    (store : ObjectStore) (server other : String) (window : RecoveryWindow)
    → window_of (with_window store server window) other
      ≡ (if server == other then window else window_of store other)
unfolding window_of
window_of-with store server other window =
    rw (lookup-insert server other window store.server_recovery_window)
      (elim (Bool-cases (server == other)) [ inl t ↦ rw (t) refl | inr t ↦ rw (t) refl ])

pub own_window :
    (store : ObjectStore) (server : String) (window : RecoveryWindow)
    → window_of (with_window store server window) server ≡ window
own_window store server window =
    window_of-with store server server window ∙ rw (==_refl server) refl

-- What each writer makes of a window.
abbrev with_catalog : BackupCatalog → RecoveryWindow → RecoveryWindow
with_catalog catalog window = record {
  first_recoverability_point = catalog.first_recoverability_point;
  last_successful_backup_time = catalog.last_successful_backup_time;
  last_failed_backup_time = window.last_failed_backup_time;
}

abbrev with_failure : ℕ → RecoveryWindow → RecoveryWindow
with_failure time window = record {
  first_recoverability_point = window.first_recoverability_point;
  last_successful_backup_time = window.last_successful_backup_time;
  last_failed_backup_time = some time;
}

-- The update after a maintenance sets the two times of the catalog and keeps the time of the last
-- failed backup, the record of a failed backup sets that time and keeps the two others, and neither
-- changes the window of another server. So the order of the two does not matter.
pub windows-kept :
    (catalog : BackupCatalog) (store : ObjectStore) (server other : String) (time : ℕ)
    → (server == other ≡ false
        → (window_of (updated_store catalog store server) other ≡ window_of store other)
          × (window_of (failed_store store server time) other ≡ window_of store other))
      × (window_of (updated_store catalog store server) server ≡ record {
        first_recoverability_point = catalog.first_recoverability_point;
        last_successful_backup_time = catalog.last_successful_backup_time;
        last_failed_backup_time = (window_of store server).last_failed_backup_time;
      })
      × (window_of (updated_store catalog (failed_store store server time) server) server
          ≡ window_of (failed_store (updated_store catalog store server) server time) server)
unfolding updated_store failed_store
windows-kept catalog store server other time = (
  λ differs. (
    window_of-with store server other _ ∙ rw (differs) refl,
    window_of-with store server other _ ∙ rw (differs) refl,
  ),
  own_window store server _,
  (own_window (failed_store store server time) server _
        ∙ ap (with_catalog catalog) (own_window store server _))
      ∙ sym (
          own_window (updated_store catalog store server) server _
          ∙ ap (with_failure time) (own_window store server _)),
)
