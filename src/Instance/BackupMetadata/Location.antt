-- ===== src/Instance/BackupMetadata/Location.antt =====
-- The metadata of a backup says later where the backup was taken.
use plugin_barman_cloud.Base.{
  ◌≡◌, refl, false, some, String, at, lookup, ◌==◌, ==_refl, string_eq, if◌then◌else◌, arith,
}
use plugin_barman_cloud.Api.{plugin_name, Cluster}
use plugin_barman_cloud.Instance.BackupMetadata.{
  BackupResultMetadata, to_map, new_backup_result_metadata, from_map, Backup,
  use_same_backup_location,
}

-- The metadata that is read from a map is the metadata that was written to it.
pub from_map-to_map : (b : BackupResultMetadata) → from_map (some (to_map b)) ≡ b
unfolding from_map to_map at lookup
from_map-to_map b = refl

-- A Backup that carries the metadata that the plugin writes for a Cluster's UID is in the location of
-- just the Clusters with that UID, if its method is the plugin's.
pub use_same_backup_location-new :
    (backup : Backup) (cluster : Cluster) (uid timeline : String)
    → backup.plugin_metadata ≡ some (to_map (new_backup_result_metadata uid timeline))
    → use_same_backup_location backup cluster
      ≡ (if backup.is_by_plugin then uid == cluster.uid else false)
unfolding use_same_backup_location new_backup_result_metadata from_map to_map at lookup
use_same_backup_location-new backup cluster uid timeline written =
    rw (written) ground (arith, ==_refl plugin_name)
