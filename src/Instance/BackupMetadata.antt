-- ===== src/Instance/BackupMetadata.antt =====
-- internal/cnpgi/instance/types.go: what is written into the status of a Backup, as a map.
pub mod Location
use plugin_barman_cloud.Base.{
  Bool, true, false, ◌&&◌, Option, none, some, List, [], ◌∷◌, String, StringMap, at, ◌==◌,
  string_eq, if◌then◌else◌,
}
use plugin_barman_cloud.Api.{plugin_name, Cluster}
use plugin_barman_cloud.Rbac.Specs.{plugin_version}

pub record BackupResultMetadata : Type 0 where
  pub timeline : String
  pub version : String
  pub name : String
  pub display_name : String
  pub cluster_uid : String
  pub plugin_name : String

-- `toMap`
unfoldable pub to_map : BackupResultMetadata → StringMap
to_map b =
    ("timeline", b.timeline)
    ∷ ("version", b.version)
    ∷ ("name", b.name)
    ∷ ("displayName", b.display_name)
    ∷ ("clusterUID", b.cluster_uid)
    ∷ ("pluginName", b.plugin_name)
    ∷ []

-- `newBackupResultMetadata`, on the timeline that `strconv.Itoa` has written.
unfoldable pub new_backup_result_metadata : String → String → BackupResultMetadata
new_backup_result_metadata cluster_uid timeline = record {
  timeline = timeline;
  cluster_uid = cluster_uid;
  version = plugin_version;
  name = plugin_name;
  display_name = "BarmanCloudInstance";
  plugin_name = plugin_name;
}

-- `newBackupResultMetadataFromMap`; the nil map is `none`.
unfoldable pub from_map : Option StringMap → BackupResultMetadata
unfolding at
from_map none = record {
  timeline = "";
  version = "";
  name = "";
  display_name = "";
  cluster_uid = "";
  plugin_name = "";
}
from_map (some m) = record {
  timeline = at "timeline" m;
  version = at "version" m;
  name = at "name" m;
  display_name = at "displayName" m;
  cluster_uid = at "clusterUID" m;
  plugin_name = at "pluginName" m;
}

-- Of a Backup, what the code looks at: `is_completed` and `is_by_plugin` say whether its phase and its
-- method are CloudNativePG's constants for that.
pub record Backup : Type 0 where
  pub namespace : String
  pub name : String
  pub cluster_name : String
  pub is_completed : Bool
  pub is_by_plugin : Bool
  pub plugin_metadata : Option StringMap
  pub backup_id : String

-- `useSameBackupLocation` of internal/cnpgi/instance/retention.go
unfoldable pub use_same_backup_location : Backup → Cluster → Bool
unfolding from_map
use_same_backup_location backup cluster =
    let meta = from_map backup.plugin_metadata in
    if backup.is_by_plugin
    then meta.cluster_uid == cluster.uid && meta.plugin_name == plugin_name
    else false
