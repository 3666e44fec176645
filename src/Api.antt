-- ===== src/Api.antt =====
-- The objects that the plugin reads: api/v1/objectstore_types.go, and of the CloudNativePG and
-- barman-cloud types the fields and the answers of methods that the plugin's code looks at.
use plugin_barman_cloud.Base.{ℤ, ℕ, Bool, Option, List, String, StringMap, string_eq}

-- `metadata.PluginName`
abbrev pub plugin_name : String
plugin_name = "barman-cloud.cloudnative-pg.io"

-- A `types.NamespacedName`.
pub record NamespacedName : Type 0 where
  pub namespace : String
  pub name : String

-- A plugin stanza of a Cluster. `is_enabled` is what `IsEnabled()` answers; a nil map of parameters
-- is `none`.
pub record PluginStanza : Type 0 where
  pub name : String
  pub is_enabled : Bool
  pub parameters : Option StringMap

-- An entry of `externalClusters`.
pub record ExternalCluster : Type 0 where
  pub connection_parameters : Option StringMap
  pub plugin : Option PluginStanza

-- `spec.replica`: its source, and what `IsReplica()` answers where the stanza is there.
pub record ReplicaCluster : Type 0 where
  pub source : String
  pub is_replica : Bool

-- The Cluster. `external_cluster` is what `ExternalCluster(name)` answers,
-- `recovery_source_plugin` what `GetRecoverySourcePlugin()` does, and `is_empty_wal_check_enabled`
-- what `utils.IsEmptyWalArchiveCheckEnabled` says of the annotations. `recovery_source` is `none`
-- where there is no `bootstrap` or no `bootstrap.recovery`.
pub record Cluster : Type 0 where
  pub namespace : String
  pub name : String
  pub uid : String
  pub group : String
  pub version : String
  pub kind : String
  pub plugins : List PluginStanza
  pub recovery_source : Option String
  pub replica_cluster : Option ReplicaCluster
  pub external_cluster : String → Option ExternalCluster
  pub recovery_source_plugin : Option PluginStanza
  pub current_primary : String
  pub is_empty_wal_check_enabled : Bool
  pub image_pull_policy : String
  pub has_wal_storage : Bool

-- A `SecretKeySelector`.
pub record SecretKeySelector : Type 0 where
  pub name : String
  pub key : String

pub record S3Credentials : Type 0 where
  pub access_key_id : Option SecretKeySelector
  pub secret_access_key : Option SecretKeySelector
  pub region : Option SecretKeySelector
  pub session_token : Option SecretKeySelector

pub record AzureCredentials : Type 0 where
  pub use_default_azure_credentials : Bool
  pub inherit_from_azure_ad : Bool
  pub connection_string : Option SecretKeySelector
  pub storage_account : Option SecretKeySelector
  pub storage_key : Option SecretKeySelector
  pub storage_sas_token : Option SecretKeySelector

pub record GoogleCredentials : Type 0 where
  pub application_credentials : Option SecretKeySelector

pub record BarmanCredentials : Type 0 where
  pub aws : Option S3Credentials
  pub azure : Option AzureCredentials
  pub google : Option GoogleCredentials

-- The barman configuration: the credentials and the place. `wal_max_parallel` is `none` where the `wal` stanza is missing; a
-- negative number, which the code treats as 0, is 0.
pub record BarmanConfiguration : Type 0 where
  pub credentials : BarmanCredentials
  pub endpoint_ca : Option SecretKeySelector
  pub endpoint_url : String
  pub destination_path : String
  pub wal_max_parallel : Option ℕ

pub record EnvVar : Type 0 where
  pub name : String
  pub value : String

-- `corev1.ResourceRequirements`: requests and limits, by the name of the resource.
pub record ResourceRequirements : Type 0 where
  pub requests : StringMap
  pub limits : StringMap

-- `InstanceSidecarConfiguration`
pub record InstanceSidecarConfiguration : Type 0 where
  pub env : List EnvVar
  pub retention_policy_interval_seconds : ℤ
  pub resources : ResourceRequirements
  pub additional_container_args : List String
  pub log_level : String

pub record ObjectStoreSpec : Type 0 where
  pub configuration : BarmanConfiguration
  pub retention_policy : String
  pub instance_sidecar_configuration : InstanceSidecarConfiguration

-- `RecoveryWindow`; a time is its Unix time.
pub record RecoveryWindow : Type 0 where
  pub first_recoverability_point : Option ℕ
  pub last_successful_backup_time : Option ℕ
  pub last_failed_backup_time : Option ℕ

-- `ObjectStore`: its metadata, its spec, and the map of its status.
pub record ObjectStore : Type 0 where
  pub namespace : String
  pub name : String
  pub spec : ObjectStoreSpec
  pub server_recovery_window : List (String × RecoveryWindow)
