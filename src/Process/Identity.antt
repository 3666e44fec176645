-- ===== src/Process/Identity.antt =====
-- identity.go of internal/cnpgi/operator, internal/cnpgi/instance and internal/cnpgi/restore, and
-- common/health.go: what a process tells of itself.
use plugin_barman_cloud.Base.{Bool, true, false, List, [], ◌∷◌, String}
use plugin_barman_cloud.Api.{plugin_name}
use plugin_barman_cloud.Rbac.Specs.{plugin_version}

-- The services that a process can say that it has.
pub data ServiceType : Type 0 where
  reconciler_hooks lifecycle_service instance_sidecar_injection wal_service backup_service metrics
        restore_job :
      ServiceType

abbrev pub same_service : ServiceType → ServiceType → Bool
same_service reconciler_hooks reconciler_hooks = true
same_service lifecycle_service lifecycle_service = true
same_service instance_sidecar_injection instance_sidecar_injection = true
same_service wal_service wal_service = true
same_service backup_service backup_service = true
same_service metrics metrics = true
same_service restore_job restore_job = true
same_service _ _ = false

pub record PluginMetadata : Type 0 where
  pub name : String
  pub version : String
  pub display_name : String
  pub project_url : String
  pub repository_url : String
  pub license : String
  pub license_url : String
  pub maturity : String

-- `metadata.Data`
abbrev pub plugin_metadata : PluginMetadata
plugin_metadata = record {
  name = plugin_name;
  version = plugin_version;
  display_name = "BarmanCloudInstance";
  project_url = "https://github.com/cloudnative-pg/plugin-barman-cloud";
  repository_url = "https://github.com/cloudnative-pg/plugin-barman-cloud";
  license = "APACHE 2.0";
  license_url = "https://github.com/cloudnative-pg/plugin-barman-cloud/LICENSE";
  maturity = "alpha";
}

-- The answers of an `IdentityServer`: `GetPluginMetadata`, `GetPluginCapabilities` and `Probe`.
pub record IdentityServer : Type 0 where
  pub get_plugin_metadata : PluginMetadata
  pub get_plugin_capabilities : List ServiceType
  pub is_ready : Bool

abbrev pub operator_identity : IdentityServer
operator_identity = record {
  get_plugin_metadata = plugin_metadata;
  get_plugin_capabilities = reconciler_hooks ∷ lifecycle_service ∷ instance_sidecar_injection ∷ [];
  is_ready = true;
}

abbrev pub instance_identity : IdentityServer
instance_identity = record {
  get_plugin_metadata = plugin_metadata;
  get_plugin_capabilities = wal_service ∷ backup_service ∷ metrics ∷ [];
  is_ready = true;
}

abbrev pub restore_identity : IdentityServer
restore_identity = record {
  get_plugin_metadata = plugin_metadata;
  get_plugin_capabilities = restore_job ∷ wal_service ∷ [];
  is_ready = true;
}

-- The statuses of gRPC's health protocol; any other one is a number.
pub data HealthStatus : Type 0 where
  unknown serving not_serving other_status : HealthStatus

-- `Check` of the health server
abbrev pub check : HealthStatus
check = serving
