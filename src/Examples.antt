-- ===== src/Examples.antt =====
-- Small inputs for the tests of the components.
pub mod Equality
pub mod ApiServer
use plugin_barman_cloud.Base.{pos, true, false, none, some, [], ◌∷◌, StringMap}
use plugin_barman_cloud.Api.{
  plugin_name, PluginStanza, ExternalCluster, Cluster, SecretKeySelector, BarmanConfiguration,
  ObjectStore,
}

abbrev pub own_stanza : StringMap → PluginStanza
own_stanza parameters = record {
  name = plugin_name;
  is_enabled = true;
  parameters = some parameters;
}

-- The external cluster "origin", which has the plugin and a streaming connection.
abbrev pub origin : ExternalCluster
origin = record {
  connection_parameters = some (("host", "origin-rw") ∷ []);
  plugin = some (own_stanza (("barmanObjectName", "origin-store") ∷ []));
}

-- A Cluster that is the replica of "origin" and was recovered from it.
abbrev pub replica : Cluster
replica = record {
  namespace = "default";
  name = "pg";
  uid = "42";
  group = "postgresql.cnpg.io";
  version = "v1";
  kind = "Cluster";
  plugins = own_stanza (("barmanObjectName", "store") ∷ ("serverName", "pg-new") ∷ []) ∷ [];
  recovery_source = some "origin";
  replica_cluster = some (record { source = "origin"; is_replica = true });
  external_cluster = λ n. some origin;
  recovery_source_plugin = origin.plugin;
  current_primary = "pg-1";
  is_empty_wal_check_enabled = true;
  image_pull_policy = "Always";
  has_wal_storage = false;
}

abbrev pub access_key : SecretKeySelector
access_key = record { name = "aws"; key = "id" }

abbrev pub s3_configuration : BarmanConfiguration
s3_configuration = record {
  credentials = record {
    aws = some (record {
      access_key_id = some access_key;
      secret_access_key = some access_key;
      region = none;
      session_token = none;
    });
    azure = none;
    google = none;
  };
  endpoint_ca = none;
  endpoint_url = "https://minio:9000";
  destination_path = "s3://backups";
  wal_max_parallel = some 4;
}

abbrev pub store : ObjectStore
store = record {
  namespace = "default";
  name = "store";
  spec = record {
    configuration = s3_configuration;
    retention_policy = "30d";
    instance_sidecar_configuration = record {
      env = [];
      retention_policy_interval_seconds = pos 1800;
      resources = record { requests = []; limits = [] };
      additional_container_args = [];
      log_level = "";
    };
  };
  server_recovery_window = [];
}
