-- ===== src/Process/Servers.antt =====
-- start.go of internal/cnpgi/operator, internal/cnpgi/instance and internal/cnpgi/restore: the
-- servers of each process.
use plugin_barman_cloud.Base.{List, [], ◌∷◌, ◌++◌, String, join_path}
use plugin_barman_cloud.Base.Exec.{Result, ok}
use plugin_barman_cloud.RestoreJob.Calls.{JobHookImpl}
use plugin_barman_cloud.Process.Identity.{
  IdentityServer, operator_identity, instance_identity, restore_identity,
}

-- A client: the manager's, of type `K`, or the one that `NewExtendedClient` makes of it.
pub data Client (K : Type 0) : Type 0 where
  manager_client : K → Client K
  extended_client : K → Client K

pub record WalServiceImplementation (K : Type 0) : Type 0 where
  pub client : Client K
  pub instance_name : String
  pub spool_directory : String
  pub pg_data_path : String
  pub pg_wal_path : String

-- What is registered at a `grpc.Server`: the implementation of a service, with its fields.
pub data Registered (K : Type 0) : Type 0 where
  reconciler_server lifecycle_server metrics_server : Client K → Registered K
  wal_server : WalServiceImplementation K → Registered K
  backup_server : Client K → String → Registered K
  restore_job_server : Client K → JobHookImpl → Registered K
  health_server : Registered K

abbrev pub GrpcServer : Type 0 → Type 0
GrpcServer K = List (Registered K)

-- The `http.Server` of the machinery.
pub record HttpServer (E K : Type 0) : Type 0 where
  pub identity_impl : IdentityServer
  pub enrichers : List (GrpcServer K → Result E (GrpcServer K))
  pub plugin_path : String
  pub server_cert_path : String
  pub server_key_path : String
  pub client_cert_path : String
  pub server_address : String

-- `CNPGI` of the three packages.
pub record OperatorCnpgi (K : Type 0) : Type 0 where
  pub client : Client K
  pub plugin_path : String
  pub server_cert_path : String
  pub server_key_path : String
  pub client_cert_path : String
  pub server_address : String

pub record InstanceCnpgi (K : Type 0) : Type 0 where
  pub client : Client K
  pub pg_data_path : String
  pub pg_wal_path : String
  pub spool_directory : String
  pub plugin_path : String
  pub instance_name : String

pub record RestoreCnpgi (K : Type 0) : Type 0 where
  pub plugin_path : String
  pub spool_directory : String
  pub client : Client K
  pub pg_data_path : String
  pub instance_name : String

-- `PgWalVolumePgWalPath`
abbrev pub pg_wal_volume_pg_wal_path : String
pg_wal_volume_pg_wal_path = "/var/lib/postgresql/wal/pg_wal"

module _ {K : Type 0} where
  -- `AddHealthCheck`
  unfoldable pub add_health_check : GrpcServer K → GrpcServer K
  add_health_check server = server ++ health_server ∷ []

  -- The `enrich` functions.
  unfoldable pub enrich_operator : OperatorCnpgi K → GrpcServer K → GrpcServer K
  enrich_operator c server = server ++ reconciler_server c.client ∷ lifecycle_server c.client ∷ []

  unfoldable pub enrich_instance : InstanceCnpgi K → GrpcServer K → GrpcServer K
  unfolding add_health_check
  enrich_instance c server = add_health_check (
      server
      ++ wal_server (record {
        client = c.client;
        instance_name = c.instance_name;
        spool_directory = c.spool_directory;
        pg_data_path = c.pg_data_path;
        pg_wal_path = c.pg_wal_path;
      })
        ∷ backup_server c.client c.instance_name
        ∷ metrics_server c.client
        ∷ [])

  unfoldable pub enrich_restore : RestoreCnpgi K → GrpcServer K → GrpcServer K
  unfolding add_health_check
  enrich_restore c server = add_health_check (
      server
      ++ wal_server (record {
        client = c.client;
        instance_name = c.instance_name;
        spool_directory = c.spool_directory;
        pg_data_path = c.pg_data_path;
        pg_wal_path = join_path c.pg_data_path "pg_wal";
      })
        ∷ restore_job_server c.client (record {
          spool_directory = c.spool_directory;
          pg_data_path = c.pg_data_path;
          pg_wal_folder_to_symlink = pg_wal_volume_pg_wal_path;
        })
        ∷ [])

  -- What `Start` gives to `http.Server.Start`; a field that is not set is empty.
  unfoldable pub operator_server : {E : Type 0} → OperatorCnpgi K → HttpServer E K
  unfolding enrich_operator
  operator_server c = record {
    identity_impl = operator_identity;
    enrichers = (λ server. ok (enrich_operator c server)) ∷ [];
    plugin_path = c.plugin_path;
    server_cert_path = c.server_cert_path;
    server_key_path = c.server_key_path;
    client_cert_path = c.client_cert_path;
    server_address = c.server_address;
  }

  abbrev pub sidecar_server :
      {E : Type 0} → IdentityServer → (GrpcServer K → GrpcServer K) → String → HttpServer E K
  sidecar_server identity enrich plugin_path = record {
    identity_impl = identity;
    enrichers = (λ server. ok (enrich server)) ∷ [];
    plugin_path = plugin_path;
    server_cert_path = "";
    server_key_path = "";
    client_cert_path = "";
    server_address = "";
  }

  unfoldable pub instance_server : {E : Type 0} → InstanceCnpgi K → HttpServer E K
  unfolding enrich_instance
  instance_server c = sidecar_server instance_identity (enrich_instance c) c.plugin_path

  unfoldable pub restore_server : {E : Type 0} → RestoreCnpgi K → HttpServer E K
  unfolding enrich_restore
  restore_server c = sidecar_server restore_identity (enrich_restore c) c.plugin_path
