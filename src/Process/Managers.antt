-- ===== src/Process/Managers.antt =====
-- manager.go of internal/cnpgi/operator, internal/cnpgi/instance and internal/cnpgi/restore, and
-- SetupWithManager of internal/controller: the manager of each process.
use plugin_barman_cloud.Base.{Bool, true, false, List, [], ◌∷◌, String, join_path, if◌then◌else◌}
use plugin_barman_cloud.Base.Exec.{Exec, wrapping, ◌>>=◌, ◌>>◌}
use plugin_barman_cloud.Api.{NamespacedName}
use plugin_barman_cloud.Cache.{Kind, secret, object_store, other}
use plugin_barman_cloud.Process.{Settings}
use plugin_barman_cloud.Process.Scheme.{Scheme, SchemeCalls, generate_scheme, operator_scheme}
use plugin_barman_cloud.Process.Servers.{
  Client, manager_client, extended_client, OperatorCnpgi, InstanceCnpgi, RestoreCnpgi,
}

-- A `tls.Config`: its `NextProtos`.
pub record TlsConfig : Type 0 where
  pub next_protos : List String

-- `metricsserver.Options`; the filter provider is there, or it is nil.
pub record MetricsOptions : Type 0 where
  pub bind_address : String
  pub secure_serving : Bool
  pub tls_opts : List (TlsConfig → TlsConfig)
  pub has_filter_provider : Bool

-- The fields of `ctrl.Options` that some process sets. `disable_for` are the kinds that are not read
-- through the cache of the manager, and `webhook_tls_opts` the options of the webhook server.
pub record ManagerOptions : Type 0 where
  pub scheme : Scheme
  pub disable_for : List Kind
  pub pprof_bind_address : String
  pub metrics : MetricsOptions
  pub webhook_tls_opts : List (TlsConfig → TlsConfig)
  pub health_probe_bind_address : String
  pub leader_election : Bool
  pub leader_election_id : String
  pub leader_election_release_on_cancel : Bool

-- `CatalogMaintenanceRunnable`, without its recorder.
pub record CatalogMaintenanceRunnable (K : Type 0) : Type 0 where
  pub client : Client K
  pub cluster_key : NamespacedName
  pub current_pod_name : String

-- What a manager runs.
pub data Runnable (K : Type 0) : Type 0 where
  operator_cnpgi : OperatorCnpgi K → Runnable K
  instance_cnpgi : InstanceCnpgi K → Runnable K
  restore_cnpgi : RestoreCnpgi K → Runnable K
  catalog_maintenance : CatalogMaintenanceRunnable K → Runnable K

-- The errors of a command: those of controller-runtime, plain or under a message, and a setting
-- that is missing.
pub data CommandError (E : Type 0) : Type 0 where
  external : E → CommandError E
  unable_to_create_controller : E → CommandError E
  missing_setting : String → CommandError E
  missing_sidecar_image : CommandError E

-- controller-runtime, with managers of type `M` and their clients of type `K`.
-- `complete_controller` makes the controller of the ObjectStores whose generation changed.
pub record ManagerCalls (W E M K : Type 0) : Type 0 where
  pub scheme_calls : SchemeCalls
  pub new_manager : ManagerOptions → Exec W E M
  pub get_client : M → K
  pub complete_controller : M → Exec W E (Unit {0})
  pub add_healthz_check : M → String → Exec W E (Unit {0})
  pub add_readyz_check : M → String → Exec W E (Unit {0})
  pub add : M → Runnable K → Exec W E (Unit {0})
  pub start : M → Exec W E (Unit {0})

-- `disableHTTP2`
abbrev pub disable_http2 : TlsConfig → TlsConfig
disable_http2 c = record { next_protos = "http/1.1" ∷ [] }

unfoldable pub tls_opts : Settings → List (TlsConfig → TlsConfig)
tls_opts settings = if settings.get_bool "enable-http2" then [] else disable_http2 ∷ []

-- The zero value, which the sidecars leave to controller-runtime.
abbrev pub zero_metrics : MetricsOptions
zero_metrics = record {
  bind_address = "";
  secure_serving = false;
  tls_opts = [];
  has_filter_provider = false;
}

-- The kinds that the clients of the sidecars read past the cache of their manager.
abbrev pub instance_disable_for : List Kind
instance_disable_for = secret ∷ object_store ∷ other "Cluster" ∷ other "Backup" ∷ []

abbrev pub restore_disable_for : List Kind
restore_disable_for = secret ∷ object_store ∷ []

module _ (scheme_calls : SchemeCalls) where
  unfoldable pub operator_options : Settings → ManagerOptions
  unfolding tls_opts operator_scheme
  operator_options settings = record {
    scheme = operator_scheme scheme_calls;
    disable_for = [];
    pprof_bind_address = "";
    metrics = record {
      bind_address = settings.get_string "metrics-bind-address";
      secure_serving = settings.get_bool "metrics-secure";
      tls_opts = tls_opts settings;
      has_filter_provider = if settings.get_bool "metrics-secure" then true else false;
    };
    webhook_tls_opts = tls_opts settings;
    health_probe_bind_address = settings.get_string "health-probe-bind-address";
    leader_election = settings.get_bool "leader-elect";
    leader_election_id = "822e3f5c.cnpg.io";
    leader_election_release_on_cancel = true;
  }

  abbrev pub sidecar_options : Settings → String → List Kind → ManagerOptions
  unfolding generate_scheme
  sidecar_options settings pprof_bind_address disable_for = record {
    scheme = generate_scheme scheme_calls settings;
    disable_for = disable_for;
    pprof_bind_address = pprof_bind_address;
    metrics = zero_metrics;
    webhook_tls_opts = [];
    health_probe_bind_address = "";
    leader_election = false;
    leader_election_id = "";
    leader_election_release_on_cancel = false;
  }

  unfoldable pub instance_options : Settings → ManagerOptions
  instance_options settings =
      sidecar_options settings (settings.get_string "pprof-server") instance_disable_for

  unfoldable pub restore_options : Settings → ManagerOptions
  restore_options settings = sidecar_options settings "" restore_disable_for

-- The servers, from the settings and the client.
module _ {K : Type 0} where
  unfoldable pub operator_of : Settings → K → OperatorCnpgi K
  operator_of settings client = record {
    client = manager_client client;
    plugin_path = settings.get_string "plugin-path";
    server_cert_path = settings.get_string "server-cert";
    server_key_path = settings.get_string "server-key";
    client_cert_path = settings.get_string "client-cert";
    server_address = settings.get_string "server-address";
  }

  unfoldable pub instance_of : Settings → K → InstanceCnpgi K
  instance_of settings client = record {
    client = extended_client client;
    instance_name = settings.get_string "pod-name";
    pg_data_path = settings.get_string "pgdata";
    pg_wal_path = join_path (settings.get_string "pgdata") "pg_wal";
    spool_directory = settings.get_string "spool-directory";
    plugin_path = settings.get_string "plugin-path";
  }

  unfoldable pub maintenance_of : Settings → K → CatalogMaintenanceRunnable K
  maintenance_of settings client = record {
    client = extended_client client;
    cluster_key = record {
      namespace = settings.get_string "namespace";
      name = settings.get_string "cluster-name";
    };
    current_pod_name = settings.get_string "pod-name";
  }

  unfoldable pub restore_of : Settings → K → RestoreCnpgi K
  restore_of settings client = record {
    plugin_path = settings.get_string "plugin-path";
    spool_directory = settings.get_string "spool-directory";
    client = manager_client client;
    pg_data_path = settings.get_string "pgdata";
    instance_name = settings.get_string "pod-name";
  }

-- `Start` of the three packages.
module _ {W E M K : Type 0} (calls : ManagerCalls W E M K) (settings : Settings) where
  -- `SetupWithManager`
  unfoldable pub setup_with_manager : M → Exec W (CommandError E) (Unit {0})
  setup_with_manager mgr = wrapping unable_to_create_controller (calls.complete_controller mgr)

  unfoldable pub start_operator : Exec W (CommandError E) (Unit {0})
  unfolding operator_options setup_with_manager operator_of
  start_operator =
      wrapping external (calls.new_manager (operator_options calls.scheme_calls settings))
      >>= λ mgr.
          setup_with_manager mgr
          >> wrapping external (calls.add_healthz_check mgr "healthz")
          >> wrapping external (calls.add_readyz_check mgr "readyz")
          >> wrapping external
              (calls.add mgr (operator_cnpgi (operator_of settings (calls.get_client mgr))))
          >> wrapping external (calls.start mgr)

  unfoldable pub start_instance : Exec W (CommandError E) (Unit {0})
  unfolding instance_options instance_of maintenance_of
  start_instance =
      wrapping external (calls.new_manager (instance_options calls.scheme_calls settings))
      >>= λ mgr.
          wrapping external
            (calls.add mgr (instance_cnpgi (instance_of settings (calls.get_client mgr))))
          >> wrapping external
              (calls.add mgr (catalog_maintenance (maintenance_of settings (calls.get_client mgr))))
          >> wrapping external (calls.start mgr)

  unfoldable pub start_restore : Exec W (CommandError E) (Unit {0})
  unfolding restore_options restore_of
  start_restore =
      wrapping external (calls.new_manager (restore_options calls.scheme_calls settings)) >>= λ mgr.
      wrapping external (calls.add mgr (restore_cnpgi (restore_of settings (calls.get_client mgr))))
      >> wrapping external (calls.start mgr)
