-- ===== src/Instance/Metrics.antt =====
-- internal/cnpgi/instance/metrics.go: the recovery window as metrics.
pub mod Windows
use Prim.Native.Char.{code}
use Prim.Native.String
use plugin_barman_cloud.Base.{
  ℕ, Bool, ◌||◌, Option, none, some, List, [], ◌∷◌, String, lookup, ◌==◌, nat_eq, if◌then◌else◌,
}
use plugin_barman_cloud.Base.Exec.{Result, Exec, pure, lift, wrapping, wrap_result, ◌>>=◌}
use plugin_barman_cloud.Api.{plugin_name, NamespacedName, Cluster, RecoveryWindow, ObjectStore}
use plugin_barman_cloud.Config.{PluginConfiguration, new_from_cluster_json, get_barman_object_key}

-- `strings.NewReplacer(".", "_", "-", "_").Replace`
abbrev pub sanitize : String → String
sanitize String.[] = ""
sanitize (String.◌∷◌ c s) =
    let rest = sanitize s in
    if code c == b'.' || code c == b'-' then String.◌++◌ "_" rest else String.◌∷◌ c rest

-- `buildFqName`, under `metricsDomain`.
abbrev pub build_fq_name : String → String
build_fq_name name = String.◌++◌ (sanitize plugin_name) (String.◌++◌ "_" (sanitize name))

-- A metric that is defined; all are gauges.
pub record Metric : Type 0 where
  pub fq_name : String
  pub help : String

-- A value of a metric. (The code makes a float64 of the Unix time.)
pub record CollectMetric : Type 0 where
  pub fq_name : String
  pub value : ℕ

abbrev pub first_recoverability_point_metric_name : String
first_recoverability_point_metric_name = build_fq_name "first_recoverability_point"

abbrev pub last_available_backup_timestamp_metric_name : String
last_available_backup_timestamp_metric_name = build_fq_name "last_available_backup_timestamp"

abbrev pub last_failed_backup_timestamp_metric_name : String
last_failed_backup_timestamp_metric_name = build_fq_name "last_failed_backup_timestamp"

-- `Define`
unfoldable pub define : List Metric
define =
    record {
      fq_name = first_recoverability_point_metric_name;
      help = "The first point of recoverability for the cluster as a unix timestamp";
    }
    ∷ record {
      fq_name = last_available_backup_timestamp_metric_name;
      help = "The last available backup as a unix timestamp";
    }
    ∷ record {
      fq_name = last_failed_backup_timestamp_metric_name;
      help = "The last failed backup as a unix timestamp";
    }
    ∷ []

-- The three values.
abbrev pub metrics_of : ℕ → ℕ → ℕ → List CollectMetric
metrics_of first last_available last_failed =
    record { fq_name = first_recoverability_point_metric_name; value = first }
    ∷ record { fq_name = last_available_backup_timestamp_metric_name; value = last_available }
    ∷ record { fq_name = last_failed_backup_timestamp_metric_name; value = last_failed }
    ∷ []

-- The Unix time of a time that may be nil.
abbrev pub unix_or_zero : Option ℕ → ℕ
unix_or_zero none = 0
unix_or_zero (some time) = time

-- What `Collect` makes of the window of a server, which may be missing.
unfoldable pub window_metrics : Option RecoveryWindow → List CollectMetric
window_metrics none = metrics_of 0 0 0
window_metrics (some x) =
    metrics_of (unix_or_zero x.first_recoverability_point)
      (unix_or_zero x.last_successful_backup_time) (unix_or_zero x.last_failed_backup_time)

-- `Collect` from the ObjectStore on.
unfoldable pub collect_from : ObjectStore → String → List CollectMetric
unfolding window_metrics lookup
collect_from store server = window_metrics (lookup server store.server_recovery_window)

-- The errors of `Collect`.
pub data CollectError (E : Type 0) : Type 0 where
  external : E → CollectError E
  while_creating_configuration : E → CollectError E

-- `Collect`, over the client and the decoder of a Cluster.
unfoldable pub collect :
    {W E J : Type 0}
    → (NamespacedName → Exec W E ObjectStore)
    → (J → Result E Cluster)
    → J
    → Exec W (CollectError E) (List CollectMetric)
unfolding collect_from new_from_cluster_json get_barman_object_key
collect get_object_store decode cluster_definition =
    lift
      (wrap_result while_creating_configuration (new_from_cluster_json decode cluster_definition))
    >>= λ c. wrapping external (get_object_store (get_barman_object_key c)) >>= λ store.
        pure (collect_from store c.server_name)
