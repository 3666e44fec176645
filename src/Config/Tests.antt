-- ===== src/Config/Tests.antt =====
-- The theorems on internal/cnpgi/operator/config/config.go, on small Clusters.
use mathlib.Core.Option
use plugin_barman_cloud.Base.{◌≡◌, ◌≢◌, refl, map, String, at, contains, All, lookup, string_eq}
use plugin_barman_cloud.Api.{NamespacedName}
use plugin_barman_cloud.Config.{
  new_from_cluster, external_plugin, own_parameters, source_names, get_recovery_parameters,
  get_replica_source_parameters, get_recovery_source_plugin, get_replica_source_plugin,
  get_referred_barman_objects_key,
}
use plugin_barman_cloud.Config.Sources.{given_server_names, last_or, server_name-last}
use plugin_barman_cloud.Config.Referred.{referred_exactly, refers, name_of}
use plugin_barman_cloud.Examples.{replica}

has_recovery : (new_from_cluster replica).recovery_barman_object_name ≢ ""
unfolding new_from_cluster get_recovery_parameters get_recovery_source_plugin external_plugin
    own_parameters get_replica_source_parameters get_replica_source_plugin source_names at lookup
    Option.bind
has_recovery = λ e. cc

has_source : (new_from_cluster replica).replica_source_barman_object_name ≢ ""
unfolding new_from_cluster get_recovery_parameters get_recovery_source_plugin external_plugin
    own_parameters get_replica_source_parameters get_replica_source_plugin source_names at lookup
    Option.bind
has_source = λ e. cc

server_name_example : (new_from_cluster replica).server_name ≡ "pg-new"
unfolding given_server_names last_or Option.bind lookup
server_name_example = server_name-last replica

referred_example :
    All
      (λ (k : NamespacedName). k.namespace ≡ "default")
      (get_referred_barman_objects_key (λ xs. xs) (new_from_cluster replica))
    × ((n : String)
        → contains
            (map name_of (get_referred_barman_objects_key (λ xs. xs) (new_from_cluster replica)))
            n
          ≡ refers (new_from_cluster replica) n)
unfolding new_from_cluster
referred_example = referred_exactly (λ xs. xs) (λ xs x. refl) (new_from_cluster replica)
