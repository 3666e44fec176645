-- ===== src/Lifecycle/Collect/Tests.antt =====
-- The settings of the sidecar of a Cluster that has three object stores.
use plugin_barman_cloud.Base.{List, [], ◌∷◌, String}
use plugin_barman_cloud.Base.Exec.{Exec, pure}
use plugin_barman_cloud.Api.{NamespacedName, ObjectStore}
use plugin_barman_cloud.Config.{new_from_cluster, referred_names}
use plugin_barman_cloud.Lifecycle.Collect.{
  collect_sidecar_resources_for_pod, collect_additional_instance_args,
}
use plugin_barman_cloud.Lifecycle.Collect.Precedence.{FromFirst, pod_settings-FromFirst}
use plugin_barman_cloud.Examples.{replica, store}

-- The world: the keys that were asked for.
abbrev get_store : NamespacedName → Exec (List NamespacedName) String ObjectStore
get_store key w = pure store (key ∷ w)

pod_settings_example :
    FromFirst get_store
      (λ key e. e)
      "default"
      (referred_names (new_from_cluster replica))
      (collect_sidecar_resources_for_pod get_store (new_from_cluster replica) [])
      (collect_additional_instance_args get_store (λ key e. e) (new_from_cluster replica) [])
      []
unfolding new_from_cluster
pod_settings_example = pod_settings-FromFirst get_store (λ key e. e) (new_from_cluster replica) []
