-- ===== src/Lifecycle/Injection/Tests.antt =====
-- The sidecar of a small Pod.
use plugin_barman_cloud.Base.{◌≡◌, refl, map, List, some, [], ◌∷◌, false}
use plugin_barman_cloud.Lifecycle.PodSpec.{VolumeMount, Container, PodSpec, projected, has_volume}
use plugin_barman_cloud.Lifecycle.Injection.{
  SidecarConfiguration, reconcile_pod_spec, sidecar_of, main_env, plugin_mount, plugin_volume,
  certificates_mount, barman_certificates_volume_name,
}
use plugin_barman_cloud.Lifecycle.Injection.Put.{others, IsPut}
use plugin_barman_cloud.Lifecycle.Injection.Effect.{
  bare, ArePlugged, HasVolumes, AreTaken, reconcile_pod_spec-effect,
}
use plugin_barman_cloud.Examples.{replica}

abbrev postgres : Container
postgres = record {
  name = "postgres";
  image = "postgresql";
  image_pull_policy = "Always";
  args = [];
  env = [];
  resources = record { requests = []; limits = [] };
  volume_mounts = record { name = "pgdata"; mount_path = "/pgdata" } ∷ [];
  is_plugin_template = false;
}

abbrev pub pod : PodSpec
pod = record { containers = postgres ∷ []; init_containers = []; volumes = [] }

abbrev pub configuration : SidecarConfiguration
configuration = record {
  env = [];
  certificates = record { secret_name = "ca"; key = "ca.crt"; path = "store/barman-ca.crt" } ∷ [];
  resources = record { requests = []; limits = [] };
  additional_args = [];
}

-- The Pod with the sidecar.
unfoldable pub reconciled : PodSpec
unfolding sidecar_of
reconciled = record {
  containers =
      record postgres {
        volume_mounts = record { name = "pgdata"; mount_path = "/pgdata" } ∷ plugin_mount ∷ [];
      }
      ∷ [];
  init_containers =
      record (sidecar_of "sidecar" replica [] ("instance" ∷ []) configuration) {
        volume_mounts =
            certificates_mount
            ∷ record { name = "pgdata"; mount_path = "/pgdata" }
            ∷ plugin_mount
            ∷ [];
      }
      ∷ [];
  volumes =
      record {
        name = barman_certificates_volume_name;
        source = projected configuration.certificates;
      }
      ∷ plugin_volume
      ∷ [];
}

pub is_reconciled :
    reconcile_pod_spec "sidecar" replica "postgres" ("instance" ∷ []) configuration pod
    ≡ some reconciled
unfolding reconciled reconcile_pod_spec
is_reconciled = refl

reconcile_pod_spec-effect_example :
    (others "postgres" reconciled.containers ≡ others "postgres" pod.containers)
    × (map bare reconciled.containers ≡ map bare pod.containers)
    × ArePlugged (has_volume "plugins" pod.volumes) "postgres" reconciled.containers
    × HasVolumes configuration.certificates pod.volumes reconciled.volumes
    × ((mounts : List VolumeMount) × AreTaken configuration.certificates "postgres"
          reconciled.containers mounts
        × IsPut
            (record (sidecar_of "sidecar" replica
              (main_env "postgres" pod.containers)
              ("instance" ∷ [])
              configuration) { volume_mounts = mounts })
            pod.init_containers
            reconciled.init_containers)
reconcile_pod_spec-effect_example =
    reconcile_pod_spec-effect "sidecar" replica "postgres" ("instance" ∷ []) configuration pod
      reconciled is_reconciled
