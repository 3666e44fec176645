-- ===== src/Lifecycle/Injection/Sidecar.antt =====
-- To reconcile a Pod specification a second time changes nothing.
pub mod Settled
use plugin_barman_cloud.Base.{
  ◌≡◌, refl, ap, subst, ◌∙◌, Bool, true, false, ◌||◌, Option, none, some, List, [], ◌∷◌, ◌++◌,
  String, ◌==◌, ==_refl, string_eq, if◌then◌else◌, arith, Bool-cases, inl, inr,
}
use plugin_barman_cloud.Api.{EnvVar, Cluster}
use plugin_barman_cloud.Lifecycle.PodSpec.{
  VolumeProjection, projected, Volume, Container, PodSpec, ensure_volume, has_volume,
}
use plugin_barman_cloud.Lifecycle.PodSpec.Lists.{
  Kept, has_volume-ensure_volume, ensure_volume-Kept, ensure_other-Kept, ensure_volume_again,
  has_volume-remove_volume, remove_volume_again,
}
use plugin_barman_cloud.Lifecycle.Injection.{
  SidecarConfiguration, barman_certificates_volume_name, main_env, plugin_volume, mount_plugins,
  inject_plugin_volume_pod_spec, take_mounts, replace_sidecar, put_sidecar,
  inject_plugin_sidecar_pod_spec, sidecar_of, certificate_mounts, certificate_volumes,
  reconcile_pod_spec,
}
use plugin_barman_cloud.Lifecycle.Injection.Sidecar.Settled.{
  put_sidecar_again, has_plugins, injected_env, certificate_volumes-IsSettled, injected-IsSettled,
  settled_again,
}

-- What an injection that succeeds has made.
abbrev injected_spec : String → Container → PodSpec → PodSpec
injected_spec name sidecar spec =
    let injected = inject_plugin_volume_pod_spec name spec in
    record {
      containers = injected.containers;
      init_containers =
          put_sidecar
            (record sidecar {
              volume_mounts = (take_mounts name sidecar.volume_mounts injected.containers).0;
            })
            injected.init_containers;
      volumes = injected.volumes;
    }

inject_success :
    (name : String) (sidecar : Container) (spec spec' : PodSpec)
    → inject_plugin_sidecar_pod_spec name sidecar spec ≡ some spec'
    → ((take_mounts name sidecar.volume_mounts
          (inject_plugin_volume_pod_spec name spec).containers).1
        ≡ true)
      × (injected_spec name sidecar spec ≡ spec')
unfolding inject_plugin_sidecar_pod_spec
inject_success name sidecar spec spec' h =
    go
      (take_mounts name sidecar.volume_mounts
        (inject_plugin_volume_pod_spec name spec).containers).1
      h
  where
    go :
        (b : Bool)
        → (if b then some (injected_spec name sidecar spec) else none) ≡ some spec'
        → (b ≡ true) × (injected_spec name sidecar spec ≡ spec')
    go true g = (refl, (cc))
    go false g = absurd (cc)

inject_volume_again :
    (name : String) (spec : PodSpec)
    → has_volume "plugins" spec.volumes ≡ true
    → inject_plugin_volume_pod_spec name spec ≡ spec
unfolding inject_plugin_volume_pod_spec
inject_volume_again name spec there = rw (there) refl

inject_again :
    (name : String) (sidecar : Container) (spec : PodSpec)
    → (take_mounts name sidecar.volume_mounts
        (inject_plugin_volume_pod_spec name spec).containers).1
      ≡ true
    → inject_plugin_sidecar_pod_spec name sidecar (injected_spec name sidecar spec)
      ≡ some (injected_spec name sidecar spec)
unfolding inject_plugin_sidecar_pod_spec
inject_again name sidecar spec found =
    rw (inject_volume_again name (injected_spec name sidecar spec) (has_plugins name spec)) (
      rw (found) (
        ap with_inits
          (put_sidecar_again mounted (inject_plugin_volume_pod_spec name spec).init_containers)))
  where
    mounted : Container
    mounted = record sidecar {
      volume_mounts =
          (take_mounts name sidecar.volume_mounts
            (inject_plugin_volume_pod_spec name spec).containers).0;
    }

    with_inits : List Container → Option PodSpec
    with_inits inits = some (record (injected_spec name sidecar spec) { init_containers = inits })

-- To reconcile a Pod specification again, with the same Cluster and the same configuration of the
-- sidecar, changes nothing: what was made of it the first time is what is made of that.
pub reconcile_pod_spec_again :
    (image : String) (cluster : Cluster) (name : String) (args : List String)
    (config : SidecarConfiguration) (spec spec' : PodSpec)
    → reconcile_pod_spec image cluster name args config spec ≡ some spec'
    → reconcile_pod_spec image cluster name args config spec' ≡ some spec'
unfolding reconcile_pod_spec
reconcile_pod_spec_again image cluster name args config spec spec' h =
    let (found, made) = inject_success name sidecar prepared spec' h in
    subst (λ (s : PodSpec). reconcile_pod_spec image cluster name args config s ≡ some s) made
      (again found)
  where
    prepared : PodSpec
    prepared = record spec { volumes = certificate_volumes config.certificates spec.volumes }

    sidecar_for : List EnvVar → Container
    sidecar_for main = record (sidecar_of image cluster main args config) {
      volume_mounts = certificate_mounts config.certificates [];
    }

    sidecar : Container
    sidecar = sidecar_for (main_env name spec.containers)

    after : PodSpec
    after = injected_spec name sidecar prepared

    same_env : main_env name after.containers ≡ main_env name spec.containers
    same_env = injected_env name prepared

    same_volumes : certificate_volumes config.certificates after.volumes ≡ after.volumes
    same_volumes = settled_again config.certificates after.volumes (
        injected-IsSettled config.certificates name prepared
          (certificate_volumes-IsSettled config.certificates spec.volumes))

    again :
        (take_mounts name sidecar.volume_mounts
            (inject_plugin_volume_pod_spec name prepared).containers).1
          ≡ true
        → reconcile_pod_spec image cluster name args config after ≡ some after
    again found =
        ap
          (λ main.
            inject_plugin_sidecar_pod_spec name (sidecar_for main)
              (record after { volumes = certificate_volumes config.certificates after.volumes }))
          same_env
        ∙ (ap (λ vs. inject_plugin_sidecar_pod_spec name sidecar (record after { volumes = vs }))
              same_volumes
            ∙ inject_again name sidecar prepared found)
