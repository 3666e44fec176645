-- ===== src/Lifecycle/Injection/Effect.antt =====
-- What the injection leaves of a Pod specification, and what it puts in.
use plugin_barman_cloud.Base.{
  ◌≡◌, refl, ap, subst, ◌∙◌, Bool, true, false, none, some, List, [], ◌∷◌, ◌++◌, map, String, ◌==◌,
  string_eq, if◌then◌else◌, Bool-cases, inl, inr, All,
}
use plugin_barman_cloud.Api.{Cluster}
use plugin_barman_cloud.Lifecycle.PodSpec.{
  VolumeProjection, Volume, VolumeMount, Container, PodSpec, has_volume, ensure_volume_mount,
}
use plugin_barman_cloud.Lifecycle.PodSpec.Lists.{has_volume-ensure_volume}
use plugin_barman_cloud.Lifecycle.Injection.Put.{others, named, IsPut, put_sidecar-IsPut}
use plugin_barman_cloud.Lifecycle.Injection.Volumes.{
  volumes_besides, is_owned, HasCertificates, besides-ensure_volume, besides-certificate_volumes,
  certificate_volumes-HasCertificates, plugins-HasCertificates, plugins-certificate_volumes,
}
use plugin_barman_cloud.Lifecycle.Injection.Mounts.{
  mount_of, last_mount, mounts_besides, mounts_in, given_mounts, mount_of-ensure_mount,
  sidecar_mount, besides-ensure_mount,
}
use plugin_barman_cloud.Lifecycle.Injection.{
  SidecarConfiguration, main_env, mount_plugins, inject_plugin_volume_pod_spec, take_mounts,
  put_sidecar, inject_plugin_sidecar_pod_spec, sidecar_of, certificate_mounts, certificate_volumes,
  reconcile_pod_spec, plugin_mount, plugin_volume,
}

-- A container without the mount of the plugins.
abbrev pub bare : Container → Container
bare c = record c { volume_mounts = mounts_besides "plugins" c.volume_mounts }

bare-mount_plugins :
    (name : String) (cs : List Container) → map bare (mount_plugins name cs) ≡ map bare cs
unfolding mount_plugins ensure_volume_mount
bare-mount_plugins name [] = refl
bare-mount_plugins name (c ∷ cs) = elim (Bool-cases (c.name == name)) [
  | inl t ↦ rw (t) (
      ap (λ ms. record c { volume_mounts = ms } ∷ map bare (mount_plugins name cs))
        (besides-ensure_mount c.volume_mounts plugin_mount)
      ∙ ap (λ rest. bare c ∷ rest) (bare-mount_plugins name cs))
  | inr t ↦ rw (t) (ap (λ rest. bare c ∷ rest) (bare-mount_plugins name cs))
]

others-mount_plugins :
    (name : String) (cs : List Container) → others name (mount_plugins name cs) ≡ others name cs
unfolding mount_plugins
others-mount_plugins name [] = refl
others-mount_plugins name (c ∷ cs) = elim (Bool-cases (c.name == name)) [
  | inl t ↦ rw (t) (rw (t) (others-mount_plugins name cs))
  | inr t ↦ rw (t) (rw (t) (ap (λ rest. c ∷ rest) (others-mount_plugins name cs)))
]

-- The main containers have the mount of the plugins, unless the Pod had that volume already.
abbrev pub ArePlugged : Bool → String → List Container → Type 0
ArePlugged true name cs = Unit
ArePlugged false name cs =
    All (λ (c : Container). mount_of "plugins" c.volume_mounts ≡ some plugin_mount) (named name cs)

mount_plugins-ArePlugged :
    (name : String) (cs : List Container) → ArePlugged false name (mount_plugins name cs)
unfolding mount_plugins ensure_volume_mount
mount_plugins-ArePlugged name [] = tt
mount_plugins-ArePlugged name (c ∷ cs) = elim (Bool-cases (c.name == name)) [
  | inl t ↦ rw (t) (
      rw (t) (
        mount_of-ensure_mount "plugins" c.volume_mounts plugin_mount,
        mount_plugins-ArePlugged name cs,
      ))
  | inr t ↦ rw (t) (rw (t) (mount_plugins-ArePlugged name cs))
]

-- The volume of the plugins changes no init container.
kept_inits :
    (name : String) (spec : PodSpec)
    → (inject_plugin_volume_pod_spec name spec).init_containers ≡ spec.init_containers
unfolding inject_plugin_volume_pod_spec
kept_inits name spec = elim (Bool-cases (has_volume "plugins" spec.volumes)) [
  | inl t ↦ rw (t) refl
  | inr t ↦ rw (t) refl
]

kept_containers :
    (name : String) (spec : PodSpec)
    → map bare (inject_plugin_volume_pod_spec name spec).containers ≡ map bare spec.containers
unfolding inject_plugin_volume_pod_spec
kept_containers name spec = elim (Bool-cases (has_volume "plugins" spec.volumes)) [
  | inl t ↦ rw (t) refl
  | inr t ↦ rw (t) (bare-mount_plugins name spec.containers)
]

kept_others :
    (name : String) (spec : PodSpec)
    → others name (inject_plugin_volume_pod_spec name spec).containers ≡ others name spec.containers
unfolding inject_plugin_volume_pod_spec
kept_others name spec = elim (Bool-cases (has_volume "plugins" spec.volumes)) [
  | inl t ↦ rw (t) refl
  | inr t ↦ rw (t) (others-mount_plugins name spec.containers)
]

injected-ArePlugged :
    (name : String) (spec : PodSpec)
    → ArePlugged
        (has_volume "plugins" spec.volumes)
        name
        (inject_plugin_volume_pod_spec name spec).containers
unfolding inject_plugin_volume_pod_spec
injected-ArePlugged name spec = elim (Bool-cases (has_volume "plugins" spec.volumes)) [
  | inl t ↦ rw (t) tt
  | inr t ↦ rw (t) (mount_plugins-ArePlugged name spec.containers)
]

-- The volumes of an injection: those of other names are kept, there is one for the plugins, and one
-- for the certificates where there are certificates.
abbrev pub HasVolumes : List VolumeProjection → List Volume → List Volume → Type 0
HasVolumes certificates vs vs' =
    (volumes_besides is_owned vs' ≡ volumes_besides is_owned vs)
    × (has_volume "plugins" vs' ≡ true)
    × HasCertificates certificates vs'

injected-HasVolumes :
    (name : String) (certificates : List VolumeProjection) (spec : PodSpec)
    → HasVolumes certificates spec.volumes
        (inject_plugin_volume_pod_spec name
          (record spec { volumes = certificate_volumes certificates spec.volumes })).volumes
unfolding inject_plugin_volume_pod_spec
injected-HasVolumes name certificates spec =
    elim (Bool-cases (has_volume "plugins" (certificate_volumes certificates spec.volumes))) [
      | inl t ↦ rw (t) (
        besides-certificate_volumes certificates spec.volumes,
        t,
        certificate_volumes-HasCertificates certificates spec.volumes,
      )
      | inr t ↦ rw (t) (
        besides-ensure_volume is_owned plugin_volume (certificate_volumes certificates spec.volumes)
              refl
            ∙ besides-certificate_volumes certificates spec.volumes,
        has_volume-ensure_volume "plugins" (certificate_volumes certificates spec.volumes)
              plugin_volume
            ∙ rw (t) refl,
        plugins-HasCertificates certificates spec.volumes,
      )
    ]

-- The sidecar with mounts: under each name the one that the last main container with a mount of that
-- name has, or else that of the certificates, where there are some, and no other name.
abbrev pub AreTaken : List VolumeProjection → String → List Container → List VolumeMount → Type 0
AreTaken certificates name cs mounts =
    (n : String)
    → mount_of n mounts ≡ last_mount n none (given_mounts certificates ++ mounts_in name cs)

-- What an injection that succeeds makes of a Pod specification.
-- Containers: those that are not of the main container's name are as they were, and so are the main
-- ones but for a mount named `plugins`, which they have if the Pod had no volume of that name.
-- Volumes: those of all names but `plugins` and that of the certificates are as they were, there is
-- one named `plugins`, and the one of the certificates is there, and projects them, exactly where
-- there are certificates. Init containers: those of another name than the sidecar's are as they were
-- and in their order, and there are some of its name, each of which is the sidecar that is made for
-- the Cluster, the configuration and the environment of the main container. The first mount that it has
-- of a name is the last one that the main containers have of it, or else that of the certificates
-- where there are certificates, and of any other name it has none.
pub reconcile_pod_spec-effect :
    (image : String) (cluster : Cluster) (name : String) (args : List String)
    (config : SidecarConfiguration) (spec spec' : PodSpec)
    → reconcile_pod_spec image cluster name args config spec ≡ some spec'
    → (others name spec'.containers ≡ others name spec.containers)
      × (map bare spec'.containers ≡ map bare spec.containers)
      × ArePlugged (has_volume "plugins" spec.volumes) name spec'.containers
      × HasVolumes config.certificates spec.volumes spec'.volumes
      × ((mounts : List VolumeMount) × AreTaken config.certificates name spec'.containers mounts
          × IsPut
              (record (sidecar_of image cluster (main_env name spec.containers) args config) {
                volume_mounts = mounts;
              })
              spec.init_containers
              spec'.init_containers)
unfolding reconcile_pod_spec inject_plugin_sidecar_pod_spec
reconcile_pod_spec-effect image cluster name args config spec spec' h = go taken.1 h
  where
    prepared : PodSpec
    prepared = record spec { volumes = certificate_volumes config.certificates spec.volumes }

    injected : PodSpec
    injected = inject_plugin_volume_pod_spec name prepared

    sidecar : Container
    sidecar = sidecar_of image cluster (main_env name spec.containers) args config

    taken : List VolumeMount × Bool
    taken = take_mounts name (certificate_mounts config.certificates []) injected.containers

    mounted : Container
    mounted = record sidecar { volume_mounts = taken.0 }

    made : PodSpec
    made = record injected { init_containers = put_sidecar mounted injected.init_containers }

    Effect : PodSpec → Type 0
    Effect s =
        (others name s.containers ≡ others name spec.containers)
        × (map bare s.containers ≡ map bare spec.containers)
        × ArePlugged (has_volume "plugins" spec.volumes) name s.containers
        × HasVolumes config.certificates spec.volumes s.volumes
        × ((mounts : List VolumeMount) × AreTaken config.certificates name s.containers mounts
            × IsPut (record sidecar { volume_mounts = mounts }) spec.init_containers
                s.init_containers)

    plugged : ArePlugged (has_volume "plugins" spec.volumes) name injected.containers
    plugged =
        subst (λ (b : Bool). ArePlugged b name injected.containers)
          (plugins-certificate_volumes config.certificates spec.volumes)
          (injected-ArePlugged name prepared)

    go : (b : Bool) → (if b then some made else none) ≡ some spec' → Effect spec'
    go true e =
        let same : made ≡ spec' = (cc) in
        subst Effect same (
          kept_others name prepared,
          kept_containers name prepared,
          plugged,
          injected-HasVolumes name config.certificates spec,
          (
            taken.0,
            (λ n. sidecar_mount n name config.certificates injected.containers),
            subst
                (λ (cs : List Container).
                  IsPut mounted cs (put_sidecar mounted injected.init_containers))
                (kept_inits name prepared) (put_sidecar-IsPut mounted injected.init_containers),
          ),
        )
    go false e = absurd (cc)
