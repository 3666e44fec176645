-- ===== src/Lifecycle/Injection.antt =====
-- internal/cnpgi/operator/lifecycle.go: the injection of the sidecar into a Pod specification.
pub mod Sidecar
pub mod Tests
pub mod Effect
pub mod Volumes
pub mod Mounts
pub mod Put
use plugin_barman_cloud.Base.{
  Bool, true, false, ◌&&◌, ◌||◌, not, Option, none, some, List, [], ◌∷◌, ◌++◌, String, ◌==◌,
  string_eq, if◌then◌else◌,
}
use plugin_barman_cloud.Api.{EnvVar, ResourceRequirements, Cluster}
use plugin_barman_cloud.Lifecycle.PodSpec.{
  VolumeProjection, VolumeSource, empty_dir, projected, Volume, VolumeMount, Container, PodSpec,
  ensure_volume, ensure_volume_mount, remove_volume, remove_volume_mount, merge_missing, has_volume,
}

-- `sidecarConfiguration`
pub record SidecarConfiguration : Type 0 where
  pub env : List EnvVar
  pub certificates : List VolumeProjection
  pub resources : ResourceRequirements
  pub additional_args : List String

-- `barmanCertificatesVolumeName`
abbrev pub barman_certificates_volume_name : String
barman_certificates_volume_name = "barman-certificates"

-- `metadata.BarmanCertificatesPath`
abbrev pub barman_certificates_path : String
barman_certificates_path = "/barman-certificates"

abbrev pub env_var : String → String → EnvVar
env_var name value = record { name = name; value = value }

-- The default environment of `reconcilePodSpec`.
unfoldable pub default_env : Cluster → List EnvVar → List EnvVar
default_env cluster env =
    (env_var "NAMESPACE" cluster.namespace
      ∷ env_var "CLUSTER_NAME" cluster.name
      ∷ env_var "SPOOL_DIRECTORY" "/controller/wal-restore-spool"
      ∷ env_var "CUSTOM_CNPG_GROUP" cluster.group
      ∷ env_var "CUSTOM_CNPG_VERSION" cluster.version
      ∷ [])
    ++ env

-- The environment of the first container of that name, whose loop ends there.
unfoldable pub main_env : String → List Container → List EnvVar
main_env name [] = []
main_env name (c ∷ containers) = if c.name == name then c.env else main_env name containers

abbrev pub plugin_volume : Volume
plugin_volume = record { name = "plugins"; source = empty_dir }

abbrev pub plugin_mount : VolumeMount
plugin_mount = record { name = "plugins"; mount_path = "/plugins" }

-- The loop that mounts the plugin volume in the main containers.
unfoldable pub mount_plugins : String → List Container → List Container
unfolding ensure_volume_mount
mount_plugins name [] = []
mount_plugins name (c ∷ containers) =
    let rest = mount_plugins name containers in
    (if c.name == name
      then record c { volume_mounts = ensure_volume_mount c.volume_mounts (plugin_mount ∷ []) }
      else c)
    ∷ rest

-- `InjectPluginVolumePodSpec`
unfoldable pub inject_plugin_volume_pod_spec : String → PodSpec → PodSpec
unfolding has_volume ensure_volume mount_plugins
inject_plugin_volume_pod_spec name spec =
    if has_volume "plugins" spec.volumes then spec else (record {
      containers = mount_plugins name spec.containers;
      init_containers = spec.init_containers;
      volumes = ensure_volume spec.volumes plugin_volume;
    })

-- The loop of `injectPluginSidecarPodSpec` over the containers: the mounts of the sidecar, and
-- whether there is a main container.
unfoldable pub take_mounts : String → List VolumeMount → List Container → List VolumeMount × Bool
unfolding ensure_volume_mount
take_mounts name mounts [] = (mounts, false)
take_mounts name mounts (c ∷ containers) =
    let skipped = take_mounts name mounts containers in
    let taken = take_mounts name (ensure_volume_mount mounts c.volume_mounts) containers in
    if c.name == name then (taken.0, true) else skipped

-- Its loop over the init containers: those of the sidecar's name become the sidecar, and whether
-- there was one.
unfoldable pub replace_sidecar : Container → List Container → List Container × Bool
replace_sidecar sidecar [] = ([], false)
replace_sidecar sidecar (c ∷ containers) =
    let rest = replace_sidecar sidecar containers in
    if c.name == sidecar.name then (sidecar ∷ rest.0, true) else (c ∷ rest.0, rest.1)

abbrev pub put_sidecar : Container → List Container → List Container
put_sidecar sidecar containers =
    let replaced = replace_sidecar sidecar containers in
    if replaced.1 then replaced.0 else replaced.0 ++ sidecar ∷ []

-- `injectPluginSidecarPodSpec`; `none` is the error that there is no main container.
unfoldable pub inject_plugin_sidecar_pod_spec : String → Container → PodSpec → Option PodSpec
unfolding inject_plugin_volume_pod_spec take_mounts replace_sidecar
inject_plugin_sidecar_pod_spec name sidecar spec =
    let injected = inject_plugin_volume_pod_spec name spec in
    let taken = take_mounts name sidecar.volume_mounts injected.containers in
    if taken.1
    then some (record {
      containers = injected.containers;
      init_containers =
          put_sidecar (record sidecar { volume_mounts = taken.0 }) injected.init_containers;
      volumes = injected.volumes;
    })
    else none

-- The sidecar that `reconcilePodSpec` makes of a template's arguments, before it has mounts. The
-- template has nothing else. `sidecar_image` is the setting of that name.
unfoldable pub sidecar_of :
    String → Cluster → List EnvVar → List String → SidecarConfiguration → Container
unfolding merge_missing default_env
sidecar_of sidecar_image cluster main args config = record {
  name = "plugin-barman-cloud";
  image = sidecar_image;
  image_pull_policy = cluster.image_pull_policy;
  args = args ++ config.additional_args;
  env = merge_missing (merge_missing [] main) (default_env cluster config.env);
  resources = config.resources;
  volume_mounts = [];
  is_plugin_template = true;
}

abbrev pub certificates_mount : VolumeMount
certificates_mount = record {
  name = barman_certificates_volume_name;
  mount_path = barman_certificates_path;
}

-- The mounts and the volumes of the certificates.
abbrev pub certificate_mounts : List VolumeProjection → List VolumeMount → List VolumeMount
certificate_mounts [] mounts = remove_volume_mount mounts barman_certificates_volume_name
certificate_mounts (c ∷ cs) mounts = ensure_volume_mount mounts (certificates_mount ∷ [])

abbrev pub certificate_volumes : List VolumeProjection → List Volume → List Volume
certificate_volumes [] volumes = remove_volume volumes barman_certificates_volume_name
certificate_volumes (c ∷ cs) volumes =
    ensure_volume volumes
      (record { name = barman_certificates_volume_name; source = projected (c ∷ cs) })

-- `reconcilePodSpec`, for a template with arguments only.
unfoldable pub reconcile_pod_spec :
    String → Cluster → String → List String → SidecarConfiguration → PodSpec → Option PodSpec
unfolding sidecar_of main_env ensure_volume ensure_volume_mount remove_volume remove_volume_mount
    inject_plugin_sidecar_pod_spec
reconcile_pod_spec sidecar_image cluster name args config spec =
    let sidecar = sidecar_of sidecar_image cluster (main_env name spec.containers) args config in
    inject_plugin_sidecar_pod_spec name
      (record sidecar {
        volume_mounts = certificate_mounts config.certificates sidecar.volume_mounts;
      })
      (record spec { volumes = certificate_volumes config.certificates spec.volumes })
