-- ===== src/Lifecycle/PodSpec.antt =====
-- internal/cnpgi/operator/lifecycle.go: the helpers on the lists of a Pod specification.
pub mod Lists
use plugin_barman_cloud.Base.{
  Bool, true, false, ◌&&◌, ◌||◌, not, Option, none, some, List, [], ◌∷◌, ◌++◌, String, Eq, ◌==◌,
  string_eq, if◌then◌else◌,
}
use plugin_barman_cloud.Api.{EnvVar, ResourceRequirements}

-- A projection of a key of a Secret to a path, of a projected volume.
pub record VolumeProjection : Type 0 where
  pub secret_name : String
  pub key : String
  pub path : String

-- The sources of a volume that the plugin makes; any other source is opaque.
pub data VolumeSource : Type 0 where
  empty_dir : VolumeSource
  projected : List VolumeProjection → VolumeSource
  other_source : String → VolumeSource

pub record Volume : Type 0 where
  pub name : String
  pub source : VolumeSource

pub record VolumeMount : Type 0 where
  pub name : String
  pub mount_path : String

-- Of a Container, the fields that the plugin reads or computes. `is_plugin_template` stands for its
-- constant fields: the probe, the security context and the restart policy of the sidecar.
pub record Container : Type 0 where
  pub name : String
  pub image : String
  pub image_pull_policy : String
  pub args : List String
  pub env : List EnvVar
  pub resources : ResourceRequirements
  pub volume_mounts : List VolumeMount
  pub is_plugin_template : Bool

pub record PodSpec : Type 0 where
  pub containers : List Container
  pub init_containers : List Container
  pub volumes : List Volume

-- The loop of `ensureVolume`: every volume of that name becomes the given one, and whether there was one.
unfoldable pub replace_volumes : Volume → List Volume → List Volume × Bool
replace_volumes volume [] = ([], false)
replace_volumes volume (v ∷ volumes) =
    let rest = replace_volumes volume volumes in
    if v.name == volume.name then (volume ∷ rest.0, true) else (v ∷ rest.0, rest.1)

-- `ensureVolume`
unfoldable pub ensure_volume : List Volume → Volume → List Volume
unfolding replace_volumes
ensure_volume volumes volume =
    let replaced = replace_volumes volume volumes in
    if replaced.1 then replaced.0 else replaced.0 ++ volume ∷ []

-- A volume of that name is there.
unfoldable pub has_volume : String → List Volume → Bool
has_volume name [] = false
has_volume name (v ∷ volumes) = v.name == name || has_volume name volumes

-- One round of `ensureVolumeMount`: the first mount of that name becomes the given one, which is
-- appended where there is none.
unfoldable pub ensure_mount : List VolumeMount → VolumeMount → List VolumeMount
ensure_mount [] mount = mount ∷ []
ensure_mount (m ∷ mounts) mount =
    let later = m ∷ ensure_mount mounts mount in
    if m.name == mount.name then mount ∷ mounts else later

-- `ensureVolumeMount`
unfoldable pub ensure_volume_mount : List VolumeMount → List VolumeMount → List VolumeMount
unfolding ensure_mount
ensure_volume_mount mounts [] = mounts
ensure_volume_mount mounts (mount ∷ volume_mounts) =
    ensure_volume_mount (ensure_mount mounts mount) volume_mounts

-- `removeVolume`
unfoldable pub remove_volume : List Volume → String → List Volume
remove_volume [] name = []
remove_volume (v ∷ volumes) name =
    let rest = remove_volume volumes name in if v.name == name then rest else v ∷ rest

-- `removeVolumeMount`
unfoldable pub remove_volume_mount : List VolumeMount → String → List VolumeMount
remove_volume_mount [] name = []
remove_volume_mount (m ∷ mounts) name =
    let rest = remove_volume_mount mounts name in if m.name == name then rest else m ∷ rest

-- Whether an environment has a variable of that name.
unfoldable pub has_env : List EnvVar → String → Bool
has_env [] name = false
has_env (e ∷ env) name = e.name == name || has_env env name

-- The loops of `reconcilePodSpec` that merge an environment in, where a name is not set yet.
unfoldable pub merge_missing : List EnvVar → List EnvVar → List EnvVar
unfolding has_env
merge_missing env [] = env
merge_missing env (e ∷ es) = merge_missing (if has_env env e.name then env else env ++ e ∷ []) es
