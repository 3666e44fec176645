-- ===== src/Lifecycle/Hook.antt =====
-- internal/cnpgi/operator/lifecycle.go: the hook on Pods and Jobs.
pub mod Objects
pub mod Justified
mod Tests
pub mod Again
use Prim.Native.String
use plugin_barman_cloud.Base.{
  Bool, true, false, ◌&&◌, ◌||◌, not, Option, none, some, List, [], ◌∷◌, String, StringMap, ◌==◌,
  string_eq, if◌then◌else◌, map,
}
use plugin_barman_cloud.Base.Exec.{
  Result, ok, err, and_then, Exec, pure, fail, lift, wrapping, wrap_result, ◌>>=◌, ◌>>◌,
}
use plugin_barman_cloud.Api.{plugin_name, NamespacedName, PluginStanza, Cluster, ObjectStore}
use plugin_barman_cloud.Config.{
  ConfigurationError, PluginConfiguration, is_set, new_from_cluster, validate,
}
use plugin_barman_cloud.Lifecycle.PodSpec.{PodSpec}
use plugin_barman_cloud.Lifecycle.Requests.{
  Job, Pod, OperationType, OperatorLifecycleRequest, HookError, external, no_operation_set,
  unsupported_kind, while_getting, reconciling_job, reconciling_pod, HookCalls,
}
use plugin_barman_cloud.Lifecycle.Injection.{SidecarConfiguration, reconcile_pod_spec}
use plugin_barman_cloud.Lifecycle.Collect.{
  collect_additional_envs, collect_additional_certificates, collect_sidecar_resources_for_pod,
  collect_sidecar_resources_for_recovery_job, collect_additional_instance_args,
}

-- `strings.HasSuffix`
unfoldable pub has_suffix : String → String → Bool
has_suffix String.[] suffix = "" == suffix
has_suffix (String.◌∷◌ c s) suffix = String.◌∷◌ c s == suffix || has_suffix s suffix

-- `getCNPGJobRole`, on the labels of the template.
unfoldable pub get_cnpg_job_role : StringMap → String
unfolding has_suffix
get_cnpg_job_role [] = ""
get_cnpg_job_role (label ∷ labels) =
    let later = get_cnpg_job_role labels in if has_suffix label.0 "/jobRole" then label.1 else later

-- The plugin of the recovery source is this one.
unfoldable pub recovers_with_plugin : Cluster → Bool
recovers_with_plugin cluster = elim cluster.recovery_source_plugin [
  | none ↦ false
  | some p ↦ p.name == plugin_name
]

-- `fullRecoveryJobName`, or the other role of a recovery.
unfoldable pub is_recovery_role : String → Bool
is_recovery_role role = role == "full-recovery" || role == "snapshot-recovery"

-- The instance has something to archive to or to fetch from.
abbrev pub needs_sidecar : PluginConfiguration → Bool
needs_sidecar c = is_set c.barman_object_name || is_set c.replica_source_barman_object_name

-- The object with its new specification; `none` is the error of `reconcilePodSpec`.
abbrev pub with_spec : Pod → Option PodSpec → Option Pod
with_spec pod none = none
with_spec pod (some spec) = some (record pod { spec = spec })

abbrev pub with_template_spec : Job → Option PodSpec → Option Job
with_template_spec job none = none
with_template_spec job (some spec) = some (record job { template_spec = spec })

-- The Pod that `reconcileInstancePod` makes a patch of.
unfoldable pub mutated_pod :
    String → Cluster → PluginConfiguration → SidecarConfiguration → Pod → Option Pod
unfolding reconcile_pod_spec
mutated_pod sidecar_image cluster c config pod =
    if needs_sidecar c
    then with_spec pod
        (reconcile_pod_spec sidecar_image cluster "postgres" ("instance" ∷ []) config pod.spec)
    else some pod

-- The Job that `reconcileJob` makes a patch of.
unfoldable pub mutated_job : String → Cluster → SidecarConfiguration → Job → Option Job
unfolding reconcile_pod_spec get_cnpg_job_role
mutated_job sidecar_image cluster config job = with_template_spec job (
    reconcile_pod_spec sidecar_image cluster (get_cnpg_job_role job.template_labels)
      ("restore" ∷ []) config job.template_spec)

module _ {W E J P : Type 0} (calls : HookCalls W E J P) where
  -- The response with the patch, if there is a mutated object.
  abbrev pub patched :
      {O : Type 0}
      → (O → O → Result E P)
      → HookError E
      → O
      → Option O
      → Result (HookError E) (Option P)
  patched create_patch failed given none = err failed
  patched create_patch failed given (some mutated) =
      and_then (wrap_result external (create_patch mutated given)) (λ patch. ok (some patch))

  -- `reconcileInstancePod`
  unfoldable pub reconcile_instance_pod :
      Cluster → J → PluginConfiguration → SidecarConfiguration → Result (HookError E) (Option P)
  unfolding mutated_pod
  reconcile_instance_pod cluster object_definition c config =
      and_then (wrap_result external (calls.decode_pod object_definition)) (λ pod.
        patched calls.create_pod_patch reconciling_pod pod
          (mutated_pod calls.sidecar_image cluster c config pod))

  -- `reconcileJob` (the function) after the Job is decoded.
  unfoldable pub reconcile_decoded_job :
      Cluster → SidecarConfiguration → Job → Result (HookError E) (Option P)
  unfolding is_recovery_role get_cnpg_job_role mutated_job
  reconcile_decoded_job cluster config job =
      if is_recovery_role (get_cnpg_job_role job.template_labels)
      then patched calls.create_job_patch reconciling_job job
          (mutated_job calls.sidecar_image cluster config job)
      else ok none

  -- `reconcileJob` (the function)
  unfoldable pub reconcile_job_object :
      Cluster → J → SidecarConfiguration → Result (HookError E) (Option P)
  unfolding recovers_with_plugin reconcile_decoded_job
  reconcile_job_object cluster object_definition config =
      if recovers_with_plugin cluster
      then and_then (wrap_result external (calls.decode_job object_definition))
          (reconcile_decoded_job cluster config)
      else ok none

  -- `reconcileJob` (the method)
  unfoldable pub reconcile_job : Cluster → J → PluginConfiguration → Exec W (HookError E) (Option P)
  unfolding collect_additional_envs collect_additional_certificates
      collect_sidecar_resources_for_recovery_job reconcile_job_object
  reconcile_job cluster object_definition c = do
    env ← wrapping external (collect_additional_envs calls.get_object_store cluster.namespace c)
    certificates ←
        wrapping external
          (collect_additional_certificates calls.get_object_store calls.to_sorted_list c)
    resources ←
        wrapping external (collect_sidecar_resources_for_recovery_job calls.get_object_store c)
    lift (
        reconcile_job_object cluster object_definition (record {
          env = env;
          certificates = certificates;
          resources = resources;
          additional_args = [];
        }))

  -- `reconcilePod`
  unfoldable pub reconcile_pod : Cluster → J → PluginConfiguration → Exec W (HookError E) (Option P)
  unfolding collect_additional_envs collect_additional_certificates
      collect_sidecar_resources_for_pod collect_additional_instance_args reconcile_instance_pod
  reconcile_pod cluster object_definition c = do
    env ← wrapping external (collect_additional_envs calls.get_object_store cluster.namespace c)
    certificates ←
        wrapping external
          (collect_additional_certificates calls.get_object_store calls.to_sorted_list c)
    resources ← wrapping external (collect_sidecar_resources_for_pod calls.get_object_store c)
    additional_args ← collect_additional_instance_args calls.get_object_store while_getting c
    lift (
        reconcile_instance_pod cluster object_definition c (record {
          env = env;
          certificates = certificates;
          resources = resources;
          additional_args = additional_args;
        }))

  -- The `switch` of `LifecycleHook`.
  unfoldable pub reconcile_kind :
      String → Cluster → J → PluginConfiguration → Exec W (HookError E) (Option P)
  unfolding reconcile_pod reconcile_job
  reconcile_kind kind cluster object_definition c =
      if kind == "Pod"
      then reconcile_pod cluster object_definition c
      else if kind == "Job"
      then reconcile_job cluster object_definition c
      else fail (unsupported_kind kind)

  abbrev pub unless_invalid :
      Option ConfigurationError → Exec W (HookError E) (Option P) → Exec W (HookError E) (Option P)
  unless_invalid (some e) reconcile = pure none
  unless_invalid none reconcile = reconcile

  -- `LifecycleHook` from the Cluster on: an invalid configuration is skipped.
  unfoldable pub reconcile_valid : String → J → Cluster → Exec W (HookError E) (Option P)
  unfolding validate reconcile_kind new_from_cluster
  reconcile_valid kind object_definition cluster =
      unless_invalid (validate (new_from_cluster cluster))
        (reconcile_kind kind cluster object_definition (new_from_cluster cluster))

  abbrev pub with_operation :
      Option OperationType → Exec W (HookError E) (Option P) → Exec W (HookError E) (Option P)
  with_operation none reconcile = fail no_operation_set
  with_operation (some operation) reconcile = reconcile

  -- `LifecycleHook`; the nil response is `none`.
  unfoldable pub lifecycle_hook : OperatorLifecycleRequest J → Exec W (HookError E) (Option P)
  unfolding reconcile_valid
  lifecycle_hook request = with_operation request.operation (
      lift (wrap_result external (calls.get_kind request.object_definition)) >>= λ kind.
      lift (wrap_result external (calls.decode_cluster request.cluster_definition))
      >>= reconcile_valid kind request.object_definition)
