-- ===== src/Lifecycle/Requests.antt =====
-- internal/cnpgi/operator/lifecycle.go: the requests of the hook, and what it calls.
use plugin_barman_cloud.Base.{Option, List, [], ◌∷◌, String, StringMap}
use plugin_barman_cloud.Base.Exec.{Result, Exec}
use plugin_barman_cloud.Api.{NamespacedName, Cluster, ObjectStore}
use plugin_barman_cloud.Lifecycle.PodSpec.{PodSpec}

-- Of a Job, its template: the labels in the order in which a loop meets them, and the specification;
-- `rest` stands for all else.
pub record Job : Type 0 where
  pub template_labels : StringMap
  pub template_spec : PodSpec
  pub rest : String

pub record Pod : Type 0 where
  pub spec : PodSpec
  pub rest : String

-- The types of an operation that the capabilities name.
pub data OperationType : Type 0 where
  type_create type_evaluate : OperationType

pub record OperatorLifecycleCapabilities : Type 0 where
  pub group : String
  pub kind : String
  pub operation_types : List OperationType

-- `GetCapabilities`; "batch" is `batchv1.GroupName`.
abbrev pub get_capabilities : List OperatorLifecycleCapabilities
get_capabilities =
    record { group = ""; kind = "Pod"; operation_types = type_create ∷ type_evaluate ∷ [] }
    ∷ record { group = "batch"; kind = "Job"; operation_types = type_create ∷ [] }
    ∷ []

-- A request: what `GetOperationType().GetType().Enum()` answers, where nil is `none`, and the
-- definitions of the object and of the Cluster.
pub record OperatorLifecycleRequest (J : Type 0) : Type 0 where
  pub operation : Option OperationType
  pub object_definition : J
  pub cluster_definition : J

-- The errors of the hook: those of other code, plain or under a message of the source.
pub data HookError (E : Type 0) : Type 0 where
  external : E → HookError E
  no_operation_set : HookError E
  unsupported_kind : String → HookError E
  while_getting : NamespacedName → E → HookError E
  reconciling_job : HookError E
  reconciling_pod : HookError E

-- What the hook calls: the Kubernetes client, the decoders, and the making of a patch, of type `P`,
-- from the mutated object and the given one. `sidecar_image` is the setting of that name, and
-- `to_sorted_list` what a `stringset` makes of its texts.
pub record HookCalls (W E J P : Type 0) : Type 0 where
  pub get_object_store : NamespacedName → Exec W E ObjectStore
  pub get_kind : J → Result E String
  pub decode_cluster : J → Result E Cluster
  pub decode_job : J → Result E Job
  pub decode_pod : J → Result E Pod
  pub create_job_patch : Job → Job → Result E P
  pub create_pod_patch : Pod → Pod → Result E P
  pub to_sorted_list : List String → List String
  pub sidecar_image : String
