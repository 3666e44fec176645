-- ===== src/Lifecycle/Hook/Tests.antt =====
-- The hook on the Pod of a replica.
use mathlib.Core.Option
use plugin_barman_cloud.Base.{◌≡◌, refl, ap, some, List, [], ◌∷◌, String, at, lookup, string_eq}
use plugin_barman_cloud.Base.Exec.{ok, pure}
use plugin_barman_cloud.Config.{new_from_cluster}
use plugin_barman_cloud.Lifecycle.Requests.{
  Job, Pod, type_create, OperatorLifecycleRequest, HookCalls,
}
use plugin_barman_cloud.Lifecycle.Injection.Tests.{pod, reconciled, configuration, is_reconciled}
use plugin_barman_cloud.Lifecycle.Hook.{
  with_spec, mutated_pod, reconcile_instance_pod, lifecycle_hook,
}
use plugin_barman_cloud.Lifecycle.Hook.Again.{reconcile_instance_pod_again}
use plugin_barman_cloud.Examples.{replica, store}

-- A definition is a Pod as it is, and so is a patch.
abbrev job_of : Pod → Job
job_of p = record {
  template_labels = ("cnpg.io/jobRole", "full-recovery") ∷ [];
  template_spec = p.spec;
  rest = p.rest;
}

abbrev given : Pod
given = record { spec = pod; rest = "" }

abbrev settled : Pod
unfolding reconciled
settled = record { spec = reconciled; rest = "" }

abbrev calls : HookCalls (Unit {0}) String Pod (List Pod)
calls = record {
  get_object_store = λ key. pure store;
  get_kind = λ p. ok "Pod";
  decode_cluster = λ p. ok replica;
  decode_job = λ p. ok (job_of p);
  decode_pod = λ p. ok p;
  create_job_patch = λ new old. ok [];
  create_pod_patch = λ new old. ok [];
  to_sorted_list = λ names. names;
  sidecar_image = "sidecar";
}

abbrev request : OperatorLifecycleRequest Pod
request = record {
  operation = some type_create;
  object_definition = given;
  cluster_definition = given;
}

made : mutated_pod "sidecar" replica (new_from_cluster replica) configuration given ≡ some settled
unfolding mutated_pod new_from_cluster at lookup settled
made = ap (with_spec given) is_reconciled

hook_answers : (lifecycle_hook calls request tt).0 ≡ ok (some [])
unfolding lifecycle_hook at lookup Option.bind
hook_answers = refl

reconcile_instance_pod_again_example :
    reconcile_instance_pod calls replica settled (new_from_cluster replica) configuration
    ≡ ok (some [])
reconcile_instance_pod_again_example =
    reconcile_instance_pod_again calls replica (new_from_cluster replica) configuration given
      settled settled [] (λ p. refl) made refl
