-- ===== src/Lifecycle/Hook/Again.antt =====
-- A Pod that has its sidecar is left as it is.
use plugin_barman_cloud.Base.{
  ◌≡◌, refl, ap, ◌∙◌, Bool, true, false, Option, none, some, [], ◌∷◌, String, if◌then◌else◌,
}
use plugin_barman_cloud.Base.Exec.{Result, ok, and_then, wrap_result}
use plugin_barman_cloud.Api.{Cluster}
use plugin_barman_cloud.Config.{PluginConfiguration}
use plugin_barman_cloud.Lifecycle.PodSpec.{PodSpec}
use plugin_barman_cloud.Lifecycle.Injection.{SidecarConfiguration, reconcile_pod_spec}
use plugin_barman_cloud.Lifecycle.Injection.Sidecar.{reconcile_pod_spec_again}
use plugin_barman_cloud.Lifecycle.Requests.{Pod, HookCalls, HookError, external, reconciling_pod}
use plugin_barman_cloud.Lifecycle.Hook.{
  needs_sidecar, with_spec, mutated_pod, patched, reconcile_instance_pod,
}

abbrev spec_of : Option Pod → Option PodSpec
spec_of none = none
spec_of (some pod) = some pod.spec

mutated_pod_again :
    (sidecar_image : String) (cluster : Cluster) (c : PluginConfiguration)
    (config : SidecarConfiguration) (pod mutated : Pod)
    → mutated_pod sidecar_image cluster c config pod ≡ some mutated
    → mutated_pod sidecar_image cluster c config mutated ≡ some mutated
unfolding mutated_pod
mutated_pod_again sidecar_image cluster c config pod mutated h = go (needs_sidecar c) refl h
  where
    reconciled : PodSpec → Option PodSpec
    reconciled = reconcile_pod_spec sidecar_image cluster "postgres" ("instance" ∷ []) config

    settled :
        (r : Option PodSpec)
        → reconciled pod.spec ≡ r
        → with_spec pod r ≡ some mutated
        → with_spec mutated (reconciled mutated.spec) ≡ some mutated
    settled none e made = absurd (cc)
    settled (some spec) e made =
        rw
          (reconcile_pod_spec_again sidecar_image cluster "postgres" ("instance" ∷ []) config
            pod.spec mutated.spec (e ∙ ap spec_of made))
          refl

    go :
        (b : Bool)
        → needs_sidecar c ≡ b
        → (if b then with_spec pod (reconciled pod.spec) else some pod) ≡ some mutated
        → (if b then with_spec mutated (reconciled mutated.spec) else some mutated) ≡ some mutated
    go true e made = settled (reconciled pod.spec) refl made
    go false e made = refl

module _ {W E J P : Type 0} (calls : HookCalls W E J P) where
  -- The hook leaves a Pod that has its sidecar as it is: where the patch of two equal objects is empty,
  -- the response to a Pod that an earlier patch was made for, on the same Cluster, configuration and
  -- ObjectStores, is the empty patch.
  pub reconcile_instance_pod_again :
      (cluster : Cluster) (c : PluginConfiguration) (config : SidecarConfiguration)
      (pod mutated : Pod) (definition : J) (empty_patch : P)
      → ((p : Pod) → calls.create_pod_patch p p ≡ ok empty_patch)
      → mutated_pod calls.sidecar_image cluster c config pod ≡ some mutated
      → calls.decode_pod definition ≡ ok mutated
      → reconcile_instance_pod calls cluster definition c config ≡ ok (some empty_patch)
  unfolding reconcile_instance_pod
  reconcile_instance_pod_again cluster c config pod mutated definition empty_patch same made
        decoded =
      ap respond decoded
      ∙ (ap (patched calls calls.create_pod_patch reconciling_pod mutated)
            (mutated_pod_again calls.sidecar_image cluster c config pod mutated made)
          ∙ ap answer (same mutated))
    where
      respond : Result E Pod → Result (HookError E) (Option P)
      respond r = and_then (wrap_result external r) (λ p.
          patched calls calls.create_pod_patch reconciling_pod p
            (mutated_pod calls.sidecar_image cluster c config p))

      answer : Result E P → Result (HookError E) (Option P)
      answer r = and_then (wrap_result external r) (λ patch. ok (some patch))
