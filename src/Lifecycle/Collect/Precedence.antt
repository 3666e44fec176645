-- ===== src/Lifecycle/Collect/Precedence.antt =====
-- The settings of a Pod's sidecar come from one object store.
use plugin_barman_cloud.Base.{◌≡◌, refl, List, [], ◌∷◌, String, string_eq, Bool-cases, inl, inr}
use plugin_barman_cloud.Base.Exec.{Result, ok, Exec, pure, wrapping, ◌>>=◌}
use plugin_barman_cloud.Api.{NamespacedName, ResourceRequirements, ObjectStore}
use plugin_barman_cloud.Config.{
  PluginConfiguration, is_set, referred_names, key_in, get_barman_object_key,
  get_recovery_barman_object_key, get_replica_source_barman_object_key,
}
use plugin_barman_cloud.Lifecycle.Collect.{
  no_resources, all_args, collect_sidecar_resources_for_pod, collect_additional_instance_args,
}

module _ {W E F : Type 0} (get_object_store : NamespacedName → Exec W E ObjectStore)
    (while_getting : NamespacedName → E → F) where
  -- Both settings, by the names that a configuration refers to.
  abbrev pub FromFirst :
      String
      → List String
      → Result E ResourceRequirements × W
      → Result F (List String) × W
      → W
      → Type 0
  FromFirst namespace [] resources args w = (resources ≡ (ok no_resources, w)) × (args ≡ (ok [], w))
  FromFirst namespace (name ∷ names) resources args w =
      (resources
        ≡ (get_object_store (key_in namespace name) >>= λ store.
              pure store.spec.instance_sidecar_configuration.resources)
            w)
      × (args
          ≡ (wrapping (while_getting (key_in namespace name))
                  (get_object_store (key_in namespace name))
                >>= λ store. pure (all_args store))
              w)

  -- The resources and the arguments of a Pod's sidecar are those of the same object store, the first
  -- one that the configuration refers to; where it refers to none, there are no resources and no
  -- arguments, and nothing is called.
  pub pod_settings-FromFirst :
      (c : PluginConfiguration) (w : W)
      → FromFirst c.cluster.namespace
          (referred_names c)
          (collect_sidecar_resources_for_pod get_object_store c w)
          (collect_additional_instance_args get_object_store while_getting c w)
          w
  unfolding collect_sidecar_resources_for_pod collect_additional_instance_args referred_names
      get_barman_object_key get_recovery_barman_object_key get_replica_source_barman_object_key
  pod_settings-FromFirst c w = elim (Bool-cases (is_set c.barman_object_name)) [
    | inl b ↦ rw (b) (refl, refl)
    | inr b ↦ elim (Bool-cases (is_set c.recovery_barman_object_name)) [
      | inl r ↦ rw (b) (rw (r) (refl, refl))
      | inr r ↦ elim (Bool-cases (is_set c.replica_source_barman_object_name)) [
        | inl s ↦ rw (b) (rw (r) (rw (s) (refl, refl)))
        | inr s ↦ rw (b) (rw (r) (rw (s) (refl, refl)))
      ]
    ]
  ]
