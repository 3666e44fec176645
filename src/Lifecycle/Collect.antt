-- ===== src/Lifecycle/Collect.antt =====
-- internal/cnpgi/operator/lifecycle.go, lifecycle_envs.go, lifecycle_certificates.go and
-- lifecycle_resources.go: what the sidecar takes from the ObjectStores.
pub mod Precedence
mod Tests
use Prim.Native.String
use plugin_barman_cloud.Base.{
  Bool, true, false, Option, none, some, List, [], ◌∷◌, ◌++◌, String, ◌==◌, string_eq,
  if◌then◌else◌,
}
use plugin_barman_cloud.Base.Exec.{Result, ok, err, Exec, pure, wrapping, ◌>>=◌}
use plugin_barman_cloud.Api.{
  NamespacedName, EnvVar, ResourceRequirements, SecretKeySelector, ObjectStore, Cluster,
}
use plugin_barman_cloud.Config.{
  PluginConfiguration, is_set, get_barman_object_key, get_recovery_barman_object_key,
  get_replica_source_barman_object_key, get_referred_barman_objects_key,
}
use plugin_barman_cloud.Lifecycle.PodSpec.{VolumeProjection}
use plugin_barman_cloud.Lifecycle.Injection.{SidecarConfiguration}

-- The zero `ResourceRequirements`.
abbrev pub no_resources : ResourceRequirements
no_resources = record { requests = []; limits = [] }

-- The projection of the CA of an ObjectStore, which was found under that name. (`path.Join` of two
-- parts that are a name and a constant.)
unfoldable pub endpoint_ca_projection : String → Option SecretKeySelector → List VolumeProjection
endpoint_ca_projection store_name none = []
endpoint_ca_projection store_name (some ca) =
    (record { secret_name = ca.name; key = ca.key; path = String.◌++◌ store_name "/barman-ca.crt" })
    ∷ []

-- `collectTypedAdditionalArgs`
unfoldable pub typed_additional_args : ObjectStore → List String
typed_additional_args store =
    if is_set store.spec.instance_sidecar_configuration.log_level
    then String.◌++◌ "--log-level=" store.spec.instance_sidecar_configuration.log_level ∷ []
    else []

abbrev pub all_args : ObjectStore → List String
all_args store =
    store.spec.instance_sidecar_configuration.additional_container_args
    ++ typed_additional_args store

module _ {W E : Type 0} (get_object_store : NamespacedName → Exec W E ObjectStore) where
  -- `collectObjectStoreEnvs`, and what was collected before it.
  abbrev pub add_envs : Bool → NamespacedName → List EnvVar → Exec W E (List EnvVar)
  add_envs false key result = pure result
  add_envs true key result = get_object_store key >>= λ store.
      pure (result ++ store.spec.instance_sidecar_configuration.env)

  -- `collectAdditionalEnvs`
  unfoldable pub collect_additional_envs : String → PluginConfiguration → Exec W E (List EnvVar)
  collect_additional_envs namespace c =
      add_envs (is_set c.barman_object_name)
        (record { namespace = namespace; name = c.barman_object_name }) []
      >>= (λ first.
          add_envs (is_set c.recovery_barman_object_name)
            (record { namespace = namespace; name = c.recovery_barman_object_name }) first
          >>= add_envs (is_set c.replica_source_barman_object_name)
              (record { namespace = namespace; name = c.replica_source_barman_object_name }))

  -- The loop of `collectAdditionalCertificates`.
  unfoldable pub collect_certificates : List NamespacedName → Exec W E (List VolumeProjection)
  unfolding endpoint_ca_projection
  collect_certificates [] = pure []
  collect_certificates (key ∷ keys) =
      let rest = collect_certificates keys in
      get_object_store key >>= λ store. rest >>= λ certs.
      pure (endpoint_ca_projection key.name store.spec.configuration.endpoint_ca ++ certs)

  -- `collectAdditionalCertificates`
  unfoldable pub collect_additional_certificates :
      (List String → List String) → PluginConfiguration → Exec W E (List VolumeProjection)
  unfolding get_referred_barman_objects_key collect_certificates
  collect_additional_certificates to_sorted_list c =
      collect_certificates (get_referred_barman_objects_key to_sorted_list c)

  -- `collectSidecarResourcesForRecoveryJob`
  unfoldable pub collect_sidecar_resources_for_recovery_job :
      PluginConfiguration → Exec W E ResourceRequirements
  collect_sidecar_resources_for_recovery_job c =
      if is_set c.recovery_barman_object_name
      then (get_object_store (get_recovery_barman_object_key c) >>= λ store.
          pure store.spec.instance_sidecar_configuration.resources)
      else pure no_resources

  -- `collectSidecarResourcesForPod`
  unfoldable pub collect_sidecar_resources_for_pod :
      PluginConfiguration → Exec W E ResourceRequirements
  collect_sidecar_resources_for_pod c =
      if is_set c.barman_object_name
      then (get_object_store (get_barman_object_key c) >>= λ store.
          pure store.spec.instance_sidecar_configuration.resources)
      else if is_set c.recovery_barman_object_name
      then (get_object_store (get_recovery_barman_object_key c) >>= λ store.
          pure store.spec.instance_sidecar_configuration.resources)
      else if is_set c.replica_source_barman_object_name
      then (get_object_store (get_replica_source_barman_object_key c) >>= λ store.
          pure store.spec.instance_sidecar_configuration.resources)
      else pure no_resources

  -- `collectAdditionalInstanceArgs`; the error names the key, as `F` says.
  unfoldable pub collect_additional_instance_args :
      {F : Type 0} → (NamespacedName → E → F) → PluginConfiguration → Exec W F (List String)
  unfolding typed_additional_args
  collect_additional_instance_args while_getting c =
      if is_set c.barman_object_name
      then (wrapping (while_getting (get_barman_object_key c))
            (get_object_store (get_barman_object_key c))
          >>= λ store. pure (all_args store))
      else if is_set c.recovery_barman_object_name
      then (wrapping (while_getting (get_recovery_barman_object_key c))
            (get_object_store (get_recovery_barman_object_key c))
          >>= λ store. pure (all_args store))
      else if is_set c.replica_source_barman_object_name
      then (wrapping (while_getting (get_replica_source_barman_object_key c))
            (get_object_store (get_replica_source_barman_object_key c))
          >>= λ store. pure (all_args store))
      else pure []
