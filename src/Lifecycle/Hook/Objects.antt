-- ===== src/Lifecycle/Hook/Objects.antt =====
-- The objects that the hook makes patches of.
use plugin_barman_cloud.Base.{
  ◌≡◌, refl, true, Option, none, some, [], String, ◌==◌, string_eq, eq_iff, Bool-cases, inl, inr,
}
use plugin_barman_cloud.Base.Exec.{
  Result, ok, err, and_then, Exec, wrapping, wrap_result, Ensures, Ensures-bind, ◌>>=◌,
}
use plugin_barman_cloud.Api.{Cluster}
use plugin_barman_cloud.Config.{new_from_cluster}
use plugin_barman_cloud.Lifecycle.Injection.{SidecarConfiguration}
use plugin_barman_cloud.Lifecycle.Requests.{
  Job, Pod, HookError, HookCalls, external, while_getting, reconciling_job, reconciling_pod,
}
use plugin_barman_cloud.Lifecycle.Collect.{
  collect_additional_envs, collect_additional_certificates, collect_sidecar_resources_for_pod,
  collect_sidecar_resources_for_recovery_job, collect_additional_instance_args,
}
use plugin_barman_cloud.Lifecycle.Hook.{
  get_cnpg_job_role, recovers_with_plugin, is_recovery_role, mutated_pod, mutated_job, patched,
  reconcile_instance_pod, reconcile_decoded_job, reconcile_job_object, reconcile_job, reconcile_pod,
  reconcile_kind,
}

module _ {W E J P : Type 0} (calls : HookCalls W E J P) where
  -- A patch of a Pod, or of the Job of a recovery through this plugin, of a Cluster that uses the plugin.
  pub data Justified (kind : String) (definition : J) (cluster : Cluster) : P → Type 0 where
    of_pod :
        (patch : P) (pod mutated : Pod) (config : SidecarConfiguration)
        → kind ≡ "Pod"
        → calls.decode_pod definition ≡ ok pod
        → mutated_pod calls.sidecar_image cluster (new_from_cluster cluster) config pod
          ≡ some mutated
        → calls.create_pod_patch mutated pod ≡ ok patch
        → Justified kind definition cluster patch
    of_job :
        (patch : P) (job mutated : Job) (config : SidecarConfiguration)
        → kind ≡ "Job"
        → calls.decode_job definition ≡ ok job
        → recovers_with_plugin cluster ≡ true
        → is_recovery_role (get_cnpg_job_role job.template_labels) ≡ true
        → mutated_job calls.sidecar_image cluster config job ≡ some mutated
        → calls.create_job_patch mutated job ≡ ok patch
        → Justified kind definition cluster patch

  abbrev pub Answers : (P → Type 0) → Result (HookError E) (Option P) → Type 0
  Answers Q (ok none) = Unit
  Answers Q (ok (some patch)) = Q patch
  Answers Q (err e) = Unit

  -- A response is that of a mutated object, if it has a patch.
  patched-Answers :
      {O : Type 0} (create_patch : O → O → Result E P) (failed : HookError E) (given : O)
      (Q : P → Type 0) (o : Option O)
      → ((mutated : O) (patch : P)
          → o ≡ some mutated
          → create_patch mutated given ≡ ok patch
          → Q patch)
      → Answers Q (patched calls create_patch failed given o)
  patched-Answers create_patch failed given Q none made = tt
  patched-Answers create_patch failed given Q (some mutated) made =
      go (create_patch mutated given) refl
    where
      go :
          (r : Result E P)
          → create_patch mutated given ≡ r
          → Answers Q (and_then (wrap_result external r) (λ patch. ok (some patch)))
      go (ok patch) e = made mutated patch refl e
      go (err f) e = tt

  -- What comes of an object that has to be decoded.
  decoded-Answers :
      {O : Type 0} (Q : P → Type 0) (r : Result E O) (f : O → Result (HookError E) (Option P))
      → ((o : O) → r ≡ ok o → Answers Q (f o))
      → Answers Q (and_then (wrap_result external r) f)
  decoded-Answers Q (ok o) f made = made o refl
  decoded-Answers Q (err e) f made = tt

  module _ (kind : String) (definition : J) (cluster : Cluster) where
    pod-Justified :
        (config : SidecarConfiguration)
        → kind ≡ "Pod"
        → Answers
            (Justified kind definition cluster)
            (reconcile_instance_pod calls cluster definition (new_from_cluster cluster) config)
    unfolding reconcile_instance_pod
    pod-Justified config is_pod =
        decoded-Answers (Justified kind definition cluster) (calls.decode_pod definition) _
          (λ pod decoded.
            patched-Answers calls.create_pod_patch reconciling_pod pod
              (Justified kind definition cluster) _
              (λ mutated patch made created.
                of_pod patch pod mutated config is_pod decoded made created))

    decoded_job-Justified :
        (config : SidecarConfiguration) (job : Job)
        → kind ≡ "Job"
        → calls.decode_job definition ≡ ok job
        → recovers_with_plugin cluster ≡ true
        → Answers
            (Justified kind definition cluster)
            (reconcile_decoded_job calls cluster config job)
    unfolding reconcile_decoded_job
    decoded_job-Justified config job is_job decoded recovers =
        elim (Bool-cases (is_recovery_role (get_cnpg_job_role job.template_labels))) [
          | inr t ↦ rw (t) tt
          | inl t ↦ rw (t) (
              patched-Answers calls.create_job_patch reconciling_job job
                (Justified kind definition cluster)
                (mutated_job calls.sidecar_image cluster config job)
                (λ mutated patch made created.
                  of_job patch job mutated config is_job decoded recovers t made created))
        ]

    job-Justified :
        (config : SidecarConfiguration)
        → kind ≡ "Job"
        → Answers
            (Justified kind definition cluster)
            (reconcile_job_object calls cluster definition config)
    unfolding reconcile_job_object
    job-Justified config is_job = elim (Bool-cases (recovers_with_plugin cluster)) [
      | inr t ↦ rw (t) tt
      | inl t ↦ rw (t) (
          decoded-Answers (Justified kind definition cluster) (calls.decode_job definition)
            (reconcile_decoded_job calls cluster config)
            (λ job decoded. decoded_job-Justified config job is_job decoded t))
    ]

    abbrev Answered : Result (HookError E) (Option P) → W → Type 0
    Answered r w = Answers (Justified kind definition cluster) r

    abbrev pub Anything : W → Type 0
    Anything w = Unit

    abbrev pub Any : {A : Type 0} → Result (HookError E) A → W → Type 0
    Any r w = Unit

    after_any :
        {A : Type 0} (m : Exec W (HookError E) A) (f : A → Exec W (HookError E) (Option P))
        → ((a : A) → Ensures Anything (f a) Answered)
        → Ensures Anything (m >>= f) Answered
    after_any m f rest = Ensures-bind Anything Any Answered m f (λ w h. tt) rest (λ e w h. tt)

    reconcile_pod-Justified :
        kind ≡ "Pod"
        → Ensures Anything
            (reconcile_pod calls cluster definition (new_from_cluster cluster))
            Answered
    unfolding reconcile_pod
    reconcile_pod-Justified is_pod =
        after_any
          (wrapping external (
            collect_additional_envs calls.get_object_store cluster.namespace
              (new_from_cluster cluster)))
          _
          (λ env.
            after_any
              (wrapping external (
                collect_additional_certificates calls.get_object_store calls.to_sorted_list
                  (new_from_cluster cluster)))
              _
              (λ certificates.
                after_any
                  (wrapping external (
                    collect_sidecar_resources_for_pod calls.get_object_store
                      (new_from_cluster cluster)))
                  _
                  (λ resources.
                    after_any
                      (collect_additional_instance_args calls.get_object_store while_getting
                        (new_from_cluster cluster))
                      _
                      (λ args w h.
                        pod-Justified
                          (record {
                            env = env;
                            certificates = certificates;
                            resources = resources;
                            additional_args = args;
                          })
                          is_pod))))

    reconcile_job-Justified :
        kind ≡ "Job"
        → Ensures Anything
            (reconcile_job calls cluster definition (new_from_cluster cluster))
            Answered
    unfolding reconcile_job
    reconcile_job-Justified is_job =
        after_any
          (wrapping external (
            collect_additional_envs calls.get_object_store cluster.namespace
              (new_from_cluster cluster)))
          _
          (λ env.
            after_any
              (wrapping external (
                collect_additional_certificates calls.get_object_store calls.to_sorted_list
                  (new_from_cluster cluster)))
              _
              (λ certificates.
                after_any
                  (wrapping external (
                    collect_sidecar_resources_for_recovery_job calls.get_object_store
                      (new_from_cluster cluster)))
                  _
                  (λ resources w h.
                    job-Justified
                      (record {
                        env = env;
                        certificates = certificates;
                        resources = resources;
                        additional_args = [];
                      })
                      is_job)))

    pub kind-Justified :
        Ensures Anything
          (reconcile_kind calls kind cluster definition (new_from_cluster cluster))
          Answered
    unfolding reconcile_kind
    kind-Justified w h = elim (Bool-cases (kind == "Pod")) [
      | inl t ↦ rw (t) (reconcile_pod-Justified ((eq_iff kind "Pod").0 t) w h)
      | inr t ↦ rw (t) (elim (Bool-cases (kind == "Job")) [
        | inl u ↦ rw (u) (reconcile_job-Justified ((eq_iff kind "Job").0 u) w h)
        | inr u ↦ rw (u) tt
      ])
    ]
