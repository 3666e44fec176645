-- ===== src/Process/Starts.antt =====
-- The sidecar that the lifecycle hook injects, and the commands that run in it.
use mathlib.Core.Option
use plugin_barman_cloud.Base.{
  ◌≡◌, ◌≢◌, refl, false, Option, none, some, List, String, ◌==◌, string_eq, Bool-cases, inl, inr,
  eq_iff, sym, ◌∙◌,
}
use plugin_barman_cloud.Api.{EnvVar, Cluster}
use plugin_barman_cloud.Lifecycle.Injection.{SidecarConfiguration, default_env, sidecar_of}
use plugin_barman_cloud.Process.{Settings, first_missing}
use plugin_barman_cloud.Process.Managers.{
  ManagerCalls, start_instance, start_restore, maintenance_of,
}
use plugin_barman_cloud.Process.Servers.{extended_client}
use plugin_barman_cloud.Process.Commands.{
  instance_bindings, restore_bindings, Binds, run_instance, run_restore,
}
use plugin_barman_cloud.Process.Environment.{
  or_else, first_value, environment, environment-sidecar_of,
}

not_empty : (s : String) → s ≢ "" → (s == "") ≡ false
not_empty s h = elim (Bool-cases (s == "")) [ inl t ↦ absurd (h ((eq_iff s "").0 t)) | inr t ↦ t ]

get_or-or_else :
    (o rest : Option String) (d : String)
    → Option.get_or o d ≢ ""
    → Option.get_or rest "" ≡ d
    → Option.get_or (or_else o rest) "" ≡ Option.get_or o d
get_or-or_else none rest d h e = e
get_or-or_else (some v) rest d h e = refl

get_or-here :
    (o rest : Option String)
    → Option.get_or o "" ≢ ""
    → Option.get_or (or_else o rest) "" ≡ Option.get_or o ""
get_or-here none rest h = absurd (h refl)
get_or-here (some v) rest h = refl

module _ (sidecar_image : String) (cluster : Cluster) (main : List EnvVar) (args : List String)
    (config : SidecarConfiguration) where
  -- The environment of the injected sidecar.
  abbrev pub injected : String → String
  injected = environment (sidecar_of sidecar_image cluster main args config).env

  -- What the main container has for a variable, and else a default.
  abbrev pub main_or : String → String → String
  main_or n default = Option.get_or (first_value main n) default

  injected-default :
      (n d : String)
      → main_or n d ≢ ""
      → Option.get_or (first_value (default_env cluster config.env) n) "" ≡ d
      → injected n ≡ main_or n d
  injected-default n d h e =
      rw (environment-sidecar_of sidecar_image cluster main args config n)
        (get_or-or_else (first_value main n) (first_value (default_env cluster config.env) n) d h e)

  injected-main : (n : String) → main_or n "" ≢ "" → injected n ≡ main_or n ""
  injected-main n h =
      rw (environment-sidecar_of sidecar_image cluster main args config n)
        (get_or-here (first_value main n) (first_value (default_env cluster config.env) n) h)

  -- A setting that is bound to a variable of the sidecar.
  setting :
      (settings : Settings) (k n v : String)
      → (injected n ≢ "" → settings.get_string k ≡ injected n)
      → injected n ≡ v
      → v ≢ ""
      → settings.get_string k ≡ v
  setting settings k n v binds e h = binds (λ z. h (sym e ∙ z)) ∙ e

  -- The sidecar that the hook injects into a Pod starts: where the main container has a name for
  -- the Pod, and neither it nor the Cluster has an empty text for the namespace, the name of the
  -- Cluster or the spool directory, no required setting is missing, so the command starts the
  -- manager; and the maintenance is that of the Cluster and the Pod.
  pub run_instance-injected :
      {W E M K : Type 0} (calls : ManagerCalls W E M K) (settings : Settings) (client : K)
      → Binds instance_bindings settings injected
      → main_or "NAMESPACE" cluster.namespace ≢ ""
      → main_or "CLUSTER_NAME" cluster.name ≢ ""
      → main_or "POD_NAME" "" ≢ ""
      → main_or "SPOOL_DIRECTORY" "/controller/wal-restore-spool" ≢ ""
      → (run_instance calls settings ≡ start_instance calls settings)
        × (maintenance_of settings client ≡ record {
          client = extended_client client;
          cluster_key = record {
            namespace = main_or "NAMESPACE" cluster.namespace;
            name = main_or "CLUSTER_NAME" cluster.name;
          };
          current_pod_name = main_or "POD_NAME" "";
        })
  unfolding run_instance first_missing maintenance_of default_env
  run_instance-injected calls settings client binds namespace name pod spool =
      rw
        (setting settings "namespace" "NAMESPACE" _ binds.0
          (injected-default "NAMESPACE" cluster.namespace namespace refl) namespace)
        (rw
          (setting settings "cluster-name" "CLUSTER_NAME" _ binds.1.0
            (injected-default "CLUSTER_NAME" cluster.name name refl) name)
          (rw
            (setting settings "pod-name" "POD_NAME" _ binds.1.1.0 (injected-main "POD_NAME" pod)
              pod)
            (rw
              (setting settings "spool-directory" "SPOOL_DIRECTORY" _ binds.1.1.1.1.0
                (injected-default "SPOOL_DIRECTORY" "/controller/wal-restore-spool" spool refl)
                spool)
              (rw (not_empty _ namespace) (
                rw (not_empty _ name)
                  (rw (not_empty _ pod) (rw (not_empty _ spool) (refl, refl))))))))

  -- So does the one of a restore job, for which the name of the Cluster is not required.
  pub run_restore-injected :
      {W E M K : Type 0} (calls : ManagerCalls W E M K) (settings : Settings)
      → Binds restore_bindings settings injected
      → main_or "NAMESPACE" cluster.namespace ≢ ""
      → main_or "POD_NAME" "" ≢ ""
      → main_or "SPOOL_DIRECTORY" "/controller/wal-restore-spool" ≢ ""
      → run_restore calls settings ≡ start_restore calls settings
  unfolding run_restore first_missing default_env
  run_restore-injected calls settings binds namespace pod spool =
      rw
        (setting settings "namespace" "NAMESPACE" _ binds.0
          (injected-default "NAMESPACE" cluster.namespace namespace refl) namespace)
        (rw (setting settings "pod-name" "POD_NAME" _ binds.1.0 (injected-main "POD_NAME" pod) pod)
          (rw
            (setting settings "spool-directory" "SPOOL_DIRECTORY" _ binds.1.1.1.0
              (injected-default "SPOOL_DIRECTORY" "/controller/wal-restore-spool" spool refl) spool)
            (rw (not_empty _ namespace) (rw (not_empty _ pod) (rw (not_empty _ spool) refl)))))
