-- ===== src/Process/Tests.antt =====
-- The theorems on the processes, for a world that counts what a manager is given.
use plugin_barman_cloud.Base.{
  ℕ, ◌≡◌, ◌↔◌, refl, Bool, true, false, ◌&&◌, ◌||◌, not, arith, List, [], ◌∷◌, ◌++◌, String, ◌==◌,
  string_eq, differ, if◌then◌else◌,
}
use plugin_barman_cloud.Base.Exec.{ok, err, and_then, pure, Result}
use plugin_barman_cloud.Api.{EnvVar}
use plugin_barman_cloud.Lifecycle.Injection.{env_var, sidecar_of}
use plugin_barman_cloud.Lifecycle.Injection.Tests.{configuration}
use plugin_barman_cloud.Examples.{replica}
use plugin_barman_cloud.Process.{Settings}
use plugin_barman_cloud.Process.Identity.{
  metrics, instance_sidecar_injection, same_service, not_serving, check,
}
use plugin_barman_cloud.Process.Servers.{extended_client, InstanceCnpgi}
use plugin_barman_cloud.Process.Managers.{
  ManagerCalls, missing_setting, Runnable, catalog_maintenance, start_operator, start_instance,
  start_restore, maintenance_of, operator_cnpgi, restore_cnpgi, instance_cnpgi,
}
use plugin_barman_cloud.Process.Commands.{
  instance_bindings, run_instance, unix_health_check, exit_code,
}
use plugin_barman_cloud.Process.Served.{
  serves, server_of, contains_service, instance_sidecar, serves-capabilities,
}
use plugin_barman_cloud.Process.Starts.{injected, run_instance-injected}
use plugin_barman_cloud.Process.Ordered.{
  IsWhole, whole_operator, whole_instance, whole_restore, AddsFirst, start-Holds, Given, controller,
  healthz, readyz, runnable,
}
use plugin_barman_cloud.Process.Health.{Passes, exit_code-unix_health_check}

-- A manager is a number, which is its client too; the world is what managers were given to run.
abbrev calls : ManagerCalls (List (Runnable ℕ)) String ℕ ℕ
calls = record {
  scheme_calls = record {
    add_client_go = λ s. s;
    add_to_group_version = λ s g. s;
    cnpg_group_version = record { group = "postgresql.cnpg.io"; version = "v1" };
  };
  new_manager = λ options. pure 7;
  get_client = λ m. m;
  complete_controller = λ m. pure tt;
  add_healthz_check = λ m name. pure tt;
  add_readyz_check = λ m name. pure tt;
  add = λ m r w. (ok tt, w ++ r ∷ []);
  start = λ m. pure tt;
}

abbrev main : List EnvVar
main = env_var "PGDATA" "/pgdata" ∷ env_var "POD_NAME" "pg-1" ∷ []

-- viper without flags.
abbrev bound : List (String × String) → (String → String) → String → String
bound [] variables k = ""
bound (b ∷ bs) variables k =
    let rest = bound bs variables k in if k == b.0 then variables b.1 else rest

abbrev settings_of : (String → String) → Settings
settings_of variables = record {
  get_string = bound instance_bindings variables;
  get_bool = λ k. false;
}

abbrev variables : String → String
variables = injected "sidecar" replica main ("instance" ∷ []) configuration

abbrev settings : Settings
settings = settings_of variables

-- The maintenance of the Cluster is what the manager is given last.
maintained : List (Runnable ℕ) → Bool
maintained [] = false
maintained (catalog_maintenance c ∷ []) =
    c.cluster_key.namespace == "default"
    && (c.cluster_key.name == "pg" && c.current_pod_name == "pg-1")
maintained (r ∷ rs) = maintained rs

maintained_in_pod : maintained (run_instance calls settings []).1 ≡ true
unfolding run_instance maintained sidecar_of
maintained_in_pod = refl

-- Nothing is started where the Pod has no name.
abbrev nameless : Settings
nameless = settings_of (λ n. if n == "POD_NAME" then "" else "x")

not_started : run_instance calls nameless [] ≡ (err (missing_setting "pod-name"), [])
unfolding run_instance
not_started = refl

run_instance-injected_example :
    (run_instance calls settings ≡ start_instance calls settings)
    × (maintenance_of {K = ℕ} settings 7 ≡ record {
      client = extended_client 7;
      cluster_key = record { namespace = "default"; name = "pg" };
      current_pod_name = "pg-1";
    })
run_instance-injected_example =
    run_instance-injected "sidecar" replica main ("instance" ∷ []) configuration calls settings 7
      (
        (λ h. refl),
        (
          (λ h. refl),
          ((λ h. refl), ((λ h. refl), ((λ h. refl), ((λ h. refl), ((λ h. refl), tt))))),
        ),
      )
      (differ "default" "" refl) (differ "pg" "" refl) (differ "pg-1" "" refl)
      (differ "/controller/wal-restore-spool" "" refl)

abbrev instance_cnpgi_of : InstanceCnpgi ℕ
instance_cnpgi_of = record {
  client = extended_client 7;
  pg_data_path = "/pgdata";
  pg_wal_path = "/pgdata/pg_wal";
  spool_directory = "/spool";
  plugin_path = "";
  instance_name = "pg-1";
}

serves-capabilities_example :
    serves (server_of {E = String} (instance_sidecar instance_cnpgi_of)) metrics
    ≡ contains_service
        (server_of {E = String}
          (instance_sidecar instance_cnpgi_of)).identity_impl.get_plugin_capabilities
        metrics
      && not (same_service metrics instance_sidecar_injection)
serves-capabilities_example =
    serves-capabilities String ℕ (instance_sidecar instance_cnpgi_of) metrics

exit_code-unix_health_check_example :
    (exit_code {E = String} (λ e. false) (unix_health_check {C = ℕ} (ok 1) (λ c. ok not_serving))
      ≡ 0)
    ↔ Passes {E = String} (λ e. false) (and_then {E = String} {A = ℕ} (ok 1) (λ c. ok not_serving))
exit_code-unix_health_check_example =
    exit_code-unix_health_check {C = ℕ} (λ e. false) (ok 1) (λ c. ok not_serving)

-- The health server lets the probe pass.
probe_passes :
    exit_code {E = String} (λ e. false) (unix_health_check {C = ℕ} (ok 1) (λ c. ok check)) ≡ 0
unfolding exit_code unix_health_check
probe_passes = refl

-- A world that knows what a manager was given, and whether one was started without a server.
abbrev is_server : Given ℕ → Bool
is_server (runnable (operator_cnpgi c)) = true
is_server (runnable (instance_cnpgi c)) = true
is_server (runnable (restore_cnpgi c)) = true
is_server g = false

abbrev served : List (Given ℕ) → Bool
served [] = false
served (g ∷ gs) = is_server g || served gs

abbrev give : Given ℕ → List (Given ℕ) × Bool → Result String (Unit {0}) × (List (Given ℕ) × Bool)
give g w = (ok tt, (w.0 ++ g ∷ [], w.1))

abbrev watched : ManagerCalls (List (Given ℕ) × Bool) String ℕ ℕ
watched = record {
  scheme_calls = calls.scheme_calls;
  new_manager = λ options w. (ok 7, ([], w.1));
  get_client = λ m. m;
  complete_controller = λ m. give controller;
  add_healthz_check = λ m name. give (healthz name);
  add_readyz_check = λ m name. give (readyz name);
  add = λ m r. give (runnable r);
  start = λ m w. (ok tt, (w.0, w.1 || not (served w.0)));
}

served-append :
    (gs : List (Given ℕ)) (g : Given ℕ) → served (gs ++ g ∷ []) ≡ served gs || is_server g
served-append [] g = ground arith
served-append (h ∷ gs) g = rw (served-append gs g) ground arith

-- No manager was started without a server, and if a server is among what was given, the world has one.
abbrev IsServed : List (Given ℕ) → List (Given ℕ) × Bool → Type 0
IsServed gs w = (w.1 ≡ false) × (served gs ≡ true → served w.0 ≡ true)

IsServed-given :
    (g : Given ℕ) (gs : List (Given ℕ)) (w : List (Given ℕ) × Bool)
    → IsServed gs w
    → IsServed (gs ++ g ∷ []) (give g w).1
IsServed-given g gs w h =
    (h.0, rw (served-append gs g) (rw (served-append w.0 g) (widen _ _ (is_server g) h.1)))
  where
    widen : (a b c : Bool) → (a ≡ true → b ≡ true) → a || c ≡ true → b || c ≡ true
    widen true b c f e = rw (f refl) refl
    widen false b true f e = ground arith
    widen false b false f e = absurd (cc)

IsServed-weaken :
    (g : Given ℕ) (gs : List (Given ℕ)) (w : List (Given ℕ) × Bool)
    → IsServed gs w
    → IsServed [] (give g w).1
IsServed-weaken g gs w h = (h.0, λ e. absurd (cc))

IsServed-started :
    (gs : List (Given ℕ)) (w : List (Given ℕ) × Bool)
    → IsWhole gs
    → IsServed gs w
    → (w.1 || not (served w.0)) ≡ false
IsServed-started gs w (whole_operator c) h = rw (h.0) (rw (h.1 refl) refl)
IsServed-started gs w (whole_instance c m e) h = rw (h.0) (rw (h.1 refl) refl)
IsServed-started gs w (whole_restore c) h = rw (h.0) (rw (h.1 refl) refl)

watched-AddsFirst : AddsFirst watched IsServed
watched-AddsFirst = record {
  by_new = λ o w h. (h.0, λ e. absurd (cc));
  by_controller = λ m. IsServed-weaken controller;
  controller_given = λ m gs w u h e. IsServed-given controller gs w h;
  by_healthz = λ m n. IsServed-weaken (healthz n);
  healthz_given = λ m n gs w u h e. IsServed-given (healthz n) gs w h;
  by_readyz = λ m n. IsServed-weaken (readyz n);
  readyz_given = λ m n gs w u h e. IsServed-given (readyz n) gs w h;
  by_add = λ m r. IsServed-weaken (runnable r);
  added = λ m r gs w u h e. IsServed-given (runnable r) gs w h;
  by_start = λ m gs w whole h. (IsServed-started gs w whole h, λ e. absurd (cc));
}

start-Holds_example :
    IsServed [] (start_operator watched settings ([], false)).1
    × IsServed [] (start_instance watched settings ([], false)).1
    × IsServed [] (start_restore watched settings ([], false)).1
start-Holds_example =
    start-Holds watched settings IsServed watched-AddsFirst ([], false) (refl, λ e. absurd (cc))
