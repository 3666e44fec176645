-- ===== src/Process/Commands.antt =====
-- internal/cmd and cmd/manager: the commands, where their settings come from, and what the process
-- exits with.
use plugin_barman_cloud.Base.{
  ◌≡◌, ◌≢◌, All, ℕ, Bool, Option, none, some, List, [], ◌∷◌, String, ◌==◌, string_eq, if◌then◌else◌,
}
use plugin_barman_cloud.Base.Exec.{Result, ok, err, Exec, fail}
use plugin_barman_cloud.Process.{
  Settings, first_missing, instance_required_settings, restore_required_settings,
}
use plugin_barman_cloud.Process.Identity.{HealthStatus, unknown, serving, not_serving, other_status}
use plugin_barman_cloud.Process.Managers.{
  ManagerCalls, CommandError, missing_setting, missing_sidecar_image, start_operator,
  start_instance, start_restore,
}

-- The settings that `viper.BindEnv` binds to variables of the environment.
abbrev pub instance_bindings : List (String × String)
instance_bindings =
    ("namespace", "NAMESPACE")
    ∷ ("cluster-name", "CLUSTER_NAME")
    ∷ ("pod-name", "POD_NAME")
    ∷ ("pgdata", "PGDATA")
    ∷ ("spool-directory", "SPOOL_DIRECTORY")
    ∷ ("custom-cnpg-group", "CUSTOM_CNPG_GROUP")
    ∷ ("custom-cnpg-version", "CUSTOM_CNPG_VERSION")
    ∷ []

abbrev pub restore_bindings : List (String × String)
restore_bindings =
    ("namespace", "NAMESPACE")
    ∷ ("pod-name", "POD_NAME")
    ∷ ("pgdata", "PGDATA")
    ∷ ("spool-directory", "SPOOL_DIRECTORY")
    ∷ ("custom-cnpg-group", "CUSTOM_CNPG_GROUP")
    ∷ ("custom-cnpg-version", "CUSTOM_CNPG_VERSION")
    ∷ []

-- viper's documented behaviour for those: a variable that is set, and not empty, is the value of the
-- setting.
abbrev pub Binds : List (String × String) → Settings → (String → String) → Type 0
Binds bindings settings environment =
    All (λ b. environment b.1 ≢ "" → settings.get_string b.0 ≡ environment b.1) bindings

module _ {W E : Type 0} where
  abbrev pub unless_missing :
      Option String → Exec W (CommandError E) (Unit {0}) → Exec W (CommandError E) (Unit {0})
  unless_missing (some k) start = fail (missing_setting k)
  unless_missing none start = start

module _ {W E M K : Type 0} (calls : ManagerCalls W E M K) (settings : Settings) where
  -- The `RunE` of the commands.
  unfoldable pub run_operator : Exec W (CommandError E) (Unit {0})
  unfolding start_operator
  run_operator =
      if settings.get_string "sidecar-image" == ""
      then fail missing_sidecar_image
      else start_operator calls settings

  unfoldable pub run_instance : Exec W (CommandError E) (Unit {0})
  unfolding first_missing start_instance
  run_instance =
      unless_missing (first_missing settings instance_required_settings)
        (start_instance calls settings)

  unfoldable pub run_restore : Exec W (CommandError E) (Unit {0})
  unfolding first_missing start_restore
  run_restore =
      unless_missing (first_missing settings restore_required_settings)
        (start_restore calls settings)

-- How a command ends: it returns, with an error or none, or it calls `os.Exit`.
pub data Ending (E : Type 0) : Type 0 where
  returns : Option E → Ending E
  exits : ℕ → Ending E

-- `unixHealthCheck` on the answer of the server, once there is a client.
unfoldable pub health_check_status : {E : Type 0} → Result E HealthStatus → Ending E
health_check_status (err e) = returns (some e)
health_check_status (ok serving) = exits 0
health_check_status (ok unknown) = exits 2
health_check_status (ok not_serving) = exits 3
health_check_status (ok other_status) = exits 125

-- `unixHealthCheck`: `new_client` is `grpc.NewClient`, of a client of type `C`.
unfoldable pub unix_health_check :
    {E C : Type 0} → Result E C → (C → Result E HealthStatus) → Ending E
unfolding health_check_status
unix_health_check (err e) check = returns (some e)
unix_health_check (ok client) check = health_check_status (check client)

-- `main`: the code that the process exits with; `is_canceled` is `errors.Is(err, context.Canceled)`.
unfoldable pub exit_code : {E : Type 0} → (E → Bool) → Ending E → ℕ
exit_code is_canceled (exits n) = n
exit_code is_canceled (returns none) = 0
exit_code is_canceled (returns (some e)) = if is_canceled e then 0 else 1
