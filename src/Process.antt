-- ===== src/Process.antt =====
-- cmd/manager and internal/cmd: the processes of the plugin, and the settings that they read.
pub mod Scheme
pub mod Identity
pub mod Capabilities
pub mod Servers
pub mod Managers
pub mod Commands
pub mod Served
pub mod Environment
pub mod Starts
pub mod Health
pub mod Ordered
mod Tests
use plugin_barman_cloud.Base.{
  Bool, Option, none, some, List, [], ◌∷◌, String, ◌==◌, string_eq, if◌then◌else◌,
}

-- What viper answers for the name of a setting: `GetString` and `GetBool`.
pub record Settings : Type 0 where
  pub get_string : String → String
  pub get_bool : String → Bool

-- The loop over `requiredSettings`: the first one that is missing.
unfoldable pub first_missing : Settings → List String → Option String
first_missing settings [] = none
first_missing settings (k ∷ ks) =
    let rest = first_missing settings ks in if settings.get_string k == "" then some k else rest

-- `requiredSettings` of the commands `instance` and `restore`.
abbrev pub instance_required_settings : List String
instance_required_settings = "namespace" ∷ "cluster-name" ∷ "pod-name" ∷ "spool-directory" ∷ []

abbrev pub restore_required_settings : List String
restore_required_settings = "namespace" ∷ "pod-name" ∷ "spool-directory" ∷ []
