-- ===== src/Process/Scheme.antt =====
-- internal/cnpgi/common/scheme.go, internal/scheme/cnpg.go and api/v1/groupversion_info.go: the types
-- that the clients know.
use plugin_barman_cloud.Base.{
  ◌≡◌, refl, List, [], ◌∷◌, ◌++◌, String, ◌==◌, string_eq, if◌then◌else◌,
}
use plugin_barman_cloud.Process.{Settings}

pub record GroupVersion : Type 0 where
  pub group : String
  pub version : String

-- A `runtime.Scheme`: the kinds that were added, and under which group and version.
abbrev pub Scheme : Type 0
Scheme = List (GroupVersion × List String)

-- `clientgoscheme.AddToScheme`, `metav1.AddToGroupVersion` and CloudNativePG's own group and version.
pub record SchemeCalls : Type 0 where
  pub add_client_go : Scheme → Scheme
  pub add_to_group_version : Scheme → GroupVersion → Scheme
  pub cnpg_group_version : GroupVersion

-- `barmancloudv1.GroupVersion`
abbrev pub barman_group_version : GroupVersion
barman_group_version = record { group = "barmancloud.cnpg.io"; version = "v1" }

-- The kinds of CloudNativePG that the sidecar knows.
abbrev pub cnpg_kinds : List String
cnpg_kinds =
    "Cluster" ∷ "ClusterList" ∷ "Backup" ∷ "BackupList" ∷ "ScheduledBackup" ∷ "ScheduledBackupList"
    ∷ []

abbrev pub or_default : String → String → String
or_default value default = if value == "" then default else value

module _ (calls : SchemeCalls) where
  -- `AddKnownTypes`
  unfoldable pub add_known_types : Scheme → Scheme
  add_known_types scheme =
      calls.add_to_group_version
        (scheme ++ (barman_group_version, "ObjectStore" ∷ "ObjectStoreList" ∷ []) ∷ [])
        barman_group_version

  -- The group and the version of `custom-cnpg-group` and `custom-cnpg-version`.
  unfoldable pub custom_group_version : Settings → GroupVersion
  custom_group_version settings = record {
    group = or_default (settings.get_string "custom-cnpg-group") calls.cnpg_group_version.group;
    version =
        or_default (settings.get_string "custom-cnpg-version") calls.cnpg_group_version.version;
  }

  -- `GenerateScheme`
  unfoldable pub generate_scheme : Settings → Scheme
  unfolding add_known_types custom_group_version
  generate_scheme settings =
      let custom = custom_group_version settings in
      calls.add_to_group_version
        (calls.add_client_go (add_known_types []) ++ (custom, cnpg_kinds) ∷ []) custom

  -- `AddCNPGToScheme`
  unfoldable pub add_cnpg_to_scheme : Settings → Scheme → Scheme
  unfolding custom_group_version
  add_cnpg_to_scheme settings scheme =
      let custom = custom_group_version settings in
      calls.add_to_group_version (scheme ++ (custom, cnpg_kinds) ∷ []) custom

  -- `init` of the operator: CloudNativePG's types are not among its own.
  unfoldable pub operator_scheme : Scheme
  unfolding add_known_types
  operator_scheme = add_known_types (calls.add_client_go [])

  -- The sidecar's scheme has what `AddCNPGToScheme` adds.
  generate_scheme-add_cnpg :
      (settings : Settings)
      → generate_scheme settings
        ≡ add_cnpg_to_scheme settings (calls.add_client_go (add_known_types []))
  unfolding generate_scheme add_cnpg_to_scheme
  generate_scheme-add_cnpg settings = refl
