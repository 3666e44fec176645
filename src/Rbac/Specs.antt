-- ===== src/Rbac/Specs.antt =====
-- internal/cnpgi/operator/specs: the Role and the RoleBinding that a Cluster should have.
pub mod Grants
use Prim.Native.String
use plugin_barman_cloud.Base.{
  Bool, true, false, ◌&&◌, not, Option, none, some, List, [], ◌∷◌, ◌++◌, String, StringMap, ◌==◌,
  string_eq, if◌then◌else◌,
}
use plugin_barman_cloud.Api.{
  Cluster, SecretKeySelector, S3Credentials, AzureCredentials, GoogleCredentials, BarmanCredentials,
  ObjectStore,
}

-- A `rbacv1.PolicyRule`, an absent list being empty.
pub record PolicyRule : Type 0 where
  pub api_groups : List String
  pub verbs : List String
  pub resources : List String
  pub resource_names : List String

pub record Subject : Type 0 where
  pub kind : String
  pub api_group : String
  pub name : String
  pub namespace : String

pub record RoleRef : Type 0 where
  pub api_group : String
  pub kind : String
  pub name : String

pub record OwnerReference : Type 0 where
  pub api_version : String
  pub kind : String
  pub name : String
  pub uid : String
  pub block_owner_deletion : Bool
  pub controller : Bool

pub record Role : Type 0 where
  pub namespace : String
  pub name : String
  pub labels : StringMap
  pub owner_references : List OwnerReference
  pub rules : List PolicyRule

pub record RoleBinding : Type 0 where
  pub namespace : String
  pub name : String
  pub labels : StringMap
  pub owner_references : List OwnerReference
  pub subjects : List Subject
  pub role_ref : RoleRef

-- `BuildLabels` takes the recommended labels' names, and the value of the component, from
-- CloudNativePG's `utils`.
pub record LabelNames : Type 0 where
  pub app : String
  pub instance_name : String
  pub version : String
  pub component : String
  pub managed_by : String
  pub database_component : String

-- `metadata.ClusterLabelName`
abbrev pub cluster_label_name : String
cluster_label_name = "barmancloud.cnpg.io/cluster"

abbrev pub app_label_value : String
app_label_value = "barman-cloud-plugin"

abbrev pub managed_by_label_value : String
managed_by_label_value = "plugin-barman-cloud"

-- `metadata.Data.Version`
abbrev pub plugin_version : String
plugin_version = "0.14.0"

-- `barmancloudv1.GroupVersion.Group`
abbrev pub api_group : String
api_group = "barmancloud.cnpg.io"

unfoldable pub get_rbac_name : String → String
get_rbac_name cluster_name = String.◌++◌ cluster_name "-barman-cloud"

-- The Go map, as the entries of its literal.
unfoldable pub build_labels : LabelNames → Cluster → StringMap
build_labels names cluster =
    (cluster_label_name, cluster.name)
    ∷ (names.app, app_label_value)
    ∷ (names.instance_name, cluster.name)
    ∷ (names.version, plugin_version)
    ∷ (names.component, names.database_component)
    ∷ (names.managed_by, managed_by_label_value)
    ∷ []

-- The references of the three stanzas; nil ones are `none`.
abbrev pub aws_references : Option S3Credentials → List (Option SecretKeySelector)
aws_references none = []
aws_references (some c) = c.access_key_id ∷ c.secret_access_key ∷ c.region ∷ c.session_token ∷ []

abbrev pub azure_references : Option AzureCredentials → List (Option SecretKeySelector)
azure_references none = []
azure_references (some c) =
    if not c.use_default_azure_credentials && not c.inherit_from_azure_ad
    then c.connection_string ∷ c.storage_account ∷ c.storage_key ∷ c.storage_sas_token ∷ []
    else []

abbrev pub google_references : Option GoogleCredentials → List (Option SecretKeySelector)
google_references none = []
google_references (some c) = c.application_credentials ∷ []

-- The loop that skips nil references.
abbrev pub reference_names : List (Option SecretKeySelector) → List String
reference_names [] = []
reference_names (none ∷ rs) = reference_names rs
reference_names (some r ∷ rs) = r.name ∷ reference_names rs

unfoldable pub collect_secret_names_from_credentials : BarmanCredentials → List String
collect_secret_names_from_credentials c =
    reference_names
      (aws_references c.aws ++ (azure_references c.azure ++ google_references c.google))

-- What the loop of `BuildRoleRules` puts into its two sets, in order.
unfoldable pub object_store_names : List ObjectStore → List String
object_store_names [] = []
object_store_names (o ∷ os) = o.name ∷ object_store_names os

unfoldable pub secret_names : List ObjectStore → List String
unfolding collect_secret_names_from_credentials
secret_names [] = []
secret_names (o ∷ os) =
    collect_secret_names_from_credentials o.spec.configuration.credentials ++ secret_names os

-- The test of `ObjectStoreNamesFromRole` on a rule.
abbrev pub is_only : List String → String → Bool
is_only (x ∷ []) y = x == y
is_only _ y = false

abbrev pub is_object_store_rule : PolicyRule → Bool
is_object_store_rule r = is_only r.api_groups api_group && is_only r.resources "objectstores"

abbrev pub names_from_rules : List PolicyRule → List String
names_from_rules [] = []
names_from_rules (r ∷ rs) = if is_object_store_rule r then r.resource_names else names_from_rules rs

unfoldable pub object_store_names_from_role : Role → List String
object_store_names_from_role role = names_from_rules role.rules

-- `gvk.GroupVersion().String()`
abbrev pub group_version : String → String → String
group_version group version =
    if group == "" then version else String.◌++◌ group (String.◌++◌ "/" version)

-- `SetControllerReference`: the references that it sets. A Cluster is always a `runtime.Object`, so
-- the first check passes; the error for a missing kind is `none`.
unfoldable pub controller_references : Cluster → Option (List OwnerReference)
controller_references owner =
    if owner.kind == ""
    then none
    else some (
        (record {
          api_version = group_version owner.group owner.version;
          kind = owner.kind;
          name = owner.name;
          uid = owner.uid;
          block_owner_deletion = true;
          controller = true;
        })
        ∷ [])

unfoldable pub build_role_binding : LabelNames → Cluster → RoleBinding
unfolding get_rbac_name build_labels
build_role_binding names cluster = record {
  namespace = cluster.namespace;
  name = get_rbac_name cluster.name;
  labels = build_labels names cluster;
  owner_references = [];
  subjects =
      (record {
        kind = "ServiceAccount";
        api_group = "";
        name = cluster.name;
        namespace = cluster.namespace;
      })
      ∷ [];
  role_ref = record {
    api_group = "rbac.authorization.k8s.io";
    kind = "Role";
    name = get_rbac_name cluster.name;
  };
}

-- `stringset.Data`'s `ToSortedList`, of what was put into the set.
module _ (to_sorted_list : List String → List String) where
  unfoldable pub build_role_rules : List ObjectStore → List PolicyRule
  unfolding object_store_names secret_names
  build_role_rules barman_objects =
      (record {
        api_groups = api_group ∷ [];
        verbs = "get" ∷ "watch" ∷ "list" ∷ [];
        resources = "objectstores" ∷ [];
        resource_names = to_sorted_list (object_store_names barman_objects);
      })
      ∷ (record {
        api_groups = api_group ∷ [];
        verbs = "update" ∷ [];
        resources = "objectstores/status" ∷ [];
        resource_names = to_sorted_list (object_store_names barman_objects);
      })
      ∷ (record {
        api_groups = "" ∷ [];
        verbs = "get" ∷ "watch" ∷ "list" ∷ [];
        resources = "secrets" ∷ [];
        resource_names = to_sorted_list (secret_names barman_objects);
      })
      ∷ []

  unfoldable pub build_role : LabelNames → Cluster → List ObjectStore → Role
  unfolding get_rbac_name build_labels build_role_rules
  build_role names cluster barman_objects = record {
    namespace = cluster.namespace;
    name = get_rbac_name cluster.name;
    labels = build_labels names cluster;
    owner_references = [];
    rules = build_role_rules barman_objects;
  }
