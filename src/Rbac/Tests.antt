-- ===== src/Rbac/Tests.antt =====
-- The theorems on internal/cnpgi/operator/rbac, over that server.
use plugin_barman_cloud.Base.{
  ◌≡◌, ◌⊎◌, refl, true, false, none, some, List, [], ◌∷◌, ◌++◌, String, lookup, contains, string_eq,
}
use plugin_barman_cloud.Base.Exec.{ok, err}
use plugin_barman_cloud.Api.{NamespacedName, ObjectStore}
use plugin_barman_cloud.Rbac.Specs.{
  Subject, Role, RoleBinding, build_role_rules, build_labels, get_rbac_name, build_role_binding,
  secret_names,
}
use plugin_barman_cloud.Rbac.Specs.Grants.{rules_allow}
use plugin_barman_cloud.Rbac.Merge.{merge_subjects, contains_subject}
use plugin_barman_cloud.Rbac.Merge.Laws.{merge_subjects-append}
use plugin_barman_cloud.Rbac.Ensure.{patch_role, ensure_role, ensure_role_rules}
use plugin_barman_cloud.Rbac.Ensure.Converge.{
  IsDesired, ensure_role-IsDesired, ensure_role_rules-IsDesired,
}
use plugin_barman_cloud.Rbac.Binding.{ensure_role_binding}
use plugin_barman_cloud.Rbac.Binding.Grants.{ensure_role_binding-Holds}
use plugin_barman_cloud.Examples.Equality.{subject_eq}
use plugin_barman_cloud.Examples.ApiServer.{
  label_names, parameters, server_client, server_client-RetryLaws, server_client-RoleLaws,
  empty_server, labels-IsMap, Grants, Grants-KeptByAdditions,
}
use plugin_barman_cloud.Examples.{replica, store}

abbrev service_account : String → Subject
service_account name = record {
  kind = "ServiceAccount";
  api_group = "";
  name = name;
  namespace = "default";
}

merge_subjects-append_example :
    (added : List Subject) × (merge_subjects
        (service_account "other" ∷ [])
        (service_account "pg" ∷ [])
      ≡ (service_account "other" ∷ []) ++ added)
merge_subjects-append_example =
    merge_subjects-append (service_account "other" ∷ []) (service_account "pg" ∷ [])

ensure_role_succeeds :
    (ensure_role server_client parameters replica (store ∷ []) empty_server).0 ≡ ok tt
unfolding ensure_role lookup
ensure_role_succeeds = refl

ensure_role-IsDesired_example :
    IsDesired server_client parameters server_client-RetryLaws server_client-RoleLaws
      (record { namespace = "default"; name = get_rbac_name "pg" })
      (build_role_rules (λ xs. xs) (store ∷ []))
      (some (build_labels label_names replica))
      (ensure_role server_client parameters replica (store ∷ []) empty_server).1
ensure_role-IsDesired_example =
    ensure_role-IsDesired server_client parameters server_client-RetryLaws server_client-RoleLaws
      replica (store ∷ []) empty_server labels-IsMap ensure_role_succeeds

abbrev old_role : Role
old_role = record {
  namespace = "default";
  name = "r";
  labels = [];
  owner_references = [];
  rules = [];
}

abbrev old_key : NamespacedName
old_key = record { namespace = "default"; name = "r" }

ensure_role_rules_succeeds :
    (ensure_role_rules server_client parameters old_key (store ∷ []) (some old_role, none)).0
    ≡ ok tt
unfolding ensure_role_rules
ensure_role_rules_succeeds = refl

ensure_role_rules-IsDesired_example :
    IsDesired server_client parameters server_client-RetryLaws server_client-RoleLaws old_key
      (build_role_rules (λ xs. xs) (store ∷ []))
      none
      (ensure_role_rules server_client parameters old_key (store ∷ []) (some old_role, none)).1
    ⊎ ((e : String) × ((patch_role server_client parameters old_key
            (build_role_rules (λ xs. xs) (store ∷ []))
            none
            (some old_role, none)).0
          ≡ err e)
        × (server_client.is_not_found e ≡ true))
ensure_role_rules-IsDesired_example =
    ensure_role_rules-IsDesired server_client parameters server_client-RetryLaws
      server_client-RoleLaws old_key (store ∷ []) (some old_role, none) ensure_role_rules_succeeds

-- The RoleBinding of "pg", to which somebody has added "other".
abbrev shared_binding : RoleBinding
unfolding build_role_binding
shared_binding = record (build_role_binding label_names replica) {
  subjects = service_account "other" ∷ [];
  labels = [];
}

other_is_granted : Grants (service_account "other") (none, some shared_binding)
unfolding shared_binding contains_subject contains
other_is_granted = refl

ensure_role_binding-Holds_example :
    Grants
      (service_account "other")
      (ensure_role_binding server_client parameters replica (none, some shared_binding)).1
ensure_role_binding-Holds_example =
    ensure_role_binding-Holds server_client parameters server_client-RetryLaws
      (Grants (service_account "other")) (Grants-KeptByAdditions (service_account "other")) replica
      (none, some shared_binding) other_is_granted

other_secret_refused :
    rules_allow (build_role_rules (λ names. names) (store ∷ [])) "get" "" "secrets" "other" ≡ false
unfolding build_role_rules contains secret_names
other_secret_refused = refl

-- An ObjectStore whose credentials are inherited names no Secret.
abbrev inheriting : ObjectStore
inheriting = record store {
  spec = record store.spec {
    configuration = record store.spec.configuration {
      credentials = record { aws = none; azure = none; google = none };
    };
  };
}

any_secret_allowed :
    rules_allow (build_role_rules (λ names. names) (inheriting ∷ [])) "get" "" "secrets" "other"
    ≡ true
unfolding build_role_rules contains secret_names
any_secret_allowed = refl
