-- ===== src/Controller/Tests.antt =====
-- The theorems on the reconciliation of an ObjectStore, on an API server that counts.
use plugin_barman_cloud.Base.{◌≡◌, none, [], ◌∷◌, String, string_eq}
use plugin_barman_cloud.Base.Exec.{ok}
use plugin_barman_cloud.Rbac.Specs.{Role}
use plugin_barman_cloud.Controller.{ControllerCalls}
use plugin_barman_cloud.Examples.{store}
use plugin_barman_cloud.Examples.ApiServer.{Server}

abbrev other_role : Role
other_role = record {
  namespace = "default";
  name = "other";
  labels = [];
  owner_references = [];
  rules = [];
}

-- The one Role of the server does not name the ObjectStore.
abbrev calls : ControllerCalls Server String
calls = record {
  list_labelled_roles = λ namespace w. (ok (other_role ∷ []), w);
  get_object_store = λ key w. (ok store, w);
}

-- The RoleBinding of the server stays as it is.
abbrev Keeps : Server → Type 0
Keeps w = w.1 ≡ none
