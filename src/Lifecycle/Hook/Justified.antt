-- ===== src/Lifecycle/Hook/Justified.antt =====
-- Which objects the hook changes.
use plugin_barman_cloud.Base.{◌≡◌, none, String, string_eq}
use plugin_barman_cloud.Base.Exec.{ok, Exec}
use plugin_barman_cloud.Api.{Cluster}
use plugin_barman_cloud.Config.{new_from_cluster, validate}
use plugin_barman_cloud.Lifecycle.Requests.{OperatorLifecycleRequest, HookCalls}
use plugin_barman_cloud.Lifecycle.Hook.Objects.{Justified}

module _ {W E J P : Type 0} (calls : HookCalls W E J P) where
  -- The request whose patch it is: its kind, its Cluster, which has a valid configuration, and the
  -- object that the patch is of.
  pub record IsJustified (request : OperatorLifecycleRequest J) (patch : P) : Type 0 where
    pub kind : String
    pub cluster : Cluster
    pub kind_read : calls.get_kind request.object_definition ≡ ok kind
    pub cluster_read : calls.decode_cluster request.cluster_definition ≡ ok cluster
    pub is_valid : validate (new_from_cluster cluster) ≡ none
    pub justified : Justified calls kind request.object_definition cluster patch
