-- ===== src/Reconciler/Tests.antt =====
-- The theorems on the Pre hook, on a Cluster whose ObjectStores are there, and on one whose are not.
use mathlib.Core.Option
use plugin_barman_cloud.Base.{◌≡◌, refl, some, List, String, lookup, string_eq, arith}
use plugin_barman_cloud.Base.Exec.{ok, err}
use plugin_barman_cloud.Api.{NamespacedName, Cluster, ObjectStore}
use plugin_barman_cloud.Config.{new_from_cluster, get_referred_barman_objects_key}
use plugin_barman_cloud.Rbac.Specs.{build_role_rules, build_labels, get_rbac_name}
use plugin_barman_cloud.Rbac.Ensure.{ensure_role}
use plugin_barman_cloud.Rbac.Binding.{ensure_role_binding}
use plugin_barman_cloud.Rbac.Ensure.Converge.{IsDesired}
use plugin_barman_cloud.Reconciler.{proceed, requeue, HookCalls, pre_cluster}
use plugin_barman_cloud.Reconciler.Pre.{StoreLaws, AreOf, Fetched, pre-ensured, pre-Holds}
use plugin_barman_cloud.Examples.{replica, store}
use plugin_barman_cloud.Examples.ApiServer.{
  label_names, empty_server, labels-IsMap, parameters, Server, server_client,
  server_client-RetryLaws, server_client-RoleLaws,
}

-- Every ObjectStore is there, with the same specification.
abbrev stores : HookCalls Server String Cluster
stores = record {
  get_kind = λ c. ok c.kind;
  decode = λ c. ok c;
  get_object_store = λ key w. (ok (record store { namespace = key.namespace; name = key.name }), w);
}

stores-StoreLaws : StoreLaws stores
stores-StoreLaws = record { named = named }
  where
    named :
        (key : NamespacedName) (w : Server) (o : ObjectStore)
        → (stores.get_object_store key w).0 ≡ ok o
        → (o.namespace ≡ key.namespace) × (o.name ≡ key.name)
    named key w o h = ground arith

abbrev no_stores : HookCalls Server String Cluster
no_stores = record {
  get_kind = λ c. ok c.kind;
  decode = λ c. ok c;
  get_object_store = λ key w. (err "not found", w);
}

proceeds : (pre_cluster server_client parameters stores replica empty_server).0 ≡ ok proceed
unfolding pre_cluster lookup Option.bind
proceeds = refl

pre-ensured_example :
    (os : List ObjectStore) × (v : Server) × Fetched stores
      (get_referred_barman_objects_key (λ xs. xs) (new_from_cluster replica))
      empty_server
      os
      v
    × AreOf (get_referred_barman_objects_key (λ xs. xs) (new_from_cluster replica)) os
    × IsDesired server_client parameters server_client-RetryLaws server_client-RoleLaws
        (record { namespace = "default"; name = get_rbac_name "pg" })
        (build_role_rules (λ xs. xs) os)
        (some (build_labels label_names replica))
        (ensure_role server_client parameters replica os v).1
    × (pre_cluster server_client parameters stores replica empty_server ≡ (
      ok proceed,
      (ensure_role_binding server_client parameters replica
          (ensure_role server_client parameters replica os v).1).1,
    ))
pre-ensured_example =
    pre-ensured server_client parameters stores server_client-RetryLaws server_client-RoleLaws
      stores-StoreLaws replica empty_server labels-IsMap proceeds

asks_again : (pre_cluster server_client parameters no_stores replica empty_server).0 ≡ ok requeue
unfolding pre_cluster lookup
asks_again = refl

pre-Holds_example :
    (pre_cluster server_client parameters no_stores replica empty_server).1 ≡ empty_server
pre-Holds_example =
    pre-Holds server_client parameters no_stores (λ w. w ≡ empty_server) (λ key w h. h) replica
      empty_server refl asks_again
