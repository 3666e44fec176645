-- ===== src/Reconciler.antt =====
-- internal/cnpgi/operator/reconciler.go: the hooks around the reconciliation of a Cluster.
pub mod Pre
mod Tests
use plugin_barman_cloud.Base.{
  Bool, true, false, Option, none, some, List, [], ◌∷◌, String, ◌==◌, string_eq, if◌then◌else◌,
}
use plugin_barman_cloud.Base.Exec.{Result, ok, err, Exec, pure, fail, lift, try, ◌>>=◌, ◌>>◌}
use plugin_barman_cloud.Api.{NamespacedName, Cluster, ObjectStore}
use plugin_barman_cloud.Config.{
  PluginConfiguration, new_from_cluster, get_referred_barman_objects_key,
}
use plugin_barman_cloud.Rbac.Ensure.{RbacClient, RbacParameters, ensure_role}
use plugin_barman_cloud.Rbac.Binding.{ensure_role_binding}

-- The behaviours of a `ReconcilerHooksResult` that the hooks use.
pub data Behavior : Type 0 where
  proceed : Behavior
  requeue : Behavior

-- What the hooks call beside the client of `rbac`: the kind and the decoder of the definition in a
-- request of type `J`, and the `Get` of an ObjectStore.
pub record HookCalls (W E J : Type 0) : Type 0 where
  pub get_kind : J → Result E String
  pub decode : J → Result E Cluster
  pub get_object_store : NamespacedName → Exec W E ObjectStore

module _ {W E J : Type 0} (client : RbacClient W E) (env : RbacParameters)
    (calls : HookCalls W E J) where
  -- An ObjectStore before the others, unless one of them is missing.
  abbrev pub prepend : ObjectStore → Option (List ObjectStore) → Option (List ObjectStore)
  prepend o none = none
  prepend o (some os) = some (o ∷ os)

  -- What follows the `Get` of an ObjectStore.
  abbrev pub fetch_rest :
      Exec W E (Option (List ObjectStore))
      → Result E ObjectStore
      → Exec W E (Option (List ObjectStore))
  fetch_rest rest (ok o) = rest >>= λ os. pure (prepend o os)
  fetch_rest rest (err e) = if client.is_not_found e then pure none else fail e

  -- The loop over the referred keys; `none` is the early return with a requeue.
  unfoldable pub fetch_objects : List NamespacedName → Exec W E (Option (List ObjectStore))
  fetch_objects [] = pure (some [])
  fetch_objects (key ∷ keys) =
      let rest = fetch_objects keys in try (calls.get_object_store key) >>= fetch_rest rest

  -- The end of `Pre`.
  abbrev pub ensure_access : Cluster → Option (List ObjectStore) → Exec W E Behavior
  ensure_access cluster none = pure requeue
  ensure_access cluster (some barman_objects) =
      ensure_role client env cluster barman_objects
      >> (ensure_role_binding client env cluster >> pure proceed)

  -- `Pre` on a Cluster.
  unfoldable pub pre_cluster : Cluster → Exec W E Behavior
  unfolding new_from_cluster get_referred_barman_objects_key fetch_objects ensure_role
      ensure_role_binding
  pre_cluster cluster =
      fetch_objects (get_referred_barman_objects_key env.to_sorted_list (new_from_cluster cluster))
      >>= ensure_access cluster

  -- `Pre`
  unfoldable pub pre : J → Exec W E Behavior
  unfolding pre_cluster
  pre definition = lift (calls.get_kind definition) >>= λ kind.
      if kind == "Cluster" then (lift (calls.decode definition) >>= pre_cluster) else pure proceed

  -- `Post`
  abbrev pub post : J → Exec W E Behavior
  post definition = pure proceed
