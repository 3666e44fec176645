-- ===== src/Controller/Touched.antt =====
-- Which Roles a reconciliation touches, and that an error on one does not keep it from the others.
use mathlib.Core.List.{append_assoc}
use plugin_barman_cloud.Base.{◌≡◌, refl, sym, ap, List, [], ◌∷◌, ◌++◌, String, contains, string_eq}
use plugin_barman_cloud.Api.{Cluster, ObjectStore}
use plugin_barman_cloud.Rbac.Specs.{
  Role, LabelNames, object_store_names_from_role, object_store_names, build_role,
}
use plugin_barman_cloud.Rbac.Ensure.{RbacClient, RbacParameters}
use plugin_barman_cloud.Controller.{ControllerCalls, reconcile_one, reconcile_roles}

-- A Role that was built for some ObjectStores is found again by each of them and by no other: the
-- names that are read back from its rules have the members that were put in.
pub names-build_role :
    (to_sorted_list : List String → List String)
    (same_members : (xs : List String) (x : String)
      → contains (to_sorted_list xs) x ≡ contains xs x)
    (names : LabelNames) (cluster : Cluster) (os : List ObjectStore) (n : String)
    → contains (object_store_names_from_role (build_role to_sorted_list names cluster os)) n
      ≡ contains (object_store_names os) n
unfolding object_store_names_from_role build_role
names-build_role to_sorted_list same_members names cluster os n =
    same_members (object_store_names os) n

module _ {W E : Type 0} (client : RbacClient W E) (env : RbacParameters)
    (calls : ControllerCalls W E) where
  -- The loop goes over all Roles: what it does on some Roles and then others is what it does on the
  -- first ones, whatever their errors, followed by what it does on the others in the world that is
  -- left, and all errors are collected.
  pub reconcile_roles-append :
      (object_store : String) (roles roles' : List Role) (w : W)
      → reconcile_roles client env calls object_store (roles ++ roles') w ≡ (
        (reconcile_roles client env calls object_store roles w).0
            ++ (reconcile_roles client env calls object_store roles'
                (reconcile_roles client env calls object_store roles w).1).0,
        (reconcile_roles client env calls object_store roles'
            (reconcile_roles client env calls object_store roles w).1).1,
      )
  unfolding reconcile_roles
  reconcile_roles-append object_store [] roles' w = refl
  reconcile_roles-append object_store (role ∷ roles) roles' w =
      let first = reconcile_one client env calls object_store role w in
      let rest = reconcile_roles-append object_store roles roles' first.1 in
      let done = reconcile_roles client env calls object_store roles first.1 in
      let others = reconcile_roles client env calls object_store roles' done.1 in
      rw (rest) (ap (λ es. (es, others.1)) (sym (append_assoc first.0 done.0 others.0)))
