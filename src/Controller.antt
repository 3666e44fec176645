-- ===== src/Controller.antt =====
-- internal/controller/objectstore_controller.go: the Roles follow the ObjectStores.
pub mod Touched
mod Tests
use plugin_barman_cloud.Base.{
  Bool, true, false, Option, none, some, List, [], ◌∷◌, ◌++◌, String, contains, ◌==◌, string_eq,
  if◌then◌else◌,
}
use plugin_barman_cloud.Base.Exec.{Result, ok, err, Exec, pure, fail, try, wrapping, ◌>>=◌}
use plugin_barman_cloud.Api.{NamespacedName, ObjectStore}
use plugin_barman_cloud.Rbac.Specs.{Role, object_store_names_from_role}
use plugin_barman_cloud.Rbac.Ensure.{RbacClient, RbacParameters, ensure_role_rules, role_key}

-- The calls beside those of `rbac`: the list of the Roles of a namespace that have the label of the
-- plugin, and the `Get` of an ObjectStore.
pub record ControllerCalls (W E : Type 0) : Type 0 where
  pub list_labelled_roles : String → Exec W E (List Role)
  pub get_object_store : NamespacedName → Exec W E ObjectStore

-- Why a Role could not be reconciled, by the name of the ObjectStore where it was a `Get`.
pub data RoleError (E : Type 0) : Type 0 where
  while_getting : String → E → RoleError E
  while_ensuring : E → RoleError E

-- The error of a reconciliation; the joined errors carry the names of their Roles.
pub data ReconcileError (E : Type 0) : Type 0 where
  while_listing : E → ReconcileError E
  joined : List (String × RoleError E) → ReconcileError E

module _ {W E : Type 0} (client : RbacClient W E) (env : RbacParameters)
    (calls : ControllerCalls W E) where
  -- What follows a `Get` in the loop of `reconcileRoleRules`.
  abbrev pub collect_rest :
      String
      → Exec W (RoleError E) (List ObjectStore)
      → Result E ObjectStore
      → Exec W (RoleError E) (List ObjectStore)
  collect_rest name rest (ok o) = rest >>= λ os. pure (o ∷ os)
  collect_rest name rest (err e) =
      if client.is_not_found e then rest else fail (while_getting name e)

  -- The loop: a missing ObjectStore is skipped, any other error ends it.
  unfoldable pub collect_objects : String → List String → Exec W (RoleError E) (List ObjectStore)
  collect_objects namespace [] = pure []
  collect_objects namespace (name ∷ names) =
      let rest = collect_objects namespace names in
      try (calls.get_object_store (record { namespace = namespace; name = name }))
      >>= collect_rest name rest

  -- `reconcileRoleRules`
  unfoldable pub reconcile_role_rules : Role → List String → Exec W (RoleError E) (Unit {0})
  unfolding collect_objects ensure_role_rules
  reconcile_role_rules role object_store_names =
      collect_objects role.namespace object_store_names >>= λ barman_objects.
      wrapping while_ensuring (ensure_role_rules client env (role_key role) barman_objects)

  -- An error that is collected, if it is one.
  abbrev pub collect_error :
      String
      → Result (RoleError E) (Unit {0})
      → List (String × RoleError E)
      → List (String × RoleError E)
  collect_error name (ok u) errors = errors
  collect_error name (err e) errors = (name, e) ∷ errors

  -- The body of the loop of `Reconcile`: the errors that it adds, and the world.
  abbrev pub reconcile_one : String → Role → W → List (String × RoleError E) × W
  reconcile_one object_store role w =
      if contains (object_store_names_from_role role) object_store
      then (let r = reconcile_role_rules role (object_store_names_from_role role) w in
          (collect_error role.name r.0 [], r.1))
      else ([], w)

  -- The loop of `Reconcile`, with the errors it has collected.
  unfoldable pub reconcile_roles : String → List Role → W → List (String × RoleError E) × W
  unfolding contains object_store_names_from_role reconcile_role_rules
  reconcile_roles object_store [] w = ([], w)
  reconcile_roles object_store (role ∷ roles) w =
      let first = reconcile_one object_store role w in
      let rest = reconcile_roles object_store roles first.1 in (first.0 ++ rest.0, rest.1)

  -- `errors.Join`, which is nil without an error.
  abbrev pub join_errors : List (String × RoleError E) → Result (ReconcileError E) (Unit {0})
  join_errors [] = ok tt
  join_errors (e ∷ es) = err (joined (e ∷ es))

  -- `Reconcile`
  unfoldable pub reconcile : NamespacedName → Exec W (ReconcileError E) (Unit {0})
  unfolding reconcile_roles
  reconcile request =
      wrapping while_listing (calls.list_labelled_roles request.namespace) >>= λ roles w.
      let r = reconcile_roles request.name roles w in (join_errors r.0, r.1)
