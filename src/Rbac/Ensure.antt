-- ===== src/Rbac/Ensure.antt =====
-- internal/cnpgi/operator/rbac/ensure.go: the Role and the RoleBinding on the API server.
pub mod Converge
use mathlib.Core.Option
use plugin_barman_cloud.Base.{
  Bool, true, false, ◌&&◌, ◌||◌, not, Option, none, some, List, [], ◌∷◌, String, StringMap, ◌≡◌, Eq,
  ◌==◌, string_eq, if◌then◌else◌,
}
use plugin_barman_cloud.Base.Exec.{Result, ok, err, Exec, pure, fail, lift, ◌>>=◌, ◌>>◌, try}
use plugin_barman_cloud.Api.{NamespacedName, Cluster, ObjectStore}
use plugin_barman_cloud.Rbac.Specs.{
  Role, RoleBinding, Subject, RoleRef, PolicyRule, LabelNames, OwnerReference,
  controller_references, build_labels, build_role, build_role_rules, build_role_binding,
}
use plugin_barman_cloud.Rbac.Merge.{
  merge_labels, labels_need_update, merge_subjects, role_binding_needs_update,
}

-- The client of the API server, for the two kinds, with what `apierrs` says of its errors. Each
-- `Patch` takes the object that was read and the new one, and has the optimistic lock.
-- What other writers do between two calls is in the world's answers.
pub record RbacClient (W E : Type 0) : Type 1 where
  pub get_role : NamespacedName → Exec W E Role
  pub create_role : Role → Exec W E (Unit {0})
  pub patch_role : Role → Role → Exec W E (Unit {0})
  pub get_role_binding : NamespacedName → Exec W E RoleBinding
  pub create_role_binding : RoleBinding → Exec W E (Unit {0})
  pub patch_role_binding : RoleBinding → RoleBinding → Exec W E (Unit {0})
  pub is_not_found : E → Bool
  pub is_already_exists : E → Bool
  pub is_conflict : E → Bool
  -- the errors that the package makes itself: no GVK in the owner, and a RoleRef that diverges
  pub no_kind : E
  pub divergent_role_ref : RoleRef → RoleRef → E
  -- `retry.RetryOnConflict(retry.DefaultBackoff, …)`, of a closure that keeps a state
  pub retry_on_conflict : {S : Type 0} → Exec (S × W) E (Unit {0}) → Exec (S × W) E (Unit {0})

-- The package's parameters: `ToSortedList`, the labels' names, and `equality.Semantic.DeepEqual`.
pub record RbacParameters : Type 0 where
  pub to_sorted_list : List String → List String
  pub label_names : LabelNames
  pub rules_eq : Eq (List PolicyRule)
  pub role_ref_eq : Eq RoleRef
  pub subject_eq : Eq Subject

abbrev pub role_key : Role → NamespacedName
role_key r = record { namespace = r.namespace; name = r.name }

abbrev pub role_binding_key : RoleBinding → NamespacedName
role_binding_key r = record { namespace = r.namespace; name = r.name }

module _ {W E : Type 0} (client : RbacClient W E) (env : RbacParameters) where
  -- `SetControllerReference` on a Role.
  abbrev pub owned_role : Cluster → Role → Result E Role
  owned_role cluster role = elim (controller_references cluster) [
    | none ↦ err client.no_kind
    | some owners ↦ ok (record {
      namespace = role.namespace;
      name = role.name;
      labels = role.labels;
      owner_references = owners;
      rules = role.rules;
    })
  ]

  -- and on a RoleBinding
  abbrev pub owned_role_binding : Cluster → RoleBinding → Result E RoleBinding
  owned_role_binding cluster binding = elim (controller_references cluster) [
    | none ↦ err client.no_kind
    | some owners ↦ ok (record {
      namespace = binding.namespace;
      name = binding.name;
      labels = binding.labels;
      owner_references = owners;
      subjects = binding.subjects;
      role_ref = binding.role_ref;
    })
  ]

  -- A call on the client inside of a retried closure with state.
  abbrev pub beside : {S A : Type 0} → Exec W E A → Exec (S × W) E A
  beside m (s, w) = ((m w).0, (s, (m w).1))

  -- A retried closure without state.
  abbrev pub retried : Exec W E (Unit {0}) → Exec W E (Unit {0})
  retried m w = let r = client.retry_on_conflict {S = Unit {0}} (beside m) (tt, w) in (r.0, r.1.1)

  -- The end of `ensureRoleExists`, on what `Create` answered.
  abbrev pub created_or_exists : Result E (Unit {0}) → Exec W E (Unit {0})
  created_or_exists (ok u) = pure tt
  created_or_exists (err e) = if client.is_already_exists e then pure tt else fail e

  -- What follows the `Get` of `ensureRoleExists`.
  abbrev pub create_missing_role : Cluster → Role → Result E Role → Exec W E (Unit {0})
  create_missing_role cluster new_role (ok existing) = pure tt
  create_missing_role cluster new_role (err e) =
      if client.is_not_found e
      then (lift (owned_role cluster new_role) >>= λ owned.
          try (client.create_role owned) >>= created_or_exists)
      else fail e

  -- `ensureRoleExists`
  unfoldable pub ensure_role_exists : Cluster → Role → Exec W E (Unit {0})
  unfolding controller_references
  ensure_role_exists cluster new_role =
      try (client.get_role (role_key new_role)) >>= create_missing_role cluster new_role

  -- The Role that `patchRole` patches in.
  abbrev pub patched_role : List PolicyRule → Option StringMap → Role → Role
  patched_role rules labels role = record {
    namespace = role.namespace;
    name = role.name;
    labels = merge_labels role.labels (Option.get_or labels []);
    owner_references = role.owner_references;
    rules = rules;
  }

  abbrev pub labels_match : Option StringMap → Role → Bool
  labels_match none role = true
  labels_match (some desired) role = not (labels_need_update role.labels desired)

  -- The closure of `patchRole`, after its `Get`.
  abbrev pub patch_if_needed : List PolicyRule → Option StringMap → Role → Exec W E (Unit {0})
  patch_if_needed rules labels role =
      if env.rules_eq.beq rules role.rules && labels_match labels role
      then pure tt
      else client.patch_role role (patched_role rules labels role)

  abbrev pub patch_attempt :
      NamespacedName → List PolicyRule → Option StringMap → Exec W E (Unit {0})
  patch_attempt key rules labels = client.get_role key >>= patch_if_needed rules labels

  -- `patchRole`
  unfoldable pub patch_role :
      NamespacedName → List PolicyRule → Option StringMap → Exec W E (Unit {0})
  unfolding merge_labels labels_need_update
  patch_role key rules labels = retried (patch_attempt key rules labels)

  -- `EnsureRole`
  unfoldable pub ensure_role : Cluster → List ObjectStore → Exec W E (Unit {0})
  unfolding build_role build_labels ensure_role_exists patch_role
  ensure_role cluster barman_objects =
      let new_role : Role = build_role env.to_sorted_list env.label_names cluster barman_objects in
      ensure_role_exists cluster new_role
      >> patch_role (role_key new_role) new_role.rules (some (build_labels env.label_names cluster))

  -- `EnsureRoleRules` on the answer of `patchRole`.
  abbrev pub skip_missing : Result E (Unit {0}) → Exec W E (Unit {0})
  skip_missing (ok u) = pure tt
  skip_missing (err e) = if client.is_not_found e then pure tt else fail e

  -- `EnsureRoleRules`
  unfoldable pub ensure_role_rules : NamespacedName → List ObjectStore → Exec W E (Unit {0})
  unfolding build_role_rules patch_role
  ensure_role_rules key barman_objects =
      try (patch_role key (build_role_rules env.to_sorted_list barman_objects) none)
      >>= skip_missing
