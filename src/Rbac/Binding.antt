-- ===== src/Rbac/Binding.antt =====
-- internal/cnpgi/operator/rbac/ensure.go: `EnsureRoleBinding` and what it calls.
pub mod Grants
pub mod Converge
use plugin_barman_cloud.Base.{
  Bool, true, false, Option, none, some, List, not, String, StringMap, Eq, if◌then◌else◌,
}
use plugin_barman_cloud.Base.Exec.{Result, ok, err, Exec, pure, fail, lift, ◌>>=◌, ◌>>◌, try}
use plugin_barman_cloud.Api.{Cluster}
use plugin_barman_cloud.Rbac.Specs.{RoleBinding, Subject, build_role_binding}
use plugin_barman_cloud.Rbac.Merge.{
  merge_labels, labels_need_update, merge_subjects, role_binding_needs_update,
}
use plugin_barman_cloud.Rbac.Ensure.{
  RbacClient, RbacParameters, role_binding_key, owned_role_binding, beside,
}

module _ {W E : Type 0} (client : RbacClient W E) (env : RbacParameters) where
  -- The `switch` of `getOrCreateRoleBinding`, on what `Create` answered.
  abbrev pub created_or_fetched : RoleBinding → Result E (Unit {0}) → Exec W E (Option RoleBinding)
  created_or_fetched desired (ok u) = pure none
  created_or_fetched desired (err e) =
      if client.is_already_exists e
      then (client.get_role_binding (role_binding_key desired) >>= λ fetched. pure (some fetched))
      else fail e

  -- What follows its first `Get`.
  abbrev pub create_missing : RoleBinding → Result E RoleBinding → Exec W E (Option RoleBinding)
  create_missing desired (ok existing) = pure (some existing)
  create_missing desired (err e) =
      if client.is_not_found e
      then (try (client.create_role_binding desired) >>= created_or_fetched desired)
      else fail e

  -- `getOrCreateRoleBinding`
  unfoldable pub get_or_create_role_binding : RoleBinding → Exec W E (Option RoleBinding)
  get_or_create_role_binding desired =
      try (client.get_role_binding (role_binding_key desired)) >>= create_missing desired

  -- The RoleBinding that is patched in.
  abbrev pub merged_role_binding : RoleBinding → RoleBinding → RoleBinding
  merged_role_binding existing desired = record {
    namespace = existing.namespace;
    name = existing.name;
    labels = merge_labels existing.labels desired.labels;
    owner_references = existing.owner_references;
    subjects = merge_subjects ⦃subject_eq = env.subject_eq⦄ existing.subjects desired.subjects;
    role_ref = existing.role_ref;
  }

  -- The closure's checks and its `Patch`, once it has the RoleBinding.
  abbrev pub align : RoleBinding → RoleBinding → Exec W E (Unit {0})
  align desired existing =
      if env.role_ref_eq.beq existing.role_ref desired.role_ref
      then (if role_binding_needs_update ⦃subject_eq = env.subject_eq⦄ existing desired
          then client.patch_role_binding existing (merged_role_binding existing desired)
          else pure tt)
      else fail (client.divergent_role_ref existing.role_ref desired.role_ref)

  -- The closure, with its variable `first`.
  abbrev pub reconcile_attempt : RoleBinding → RoleBinding → Exec (Bool × W) E (Unit {0})
  reconcile_attempt existing desired (first, w) =
      if first
      then beside client env (align desired existing) (false, w)
      else beside client env (client.get_role_binding (role_binding_key desired) >>= align desired)
          (false, w)

  -- `reconcileRoleBinding`
  unfoldable pub reconcile_role_binding : RoleBinding → RoleBinding → Exec W E (Unit {0})
  unfolding role_binding_needs_update merge_labels merge_subjects
  reconcile_role_binding existing desired w =
      let r = client.retry_on_conflict {S = Bool} (reconcile_attempt existing desired) (true, w) in
      (r.0, r.1.1)

  -- `EnsureRoleBinding` on what `getOrCreateRoleBinding` answered.
  abbrev pub reconcile_found : RoleBinding → Option RoleBinding → Exec W E (Unit {0})
  reconcile_found desired none = pure tt
  reconcile_found desired (some existing) = reconcile_role_binding existing desired

  -- `EnsureRoleBinding`
  unfoldable pub ensure_role_binding : Cluster → Exec W E (Unit {0})
  unfolding build_role_binding get_or_create_role_binding reconcile_role_binding
  ensure_role_binding cluster =
      lift (owned_role_binding client env cluster (build_role_binding env.label_names cluster))
      >>= λ desired. get_or_create_role_binding desired >>= reconcile_found desired
