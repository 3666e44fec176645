-- ===== src/Rbac/Binding/Grants.antt =====
-- The RoleBinding comes to the desired state, and no grant of access is taken away on the way.
use plugin_barman_cloud.Base.{
  ◌≡◌, refl, true, false, Option, none, some, List, ◌++◌, Bool-cases, inl, inr,
}
use plugin_barman_cloud.Base.Exec.{Result, ok, err, pure, ◌>>=◌, continue, Ensures, Ensures-bind}
use plugin_barman_cloud.Api.{NamespacedName, Cluster}
use plugin_barman_cloud.Rbac.Specs.{RoleBinding, Subject, build_role_binding}
use plugin_barman_cloud.Rbac.Merge.{role_binding_needs_update}
use plugin_barman_cloud.Rbac.Merge.Laws.{merge_subjects-append}
use plugin_barman_cloud.Rbac.Ensure.{
  RbacClient, RbacParameters, role_binding_key, owned_role_binding,
}
use plugin_barman_cloud.Rbac.Retry.{RetryLaws, Attempts-Ensures}
use plugin_barman_cloud.Rbac.Binding.{
  created_or_fetched, create_missing, get_or_create_role_binding, merged_role_binding, align,
  reconcile_attempt, reconcile_role_binding, reconcile_found, ensure_role_binding,
}

-- A property `Holds` of worlds that no read and no creation of a RoleBinding ends, and no `Patch`
-- that keeps the RoleRef and the Subjects that are there, in order, adding new ones at the end.
pub record KeptByAdditions {W E : Type 0} (client : RbacClient W E) (Holds : W → Type 0)
    : Type 0 where
  pub by_get : (key : NamespacedName) (w : W) → Holds w → Holds (client.get_role_binding key w).1
  pub by_create :
      (binding : RoleBinding) (w : W) → Holds w → Holds (client.create_role_binding binding w).1
  pub by_addition :
      (old new : RoleBinding) (added : List Subject) (w : W)
      → new.subjects ≡ old.subjects ++ added
      → new.role_ref ≡ old.role_ref
      → Holds w
      → Holds (client.patch_role_binding old new w).1

module _ {W E : Type 0} (client : RbacClient W E) (env : RbacParameters)
    (retry_laws : RetryLaws client) (Holds : W → Type 0) (kept : KeptByAdditions client Holds) where
  align-Holds :
      (desired existing : RoleBinding)
      → Ensures Holds (align client env desired existing) (λ r w. Holds w)
  align-Holds desired existing w holds =
      elim (Bool-cases (env.role_ref_eq.beq existing.role_ref desired.role_ref)) [
        | inr t ↦ rw (t) holds
        | inl t ↦
            elim (Bool-cases
              (role_binding_needs_update ⦃subject_eq = env.subject_eq⦄ existing desired)) [
                | inr u ↦ rw (t) (rw (u) holds)
                | inl u ↦
                    let (added, is_append) =
                      merge_subjects-append ⦃subject_eq = env.subject_eq⦄ existing.subjects
                        desired.subjects in
                    rw (t) (
                      rw (u) (
                        kept.by_addition existing (merged_role_binding client env existing desired)
                          added w is_append refl holds))
              ]
      ]

  reconcile_attempt-Holds :
      (existing desired : RoleBinding)
      → Ensures (λ s. Holds s.1) (reconcile_attempt client env existing desired) (λ r s. Holds s.1)
  reconcile_attempt-Holds existing desired (true, w) holds = align-Holds desired existing w holds
  reconcile_attempt-Holds existing desired (false, w) holds =
      Ensures-bind Holds (λ r w'. Holds w') (λ r w'. Holds w')
        (client.get_role_binding (role_binding_key desired)) (align client env desired)
        (kept.by_get (role_binding_key desired)) (align-Holds desired) (λ e w' h. h) w holds

  reconcile_role_binding-Holds :
      (existing desired : RoleBinding)
      → Ensures Holds (reconcile_role_binding client env existing desired) (λ r w. Holds w)
  unfolding reconcile_role_binding
  reconcile_role_binding-Holds existing desired w holds =
      Attempts-Ensures client.is_conflict (reconcile_attempt client env existing desired)
        (λ s. Holds s.1) (λ r s. Holds s.1) (reconcile_attempt-Holds existing desired)
        (λ e s c h. h) (true, w) _ _
        (retry_laws.retries (reconcile_attempt client env existing desired) (true, w)) holds

  created_or_fetched-Holds :
      (desired : RoleBinding) (r : Result E (Unit {0}))
      → Ensures Holds (created_or_fetched client env desired r) (λ r w. Holds w)
  created_or_fetched-Holds desired (ok u) w holds = holds
  created_or_fetched-Holds desired (err e) w holds =
      elim (Bool-cases (client.is_already_exists e)) [
        | inr t ↦ rw (t) holds
        | inl t ↦ rw (t) (
            Ensures-bind Holds (λ r w'. Holds w') (λ r w'. Holds w')
              (client.get_role_binding (role_binding_key desired)) (λ fetched. pure (some fetched))
              (kept.by_get (role_binding_key desired)) (λ a w' h. h) (λ e w' h. h) w holds)
      ]

  get_or_create-Holds :
      (desired : RoleBinding)
      → Ensures Holds (get_or_create_role_binding client env desired) (λ r w. Holds w)
  unfolding get_or_create_role_binding
  get_or_create-Holds desired w holds =
      go (client.get_role_binding (role_binding_key desired) w).0
        (client.get_role_binding (role_binding_key desired) w).1
        (kept.by_get (role_binding_key desired) w holds)
    where
      go :
          (r : Result E RoleBinding)
          → Ensures Holds (create_missing client env desired r) (λ r w. Holds w)
      go (ok existing) w' h = h
      go (err e) w' h = elim (Bool-cases (client.is_not_found e)) [
        | inr t ↦ rw (t) h
        | inl t ↦ rw (t) (
            created_or_fetched-Holds desired (client.create_role_binding desired w').0
              (client.create_role_binding desired w').1 (kept.by_create desired w' h))
      ]

  -- `EnsureRoleBinding` never takes access away. Whatever holds of the outside world and is kept by
  -- reads, by the creation of a RoleBinding, and by a `Patch` whose Subjects are those that were
  -- read followed by new ones and whose RoleRef is the one that was read, that holds after the call
  -- too, on success and on every error, conflicts and lost races included.
  pub ensure_role_binding-Holds :
      (cluster : Cluster) (w : W) → Holds w → Holds (ensure_role_binding client env cluster w).1
  unfolding ensure_role_binding
  ensure_role_binding-Holds cluster w holds =
      go (owned_role_binding client env cluster (build_role_binding env.label_names cluster))
    where
      found :
          (desired : RoleBinding) (o : Option RoleBinding)
          → Ensures Holds (reconcile_found client env desired o) (λ r w. Holds w)
      found desired none w' h = h
      found desired (some existing) w' h = reconcile_role_binding-Holds existing desired w' h

      go :
          (r : Result E RoleBinding)
          → Holds
              (continue r
                (λ desired.
                  get_or_create_role_binding client env desired
                  >>= reconcile_found client env desired)
                w).1
      go (err e) = holds
      go (ok desired) =
          Ensures-bind Holds (λ r w'. Holds w') (λ r w'. Holds w')
            (get_or_create_role_binding client env desired) (reconcile_found client env desired)
            (get_or_create-Holds desired) (found desired) (λ e w' h. h) w holds
