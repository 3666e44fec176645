-- ===== src/Rbac/Binding/Converge/Aligned.antt =====
-- An attempt to reconcile the RoleBinding.
use plugin_barman_cloud.Base.{
  ◌≡◌, refl, subst, Bool, true, false, Option, some, Bool-cases, inl, inr,
}
use plugin_barman_cloud.Base.Exec.{Result, ok, err, continue, Ensures}
use plugin_barman_cloud.Api.{NamespacedName}
use plugin_barman_cloud.Rbac.Specs.{RoleBinding}
use plugin_barman_cloud.Rbac.Merge.{role_binding_needs_update}
use plugin_barman_cloud.Rbac.Merge.Laws.{
  IsMap, needs_nothing-merged, HasLabels, HasSubjects, needs_nothing-Has,
}
use plugin_barman_cloud.Rbac.Ensure.{RbacClient, RbacParameters, role_binding_key}
use plugin_barman_cloud.Rbac.Retry.{RetryLaws}
use plugin_barman_cloud.Rbac.Binding.{merged_role_binding, align, reconcile_attempt}

-- The RoleBindings as this client sees them: a `Get` answers with the one it shows, under the key that
-- was asked for, and after a `Create` or a `Patch` that succeeded it shows the given one.
pub record BindingLaws {W E : Type 0} (client : RbacClient W E) : Type 0 where
  pub shown : W → NamespacedName → Option RoleBinding
  pub get_shows :
      (key : NamespacedName) (w : W) (b : RoleBinding)
      → (client.get_role_binding key w).0 ≡ ok b
      → (shown (client.get_role_binding key w).1 key ≡ some b) × (role_binding_key b ≡ key)
  pub create_shows :
      (b : RoleBinding) (w : W)
      → (client.create_role_binding b w).0 ≡ ok tt
      → shown (client.create_role_binding b w).1 (role_binding_key b) ≡ some b
  pub patch_shows :
      (old new : RoleBinding) (w : W)
      → (client.patch_role_binding old new w).0 ≡ ok tt
      → shown (client.patch_role_binding old new w).1 (role_binding_key new) ≡ some new

module _ {W E : Type 0} (client : RbacClient W E) (env : RbacParameters)
    (retry_laws : RetryLaws client) (laws : BindingLaws client) where
  -- A RoleBinding that is shown under the desired one's key has its RoleRef, all of its Subjects, and
  -- every label of it with its value.
  abbrev pub IsBound : RoleBinding → W → Type 0
  IsBound desired w =
      (b : RoleBinding) × (laws.shown w (role_binding_key desired) ≡ some b)
      × (b.role_ref ≡ desired.role_ref)
      × HasSubjects ⦃subject_eq = env.subject_eq⦄ desired.subjects b.subjects
      × HasLabels desired.labels b.labels

  abbrev pub Done : RoleBinding → Result E (Unit {0}) → W → Type 0
  Done desired (ok u) w = IsBound desired w
  Done desired (err e) w = Unit

  -- The RoleBinding that was read.
  abbrev pub IsRead : RoleBinding → RoleBinding → W → Type 0
  IsRead desired existing w =
      (laws.shown w (role_binding_key desired) ≡ some existing)
      × (role_binding_key existing ≡ role_binding_key desired)

  patched-Done :
      (desired existing : RoleBinding) (w : W)
      → IsMap desired.labels
      → existing.role_ref ≡ desired.role_ref
      → role_binding_key existing ≡ role_binding_key desired
      → (r : Result E (Unit {0}))
      → (client.patch_role_binding existing (merged_role_binding client env existing desired) w).0
        ≡ r
      → Done desired r
          (client.patch_role_binding existing (merged_role_binding client env existing desired) w).1
  patched-Done desired existing w is_map same_ref same_key (err e) h = tt
  patched-Done desired existing w is_map same_ref same_key (ok u) h =
      let has =
        needs_nothing-Has ⦃subject_eq = env.subject_eq⦄
          (merged_role_binding client env existing desired) desired
          (needs_nothing-merged ⦃subject_eq = env.subject_eq⦄ existing desired
            (merged_role_binding client env existing desired) is_map refl refl) in
      (
        merged_role_binding client env existing desired,
        subst
            (λ k.
              laws.shown
                (client.patch_role_binding existing
                  (merged_role_binding client env existing desired) w).1
                k
              ≡ some (merged_role_binding client env existing desired))
            same_key
            (laws.patch_shows existing (merged_role_binding client env existing desired) w h),
        same_ref,
        has.0,
        has.1,
      )

  align-Done :
      (desired existing : RoleBinding)
      → IsMap desired.labels
      → Ensures (IsRead desired existing) (align client env desired existing) (Done desired)
  align-Done desired existing is_map w read =
      elim (Bool-cases (env.role_ref_eq.beq existing.role_ref desired.role_ref)) [
        | inr t ↦ rw (t) tt
        | inl t ↦
            let same_ref = (env.role_ref_eq.beq_iff existing.role_ref desired.role_ref).0 t in
            elim (Bool-cases
              (role_binding_needs_update ⦃subject_eq = env.subject_eq⦄ existing desired)) [
                | inr u ↦ rw (t) (
                    rw (u) (
                      let has =
                        needs_nothing-Has ⦃subject_eq = env.subject_eq⦄ existing desired u in
                      (existing, read.0, same_ref, has.0, has.1)))
                | inl u ↦ rw (t) (
                    rw (u) (
                      patched-Done desired existing w is_map same_ref read.1
                        (client.patch_role_binding existing
                          (merged_role_binding client env existing desired) w).0
                        refl))
              ]
      ]

  -- The world that an attempt starts from: the first one has the RoleBinding that was read.
  abbrev pub Starts : RoleBinding → RoleBinding → Bool × W → Type 0
  Starts desired existing (true, w) = IsRead desired existing w
  Starts desired existing (false, w) = Unit

  abbrev pub Ends : RoleBinding → Result E (Unit {0}) → Bool × W → Type 0
  Ends desired r (first, w) = (first ≡ false) × Done desired r w

  pub reconcile_attempt-Ends :
      (existing desired : RoleBinding)
      → IsMap desired.labels
      → Ensures
          (Starts desired existing)
          (reconcile_attempt client env existing desired)
          (Ends desired)
  reconcile_attempt-Ends existing desired is_map (true, w) read =
      (refl, align-Done desired existing is_map w read)
  reconcile_attempt-Ends existing desired is_map (false, w) u =
      (refl, go (client.get_role_binding (role_binding_key desired) w).0 refl)
    where
      go :
          (r : Result E RoleBinding)
          → (client.get_role_binding (role_binding_key desired) w).0 ≡ r
          → Done desired
              (continue r
                (align client env desired)
                (client.get_role_binding (role_binding_key desired) w).1).0
              (continue r
                (align client env desired)
                (client.get_role_binding (role_binding_key desired) w).1).1
      go (err e) got = tt
      go (ok b) got =
          align-Done desired b is_map (client.get_role_binding (role_binding_key desired) w).1
            (laws.get_shows (role_binding_key desired) w b got)
