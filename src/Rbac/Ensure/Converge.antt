-- ===== src/Rbac/Ensure/Converge.antt =====
-- The Role comes to the desired state.
use plugin_barman_cloud.Base.{
  ◌≡◌, ◌⊎◌, refl, sym, subst, Bool, true, false, ◌&&◌, Option, none, some, List, StringMap,
  if◌then◌else◌, Bool-cases, inl, inr, arith,
}
use plugin_barman_cloud.Base.Exec.{Result, ok, err, Exec, pure, continue, Ensures}
use plugin_barman_cloud.Api.{NamespacedName, Cluster, ObjectStore}
use plugin_barman_cloud.Rbac.Specs.{
  Role, PolicyRule, build_role, build_role_rules, build_labels, get_rbac_name,
}
use plugin_barman_cloud.Rbac.Merge.Laws.{
  IsMap, labels_need_update-merge_labels, HasLabels, up_to_date,
}
use plugin_barman_cloud.Rbac.Ensure.{
  RbacClient, RbacParameters, role_key, patched_role, labels_match, patch_if_needed, patch_attempt,
  patch_role, ensure_role, ensure_role_exists, ensure_role_rules, skip_missing, beside,
}
use plugin_barman_cloud.Rbac.Retry.{RetryLaws, RoleLaws, Attempts-Ensures}

-- The desired labels, if any, are those of a map.
abbrev pub IsLabels : Option StringMap → Type 0
IsLabels none = Unit
IsLabels (some labels) = IsMap labels

-- The labels that are asked for, if any, are there.
abbrev pub AreThere : Option StringMap → StringMap → Type 0
AreThere none labels = Unit
AreThere (some desired) labels = HasLabels desired labels

module _ {W E : Type 0} (client : RbacClient W E) (env : RbacParameters)
    (retry_laws : RetryLaws client) (laws : RoleLaws client) where
  -- The Role that is shown has those rules, and every label that is asked for with its value.
  abbrev pub IsDesired : NamespacedName → List PolicyRule → Option StringMap → W → Type 0
  IsDesired key rules labels w =
      (role : Role) × (laws.shown w key ≡ some role)
      × (role.rules ≡ rules)
      × AreThere labels role.labels

  -- An attempt that reports success has brought the Role there.
  abbrev Done :
      NamespacedName → List PolicyRule → Option StringMap → Result E (Unit {0}) → W → Type 0
  Done key rules labels (ok u) w = IsDesired key rules labels w
  Done key rules labels (err e) w = Unit

  labels_match-patched :
      (rules : List PolicyRule) (labels : Option StringMap) (role : Role)
      → IsLabels labels
      → labels_match client env labels (patched_role client env rules labels role) ≡ true
  labels_match-patched rules none role is_labels = refl
  labels_match-patched rules (some labels) role is_labels =
      rw (labels_need_update-merge_labels role.labels labels is_labels) refl

  matched-AreThere :
      (labels : Option StringMap) (role : Role)
      → labels_match client env labels role ≡ true
      → AreThere labels role.labels
  matched-AreThere none role h = tt
  matched-AreThere (some labels) role h = up_to_date labels role.labels ground arith

  patch_if_needed-Done :
      (key : NamespacedName) (rules : List PolicyRule) (labels : Option StringMap) (role : Role)
      → IsLabels labels
      → role_key role ≡ key
      → Ensures
          (λ w. laws.shown w key ≡ some role)
          (patch_if_needed client env rules labels role)
          (Done key rules labels)
  patch_if_needed-Done key rules labels role is_labels named w shown =
      elim (Bool-cases (env.rules_eq.beq rules role.rules && labels_match client env labels role)) [
        | inl t ↦
            let (same, matched) =
              both (env.rules_eq.beq rules role.rules) (labels_match client env labels role) t in
            rw (t) (
              role,
              shown,
              sym ((env.rules_eq.beq_iff rules role.rules).0 same),
              matched-AreThere labels role matched,
            )
        | inr t ↦
            rw (t) (
              patched (client.patch_role role (patched_role client env rules labels role) w).0 refl)
      ]
    where
      both : (a b : Bool) → a && b ≡ true → (a ≡ true) × (b ≡ true)
      both a b h = ground arith

      patched :
          (r : Result E (Unit {0}))
          → (client.patch_role role (patched_role client env rules labels role) w).0 ≡ r
          → Done key rules labels r
              (client.patch_role role (patched_role client env rules labels role) w).1
      patched (err e) h = tt
      patched (ok u) h = (
        patched_role client env rules labels role,
        subst
            (λ k.
              laws.shown (client.patch_role role (patched_role client env rules labels role) w).1 k
              ≡ some (patched_role client env rules labels role))
            named (laws.patch_shows role (patched_role client env rules labels role) w h),
        refl,
        matched-AreThere labels (patched_role client env rules labels role)
            (labels_match-patched rules labels role is_labels),
      )

  patch_attempt-Done :
      (key : NamespacedName) (rules : List PolicyRule) (labels : Option StringMap)
      → IsLabels labels
      → Ensures (λ w. Unit) (patch_attempt client env key rules labels) (Done key rules labels)
  patch_attempt-Done key rules labels is_labels w u = go (client.get_role key w).0 refl
    where
      go :
          (r : Result E Role)
          → (client.get_role key w).0 ≡ r
          → Done key rules labels
              (continue r (patch_if_needed client env rules labels) (client.get_role key w).1).0
              (continue r (patch_if_needed client env rules labels) (client.get_role key w).1).1
      go (ok role) got =
          let (shown, named) = laws.get_shows key w role got in
          patch_if_needed-Done key rules labels role is_labels named (client.get_role key w).1 shown
      go (err e) got = tt

  patch_role-Done :
      (key : NamespacedName) (rules : List PolicyRule) (labels : Option StringMap) (w : W)
      → IsLabels labels
      → Done key rules labels
          (patch_role client env key rules labels w).0
          (patch_role client env key rules labels w).1
  unfolding patch_role
  patch_role-Done key rules labels w is_labels =
      Attempts-Ensures client.is_conflict
        (beside client env (patch_attempt client env key rules labels)) (λ s. Unit)
        (λ r s. Done key rules labels r s.1)
        (λ s u. patch_attempt-Done key rules labels is_labels s.1 u) (λ e s c d. tt) (tt, w) _ _
        (retry_laws.retries (beside client env (patch_attempt client env key rules labels)) (tt, w))
        tt

  of_success :
      (key : NamespacedName) (rules : List PolicyRule) (labels : Option StringMap)
      (r : Result E (Unit {0})) (w : W)
      → Done key rules labels r w
      → r ≡ ok tt
      → IsDesired key rules labels w
  of_success key rules labels (ok u) w done h = done
  of_success key rules labels (err e) w done h = absurd (cc)

  -- `EnsureRole`: when it reports success, the client shows the Role of the Cluster, its rules are
  -- those that `BuildRoleRules` makes of the ObjectStores, and to read any label of `BuildLabels` in
  -- it gives the label's value, whoever created the Role and whatever conflicts there were. The six
  -- labels have different names.
  pub ensure_role-IsDesired :
      (cluster : Cluster) (barman_objects : List ObjectStore) (w : W)
      → IsMap (build_labels env.label_names cluster)
      → (ensure_role client env cluster barman_objects w).0 ≡ ok tt
      → IsDesired
          (record { namespace = cluster.namespace; name = get_rbac_name cluster.name })
          (build_role_rules env.to_sorted_list barman_objects)
          (some (build_labels env.label_names cluster))
          (ensure_role client env cluster barman_objects w).1
  unfolding ensure_role
  ensure_role-IsDesired cluster barman_objects w is_map =
      go (ensure_role_exists client env cluster new_role w).0
        (ensure_role_exists client env cluster new_role w).1
    where
      new_role : Role
      new_role = build_role env.to_sorted_list env.label_names cluster barman_objects

      key : NamespacedName
      key = record { namespace = cluster.namespace; name = get_rbac_name cluster.name }

      patch : Exec W E (Unit {0})
      patch =
          patch_role client env key (build_role_rules env.to_sorted_list barman_objects)
            (some (build_labels env.label_names cluster))

      go :
          (r : Result E (Unit {0})) (w' : W)
          → (continue r (λ u. patch) w').0 ≡ ok tt
          → IsDesired key
              (build_role_rules env.to_sorted_list barman_objects)
              (some (build_labels env.label_names cluster))
              (continue r (λ u. patch) w').1
      go (ok u) w' h =
          of_success key (build_role_rules env.to_sorted_list barman_objects)
            (some (build_labels env.label_names cluster)) (patch w').0 (patch w').1
            (patch_role-Done key (build_role_rules env.to_sorted_list barman_objects)
              (some (build_labels env.label_names cluster)) w' is_map)
            h
      go (err e) w' h = absurd (cc)

  -- `EnsureRoleRules`: when it reports success, either the client shows the Role with the rules that
  -- `BuildRoleRules` makes of the ObjectStores, or the API server had said that there is no such
  -- Role.
  pub ensure_role_rules-IsDesired :
      (key : NamespacedName) (barman_objects : List ObjectStore) (w : W)
      → (ensure_role_rules client env key barman_objects w).0 ≡ ok tt
      → IsDesired key
          (build_role_rules env.to_sorted_list barman_objects)
          none
          (ensure_role_rules client env key barman_objects w).1
        ⊎ ((e : E) × ((patch_role client env key
                (build_role_rules env.to_sorted_list barman_objects)
                none
                w).0
              ≡ err e)
            × (client.is_not_found e ≡ true))
  unfolding ensure_role_rules
  ensure_role_rules-IsDesired key barman_objects w h =
      go (patch w).0 refl (patch_role-Done key rules none w tt) h
    where
      rules : List PolicyRule
      rules = build_role_rules env.to_sorted_list barman_objects

      patch : Exec W E (Unit {0})
      patch = patch_role client env key rules none

      go :
          (r : Result E (Unit {0}))
          → (patch w).0 ≡ r
          → Done key rules none r (patch w).1
          → (skip_missing client env r (patch w).1).0 ≡ ok tt
          → IsDesired key rules none (skip_missing client env r (patch w).1).1
            ⊎ ((e : E) × ((patch w).0 ≡ err e) × (client.is_not_found e ≡ true))
      go (ok u) same done skipped = inl done
      go (err e) same done skipped = elim (Bool-cases (client.is_not_found e)) [
        | inl t ↦ inr (e, same, t)
        | inr t ↦ absurd (failed (client.is_not_found e) t skipped)
      ]
        where
          failed :
              (b : Bool)
              → b ≡ false
              → (if◌then◌else◌ {A = Exec W E (Unit {0})} b
                  (pure tt)
                  (λ v. (err e, v))
                  (patch w).1).0
                ≡ ok tt
              → ⊥
          failed true n h = cc
          failed false n h = cc
