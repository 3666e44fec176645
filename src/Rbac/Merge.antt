-- ===== src/Rbac/Merge.antt =====
-- internal/cnpgi/operator/rbac/ensure.go: the helpers that merge what is there with what should be.
pub mod Laws
use plugin_barman_cloud.Base.{
  Bool, true, false, ◌&&◌, not, ◌||◌, List, [], ◌∷◌, ◌++◌, String, StringMap, Eq, lookup, insert,
  at, contains, ◌==◌, string_eq, if◌then◌else◌,
}
use plugin_barman_cloud.Rbac.Specs.{Subject, RoleBinding}

-- `mergeLabels`. No map and an empty map are one here; the loop runs over the entries of `desired`.
unfoldable pub merge_labels : StringMap → StringMap → StringMap
unfolding insert
merge_labels existing [] = existing
merge_labels existing ((k, v) ∷ desired) = merge_labels (insert k v existing) desired

-- `labelsNeedUpdate`
unfoldable pub labels_need_update : StringMap → StringMap → Bool
unfolding at
labels_need_update existing [] = false
labels_need_update existing ((k, v) ∷ desired) =
    not (at k existing == v) || labels_need_update existing desired

-- `equality.Semantic.DeepEqual` on Subjects is an argument.
module _ ⦃subject_eq : Eq Subject⦄ where
  -- `containsSubject`
  unfoldable pub contains_subject : List Subject → Subject → Bool
  unfolding contains
  contains_subject subjects subject = contains subjects subject

  -- `mergeSubjects`
  unfoldable pub merge_subjects : List Subject → List Subject → List Subject
  unfolding contains_subject
  merge_subjects existing [] = existing
  merge_subjects existing (d ∷ desired) =
      merge_subjects (if contains_subject existing d then existing else existing ++ d ∷ []) desired

  -- The loop of `roleBindingNeedsUpdate`.
  abbrev pub misses_subject : List Subject → List Subject → Bool
  misses_subject existing [] = false
  misses_subject existing (d ∷ desired) =
      not (contains_subject existing d) || misses_subject existing desired

  -- `roleBindingNeedsUpdate`
  unfoldable pub role_binding_needs_update : RoleBinding → RoleBinding → Bool
  unfolding labels_need_update contains_subject
  role_binding_needs_update existing desired =
      misses_subject existing.subjects desired.subjects
      || labels_need_update existing.labels desired.labels
