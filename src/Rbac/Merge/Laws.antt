-- ===== src/Rbac/Merge/Laws.antt =====
-- The merges: what they add, what they keep, and that after one there is nothing left to update.
use plugin_barman_cloud.Base.{
  ◌≡◌, refl, sym, ◌∙◌, Bool, true, false, ◌||◌, Option, none, some, List, [], ◌∷◌, ◌++◌, String,
  StringMap, Eq, lookup, insert, lookup-insert, at, contains, contains-append, ◌==◌, string_eq,
  eq_iff, ==_refl, arith, inl, inr, Bool-cases, subst, not,
}
use mathlib.Core.List.{append-nil, append_assoc}
use plugin_barman_cloud.Rbac.Specs.{Subject, RoleBinding}
use plugin_barman_cloud.Rbac.Merge.{
  merge_labels, labels_need_update, contains_subject, merge_subjects, misses_subject,
  role_binding_needs_update,
}

-- The entries are those of a map: no key stands twice.
unfoldable pub IsMap : StringMap → Type 0
IsMap [] = Unit
IsMap ((k, v) ∷ m) = (lookup k m ≡ none) × IsMap m

abbrev pub or_else : Option String → Option String → Option String
or_else none o = o
or_else (some v) o = some v

-- A merged label has the desired value where there is one, and what it had before elsewhere.
pub lookup-merge_labels :
    (existing desired : StringMap) (j : String)
    → IsMap desired
    → lookup j (merge_labels existing desired) ≡ or_else (lookup j desired) (lookup j existing)
unfolding merge_labels IsMap lookup
lookup-merge_labels existing [] j is_map = refl
lookup-merge_labels existing ((k, v) ∷ desired) j (fresh, is_map) =
    let rest = lookup-merge_labels (insert k v existing) desired j is_map in
    let added = lookup-insert k j v existing in
    elim (Bool-cases (k == j)) [
      | inl t ↦
          let same : k ≡ j = (eq_iff k j).0 t in
          let gone : lookup j desired ≡ none = rw (← same) fresh in
          rw (rest) (rw (gone) (rw (added) (rw (t) refl)))
      | inr t ↦ rw (rest) (rw (added) (rw (t) refl))
    ]

-- Every label has its value: to read it gives the value that is desired.
abbrev pub HasLabels : StringMap → StringMap → Type 0
HasLabels desired labels = (k v : String) → lookup k desired ≡ some v → at k labels ≡ v

-- Labels that need no update are there.
pub up_to_date :
    (desired labels : StringMap)
    → labels_need_update labels desired ≡ false
    → HasLabels desired labels
unfolding labels_need_update lookup
up_to_date [] labels h k v found = absurd (cc)
up_to_date ((j, u) ∷ desired) labels h k v found = elim (Bool-cases (j == k)) [
  | inl t ↦
      let same : j ≡ k = (eq_iff j k).0 t in
      let value : u ≡ v = cc in
      subst (λ (x : String). at k labels ≡ x) value
        (subst (λ (x : String). at x labels ≡ u) same ((eq_iff (at j labels) u).0 (first _ _ h)))
  | inr t ↦ up_to_date desired labels (second _ _ h) k v (rw (t) at found)
]
  where
    first : (a b : Bool) → (not a || b) ≡ false → a ≡ true
    first a b e = ground arith

    second : (a b : Bool) → (not a || b) ≡ false → b ≡ false
    second a b e = ground arith

need_nothing :
    (m desired : StringMap)
    → IsMap desired
    → ((k v : String) → lookup k desired ≡ some v → at k m ≡ v)
    → labels_need_update m desired ≡ false
unfolding labels_need_update IsMap lookup
need_nothing m [] is_map has = refl
need_nothing m ((k, v) ∷ desired) (fresh, is_map) has =
    let rest = need_nothing m desired is_map (λ j u h. has j u (further j u h)) in
    let here = has k v (rw (==_refl k) refl) in rw (here) (rw (==_refl v) rest)
  where
    further : (j u : String) → lookup j desired ≡ some u → lookup j ((k, v) ∷ desired) ≡ some u
    further j u h = elim (Bool-cases (k == j)) [
      | inl t ↦ absurd (let same : k ≡ j = (eq_iff k j).0 t in cc)
      | inr t ↦ rw (t) h
    ]

-- Labels are up to date with themselves.
pub labels_need_update_self :
    (labels : StringMap) → IsMap labels → labels_need_update labels labels ≡ false
unfolding at
labels_need_update_self labels is_map = need_nothing labels labels is_map (λ k v h. rw (h) refl)

-- After a merge of the labels there is nothing left to update.
pub labels_need_update-merge_labels :
    (existing desired : StringMap)
    → IsMap desired
    → labels_need_update (merge_labels existing desired) desired ≡ false
unfolding at
labels_need_update-merge_labels existing desired is_map =
    need_nothing (merge_labels existing desired) desired is_map
      (λ k v h. let l = lookup-merge_labels existing desired k is_map in rw (l) (rw (h) refl))

or_true : (b : Bool) → b || true ≡ true
or_true b = ground arith

module _ ⦃subject_eq : Eq Subject⦄ where
  -- Who has the grant after a merge: those who had it, and those who should have it.
  pub contains-merge_subjects :
      (existing desired : List Subject) (s : Subject)
      → contains_subject (merge_subjects existing desired) s
        ≡ contains_subject existing s || contains_subject desired s
  unfolding contains_subject merge_subjects contains
  contains-merge_subjects existing [] s = ground arith
  contains-merge_subjects existing (d ∷ desired) s =
      elim (Bool-cases (contains_subject existing d)) [
        | inl t ↦ rw (t) (
            contains-merge_subjects existing desired s
            ∙ sym (absorbed (contains_subject existing s) (d == s) (contains desired s) (held t)))
        | inr t ↦ rw (t) (
            contains-merge_subjects (existing ++ d ∷ []) desired s
            ∙ rw (contains-append existing (d ∷ []) s) ground arith)
      ]
    where
      absorbed : (a b c : Bool) → (b ≡ true → a ≡ true) → a || (b || c) ≡ a || c
      absorbed true b c h = refl
      absorbed false true c h = absurd (let i = h refl in cc)
      absorbed false false c h = refl

      held : contains_subject existing d ≡ true → d == s ≡ true → contains_subject existing s ≡ true
      held t e = let same : d ≡ s = (subject_eq.beq_iff d s).0 e in rw (← same) t

  -- A merge of subjects only appends: no grant is taken away, and the order stays.
  pub merge_subjects-append :
      (existing desired : List Subject)
      → (added : List Subject) × (merge_subjects existing desired ≡ existing ++ added)
  unfolding merge_subjects
  merge_subjects-append existing [] = ([], sym (append-nil existing))
  merge_subjects-append existing (d ∷ desired) = elim (Bool-cases (contains_subject existing d)) [
    | inl t ↦ rw (t) (merge_subjects-append existing desired)
    | inr t ↦
        let (added, is_append) = merge_subjects-append (existing ++ d ∷ []) desired in
        rw (t) (d ∷ added, is_append ∙ append_assoc existing (d ∷ []) added)
  ]

  none_missed :
      (held desired : List Subject)
      → ((s : Subject) → contains_subject desired s ≡ true → contains_subject held s ≡ true)
      → misses_subject held desired ≡ false
  unfolding contains_subject contains
  none_missed held [] has = refl
  none_missed held (d ∷ desired) has =
      rw (has d (rw (==_refl d) refl))
        (none_missed held desired (λ s h. has s (rw (h) (or_true (d == s)))))

  -- Every one of these Subjects is among those that are held.
  abbrev pub HasSubjects : List Subject → List Subject → Type 0
  HasSubjects desired held = (s : Subject) → contains desired s ≡ true → contains held s ≡ true

  -- Where none is missed, they all are there.
  pub none_missed-HasSubjects :
      (desired held : List Subject) → misses_subject held desired ≡ false → HasSubjects desired held
  unfolding contains_subject contains
  none_missed-HasSubjects [] held h s e = absurd (cc)
  none_missed-HasSubjects (d ∷ desired) held h s e = elim (Bool-cases (d == s)) [
    | inl t ↦
        let same : d ≡ s = (subject_eq.beq_iff d s).0 t in
        subst (λ (x : Subject). contains held x ≡ true) same (first _ _ h)
    | inr t ↦ none_missed-HasSubjects desired held (second _ _ h) s (rw (t) at e)
  ]
    where
      first : (a b : Bool) → (not a || b) ≡ false → a ≡ true
      first a b e = ground arith

      second : (a b : Bool) → (not a || b) ≡ false → b ≡ false
      second a b e = ground arith

  -- A RoleBinding that needs no update has the Subjects and the labels.
  pub needs_nothing-Has :
      (b desired : RoleBinding)
      → role_binding_needs_update b desired ≡ false
      → HasSubjects desired.subjects b.subjects × HasLabels desired.labels b.labels
  unfolding role_binding_needs_update
  needs_nothing-Has b desired h = (
    none_missed-HasSubjects desired.subjects b.subjects (first _ _ h),
    up_to_date desired.labels b.labels (second _ _ h),
  )
    where
      first : (a c : Bool) → (a || c) ≡ false → a ≡ false
      first a c e = ground arith

      second : (a c : Bool) → (a || c) ≡ false → c ≡ false
      second a c e = ground arith

  -- A RoleBinding whose subjects and labels are those of the merge needs no update.
  pub needs_nothing-merged :
      (existing desired merged : RoleBinding)
      → IsMap desired.labels
      → merged.subjects ≡ merge_subjects existing.subjects desired.subjects
      → merged.labels ≡ merge_labels existing.labels desired.labels
      → role_binding_needs_update merged desired ≡ false
  unfolding role_binding_needs_update
  needs_nothing-merged existing desired merged is_map subjects labels = rw (subjects) (
      rw (labels) (
        rw (none_missed (merge_subjects existing.subjects desired.subjects) desired.subjects held)
          (labels_need_update-merge_labels existing.labels desired.labels is_map)))
    where
      held :
          (s : Subject)
          → contains_subject desired.subjects s ≡ true
          → contains_subject (merge_subjects existing.subjects desired.subjects) s ≡ true
      held s h =
          rw (contains-merge_subjects existing.subjects desired.subjects s)
            (rw (h) (or_true (contains_subject existing.subjects s)))

  -- Nor does the desired RoleBinding itself.
  pub needs_nothing_self :
      (desired : RoleBinding)
      → IsMap desired.labels
      → role_binding_needs_update desired desired ≡ false
  unfolding role_binding_needs_update
  needs_nothing_self desired is_map =
      rw (none_missed desired.subjects desired.subjects (λ s h. h))
        (labels_need_update_self desired.labels is_map)
