-- ===== src/Examples/Equality.antt =====
-- Equalities on the types that internal/cnpgi/operator/rbac compares.
use plugin_barman_cloud.Base.{
  ◌≡◌, refl, subst, Bool, true, false, ◌&&◌, List, [], ◌∷◌, Eq, ◌==◌, ==_refl, string_eq, eq_iff,
  arith,
}
use plugin_barman_cloud.Rbac.Specs.{PolicyRule, Subject, RoleRef}

module _ {A : Type 0} ⦃e : Eq A⦄ where
  abbrev pub list_beq : List A → List A → Bool
  list_beq [] [] = true
  list_beq (x ∷ xs) (y ∷ ys) = x == y && list_beq xs ys
  list_beq _ _ = false

  pub list_beq-true : (xs ys : List A) → list_beq xs ys ≡ true → xs ≡ ys
  list_beq-true [] [] h = refl
  list_beq-true [] (y ∷ ys) h = absurd (cc)
  list_beq-true (x ∷ xs) [] h = absurd (cc)
  list_beq-true (x ∷ xs) (y ∷ ys) h = ground (arith, e.beq_iff x y, list_beq-true xs ys)

  pub list_beq_refl : (xs : List A) → list_beq xs xs ≡ true
  list_beq_refl [] = refl
  list_beq_refl (x ∷ xs) = cc (==_refl x, list_beq_refl xs)

  instance abbrev pub list_eq : Eq (List A)
  list_eq = record {
    beq = list_beq;
    beq_iff = λ xs ys.
        (list_beq-true xs ys, λ h. subst (λ zs. list_beq xs zs ≡ true) h (list_beq_refl xs));
  }

-- A test that tells all fields apart is an equality.
abbrev pub eq_of :
    {A : Type 0} (same : A → A → Bool)
    → ((a b : A) → same a b ≡ true → a ≡ b)
    → ((a : A) → same a a ≡ true)
    → Eq A
eq_of same sound same_refl = record {
  beq = same;
  beq_iff = λ a b. (sound a b, λ h. subst (λ c. same a c ≡ true) h (same_refl a));
}

abbrev pub same_subject : Subject → Subject → Bool
same_subject a b =
    a.kind == b.kind
    && (a.api_group == b.api_group && (a.name == b.name && a.namespace == b.namespace))

pub same_subject_refl : (a : Subject) → same_subject a a ≡ true
same_subject_refl a = cc (==_refl a.kind, ==_refl a.api_group, ==_refl a.name, ==_refl a.namespace)

pub same_subject-true : (a b : Subject) → same_subject a b ≡ true → a ≡ b
same_subject-true a b h = ground (
  arith,
  eq_iff a.kind b.kind,
  eq_iff a.api_group b.api_group,
  eq_iff a.name b.name,
  eq_iff a.namespace b.namespace,
)

instance abbrev pub subject_eq : Eq Subject
subject_eq = eq_of same_subject same_subject-true same_subject_refl

abbrev pub same_role_ref : RoleRef → RoleRef → Bool
same_role_ref a b = a.api_group == b.api_group && (a.kind == b.kind && a.name == b.name)

pub same_role_ref_refl : (a : RoleRef) → same_role_ref a a ≡ true
same_role_ref_refl a = cc (==_refl a.api_group, ==_refl a.kind, ==_refl a.name)

pub same_role_ref-true : (a b : RoleRef) → same_role_ref a b ≡ true → a ≡ b
same_role_ref-true a b h =
    ground (arith, eq_iff a.api_group b.api_group, eq_iff a.kind b.kind, eq_iff a.name b.name)

abbrev pub role_ref_eq : Eq RoleRef
role_ref_eq = eq_of same_role_ref same_role_ref-true same_role_ref_refl

abbrev pub same_rule : PolicyRule → PolicyRule → Bool
same_rule a b =
    list_beq a.api_groups b.api_groups
    && (list_beq a.verbs b.verbs
        && (list_beq a.resources b.resources && list_beq a.resource_names b.resource_names))

pub same_rule_refl : (a : PolicyRule) → same_rule a a ≡ true
same_rule_refl a = cc (
  list_beq_refl a.api_groups,
  list_beq_refl a.verbs,
  list_beq_refl a.resources,
  list_beq_refl a.resource_names,
)

pub same_rule-true : (a b : PolicyRule) → same_rule a b ≡ true → a ≡ b
same_rule-true a b h = ground (
  arith,
  list_beq-true a.api_groups b.api_groups,
  list_beq-true a.verbs b.verbs,
  list_beq-true a.resources b.resources,
  list_beq-true a.resource_names b.resource_names,
)

instance abbrev pub rule_eq : Eq PolicyRule
rule_eq = eq_of same_rule same_rule-true same_rule_refl
