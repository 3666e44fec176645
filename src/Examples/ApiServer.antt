-- ===== src/Examples/ApiServer.antt =====
-- An API server with one Role and one RoleBinding.
use plugin_barman_cloud.Base.{
  ◌≡◌, refl, sym, subst, Bool, true, false, ◌&&◌, Option, none, some, List, ◌++◌, String, ◌==◌,
  ==_refl, string_eq, eq_iff, contains-append, lookup, arith, if◌then◌else◌, Bool-cases, inl, inr,
}
use plugin_barman_cloud.Base.Exec.{Result, ok, err}
use plugin_barman_cloud.Api.{NamespacedName}
use plugin_barman_cloud.Rbac.Merge.Laws.{IsMap}
use plugin_barman_cloud.Examples.{replica}
use plugin_barman_cloud.Examples.Equality.{
  list_beq, list_beq-true, list_eq, subject_eq, role_ref_eq, rule_eq,
}
use plugin_barman_cloud.Rbac.Specs.{build_labels, Subject, Role, RoleBinding, LabelNames}
use plugin_barman_cloud.Rbac.Merge.{contains_subject}
use plugin_barman_cloud.Rbac.Ensure.{RbacClient, RbacParameters, role_key, role_binding_key}
use plugin_barman_cloud.Rbac.Retry.{last, RetryLaws, RoleLaws}
use plugin_barman_cloud.Rbac.Binding.Grants.{KeptByAdditions}
use plugin_barman_cloud.Rbac.Binding.Converge.{BindingLaws}

abbrev pub label_names : LabelNames
label_names = record {
  app = "app.kubernetes.io/name";
  instance_name = "app.kubernetes.io/instance";
  version = "app.kubernetes.io/version";
  component = "app.kubernetes.io/component";
  managed_by = "app.kubernetes.io/managed-by";
  database_component = "database";
}

abbrev pub parameters : RbacParameters
parameters = record {
  to_sorted_list = λ xs. xs;
  label_names = label_names;
  rules_eq = list_eq;
  role_ref_eq = role_ref_eq;
  subject_eq = subject_eq;
}

-- The world: the Role and the RoleBinding that the server has.
abbrev pub Server : Type 0
Server = Option Role × Option RoleBinding

abbrev pub answer : {A : Type 0} → Option A → Server → Result String A × Server
answer none w = (err "not found", w)
answer (some a) w = (ok a, w)

-- The Role under a key.
abbrev pub role_at : NamespacedName → Option Role → Option Role
role_at key none = none
role_at key (some role) =
    if role.namespace == key.namespace && role.name == key.name then some role else none

-- The RoleBinding under a key.
abbrev pub binding_at : NamespacedName → Option RoleBinding → Option RoleBinding
binding_at key none = none
binding_at key (some b) =
    if b.namespace == key.namespace && b.name == key.name then some b else none

abbrev create_binding :
    RoleBinding → Option RoleBinding → Option Role → Result String (Unit {0}) × Server
create_binding binding none role = (ok tt, (role, some binding))
create_binding binding (some old) role = (err "already exists", (role, some old))

-- The optimistic lock: a `Patch` of Subjects that are not the current ones is a conflict.
abbrev patch_binding :
    RoleBinding → RoleBinding → Option RoleBinding → Option Role → Result String (Unit {0}) × Server
patch_binding old new none role = (err "not found", (role, none))
patch_binding old new (some current) role =
    if list_beq current.subjects old.subjects
    then (ok tt, (role, some new))
    else (err "conflict", (role, some current))

abbrev pub server_client : RbacClient Server String
server_client = record {
  get_role = λ key w. answer (role_at key w.0) w;
  create_role = λ role w. (ok tt, (some role, w.1));
  patch_role = λ old new w. (ok tt, (some new, w.1));
  get_role_binding = λ key w. answer (binding_at key w.1) w;
  create_role_binding = λ binding w. create_binding binding w.1 w.0;
  patch_role_binding = λ old new w. patch_binding old new w.1 w.0;
  is_not_found = λ e. e == "not found";
  is_already_exists = λ e. e == "already exists";
  is_conflict = λ e. e == "conflict";
  no_kind = "no kind";
  divergent_role_ref = λ a b. "divergent";
  retry_on_conflict = λ m. m;
}

answer_keeps : {A : Type 0} (o : Option A) (w : Server) → (answer o w).1 ≡ w
answer_keeps none w = refl
answer_keeps (some a) w = refl

answered_ok : {A : Type 0} (o : Option A) (w : Server) (a : A) → (answer o w).0 ≡ ok a → o ≡ some a
answered_ok none w a h = absurd (cc)
answered_ok (some b) w a h = cc

pub server_client-BindingLaws : BindingLaws server_client
server_client-BindingLaws = record {
  shown = λ w key. binding_at key w.1;
  get_shows = get_shows;
  create_shows = create_shows;
  patch_shows = patch_shows;
}
  where
    own : (b : RoleBinding) → binding_at (role_binding_key b) (some b) ≡ some b
    own b = cc (==_refl b.namespace, ==_refl b.name)

    keyed :
        (key : NamespacedName) (o : Option RoleBinding) (b : RoleBinding)
        → binding_at key o ≡ some b
        → role_binding_key b ≡ key
    keyed key none b h = absurd (cc)
    keyed key (some r) b h =
        ground (arith, eq_iff r.namespace key.namespace, eq_iff r.name key.name)

    get_shows :
        (key : NamespacedName) (w : Server) (b : RoleBinding)
        → (server_client.get_role_binding key w).0 ≡ ok b
        → (binding_at key (server_client.get_role_binding key w).1.1 ≡ some b)
          × (role_binding_key b ≡ key)
    get_shows key w b h =
        let there = answered_ok (binding_at key w.1) w b h in
        (rw (answer_keeps (binding_at key w.1) w) there, keyed key w.1 b there)

    create_shows :
        (b : RoleBinding) (w : Server)
        → (server_client.create_role_binding b w).0 ≡ ok tt
        → binding_at (role_binding_key b) (server_client.create_role_binding b w).1.1 ≡ some b
    create_shows b (role, none) h = own b
    create_shows b (role, some old) h = absurd (cc)

    patch_shows :
        (old new : RoleBinding) (w : Server)
        → (server_client.patch_role_binding old new w).0 ≡ ok tt
        → binding_at (role_binding_key new) (server_client.patch_role_binding old new w).1.1
          ≡ some new
    patch_shows old new (role, none) h = absurd (cc)
    patch_shows old new (role, some current) h = patched (list_beq current.subjects old.subjects) h
      where
        patched :
            (b : Bool)
            → (if◌then◌else◌ {A = Result String (Unit {0}) × Server} b
                (ok tt, (role, some new))
                (err "conflict", (role, some current))).0
              ≡ ok tt
            → binding_at
                (role_binding_key new)
                (if◌then◌else◌ {A = Result String (Unit {0}) × Server} b
                  (ok tt, (role, some new))
                  (err "conflict", (role, some current))).1.1
              ≡ some new
        patched true g = cc (==_refl new.namespace, ==_refl new.name)
        patched false g = absurd (cc)

pub server_client-RetryLaws : RetryLaws server_client
server_client-RetryLaws = record { retries = λ attempt s. last s }

pub server_client-RoleLaws : RoleLaws server_client
server_client-RoleLaws = record {
  shown = λ w key. role_at key w.0;
  get_shows = get_shows;
  patch_shows = λ old new w h. cc (==_refl new.namespace, ==_refl new.name);
}
  where
    answered :
        (o : Option Role) (w : Server) (role : Role)
        → (answer o w).0 ≡ ok role
        → (o ≡ some role) × ((answer o w).1 ≡ w)
    answered none w role h = absurd (cc)
    answered (some r) w role h = (cc, refl)

    keyed :
        (key : NamespacedName) (o : Option Role) (role : Role)
        → role_at key o ≡ some role
        → role_key role ≡ key
    keyed key none role h = absurd (cc)
    keyed key (some r) role h =
        ground (arith, eq_iff r.namespace key.namespace, eq_iff r.name key.name)

    get_shows :
        (key : NamespacedName) (w : Server) (role : Role)
        → (server_client.get_role key w).0 ≡ ok role
        → (role_at key (server_client.get_role key w).1.0 ≡ some role) × (role_key role ≡ key)
    get_shows key w role h =
        let (there, same) = answered (role_at key w.0) w role h in
        (rw (same) there, keyed key w.0 role there)

-- The server has a RoleBinding, and in it somebody's access.
abbrev pub Grants : Subject → Server → Type 0
Grants subject (role, none) = ⊥
Grants subject (role, some binding) = contains_subject binding.subjects subject ≡ true

pub Grants-KeptByAdditions : (subject : Subject) → KeptByAdditions server_client (Grants subject)
unfolding contains_subject
Grants-KeptByAdditions subject = record {
  by_get = by_get;
  by_create = by_create;
  by_addition = by_addition;
}
  where
    by_get :
        (key : NamespacedName) (w : Server)
        → Grants subject w
        → Grants subject (server_client.get_role_binding key w).1
    by_get key w holds = subst (Grants subject) (sym (answer_keeps (binding_at key w.1) w)) holds

    by_create :
        (binding : RoleBinding) (w : Server)
        → Grants subject w
        → Grants subject (server_client.create_role_binding binding w).1
    by_create binding (role, none) holds = absurd (holds)
    by_create binding (role, some old) holds = holds

    by_addition :
        (old new : RoleBinding) (added : List Subject) (w : Server)
        → new.subjects ≡ old.subjects ++ added
        → new.role_ref ≡ old.role_ref
        → Grants subject w
        → Grants subject (server_client.patch_role_binding old new w).1
    by_addition old new added (role, none) is_append same holds = holds
    by_addition old new added (role, some current) is_append same holds =
        elim (Bool-cases (list_beq current.subjects old.subjects)) [
          | inr t ↦ rw (t) holds
          | inl t ↦
              let unchanged : current.subjects ≡ old.subjects =
                list_beq-true current.subjects old.subjects t in
              rw (t) (rw (is_append) (rw (← unchanged) (granted holds)))
        ]
      where
        granted :
            contains_subject current.subjects subject ≡ true
            → contains_subject (current.subjects ++ added) subject ≡ true
        granted h = rw (contains-append current.subjects added subject) (rw (h) refl)

abbrev pub empty_server : Server
empty_server = (none, none)

pub labels-IsMap : IsMap (build_labels label_names replica)
unfolding build_labels IsMap lookup
labels-IsMap = (refl, (refl, (refl, (refl, (refl, (refl, tt))))))
