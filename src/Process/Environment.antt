-- ===== src/Process/Environment.antt =====
-- internal/cnpgi/operator/lifecycle.go: the variables that the injected sidecar finds set.
use mathlib.Core.Option
use plugin_barman_cloud.Base.{
  ◌≡◌, refl, Bool, true, false, ◌||◌, Option, none, some, List, [], ◌∷◌, ◌++◌, String, ◌==◌,
  string_eq, if◌then◌else◌, Bool-cases, inl, inr, ◌∙◌, ap, sym, eq_iff,
}
use plugin_barman_cloud.Api.{EnvVar, Cluster}
use plugin_barman_cloud.Lifecycle.PodSpec.{has_env, merge_missing}
use plugin_barman_cloud.Lifecycle.Injection.{SidecarConfiguration, default_env, sidecar_of}

-- The first of two values that is there.
abbrev pub or_else : Option String → Option String → Option String
or_else none o = o
or_else (some v) o = some v

-- The value of the last variable of that name, as Kubernetes takes it.
abbrev pub last_value : List EnvVar → String → Option String
last_value [] n = none
last_value (e ∷ es) n = or_else (last_value es n) (if e.name == n then some e.value else none)

-- The value of the first one.
abbrev pub first_value : List EnvVar → String → Option String
first_value [] n = none
first_value (e ∷ es) n = let rest = first_value es n in if e.name == n then some e.value else rest

-- What a process finds in its environment.
abbrev pub environment : List EnvVar → String → String
environment env n = Option.get_or (last_value env n) ""

or_else_assoc : (a b c : Option String) → or_else (or_else a b) c ≡ or_else a (or_else b c)
or_else_assoc none b c = refl
or_else_assoc (some v) b c = refl

or_else-none : (a : Option String) → or_else a none ≡ a
or_else-none none = refl
or_else-none (some v) = refl

last_value-snoc :
    (env : List EnvVar) (e : EnvVar) (n : String)
    → last_value (env ++ e ∷ []) n
      ≡ or_else (if e.name == n then some e.value else none) (last_value env n)
last_value-snoc [] e n = sym (or_else-none (if e.name == n then some e.value else none))
last_value-snoc (x ∷ env) e n =
    rw (last_value-snoc env e n)
      (or_else_assoc (if e.name == n then some e.value else none) (last_value env n) _)

abbrev is_there : Option String → Bool
is_there none = false
is_there (some v) = true

is_there-or_else : (a b : Option String) → is_there (or_else a b) ≡ is_there b || is_there a
is_there-or_else none none = refl
is_there-or_else none (some w) = refl
is_there-or_else (some v) none = refl
is_there-or_else (some v) (some w) = refl

is_there-if : (b : Bool) (v : String) → is_there (if b then some v else none) ≡ b
is_there-if true v = refl
is_there-if false v = refl

has_env-is_there : (env : List EnvVar) (n : String) → has_env env n ≡ is_there (last_value env n)
unfolding has_env
has_env-is_there [] n = refl
has_env-is_there (e ∷ env) n = sym (
    is_there-or_else (last_value env n) _
    ∙ (rw (is_there-if (e.name == n) e.value) (rw (has_env-is_there env n) refl)))

-- A variable that is there already is not merged in, and one that is not takes the value, where `b`
-- says that the merged one is the one that is asked for.
kept :
    (o rest : Option String) (b : Bool) (v : String)
    → (b ≡ true → is_there o ≡ true)
    → or_else o rest ≡ or_else o (if b then some v else rest)
kept (some w) rest b v there = refl
kept none rest false v there = refl
kept none rest true v there = absurd (let t : false ≡ true = there refl in cc)

added :
    (o rest : Option String) (b : Bool) (v : String)
    → (b ≡ true → is_there o ≡ false)
    → or_else (or_else (if b then some v else none) o) rest ≡ or_else o (if b then some v else rest)
added o rest false v there = refl
added none rest true v there = refl
added (some w) rest true v there = absurd (let t : true ≡ false = there refl in cc)

-- A variable keeps the value that it has, and else takes the first one that is merged in.
last_value-merge_missing :
    (env es : List EnvVar) (n : String)
    → last_value (merge_missing env es) n ≡ or_else (last_value env n) (first_value es n)
unfolding merge_missing
last_value-merge_missing env [] n = sym (or_else-none (last_value env n))
last_value-merge_missing env (e ∷ es) n = elim (Bool-cases (has_env env e.name)) [
  | inl t ↦ rw (t) (
      last_value-merge_missing env es n
      ∙ kept (last_value env n) (first_value es n) (e.name == n) e.value (λ u. known u ∙ t))
  | inr t ↦ rw (t) (
      last_value-merge_missing (env ++ e ∷ []) es n
      ∙ (rw (last_value-snoc env e n)
          (added (last_value env n) (first_value es n) (e.name == n) e.value (λ u. known u ∙ t))))
]
  where
    known : (e.name == n) ≡ true → is_there (last_value env n) ≡ has_env env e.name
    known u = sym (has_env-is_there env n) ∙ ap (has_env env) (sym ((eq_iff e.name n).0 u))

-- A variable of the sidecar: what the main container sets first, and else the default.
pub environment-sidecar_of :
    (sidecar_image : String) (cluster : Cluster) (main : List EnvVar) (args : List String)
    (config : SidecarConfiguration) (n : String)
    → environment (sidecar_of sidecar_image cluster main args config).env n
      ≡ Option.get_or
          (or_else (first_value main n) (first_value (default_env cluster config.env) n))
          ""
unfolding sidecar_of
environment-sidecar_of sidecar_image cluster main args config n =
    ap (λ o. Option.get_or o "")
      (last_value-merge_missing (merge_missing [] main) (default_env cluster config.env) n
        ∙ ap (λ o. or_else o (first_value (default_env cluster config.env) n))
            (last_value-merge_missing [] main n))
