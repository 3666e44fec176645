-- ===== src/Config/Referred.antt =====
-- The object stores that a configuration refers to, and when it is valid.
use plugin_barman_cloud.Base.{
  ◌≡◌, ◌≢◌, ◌↔◌, refl, ap, ◌∙◌, Bool, true, false, ◌&&◌, ◌||◌, none, List, [], ◌∷◌, map, String,
  ◌==◌, string_eq, ==_refl, eq_iff, arith, contains, All, Bool-cases, inl, inr,
}
use plugin_barman_cloud.Api.{NamespacedName}
use plugin_barman_cloud.Config.{
  PluginConfiguration, is_set, key_in, referred_names, get_referred_barman_objects_key, validate,
}

-- The text is one of the three object names, and not empty.
abbrev pub refers : PluginConfiguration → String → Bool
refers c n =
    is_set n
    && (c.barman_object_name == n
        || (c.recovery_barman_object_name == n || c.replica_source_barman_object_name == n))

contains-referred_names :
    (c : PluginConfiguration) (n : String) → contains (referred_names c) n ≡ refers c n
unfolding referred_names contains
contains-referred_names c n = ground (
  arith,
  eq_iff c.barman_object_name n,
  eq_iff c.recovery_barman_object_name n,
  eq_iff c.replica_source_barman_object_name n,
  eq_iff c.barman_object_name "",
  eq_iff c.recovery_barman_object_name "",
  eq_iff c.replica_source_barman_object_name "",
  eq_iff n "",
)

abbrev pub name_of : NamespacedName → String
name_of k = k.name

names-keys : (s : String) (ns : List String) → map name_of (map (key_in s) ns) ≡ ns
names-keys s [] = refl
names-keys s (n ∷ ns) = ap (◌∷◌ n) (names-keys s ns)

keys-namespace :
    (s : String) (ns : List String)
    → All (λ (k : NamespacedName). k.namespace ≡ s) (map (key_in s) ns)
keys-namespace s [] = tt
keys-namespace s (n ∷ ns) = (refl, keys-namespace s ns)

valid_of_refers : (c : PluginConfiguration) (n : String) → refers c n ≡ true → validate c ≡ none
unfolding validate
valid_of_refers c n h = ground (
  arith,
  eq_iff c.barman_object_name n,
  eq_iff c.recovery_barman_object_name n,
  eq_iff c.replica_source_barman_object_name n,
  eq_iff c.barman_object_name "",
  eq_iff c.recovery_barman_object_name "",
  eq_iff c.replica_source_barman_object_name "",
  eq_iff n "",
)

refers_of_valid : (c : PluginConfiguration) → validate c ≡ none → (n : String) × (refers c n ≡ true)
unfolding validate
refers_of_valid c h = elim (Bool-cases (is_set c.barman_object_name)) [
  | inl a ↦ (c.barman_object_name, ground (arith, a, ==_refl c.barman_object_name))
  | inr a ↦ elim (Bool-cases (is_set c.recovery_barman_object_name)) [
    | inl b ↦
        (c.recovery_barman_object_name, ground (arith, b, ==_refl c.recovery_barman_object_name))
    | inr b ↦ (
      c.replica_source_barman_object_name,
      ground (arith, a, b, h, ==_refl c.replica_source_barman_object_name),
    )
  ]
]

contains-head : (n : String) (ns : List String) → contains (n ∷ ns) n ≡ true
unfolding contains
contains-head n ns = rw (==_refl n)

contains-nil : (n : String) → contains [] n ≡ false
unfolding contains
contains-nil n = refl

module _ (to_sorted_list : List String → List String)
    (same_members : (xs : List String) (x : String)
      → contains (to_sorted_list xs) x ≡ contains xs x) where
  -- Where `ToSortedList` keeps the members of a set, the keys that a configuration refers to are
  -- in the namespace of its Cluster, and their names are exactly those of its three object names
  -- that are not empty.
  pub referred_exactly :
      (c : PluginConfiguration)
      → All
          (λ (k : NamespacedName). k.namespace ≡ c.cluster.namespace)
          (get_referred_barman_objects_key to_sorted_list c)
        × ((n : String)
            → contains (map name_of (get_referred_barman_objects_key to_sorted_list c)) n
              ≡ refers c n)
  unfolding get_referred_barman_objects_key
  referred_exactly c = (
    keys-namespace c.cluster.namespace (to_sorted_list (referred_names c)),
    λ n. rw names-keys (same_members (referred_names c) n ∙ contains-referred_names c n),
  )

  -- Where `ToSortedList` keeps the members of a set, a configuration is valid exactly if it refers
  -- to an object store.
  pub validate-referred :
      (c : PluginConfiguration)
      → (validate c ≡ none) ↔ (get_referred_barman_objects_key to_sorted_list c ≢ [])
  unfolding get_referred_barman_objects_key
  validate-referred c = (
    λ h e.
        let (n, referred) = refers_of_valid c h in
        let listed = (referred_exactly c).1 n ∙ referred in
        cc (listed, ap (λ ks. contains (map name_of ks) n) e, contains-nil n),
    λ some_key. first (to_sorted_list (referred_names c)) refl some_key,
  )
    where
      first :
          (ns : List String)
          → to_sorted_list (referred_names c) ≡ ns
          → map (key_in c.cluster.namespace) ns ≢ []
          → validate c ≡ none
      first [] e h = absurd (h refl)
      first (n ∷ ns) e h = valid_of_refers c n (
          cc (
            contains-head n ns,
            ap (λ xs. contains xs n) e,
            same_members (referred_names c) n,
            contains-referred_names c n,
          ))
