-- ===== src/Config/Sources.antt =====
-- Where the names of a plugin configuration come from (config.go, `NewFromCluster`).
use mathlib.Core.Option
use plugin_barman_cloud.Base.{
  ℕ, zero, suc, ◌+◌, ◌≤◌, ◌≡◌, ◌≢◌, refl, ap, ◌∙◌, true, false, ◌&&◌, Option, none, some, List, [],
  ◌∷◌, ◌⊎◌, inl, inr, String, StringMap, lookup, at, ◌==◌, string_eq, eq_iff, arith, get_elem?,
  Option-cases, Bool-cases,
}
use plugin_barman_cloud.Api.{plugin_name, PluginStanza, Cluster}
use plugin_barman_cloud.Config.{
  Plugin, find_plugin, new_plugin, choose_server_name, source_names, own_parameters,
  get_recovery_source_plugin, get_replica_source_plugin, new_from_cluster,
}

-- The server names that enabled stanzas of this plugin give, in order.
unfoldable pub given_server_names : List PluginStanza → List String
given_server_names [] = []
given_server_names (p ∷ ps) =
    let rest = given_server_names ps in
    elim (p.is_enabled && p.name == plugin_name) [
      | false ↦ rest
      | true ↦ elim (Option.bind p.parameters (lookup "serverName")) [
        | none ↦ rest
        | some s ↦ s ∷ rest
      ]
    ]

unfoldable pub last_or : String → List String → String
last_or d [] = d
last_or d (x ∷ xs) = last_or x xs

choose_server_name-last :
    (d : String) (ps : List PluginStanza)
    → choose_server_name d ps ≡ last_or d (given_server_names ps)
unfolding choose_server_name given_server_names last_or
choose_server_name-last d [] = refl
choose_server_name-last d (p ∷ ps) = elim (Bool-cases (p.is_enabled && p.name == plugin_name)) [
  | inr other ↦ rw (other, choose_server_name, given_server_names) (choose_server_name-last d ps)
  | inl own ↦ elim (Option-cases (Option.bind p.parameters (lookup "serverName"))) [
    | inl missing ↦
        rw (own, missing, choose_server_name, given_server_names) (choose_server_name-last d ps)
    | inr (s, given) ↦
        rw (own, given, choose_server_name, given_server_names) (choose_server_name-last s ps)
  ]
]

-- The server name is the last one that an enabled stanza of this plugin gives, in the order of the
-- stanzas, and the name of the Cluster if none gives one.
pub server_name-last :
    (c : Cluster) → (new_from_cluster c).server_name ≡ last_or c.name (given_server_names c.plugins)
unfolding new_from_cluster
server_name-last c = choose_server_name-last c.name c.plugins

pub source_names-own :
    (c : Cluster) (o : Option PluginStanza)
    → c.name ≢ ""
    → (source_names c (own_parameters o)).0 ≢ ""
    → (p : PluginStanza) × (m : StringMap) × (o ≡ some p)
      × (p.name ≡ plugin_name)
      × (p.parameters ≡ some m)
      × ((source_names c (own_parameters o)).0 ≡ at "barmanObjectName" m)
      × ((source_names c (own_parameters o)).1 ≢ "")
unfolding source_names own_parameters
source_names-own c none named set = absurd (set refl)
source_names-own c (some p) named set = elim (Bool-cases (p.name == plugin_name)) [
  | inr other ↦ absurd (set (rw (other, own_parameters)))
  | inl own ↦ elim (Option-cases p.parameters) [
    | inl missing ↦ absurd (set (ground (arith, missing)))
    | inr (m, given) ↦ (
      p,
      m,
      refl,
      (eq_iff p.name plugin_name).0 own,
      given,
      ground arith,
      λ e. ground (arith, own, given, e, named, eq_iff (at "serverName" m) ""),
    )
  ]
]

-- In a Cluster that has a name, a recovery object store is set only where the external cluster of
-- the recovery source names this plugin; the object store is the one of that stanza's parameters,
-- and a recovery server name is set beside it.
pub recovery_source-own :
    (c : Cluster)
    → c.name ≢ ""
    → (new_from_cluster c).recovery_barman_object_name ≢ ""
    → (p : PluginStanza) × (m : StringMap) × (get_recovery_source_plugin c ≡ some p)
      × (p.name ≡ plugin_name)
      × (p.parameters ≡ some m)
      × ((new_from_cluster c).recovery_barman_object_name ≡ at "barmanObjectName" m)
      × ((new_from_cluster c).recovery_server_name ≢ "")
unfolding new_from_cluster
recovery_source-own c named set = source_names-own c (get_recovery_source_plugin c) named set

-- The same for the source of a replica cluster.
pub replica_source-own :
    (c : Cluster)
    → c.name ≢ ""
    → (new_from_cluster c).replica_source_barman_object_name ≢ ""
    → (p : PluginStanza) × (m : StringMap) × (get_replica_source_plugin c ≡ some p)
      × (p.name ≡ plugin_name)
      × (p.parameters ≡ some m)
      × ((new_from_cluster c).replica_source_barman_object_name ≡ at "barmanObjectName" m)
      × ((new_from_cluster c).replica_source_server_name ≢ "")
unfolding new_from_cluster
replica_source-own c named set = source_names-own c (get_replica_source_plugin c) named set

-- No stanza from the place `from` on has the name.
abbrev pub AbsentFrom : String → ℕ → List PluginStanza → Type 0
AbsentFrom wanted from ps =
    (j : ℕ) (q : PluginStanza) → from ≤ j → get_elem? ps j ≡ some q → (q.name == wanted) ≡ false

-- A plugin is the last stanza of the name, with its place counted from `idx`.
abbrev IsLast : String → ℕ → List PluginStanza → Plugin → Type 0
IsLast wanted idx ps r =
    (i : ℕ) × (p : PluginStanza) × (get_elem? ps i ≡ some p)
    × (p.name ≡ wanted)
    × AbsentFrom wanted (suc i) ps
    × (r ≡ record { parameters = p.parameters; plugin_index = some (idx + i) })

AbsentFrom-cons :
    (wanted : String) (n : ℕ) (p : PluginStanza) (ps : List PluginStanza)
    → AbsentFrom wanted n ps
    → AbsentFrom wanted (suc n) (p ∷ ps)
AbsentFrom-cons wanted n p ps h zero q below e = absurd (omega arith)
AbsentFrom-cons wanted n p ps h (suc j) q below e = h j q (omega arith) e

AbsentFrom-here :
    (wanted : String) (p : PluginStanza) (ps : List PluginStanza)
    → (p.name == wanted) ≡ false
    → AbsentFrom wanted 0 ps
    → AbsentFrom wanted 0 (p ∷ ps)
AbsentFrom-here wanted p ps other h zero q below e = ground (arith, other, e)
AbsentFrom-here wanted p ps other h (suc j) q below e = h j q (omega arith) e

IsLast-cons :
    (wanted : String) (idx : ℕ) (p : PluginStanza) (ps : List PluginStanza) (r : Plugin)
    → IsLast wanted (suc idx) ps r
    → IsLast wanted idx (p ∷ ps) r
IsLast-cons wanted idx p ps r (i, q, at_i, named, absent, found) = (
  suc i,
  q,
  at_i,
  named,
  AbsentFrom-cons wanted (suc i) p ps absent,
  rw found (ap (λ k. record { parameters = q.parameters; plugin_index = some k }) (omega arith)),
)

find_plugin-IsLast :
    (wanted : String) (idx : ℕ) (before : Plugin) (ps : List PluginStanza)
    → ((find_plugin wanted idx before ps ≡ before) × AbsentFrom wanted 0 ps)
      ⊎ IsLast wanted idx ps (find_plugin wanted idx before ps)
unfolding find_plugin
find_plugin-IsLast wanted idx before [] = inl (refl, λ j q below e. cc)
find_plugin-IsLast wanted idx before (p ∷ ps) = elim (Bool-cases (p.name == wanted)) [
  | inr other ↦
      rw (other, find_plugin)
        (elim (find_plugin-IsLast wanted (suc idx) before ps) [
          | inl (same, absent) ↦ inl (same, AbsentFrom-here wanted p ps other absent)
          | inr last ↦ inr (IsLast-cons wanted idx p ps _ last)
        ])
  | inl own ↦
      let here : Plugin = record { parameters = p.parameters; plugin_index = some idx } in
      rw (own, find_plugin)
        (elim (find_plugin-IsLast wanted (suc idx) here ps) [
          | inl (same, absent) ↦ inr (
            0,
            p,
            refl,
            (eq_iff p.name wanted).0 own,
            AbsentFrom-cons wanted 0 p ps absent,
            same
                ∙ ap (λ k. record { parameters = p.parameters; plugin_index = some k })
                    (omega arith),
          )
          | inr last ↦ inr (IsLast-cons wanted idx p ps _ last)
        ])
]

-- `NewPlugin` finds nothing exactly where no stanza has the name; otherwise its index and its
-- parameters are those of the last stanza of the name.
pub new_plugin-last :
    (c : Cluster) (wanted : String)
    → ((new_plugin c wanted ≡ record { parameters = none; plugin_index = none })
        × AbsentFrom wanted 0 c.plugins)
      ⊎ ((i : ℕ) × (p : PluginStanza) × (get_elem? c.plugins i ≡ some p)
          × (p.name ≡ wanted)
          × AbsentFrom wanted (suc i) c.plugins
          × (new_plugin c wanted
              ≡ record { parameters = p.parameters; plugin_index = some (0 + i) }))
unfolding new_plugin
new_plugin-last c wanted =
    find_plugin-IsLast wanted 0 (record { parameters = none; plugin_index = none }) c.plugins
