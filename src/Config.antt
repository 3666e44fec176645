-- ===== src/Config.antt =====
-- internal/cnpgi/operator/config/config.go: the plugin's configuration, taken from a Cluster.
pub mod Sources
pub mod Referred
mod Tests
use mathlib.Core.Option
use plugin_barman_cloud.Base.{
  ℕ, zero, suc, Bool, true, false, ◌&&◌, ◌||◌, not, Option, none, some, List, [], ◌∷◌, ◌++◌, map,
  String, StringMap, lookup, at, ◌==◌, string_eq, if◌then◌else◌,
}
use plugin_barman_cloud.Base.Exec.{Result, ok, err}
use plugin_barman_cloud.Api.{
  plugin_name, NamespacedName, PluginStanza, ExternalCluster, ReplicaCluster, Cluster,
}

-- `ConfigurationError`: its messages. The nil error is `none`.
pub record ConfigurationError : Type 0 where
  pub messages : List String

-- `NewConfigurationError`
abbrev pub new_configuration_error : ConfigurationError
new_configuration_error = record { messages = [] }

-- `WithMessage`, on a receiver that may be nil.
unfoldable pub with_message : Option ConfigurationError → String → ConfigurationError
with_message none msg = record { messages = msg ∷ [] }
with_message (some e) msg = record { messages = e.messages ++ msg ∷ [] }

-- `IsEmpty`
unfoldable pub is_empty : ConfigurationError → Bool
is_empty e = elim e.messages [ [] ↦ true | m ∷ ms ↦ false ]

pub record PluginConfiguration : Type 0 where
  pub cluster : Cluster
  pub barman_object_name : String
  pub server_name : String
  pub recovery_barman_object_name : String
  pub recovery_server_name : String
  pub replica_source_barman_object_name : String
  pub replica_source_server_name : String

-- `len(s) > 0`
abbrev pub is_set : String → Bool
is_set s = not (s == "")

unfoldable pub get_barman_object_key : PluginConfiguration → NamespacedName
get_barman_object_key c = record { namespace = c.cluster.namespace; name = c.barman_object_name }

unfoldable pub get_recovery_barman_object_key : PluginConfiguration → NamespacedName
get_recovery_barman_object_key c = record {
  namespace = c.cluster.namespace;
  name = c.recovery_barman_object_name;
}

unfoldable pub get_replica_source_barman_object_key : PluginConfiguration → NamespacedName
get_replica_source_barman_object_key c = record {
  namespace = c.cluster.namespace;
  name = c.replica_source_barman_object_name;
}

-- The names that are put into the string set, in the order of the calls of `Put`.
unfoldable pub referred_names : PluginConfiguration → List String
referred_names c =
    (if is_set c.barman_object_name then c.barman_object_name ∷ [] else [])
    ++ ((if is_set c.recovery_barman_object_name then c.recovery_barman_object_name ∷ [] else [])
        ++ (if is_set c.replica_source_barman_object_name
            then c.replica_source_barman_object_name ∷ []
            else []))

-- The key of the object of that name in a namespace.
abbrev pub key_in : String → String → NamespacedName
key_in namespace name = record { namespace = namespace; name = name }

-- `GetReferredBarmanObjectsKey`. `to_sorted_list` is what `ToSortedList` makes of the texts that
-- were put into a `stringset`.
unfoldable pub get_referred_barman_objects_key :
    (List String → List String) → PluginConfiguration → List NamespacedName
unfolding referred_names
get_referred_barman_objects_key to_sorted_list c =
    map (key_in c.cluster.namespace) (to_sorted_list (referred_names c))

-- The value of a parameter: the empty text where it, or the map, is missing.
unfoldable pub parameter : String → Option StringMap → String
parameter k none = ""
parameter k (some m) = at k m

pub record Plugin : Type 0 where
  pub parameters : Option StringMap
  pub plugin_index : Option ℕ

-- The loop of `NewPlugin`, from the index `idx` on: the last stanza of that name wins.
unfoldable pub find_plugin : String → ℕ → Plugin → List PluginStanza → Plugin
find_plugin wanted idx found [] = found
find_plugin wanted idx found (p ∷ ps) =
    find_plugin wanted (suc idx)
      (if p.name == wanted
        then record { parameters = p.parameters; plugin_index = some idx }
        else found)
      ps

-- `NewPlugin`; the index -1 is `none`.
unfoldable pub new_plugin : Cluster → String → Plugin
unfolding find_plugin
new_plugin cluster wanted =
    find_plugin wanted 0 (record { parameters = none; plugin_index = none }) cluster.plugins

-- The loop over the plugins that chooses the server name: the last enabled stanza of this plugin
-- that has the parameter.
unfoldable pub choose_server_name : String → List PluginStanza → String
choose_server_name chosen [] = chosen
choose_server_name chosen (p ∷ ps) =
    choose_server_name
      (if p.is_enabled && p.name == plugin_name
        then Option.get_or (Option.bind p.parameters (lookup "serverName")) chosen
        else chosen)
      ps

-- The plugin stanza of the external cluster of that name.
unfoldable pub external_plugin : Cluster → String → Option PluginStanza
external_plugin cluster source =
    if is_set source then Option.bind (cluster.external_cluster source) (λ e. e.plugin) else none

-- `getRecoverySourcePlugin`
unfoldable pub get_recovery_source_plugin : Cluster → Option PluginStanza
unfolding external_plugin
get_recovery_source_plugin cluster = Option.bind cluster.recovery_source (external_plugin cluster)

-- `getReplicaSourcePlugin`
unfoldable pub get_replica_source_plugin : Cluster → Option PluginStanza
unfolding external_plugin
get_replica_source_plugin cluster =
    Option.bind cluster.replica_cluster (λ r. external_plugin cluster r.source)

-- The parameters of a stanza, if it is this plugin's.
unfoldable pub own_parameters : Option PluginStanza → Option StringMap
own_parameters none = none
own_parameters (some p) = if p.name == plugin_name then p.parameters else none

-- `getRecoveryParameters`
unfoldable pub get_recovery_parameters : Cluster → Option StringMap
unfolding get_recovery_source_plugin own_parameters
get_recovery_parameters cluster = own_parameters (get_recovery_source_plugin cluster)

-- `getReplicaSourceParameters`
unfoldable pub get_replica_source_parameters : Cluster → Option StringMap
unfolding get_replica_source_plugin own_parameters
get_replica_source_parameters cluster = own_parameters (get_replica_source_plugin cluster)

-- The object and the server that the parameters of a source name; the server is the Cluster's
-- name where none is named, and both are empty where there are no parameters.
unfoldable pub source_names : Cluster → Option StringMap → String × String
source_names cluster none = ("", "")
source_names cluster (some m) = (
  at "barmanObjectName" m,
  if is_set (at "serverName" m) then at "serverName" m else cluster.name,
)

unfoldable pub new_from_cluster : Cluster → PluginConfiguration
unfolding new_plugin choose_server_name get_recovery_parameters get_replica_source_parameters
    source_names parameter
new_from_cluster cluster =
    let recovery = source_names cluster (get_recovery_parameters cluster) in
    let replica = source_names cluster (get_replica_source_parameters cluster) in
    record {
      cluster = cluster;
      barman_object_name = parameter "barmanObjectName" (new_plugin cluster plugin_name).parameters;
      server_name = choose_server_name cluster.name cluster.plugins;
      recovery_barman_object_name = recovery.0;
      recovery_server_name = recovery.1;
      replica_source_barman_object_name = replica.0;
      replica_source_server_name = replica.1;
    }

-- `NewFromClusterJSON`, over the decoder of a Cluster.
unfoldable pub new_from_cluster_json :
    {E J : Type 0} → (J → Result E Cluster) → J → Result E PluginConfiguration
new_from_cluster_json decode json = elim (decode json) [
  | ok cluster ↦ ok (new_from_cluster cluster)
  | err e ↦ err e
]

-- `Validate`; `none` is the nil error.
unfoldable pub validate : PluginConfiguration → Option ConfigurationError
unfolding with_message
validate c =
    if not (is_set c.barman_object_name)
      && (not (is_set c.recovery_barman_object_name)
          && not (is_set c.replica_source_barman_object_name))
    then some (
        with_message (some new_configuration_error)
          "no reference to barmanObjectName have been included")
    else none
