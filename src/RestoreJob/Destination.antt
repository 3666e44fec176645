-- ===== src/RestoreJob/Destination.antt =====
-- The destination that the restore job checks is the one that is archived to.
use mathlib.Core.Option
use plugin_barman_cloud.Base.{
  ◌≡◌, refl, ap, ◌∙◌, ◌&&◌, Option, none, some, List, [], ◌∷◌, String, lookup, ◌==◌, string_eq,
  if◌then◌else◌, Bool-cases, inl, inr,
}
use plugin_barman_cloud.Api.{plugin_name, PluginStanza, Cluster}
use plugin_barman_cloud.Config.{choose_server_name, new_from_cluster}
use plugin_barman_cloud.RestoreJob.Load.{
  named_server, named_or, next_server_name, destination_server_name,
}

same_round :
    (plugin : PluginStanza) (server : String)
    → next_server_name plugin server ≡ (
        if plugin.is_enabled && plugin.name == plugin_name
        then Option.get_or (Option.bind plugin.parameters (lookup "serverName")) server
        else server)
unfolding Option.bind
same_round plugin server = elim (Bool-cases (plugin.is_enabled && plugin.name == plugin_name)) [
  | inl t ↦ rw (t) (own plugin.parameters)
  | inr t ↦ rw (t) refl
]
  where
    get : (o : Option String) → named_or server o ≡ Option.get_or o server
    get none = refl
    get (some name) = refl

    own :
        (m : Option (List (String × String)))
        → named_or server (named_server m)
          ≡ Option.get_or (Option.bind m (lookup "serverName")) server
    own none = refl
    own (some m) = get (lookup "serverName" m)

-- The loop of the restore job chooses what the loop of the configuration chooses.
same_loop :
    (plugins : List PluginStanza) (server : String)
    → destination_server_name server plugins ≡ choose_server_name server plugins
unfolding destination_server_name choose_server_name
same_loop [] server = refl
same_loop (plugin ∷ plugins) server =
    same_loop plugins (next_server_name plugin server)
    ∙ ap (λ (s : String). choose_server_name s plugins) (same_round plugin server)

-- The server under which the restore job checks that the destination is empty is the server under
-- which the new Cluster archives its WAL and its backups.
pub destination_server_name-new_from_cluster :
    (cluster : Cluster)
    → destination_server_name cluster.name cluster.plugins ≡ (new_from_cluster cluster).server_name
unfolding new_from_cluster
destination_server_name-new_from_cluster cluster = same_loop cluster.plugins cluster.name
