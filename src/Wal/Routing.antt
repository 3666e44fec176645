-- ===== src/Wal/Routing.antt =====
-- internal/cnpgi/common/wal.go: which object store a WAL file comes from, how many files are asked
-- for, and whether the end-of-wal-stream flag applies.
pub mod Roles
use plugin_barman_cloud.Base.{
  ℕ, Bool, true, false, ◌&&◌, not, Option, none, some, List, [], ◌∷◌, map, String, Bytes, ltb,
  is_some, ◌==◌, string_eq, if◌then◌else◌,
}
use plugin_barman_cloud.Api.{
  NamespacedName, ReplicaCluster, ExternalCluster, Cluster, BarmanConfiguration,
}
use plugin_barman_cloud.Config.{
  PluginConfiguration, is_set, get_barman_object_key, get_recovery_barman_object_key,
  get_replica_source_barman_object_key,
}
use plugin_barman_cloud.Wal.Segment.{Segment, segment_from_name, name, next_segments}

-- `resolveRestoreObjectStore`: the server name and the key of the object store.
unfoldable pub resolve_restore_object_store : PluginConfiguration → String → String × NamespacedName
resolve_restore_object_store c instance_name =
    if c.cluster.current_primary == instance_name && is_set c.replica_source_barman_object_name
    then (c.replica_source_server_name, get_replica_source_barman_object_key c)
    else if c.cluster.current_primary == ""
    then (c.recovery_server_name, get_recovery_barman_object_key c)
    else (c.server_name, get_barman_object_key c)

-- `maxWALFilesPerInvocation`
unfoldable pub max_wal_files_per_invocation : BarmanConfiguration → Bool → ℕ
max_wal_files_per_invocation c rewind_mode =
    if rewind_mode
    then 1
    else elim c.wal_max_parallel [ none ↦ 1 | some n ↦ if ltb 1 n then n else 1 ]

-- The streaming connection of the source of a replica cluster.
external_streaming : Option ExternalCluster → Bool
external_streaming none = false
external_streaming (some e) = is_some e.connection_parameters

-- The last part of `isStreamingAvailable`, for the current primary.
primary_streaming : Cluster → Bool
unfolding external_streaming
primary_streaming c = elim c.replica_cluster [
  | none ↦ false
  | some r ↦ if r.is_replica then external_streaming (c.external_cluster r.source) else false
]

-- `isStreamingAvailable`; the nil Cluster is `none`.
unfoldable pub is_streaming_available : Option Cluster → String → Bool
unfolding primary_streaming
is_streaming_available none pod_name = false
is_streaming_available (some c) pod_name =
    if c.current_primary == ""
    then false
    else if not (c.current_primary == pod_name)
    then true
    else primary_streaming c

-- `shouldUseEndOfWALStreamFlag`
unfoldable pub should_use_end_of_wal_stream_flag : Option Cluster → String → Bool → Bool
unfolding is_streaming_available
should_use_end_of_wal_stream_flag c pod_name rewind_mode =
    if rewind_mode then false else is_streaming_available c pod_name

-- `gatherWALFilesToRestore`; `none` would be a panic in `NextSegments`.
unfoldable pub gather_wal_files_to_restore : Bytes → ℕ → Option (List Bytes)
gather_wal_files_to_restore wal_name parallel = elim (segment_from_name wal_name) [
  | none ↦ some (wal_name ∷ [])
  | some segment ↦ elim (next_segments segment parallel none none) [
    | none ↦ none
    | some segments ↦ some (map name segments)
  ]
]
