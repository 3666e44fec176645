-- ===== src/Wal/Routing/Roles.antt =====
-- The decisions of routing, by the role that an instance plays.
use plugin_barman_cloud.Base.{
  none, ℕ, zero, suc, ◌+◌, ◌≤◌, ◌<◌, ◌≡◌, ◌≢◌, ◌↔◌, ◌⊎◌, inl, inr, refl, Bool, true, false, some,
  List, [], ◌∷◌, map, String, Bytes, ◌==◌, string_eq, eq_iff, arith, length, get_elem?, Bool-cases,
  Option-cases, ap, ◌∙◌,
}
use plugin_barman_cloud.Api.{
  NamespacedName, Cluster, BarmanConfiguration, ReplicaCluster, ExternalCluster,
}
use plugin_barman_cloud.Config.{
  PluginConfiguration, get_barman_object_key, get_recovery_barman_object_key,
  get_replica_source_barman_object_key,
}
use plugin_barman_cloud.Wal.Hex.{upper, int32_limit}
use plugin_barman_cloud.Wal.FileName.{base}
use plugin_barman_cloud.Wal.Segment.{
  Segment, segment_from_name, name, next_segments, next_from, wal_segments_per_file, advance,
}
use plugin_barman_cloud.Wal.Segment.RoundTrip.{
  IsNonnegative, name-segment_from_name, segment_from_name-name,
}
use plugin_barman_cloud.Wal.Segment.Walk.{IsAt, next_from-IsAt, length-next_from}
use plugin_barman_cloud.Wal.Routing.{
  resolve_restore_object_store, max_wal_files_per_invocation, is_streaming_available,
  should_use_end_of_wal_stream_flag, gather_wal_files_to_restore, primary_streaming,
  external_streaming,
}

-- The role of an instance when it asks for a WAL file.
pub data Role : Type 0 where
  -- the current primary, still fed from the source of its replica cluster
  designated_primary : Role
  -- no primary yet: the first instance is being recovered
  bootstrapping : Role
  -- any other instance
  member : Role

-- When an instance plays a role. Only one role fits, whatever the Cluster says, where the instance
-- has a name.
abbrev pub Plays : PluginConfiguration → String → Role → Type 0
Plays c i designated_primary =
    (c.cluster.current_primary ≡ i) × (c.replica_source_barman_object_name ≢ "")
Plays c i bootstrapping = c.cluster.current_primary ≡ ""
Plays c i member =
    (c.cluster.current_primary ≢ "")
    × ((c.cluster.current_primary ≢ i) ⊎ (c.replica_source_barman_object_name ≡ ""))

-- The object store that serves a role.
abbrev pub serves : PluginConfiguration → Role → String × NamespacedName
serves c designated_primary = (c.replica_source_server_name, get_replica_source_barman_object_key c)
serves c bootstrapping = (c.recovery_server_name, get_recovery_barman_object_key c)
serves c member = (c.server_name, get_barman_object_key c)

-- An instance that has a name is sent to the object store of the role that it plays.
pub resolve-serves :
    (c : PluginConfiguration) (i : String) (r : Role)
    → i ≢ ""
    → Plays c i r
    → resolve_restore_object_store c i ≡ serves c r
unfolding resolve_restore_object_store
resolve-serves c i designated_primary named h =
    ground
      (arith, eq_iff c.cluster.current_primary i, eq_iff c.replica_source_barman_object_name "")
resolve-serves c i r named h = ground (
  arith,
  eq_iff c.cluster.current_primary i,
  eq_iff c.cluster.current_primary "",
  eq_iff c.replica_source_barman_object_name "",
)

-- Whatever is configured, an invocation may fetch a file, and one file only on behalf of pg_rewind.
pub max_wal_files_bounds :
    (c : BarmanConfiguration) (rewind : Bool)
    → (1 ≤ max_wal_files_per_invocation c rewind)
      × (rewind ≡ true → max_wal_files_per_invocation c rewind ≡ 1)
unfolding max_wal_files_per_invocation
max_wal_files_bounds c rewind = ground arith

-- An instance can be fed by a streaming connection: a replica from the current primary, the current
-- primary of a replica cluster from an external cluster that has connection parameters.
pub data CanStream (c : Cluster) (pod : String) : Type 0 where
  from_primary : c.current_primary ≢ "" → c.current_primary ≢ pod → CanStream c pod
  from_source :
      (r : ReplicaCluster) (e : ExternalCluster) (m : List (String × String))
      → c.current_primary ≢ ""
      → c.current_primary ≡ pod
      → c.replica_cluster ≡ some r
      → r.is_replica ≡ true
      → c.external_cluster r.source ≡ some e
      → e.connection_parameters ≡ some m
      → CanStream c pod

primary_CanStream :
    (c : Cluster) (pod : String)
    → c.current_primary ≢ ""
    → c.current_primary ≡ pod
    → primary_streaming c ≡ true
    → CanStream c pod
unfolding primary_streaming external_streaming
primary_CanStream c pod up own h = elim (Option-cases c.replica_cluster) [
  | inl missing ↦ absurd (ground arith)
  | inr (r, replica) ↦ elim (Option-cases (c.external_cluster r.source)) [
    | inl missing ↦ absurd (ground arith)
    | inr (e, external) ↦ elim (Option-cases e.connection_parameters) [
      | inl missing ↦ absurd (ground arith)
      | inr (m, parameters) ↦ from_source r e m up own replica (ground arith) external parameters
    ]
  ]
]

streaming-CanStream :
    (c : Cluster) (pod : String) → is_streaming_available (some c) pod ≡ true → CanStream c pod
unfolding is_streaming_available
streaming-CanStream c pod h = elim (Bool-cases (c.current_primary == "")) [
  | inl down ↦ absurd (ground arith)
  | inr up ↦
      let is_up : c.current_primary ≢ "" = ground (arith, eq_iff c.current_primary "") in
      elim (Bool-cases (c.current_primary == pod)) [
        | inr other ↦ from_primary is_up (ground (arith, eq_iff c.current_primary pod))
        | inl own ↦
            primary_CanStream c pod is_up ((eq_iff c.current_primary pod).0 own) (ground arith)
      ]
]

CanStream-streaming :
    (c : Cluster) (pod : String) → CanStream c pod → is_streaming_available (some c) pod ≡ true
unfolding is_streaming_available
CanStream-streaming c pod (from_primary up other) =
    ground (arith, eq_iff c.current_primary "", eq_iff c.current_primary pod)
CanStream-streaming c pod (from_source r e m up own replica is_replica external parameters) =
    ground (arith, eq_iff c.current_primary "", eq_iff c.current_primary pod)

-- The end-of-wal-stream flag applies exactly where the caller is not pg_rewind and the instance can
-- be fed by streaming instead.
pub flag_applies :
    (c : Cluster) (pod : String) (rewind : Bool)
    → (should_use_end_of_wal_stream_flag (some c) pod rewind ≡ true)
      ↔ ((rewind ≡ false) × CanStream c pod)
unfolding should_use_end_of_wal_stream_flag
flag_applies c pod true = (λ h. absurd (cc), λ h. absurd (cc h.0))
flag_applies c pod false =
    (λ h. (refl, streaming-CanStream c pod h), λ h. CanStream-streaming c pod h.1)

IsAt-IsNonnegative :
    (g t : Segment) (n i : ℕ)
    → IsNonnegative g
    → g.seg < 256
    → g.log + n < int32_limit
    → i < n
    → IsAt 256 g t i
    → IsNonnegative t
IsAt-IsNonnegative g t n i ng inside room below a = omega arith

get_elem?-map :
    (ss : List Segment) (i : ℕ) (f : Bytes)
    → get_elem? (map name ss) i ≡ some f
    → (s : Segment) × (get_elem? ss i ≡ some s) × (f ≡ name s)
get_elem?-map [] i f h = absurd (cc)
get_elem?-map (s ∷ ss) zero f h = (s, refl, cc)
get_elem?-map (s ∷ ss) (suc i) f h = get_elem?-map ss i f h

get_elem?-lt : (ss : List Segment) (i : ℕ) (s : Segment) → get_elem? ss i ≡ some s → i < length ss
get_elem?-lt [] i s h = absurd (cc)
get_elem?-lt (x ∷ ss) zero s h = omega arith
get_elem?-lt (x ∷ ss) (suc i) s h = omega (arith, get_elem?-lt ss i s h)

length-map : (ss : List Segment) → length (map name ss) ≡ length ss
length-map [] = refl
length-map (s ∷ ss) = omega (arith, length-map ss)

gather_of_segment :
    (w : Bytes) (g : Segment) (n : ℕ)
    → segment_from_name w ≡ some g
    → gather_wal_files_to_restore w n ≡ some (map name (next_from 255 false n g))
unfolding gather_wal_files_to_restore next_segments wal_segments_per_file
gather_of_segment w g n h = rw (h, gather_wal_files_to_restore)

-- For the name of a segment below 256 whose log leaves room for the walk, the files to restore are
-- as many as asked for, and the name of the one at place `i` is read back as the segment `i` places
-- further on, on the same timeline.
pub gather_walks :
    (w : Bytes) (g : Segment) (n : ℕ)
    → segment_from_name w ≡ some g
    → g.seg < 256
    → g.log + n < int32_limit
    → (fs : List Bytes) × (gather_wal_files_to_restore w n ≡ some fs)
      × (length fs ≡ n)
      × ((i : ℕ) (f : Bytes)
          → get_elem? fs i ≡ some f
          → (t : Segment) × (segment_from_name f ≡ some t) × IsAt 256 g t i)
gather_walks w g n parsed inside room = (
  map name (next_from 255 false n g),
  gather_of_segment w g n parsed,
  length-map (next_from 255 false n g) ∙ length-next_from 255 false n g,
  λ i f at_i.
      let (t, at_t, named) = get_elem?-map (next_from 255 false n g) i f at_i in
      let below = get_elem?-lt (next_from 255 false n g) i t at_t in
      let placed = next_from-IsAt 255 false (omega arith) n i g t inside (omega arith) at_t in
      let nonnegative =
        IsAt-IsNonnegative g t n i (name-segment_from_name w g parsed).0 inside room
          (omega (arith, length-next_from 255 false n g)) placed in
      (t, ap segment_from_name named ∙ segment_from_name-name t nonnegative, placed),
)

-- Where at least one file is asked for there is a first one: where the requested name is not that of
-- a segment, it is that name itself and the only one, and where it is that of a segment, it is its
-- base name in upper case. Nothing panics.
pub gather_first :
    (w : Bytes) (n : ℕ)
    → 1 ≤ n
    → (f : Bytes) × (fs : List Bytes) × (gather_wal_files_to_restore w n ≡ some (f ∷ fs))
      × (((segment_from_name w ≡ none) × (f ≡ w) × (fs ≡ []))
          ⊎ ((g : Segment) × (segment_from_name w ≡ some g) × (f ≡ map upper (base w))))
unfolding gather_wal_files_to_restore next_from
gather_first w zero some_file = absurd (omega arith)
gather_first w (suc n) some_file = elim (Option-cases (segment_from_name w)) [
  | inl other ↦ (w, [], rw (other, gather_wal_files_to_restore), inl (other, refl, refl))
  | inr (g, parsed) ↦ (
    name g,
    map name (next_from 255 false n (advance 255 false g)),
    gather_of_segment w g (suc n) parsed,
    inr (g, parsed, (name-segment_from_name w g parsed).1),
  )
]
