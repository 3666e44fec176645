-- ===== src/Wal/Tests.antt =====
-- The theorems on internal/cnpgi/common, on small inputs.
mod Restores
mod Archives
use plugin_barman_cloud.Base.{
  ℕ, ◌+◌, ◌^◌, ◌≤◌, ◌<◌, ◌≡◌, ◌≢◌, ◌↔◌, ◌⊎◌, inl, inr, refl, Bool, true, false, Option, none, some,
  List, [], ◌∷◌, map, String, Bytes, codes, get_elem?, length, arith, differ,
}
use plugin_barman_cloud.Api.{NamespacedName}
use plugin_barman_cloud.Config.{PluginConfiguration, new_from_cluster, get_barman_object_key}
use plugin_barman_cloud.Wal.Hex.{upper, take_hex, hex_digit, parse_int32}
use plugin_barman_cloud.Wal.FileName.{base}
use plugin_barman_cloud.Wal.Segment.{
  Segment, segment_from_name, wal_re, wal_groups, wal_suffix, parse_groups, is_wal_file, name,
  next_from, advance,
}
use plugin_barman_cloud.Wal.Segment.RoundTrip.{
  IsNonnegative, segment_from_name-name, is_wal_file-name, name-segment_from_name,
}
use plugin_barman_cloud.Wal.Segment.Walk.{IsAt, next_from-IsAt}
use plugin_barman_cloud.Wal.Env.{merge_env, entry_key}
use plugin_barman_cloud.Wal.Env.Merge.{
  settings, last_setting, Expected, settings-merge_env, AllSetTo,
}
use plugin_barman_cloud.Wal.Routing.{
  resolve_restore_object_store, max_wal_files_per_invocation, should_use_end_of_wal_stream_flag,
  gather_wal_files_to_restore,
}
use plugin_barman_cloud.Wal.Routing.Roles.{
  Role, member, serves, resolve-serves, max_wal_files_bounds, flag_applies, CanStream, gather_walks,
  gather_first,
}
use plugin_barman_cloud.Examples.{replica, s3_configuration}

-- The last segment of log 10 on timeline 1.
abbrev last_of_log : Segment
last_of_log = record { tli = 1; log = 10; seg = 255 }

abbrev file_name : Bytes
file_name = codes "000000010000000A000000FF"

last_of_log-IsNonnegative : IsNonnegative last_of_log
last_of_log-IsNonnegative = record { tli = omega arith; log = omega arith; seg = omega arith }

is_last_of_log : segment_from_name file_name ≡ some last_of_log
unfolding segment_from_name wal_re take_hex base hex_digit wal_groups wal_suffix parse_groups
    parse_int32
is_last_of_log = refl

segment_from_name-name_example : segment_from_name (name last_of_log) ≡ some last_of_log
segment_from_name-name_example = segment_from_name-name last_of_log last_of_log-IsNonnegative

is_wal_file-name_example : is_wal_file (name last_of_log) ≡ true
is_wal_file-name_example = is_wal_file-name last_of_log last_of_log-IsNonnegative

name-segment_from_name_example :
    IsNonnegative last_of_log × (name last_of_log ≡ map upper (base file_name))
name-segment_from_name_example = name-segment_from_name file_name last_of_log is_last_of_log

gather_walks_example :
    (fs : List Bytes) × (gather_wal_files_to_restore file_name 3 ≡ some fs)
    × (length fs ≡ 3)
    × ((i : ℕ) (f : Bytes)
        → get_elem? fs i ≡ some f
        → (t : Segment) × (segment_from_name f ≡ some t) × IsAt 256 last_of_log t i)
gather_walks_example =
    gather_walks file_name last_of_log 3 is_last_of_log (omega arith) (omega arith)

gather_first_example :
    (f : Bytes) × (fs : List Bytes) × (gather_wal_files_to_restore file_name 3 ≡ some (f ∷ fs))
    × (((segment_from_name file_name ≡ none) × (f ≡ file_name) × (fs ≡ []))
        ⊎ ((g : Segment) × (segment_from_name file_name ≡ some g)
            × (f ≡ map upper (base file_name))))
gather_first_example = gather_first file_name 3 (omega arith)

abbrev path_key : Bytes
path_key = codes "PATH="

merge_env_example :
    Expected
      (settings path_key (codes "HOME=/" ∷ codes "PATH=/bin" ∷ []))
      (last_setting path_key none (codes "PATH=/a" ∷ codes "PATH=/b" ∷ []))
      (settings path_key (
        merge_env
          (codes "HOME=/" ∷ codes "PATH=/bin" ∷ [])
          (codes "PATH=/a" ∷ codes "PATH=/b" ∷ [])))
unfolding entry_key
merge_env_example =
    settings-merge_env path_key (codes "HOME=/" ∷ codes "PATH=/bin" ∷ [])
      (codes "PATH=/a" ∷ codes "PATH=/b" ∷ []) refl
