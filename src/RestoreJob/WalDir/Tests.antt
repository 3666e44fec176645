-- ===== src/RestoreJob/WalDir/Tests.antt =====
-- A WAL file that is moved to its volume.
use plugin_barman_cloud.Base.{
  ◌≡◌, ◌≢◌, refl, ◌⊎◌, inl, inr, true, false, ◌&&◌, not, none, [], String, ◌==◌, string_eq, eq_iff,
  differ, if◌then◌else◌, arith,
}
use plugin_barman_cloud.Base.Exec.{Result, ok, err, pure}
use plugin_barman_cloud.Base.Exec.Phases.{Outcome}
use plugin_barman_cloud.RestoreJob.Calls.{JobHookImpl, JobCalls, no_target}
use plugin_barman_cloud.RestoreJob.Files.{restore_custom_wal_dir}
use plugin_barman_cloud.RestoreJob.WalDir.{
  KeepsFile, At, either, linked, restore_custom_wal_dir-linked, restore_custom_wal_dir_again,
}
use plugin_barman_cloud.Examples.{store}

abbrev pg_wal : String
pg_wal = "/pgdata/pg_wal"

abbrev impl : JobHookImpl
impl = record {
  spool_directory = "/spool";
  pg_data_path = "/pgdata";
  pg_wal_folder_to_symlink = "/wal/pg_wal";
}

-- The directory that a WAL file is in, and where `pg_wal` leads, if it is a link.
record Files : Type 0 where
  wal_at : String
  link : String

-- The directory that a path leads to.
abbrev resolve : String → Files → String
resolve d w = if d == pg_wal && not (w.link == "") then w.link else d

abbrev moved_file : String → String → Files → Files
moved_file p q w = if w.wal_at == resolve p w then record w { wal_at = resolve q w } else w

abbrev linked_to : String → String → Files → Result String (Unit {0}) × Files
linked_to p q w = if q == pg_wal then (ok tt, record w { link = p }) else (err "EEXIST", w)

abbrev calls : JobCalls Files String (Unit {0}) (Unit {0}) (Unit {0}) (Unit {0})
calls = record {
  get_object_store = λ key. pure store;
  credentials_env = λ n c p. pure [];
  bootstrap = λ cluster. no_target;
  get_backup_list = λ c s env. pure tt;
  find_backup_info = λ c t. pure none;
  latest_backup_info = λ c. none;
  new_archiver = λ env a b c. pure tt;
  append_cloud_provider_options = λ o c. pure o;
  append_restore_additional_command_args = λ c o. o;
  run_barman_cloud_restore = λ o env. pure tt;
  restore_exit_error = λ e. none;
  new_restorer = λ env s. pure tt;
  cloud_wal_restore_options = λ c s. pure [];
  restore_wal = λ r wal path o. pure tt;
  ensure_parent_directory_exists = λ p. pure tt;
  ensure_directory_exists = λ p. pure tt;
  move_directory_content = λ p q w. (ok tt, moved_file p q w);
  remove_file = λ p w. (ok tt, if p == pg_wal then record w { link = "" } else w);
  symlink = linked_to;
  read_link = λ p w. if p == pg_wal then w.link else "";
}

abbrev HasFile : String → Files → Type 0
HasFile d w = w.wal_at ≡ resolve d w

file_linked :
    (p d : String) (w : Files)
    → d ≢ ""
    → (if p == pg_wal then w.link else "") ≡ d
    → HasFile p w
    → HasFile d w
file_linked p d w named leads h = ground (arith, eq_iff p pg_wal, eq_iff d pg_wal, eq_iff w.link "")

file_moved : (p q : String) (w : Files) → HasFile p w ⊎ HasFile q w → HasFile q (moved_file p q w)
file_moved p q w h = ground (arith, eq_iff w.wal_at (resolve p w))

file_there :
    (d p : String) (w : Files)
    → d ≢ p
    → HasFile d w
    → HasFile d (if p == pg_wal then record w { link = "" } else w)
file_there d p w apart h = ground (arith, eq_iff p pg_wal, eq_iff d pg_wal)

file_kept : (d p q : String) (w : Files) → d ≢ q → HasFile d w → HasFile d (linked_to p q w).1
file_kept d p q w apart h = ground (arith, eq_iff q pg_wal, eq_iff d pg_wal)

link_there :
    (p q : String) (w : Files) (u : Unit {0})
    → (linked_to p q w).0 ≡ ok u
    → (if q == pg_wal then (linked_to p q w).1.link else "") ≡ p
link_there p q w u made = ground arith

keeps_file : KeepsFile calls HasFile
keeps_file = record {
  through_link = file_linked;
  by_ensure = λ d p w h. h;
  by_move = λ p q w h. inr (file_moved p q w h);
  moved = λ p q w u h e. file_moved p q w h;
  by_remove = file_there;
  by_symlink = file_kept;
  link_made = link_there;
}

abbrev fresh : Files
fresh = record { wal_at = pg_wal; link = "" }

restore_custom_wal_dir_runs :
    restore_custom_wal_dir calls impl fresh
    ≡ (ok true, record { wal_at = "/wal/pg_wal"; link = "/wal/pg_wal" })
unfolding restore_custom_wal_dir
restore_custom_wal_dir_runs = refl

restore_custom_wal_dir-linked_example :
    Outcome
      (At calls impl HasFile keeps_file)
      either
      linked
      (restore_custom_wal_dir calls impl fresh).0
      (restore_custom_wal_dir calls impl fresh).1
restore_custom_wal_dir-linked_example =
    restore_custom_wal_dir-linked calls impl HasFile keeps_file fresh (differ "/wal/pg_wal" "" refl)
      (differ "/wal/pg_wal" pg_wal refl) (inl refl)

restore_custom_wal_dir_again_example :
    restore_custom_wal_dir calls impl (restore_custom_wal_dir calls impl fresh).1
    ≡ (ok false, (restore_custom_wal_dir calls impl fresh).1)
unfolding restore_custom_wal_dir
restore_custom_wal_dir_again_example =
    restore_custom_wal_dir_again calls impl HasFile keeps_file fresh true
      (differ "/wal/pg_wal" "" refl) (differ "/wal/pg_wal" pg_wal refl) (inl refl) refl
