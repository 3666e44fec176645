-- ===== src/Wal/Tests/Restores.antt =====
-- Two restores in a row that find the end-of-wal-stream flag set.
use plugin_barman_cloud.Base.{
  ◌≡◌, ◌≢◌, refl, ap, Bool, true, false, none, some, List, [], ◌∷◌, map, String, Bytes, codes,
  length, suc,
}
use plugin_barman_cloud.Base.Exec.{Result, ok, err, pure}
use plugin_barman_cloud.Wal.Errors.{WalErrors, end_of_wal_stream_reached}
use plugin_barman_cloud.Wal.Routing.{should_use_end_of_wal_stream_flag}
use plugin_barman_cloud.Wal.Restore.{RestoreResult, RestoreCalls, restore_from_barman_object_store}
use plugin_barman_cloud.Wal.Restore.Flag.{FlagLaws, Outcome}
use plugin_barman_cloud.Wal.Restore.OneShot.{restore-Outcome, no_second_report}
use plugin_barman_cloud.Examples.{replica, store}

-- The world is the flag. No file is in the spool, and every download succeeds.
abbrev flag_calls : RestoreCalls Bool String (Unit {0})
flag_calls = record {
  get_object_store = λ key. pure store;
  credentials_env = λ s. pure [];
  wal_restore_options = λ c n. pure [];
  new_restorer = λ env. pure tt;
  restore_from_spool = λ r n d. pure false;
  is_end_of_wal_stream = λ r w. (ok w, w);
  reset_end_of_wal_stream = λ r w. (ok tt, false);
  set_end_of_wal_stream = λ r w. (ok tt, true);
  restore_list = λ r fs d o w. (map downloaded fs, w);
}
  where
    downloaded : Bytes → RestoreResult String
    downloaded f = record { wal_name = f; error = none }

ok_inj : {a b : Bool} → ◌≡◌ {A = Result String Bool} (ok a) (ok b) → b ≡ a
ok_inj h = cc

length-map : {A B : Type 0} (f : A → B) (xs : List A) → length (map f xs) ≡ length xs
length-map f [] = refl
length-map f (x ∷ xs) = ap suc (length-map f xs)

flag_calls-FlagLaws : FlagLaws flag_calls (λ w. w)
flag_calls-FlagLaws = record {
  credentials_keep = λ s w. refl;
  options_keep = λ c n w. refl;
  new_keeps = λ env w. refl;
  spool_keeps = λ r n d w. refl;
  list_keeps = λ r fs d o w. refl;
  look_keeps = λ r w. refl;
  look_answers = λ r w b h. ok_inj h;
  reset_clears = λ r w h. refl;
  list_length = λ r fs d o w. length-map _ fs;
}

abbrev no_errors : WalErrors String
no_errors = record {
  is_wal_not_found = λ e. false;
  is_invalid_wal_name = λ e. false;
  is_connectivity = λ e. false;
  is_generic = λ e. false;
}

abbrev wanted : Bytes
wanted = codes "000000010000000A000000FF"

reports_the_end :
    (restore_from_barman_object_store flag_calls no_errors replica "pg-2" store "pg-new" wanted
      wanted false true).0
    ≡ err end_of_wal_stream_reached
unfolding restore_from_barman_object_store should_use_end_of_wal_stream_flag
reports_the_end = refl

restore-Outcome_example :
    Outcome false
      (should_use_end_of_wal_stream_flag (some replica) "pg-2" false)
      true
      (restore_from_barman_object_store flag_calls no_errors replica "pg-2" store "pg-new" wanted
        wanted false true).0
      (restore_from_barman_object_store flag_calls no_errors replica "pg-2" store "pg-new" wanted
        wanted false true).1
restore-Outcome_example =
    restore-Outcome flag_calls (λ w. w) flag_calls-FlagLaws no_errors replica "pg-2" false store
      "pg-new" wanted wanted true

no_second_report_example :
    (restore_from_barman_object_store flag_calls no_errors replica "pg-2" store "pg-new" wanted
      wanted false
      (restore_from_barman_object_store flag_calls no_errors replica "pg-2" store "pg-new" wanted
        wanted false true).1).0
    ≢ err end_of_wal_stream_reached
no_second_report_example =
    no_second_report flag_calls (λ w. w) flag_calls-FlagLaws no_errors replica "pg-2" false false
      store store "pg-new" "pg-new" wanted wanted wanted wanted true reports_the_end
