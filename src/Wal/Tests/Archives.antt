-- ===== src/Wal/Tests/Archives.antt =====
-- An archiving whose operator asks for the check of the destination.
use plugin_barman_cloud.Base.{
  ◌≡◌, true, false, Option, none, some, List, [], ◌∷◌, map, String, Bytes, codes, All, sym, ◌∙◌,
}
use plugin_barman_cloud.Base.Exec.{ok, pure, Result}
use plugin_barman_cloud.Wal.Archive.{ArchiveCalls, archive_to}
use plugin_barman_cloud.Wal.Archive.Checked.{KeptByCalls, ChecksDestination, archive_to-Holds}
use plugin_barman_cloud.Examples.{replica, store}

-- The world: the options of the last check, and for each upload these and its own options, which name
-- the server.
abbrev Uploads : Type 0
Uploads = List Bytes × List (List Bytes × List Bytes)

abbrev no_error : Bytes → Option String
no_error f = none

abbrev upload_calls : ArchiveCalls Uploads String (Unit {0})
upload_calls = record {
  get_object_store = λ key. pure store;
  credentials_env = λ s. pure [];
  is_forbidden = λ e. false;
  marker_exists = pure false;
  new_archiver = λ environment. pure tt;
  check_options = λ a c s. pure (codes s ∷ []);
  check_destination = λ a o w. (ok tt, (o, w.1));
  delete_from_spool = λ a n. pure false;
  archive_options = λ a c s. pure (codes s ∷ []);
  gather_ready = λ n skip w. ([], w);
  archive_list = λ a fs o w. (map no_error fs, (w.0, (w.0, o) ∷ w.1));
}

abbrev AllChecked : Uploads → Type 0
AllChecked w = All (λ (b : List Bytes × List Bytes). b.0 ≡ b.1) w.1

abbrev IsChecked : Unit {0} → Uploads → Type 0
IsChecked a w = w.0 ≡ codes "pg-new" ∷ []

options_of :
    (o : List Bytes)
    → ◌≡◌ {A = Result String (List Bytes)} (ok (codes "pg-new" ∷ [])) (ok o)
    → codes "pg-new" ∷ [] ≡ o
options_of o h = cc

upload_calls-Kept : (P : Uploads → Type 0) → KeptByCalls upload_calls P
upload_calls-Kept P = record {
  by_credentials = λ s w h. h;
  by_new = λ environment w h. h;
  by_check_options = λ a c s w h. h;
  by_spool = λ a n w h. h;
  by_options = λ a c s w h. h;
  by_gather = λ n skip w h. h;
}

upload_calls-ChecksDestination :
    ChecksDestination upload_calls store.spec.configuration "pg-new" AllChecked IsChecked
upload_calls-ChecksDestination = record {
  holds_kept = upload_calls-Kept AllChecked;
  checked_kept = λ a. upload_calls-Kept (IsChecked a);
  by_check = λ a o w h. h;
  check_passed = λ a o v w made passed. sym (options_of o made);
  by_upload = λ a fs o v w made is_checked h. (is_checked ∙ options_of o made, h);
}

archive_to-Holds_example :
    AllChecked
      (archive_to upload_calls replica store "pg-new" (some true) (codes "pg_wal/1") ([], [])).1
archive_to-Holds_example =
    archive_to-Holds upload_calls AllChecked IsChecked replica store "pg-new"
      upload_calls-ChecksDestination (codes "pg_wal/1") ([], []) tt
