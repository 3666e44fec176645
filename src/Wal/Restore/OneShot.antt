-- ===== src/Wal/Restore/OneShot.antt =====
-- The end-of-wal-stream flag over a whole `restoreFromBarmanObjectStore`, and over two in a row.
use plugin_barman_cloud.Base.{
  ◌≡◌, ◌≢◌, refl, ◌∙◌, ap, sym, Bool, true, false, Option, some, List, String, Bytes, if◌then◌else◌,
}
use plugin_barman_cloud.Base.Exec.{
  Result, ok, err, Exec, pure, wrapping, wrap_result, ◌>>=◌, Ensures, Ensures-bind,
}
use plugin_barman_cloud.Api.{Cluster, ObjectStore}
use plugin_barman_cloud.Wal.Errors.{
  WalErrors, WalError, external, wrapped, end_of_wal_stream_reached, panic,
}
use plugin_barman_cloud.Wal.Routing.{should_use_end_of_wal_stream_flag}
use plugin_barman_cloud.Wal.Restore.{
  RestoreCalls, clear_end_of_wal_stream_flag, fetch, restore_from_barman_object_store,
}
use plugin_barman_cloud.Wal.Restore.Flag.{
  FlagLaws, Outcome, IsOrdinary, external_IsOrdinary, wrapped_ok,
}
use plugin_barman_cloud.Wal.Restore.Steps

module _ {W E R : Type 0} (calls : RestoreCalls W E R) (flag : W → Bool)
    (laws : FlagLaws calls flag) (errs : WalErrors E) where
  module _ (rewind applies before : Bool) (excluded : rewind ≡ true → applies ≡ false) where
    abbrev Stays : {A : Type 0} → Bool → Result (WalError E) A → W → Type 0
    Stays c r w = (flag w ≡ c) × IsOrdinary r

    abbrev Post : Result (WalError E) (Unit {0}) → W → Type 0
    Post r w = Outcome rewind applies before r (flag w)

    abbrev current : Bool
    current = if rewind then false else before

    -- A call that leaves the flag alone, and what follows it.
    step :
        {A : Type 0} (c : Bool) (text : String) (m : Exec W E A)
        (f : A → Exec W (WalError E) (Unit {0}))
        → (rewind ≡ false → c ≡ before)
        → ((w : W) → flag (m w).1 ≡ flag w)
        → ((a : A) → Ensures (λ w. flag w ≡ c) (f a) Post)
        → Ensures (λ w. flag w ≡ c) (wrapping (wrapped text) m >>= f) Post
    step {A} c text m f same keep rest =
        Ensures-bind (λ w. flag w ≡ c) (Stays c) Post (wrapping (wrapped text) m) f
          (Steps.keeps-wrapped calls flag laws errs text c m keep) (λ a w h. rest a w h.0)
          (λ e w h.
            Steps.failed_early calls flag laws errs rewind applies before excluded c e w same
              (h.0, (λ x. h.1.0 (cc), λ x. h.1.1 (cc))))

    -- What clearing leaves to the rest, or ends with.
    abbrev Cleared : Result (WalError E) (Unit {0}) → W → Type 0
    Cleared x w = (x ≡ ok tt → flag w ≡ current) × ((e : WalError E) → x ≡ err e → Post (err e) w)

    clear-Cleared :
        (r : R)
        → rewind ≡ true
        → Ensures (λ w. flag w ≡ before) (clear_end_of_wal_stream_flag calls r) Cleared
    unfolding clear_end_of_wal_stream_flag
    clear-Cleared r on =
        Ensures-bind (λ w. flag w ≡ before) Looked Cleared
          (wrapping external (calls.is_end_of_wal_stream r)) _
          (λ w h. (
            laws.look_keeps r w ∙ h,
            external_IsOrdinary (calls.is_end_of_wal_stream r w).0,
            λ b seen.
                laws.look_answers r w b (wrapped_ok (calls.is_end_of_wal_stream r w).0 b seen) ∙ h,
          ))
          branch
          (λ e w h.
            (λ x. absurd (cc), λ e' same. failed e e' w same (λ x. h.1.0 (cc)) (λ x. h.1.1 (cc))))
      where
        Looked : Result (WalError E) Bool → W → Type 0
        Looked x w = (flag w ≡ before) × IsOrdinary x × ((b : Bool) → x ≡ ok b → b ≡ before)

        failed :
            (e e' : WalError E) (w : W)
            → ◌≡◌ {A = Result (WalError E) (Unit {0})} (err e) (err e')
            → e ≢ panic
            → e ≢ end_of_wal_stream_reached
            → Post (err e') w
        failed e e' w same no_panic no_end = record {
          no_panic = λ x. no_panic (cc);
          ended = λ x. absurd (no_end (cc));
          rewound = λ x. absurd (cc);
          untouched = λ recover. absurd (cc);
        }

        cleared : current ≡ false
        cleared = ap (λ b. if b then false else before) on

        reset_failed :
            (x : Result E (Unit {0})) (e : WalError E) (w : W)
            → wrap_result external x ≡ err e
            → Post (err e) w
        reset_failed (ok a) e w same = absurd (cc)
        reset_failed (err y) e w same = failed (external y) e w same (λ x. cc) (λ x. cc)

        branch :
            (b : Bool)
            → Ensures
                (Looked (ok b))
                (if b then wrapping external (calls.reset_end_of_wal_stream r) else pure tt)
                Cleared
        branch true = λ w h. (
          λ x.
              laws.reset_clears r w (wrapped_ok (calls.reset_end_of_wal_stream r w).0 tt x)
              ∙ sym cleared,
          λ e same. reset_failed (calls.reset_end_of_wal_stream r w).0 e _ same,
        )
        branch false = λ w h. (λ x. cc (h.0, h.2 false refl, cleared), λ e same. absurd (cc))

    module _ (cluster : Cluster) (name : String)
        (chosen : should_use_end_of_wal_stream_flag (some cluster) name rewind ≡ applies) where
      restore-Post :
          (store : ObjectStore) (server : String) (n d : Bytes)
          → Ensures
              (λ w. flag w ≡ before)
              (restore_from_barman_object_store calls errs cluster name store server n d rewind)
              Post
      unfolding restore_from_barman_object_store
      restore-Post store server n d =
          step before _ (calls.credentials_env store) _ (λ e. refl) (laws.credentials_keep store)
            λ credentials.
              step before _ (calls.wal_restore_options store.spec.configuration server) _
                (λ e. refl) (laws.options_keep store.spec.configuration server)
                λ options.
                  step before _ (calls.new_restorer _) _ (λ e. refl) (laws.new_keeps _)
                    λ r.
                      Ensures-bind (λ w. flag w ≡ before) Cleared Post _ _ (gate r rewind refl)
                        (λ _ w h. from_spool r options w (h.0 refl)) (λ e w h. h.1 e refl)
        where
          gate :
              (r : R) (b : Bool)
              → rewind ≡ b
              → Ensures
                  (λ w. flag w ≡ before)
                  (if b then clear_end_of_wal_stream_flag calls r else pure tt)
                  Cleared
          gate r true on = clear-Cleared r on
          gate r false off = λ w h.
              (λ e. h ∙ sym (ap (λ b. if b then false else before) off), λ e same. absurd (cc))

          spooled :
              (r : R) (options : List Bytes) (b : Bool)
              → Ensures
                  (λ w. flag w ≡ current)
                  (if b
                    then pure tt
                    else fetch calls errs r options cluster name store.spec.configuration n d
                        rewind)
                  Post
          spooled r options true =
              Steps.finished calls flag laws errs rewind applies before excluded
          spooled r options false =
              Steps.fetch-Post calls flag laws errs rewind applies before excluded cluster name
                chosen r options store.spec.configuration n d

          from_spool :
              (r : R) (options : List Bytes)
              → Ensures
                  (λ w. flag w ≡ current)
                  (wrapping
                      (wrapped "while restoring a file from the spool directory")
                      (calls.restore_from_spool r n d)
                    >>= (λ b.
                        if b
                        then pure tt
                        else fetch calls errs r options cluster name store.spec.configuration n d
                            rewind))
                  Post
          from_spool r options =
              step current _ (calls.restore_from_spool r n d) _
                (λ e. ap (λ b. if b then false else before) e) (laws.spool_keeps r n d)
                (spooled r options)

never_rewinding :
    (c : Option Cluster) (name : String) (rewind : Bool)
    → rewind ≡ true
    → should_use_end_of_wal_stream_flag c name rewind ≡ false
unfolding should_use_end_of_wal_stream_flag
never_rewinding c name rewind on = rw on

module _ {W E R : Type 0} (calls : RestoreCalls W E R) (flag : W → Bool)
    (laws : FlagLaws calls flag) (errs : WalErrors E) (cluster : Cluster) (name : String) where
  -- Under the restorer's laws a restore never panics. It reports the end of the WAL stream only
  -- outside pg_rewind, where the flag applies and was set, and then it has cleared the flag. When
  -- it succeeds for pg_rewind the flag is clear. Where the flag does not apply, and outside
  -- pg_rewind, the flag stays as it was, success or not.
  pub restore-Outcome :
      (rewind : Bool) (store : ObjectStore) (server : String) (n d : Bytes) (w : W)
      → Outcome rewind
          (should_use_end_of_wal_stream_flag (some cluster) name rewind)
          (flag w)
          (restore_from_barman_object_store calls errs cluster name store server n d rewind w).0
          (flag
            (restore_from_barman_object_store calls errs cluster name store server n d rewind w).1)
  restore-Outcome rewind store server n d w =
      restore-Post calls flag laws errs rewind _ (flag w)
        (never_rewinding (some cluster) name rewind) cluster name refl store server n d w refl

  -- Under the restorer's laws the end of the WAL stream is never reported twice in a row: the
  -- invocation that follows a report, in the world that it left, for whatever file and mode, makes
  -- no such report.
  pub no_second_report :
      (rewind rewind' : Bool) (store store' : ObjectStore) (server server' : String)
      (n n' d d' : Bytes) (w : W)
      → (restore_from_barman_object_store calls errs cluster name store server n d rewind w).0
        ≡ err end_of_wal_stream_reached
      → (restore_from_barman_object_store calls errs cluster name store' server' n' d' rewind'
          (restore_from_barman_object_store calls errs cluster name store server n d rewind w).1).0
        ≢ err end_of_wal_stream_reached
  no_second_report rewind rewind' store store' server server' n n' d d' w reported again =
      let first = (restore-Outcome rewind store server n d w).ended reported in
      let second = (restore-Outcome rewind' store' server' n' d' _).ended again in
      cc (first.3, second.2)
