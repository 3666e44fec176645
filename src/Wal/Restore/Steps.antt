-- ===== src/Wal/Restore/Steps.antt =====
-- What each step of a restore does with the end-of-wal-stream flag (wal.go).
use plugin_barman_cloud.Base.{
  ◌≤◌, ◌≡◌, refl, ◌∙◌, ap, sym, subst, Bool, true, false, ◌&&◌, some, List, [], ◌∷◌, String, Bytes,
  arith, length, inl, inr, Bool-cases, Option-cases, if◌then◌else◌,
}
use plugin_barman_cloud.Base.Exec.{
  Result, ok, err, Exec, pure, fail, wrapping, wrap_result, ◌>>◌, Ensures, Ensures-bind,
}
use plugin_barman_cloud.Api.{Cluster, BarmanConfiguration}
use plugin_barman_cloud.Wal.Errors.{
  WalErrors, WalError, external, wrapped, end_of_wal_stream_reached, classify_wal_restore_error,
}
use plugin_barman_cloud.Wal.Routing.{
  max_wal_files_per_invocation, should_use_end_of_wal_stream_flag,
}
use plugin_barman_cloud.Wal.Routing.Roles.{gather_first, max_wal_files_bounds}
use plugin_barman_cloud.Wal.Segment.{is_wal_file}
use plugin_barman_cloud.Wal.Restore.{
  RestoreResult, RestoreCalls, check_end_of_wal_stream_flag, is_end_of_wal_stream, after_download,
  files_to_restore, download, fetch,
}
use plugin_barman_cloud.Wal.Restore.Flag.{
  FlagLaws, Outcome, IsOrdinary, external_IsOrdinary, wrapped_IsOrdinary, wrapped_ok,
  classify_IsOrdinary,
}

module _ {W E R : Type 0} (calls : RestoreCalls W E R) (flag : W → Bool)
    (laws : FlagLaws calls flag) (errs : WalErrors E) where
  -- The flag is `c`, and the error, if any, is ordinary.
  abbrev pub Stays : {A : Type 0} → Bool → Result (WalError E) A → W → Type 0
  Stays c r w = (flag w ≡ c) × IsOrdinary r

  pub keeps-external :
      {A : Type 0} (c : Bool) (m : Exec W E A)
      → ((w : W) → flag (m w).1 ≡ flag w)
      → Ensures (λ w. flag w ≡ c) (wrapping external m) (Stays c)
  keeps-external c m keep w h = (keep w ∙ h, external_IsOrdinary (m w).0)

  pub keeps-wrapped :
      {A : Type 0} (s : String) (c : Bool) (m : Exec W E A)
      → ((w : W) → flag (m w).1 ≡ flag w)
      → Ensures (λ w. flag w ≡ c) (wrapping (wrapped s) m) (Stays c)
  keeps-wrapped s c m keep w h = (keep w ∙ h, wrapped_IsOrdinary s (m w).0)

  module _ (rewind applies before : Bool) (excluded : rewind ≡ true → applies ≡ false) where
    abbrev pub Post : Result (WalError E) (Unit {0}) → W → Type 0
    Post r w = Outcome rewind applies before r (flag w)

    -- Where the flag stands once pg_rewind has had it cleared.
    abbrev pub current : Bool
    current = if rewind then false else before

    pub failed_early :
        (c : Bool) (e : WalError E) (w : W)
        → (rewind ≡ false → c ≡ before)
        → Stays {A = Unit {0}} c (err e) w
        → Post (err e) w
    failed_early c e w same h = record {
      no_panic = h.1.0;
      ended = λ e. absurd (h.1.1 e);
      rewound = λ e. absurd (cc);
      untouched = λ recover off. h.0 ∙ same recover;
    }

    pub finished : (w : W) → flag w ≡ current → Post (ok tt) w
    finished w h = record {
      no_panic = λ e. cc;
      ended = λ e. absurd (cc);
      rewound = λ e on. h ∙ ap (λ b. if b then false else before) on;
      untouched = λ recover off. h ∙ ap (λ b. if b then false else before) recover;
    }

    ordinary_end :
        (r : Result (WalError E) (Unit {0})) (w : W) → applies ≡ true → IsOrdinary r → Post r w
    ordinary_end r w on h = record {
      no_panic = h.0;
      ended = λ e. absurd (h.1 e);
      rewound = λ e rewinding. cc (excluded rewinding);
      untouched = λ recover off. cc;
    }

    after_download-Post :
        (r : R) (results : List (RestoreResult E))
        → 1 ≤ length results
        → Ensures (λ w. flag w ≡ current) (after_download calls errs r applies results) Post
    unfolding after_download
    after_download-Post r [] some_result w h = absurd (omega arith)
    after_download-Post r (first ∷ rest) some_result w h = elim (Option-cases first.error) [
      | inr (e, failed) ↦
          rw (failed, after_download)
            (failed_early current (classify_wal_restore_error errs first.wal_name e) w
              (λ e. ap (λ b. if b then false else before) e)
              (h, classify_IsOrdinary errs first.wal_name e))
      | inl fine ↦ elim (Bool-cases (applies && is_end_of_wal_stream errs (first ∷ rest))) [
        | inr quiet ↦ rw (fine, quiet, after_download) (finished w h)
        | inl over ↦
            rw (fine, over, after_download)
              (ordinary_end (wrap_result external (calls.set_end_of_wal_stream r w).0) _
                (ground arith) (external_IsOrdinary (calls.set_end_of_wal_stream r w).0))
      ]
    ]

    files_to_restore-some :
        (c : BarmanConfiguration) (n : Bytes)
        → (f : Bytes) × (fs : List Bytes) × (files_to_restore c n rewind ≡ some (f ∷ fs))
    unfolding files_to_restore
    files_to_restore-some c n = elim (Bool-cases (is_wal_file n)) [
      | inl wal ↦
          let (f, fs, gathered, _) =
            gather_first n (max_wal_files_per_invocation c rewind)
              (max_wal_files_bounds c rewind).0 in
          (f, fs, rw (wal, files_to_restore) gathered)
      | inr other ↦ (n, [], rw (other, files_to_restore))
    ]

    download-Post :
        (r : R) (options : List Bytes) (c : BarmanConfiguration) (n d : Bytes)
        → Ensures (λ w. flag w ≡ current) (download calls errs r options c n d rewind applies) Post
    unfolding download
    download-Post r options c n d w h =
        let (f, fs, files) = files_to_restore-some c n in
        rw (files, download)
          (after_download-Post r _ (omega (arith, laws.list_length r (f ∷ fs) d options w)) _
            (laws.list_keeps r (f ∷ fs) d options w ∙ h))

    -- What the check of the flag leaves to the download, or ends with.
    abbrev pub Checked : Result (WalError E) (Unit {0}) → W → Type 0
    Checked x w = (x ≡ ok tt → flag w ≡ current) × ((e : WalError E) → x ≡ err e → Post (err e) w)

    recovering : applies ≡ true → rewind ≡ false
    recovering on = elim (Bool-cases rewind) [ inl r ↦ cc (excluded r) | inr r ↦ r ]

    end_reached :
        (w : W)
        → applies ≡ true
        → current ≡ true
        → flag w ≡ false
        → Post (err end_of_wal_stream_reached) w
    end_reached w on was cleared = record {
      no_panic = λ e. cc;
      ended = λ e. (recovering on, on, ground (arith, recovering on), cleared);
      rewound = λ e. absurd (cc);
      untouched = λ recover off. cc;
    }

    reset-Checked :
        (r : R)
        → applies ≡ true
        → current ≡ true
        → Ensures
            (λ w. flag w ≡ current)
            (wrapping external (calls.reset_end_of_wal_stream r) >> fail end_of_wal_stream_reached)
            Checked
    reset-Checked r on was =
        Ensures-bind _ (λ x w. (x ≡ ok tt → flag w ≡ false) × IsOrdinary x) Checked _ _
          (λ w h. (
            λ e. laws.reset_clears r w (wrapped_ok (calls.reset_end_of_wal_stream r w).0 tt e),
            external_IsOrdinary (calls.reset_end_of_wal_stream r w).0,
          ))
          (λ _ w h. (
            λ e. absurd (cc),
            λ e same. subst (λ x. Post x w) same (end_reached w on was (h.0 refl)),
          ))
          (λ e w h. (
            λ x. absurd (cc),
            λ e' same. subst (λ x. Post x w) same (ordinary_end (err e) w on h.1),
          ))

    check-Checked :
        (r : R)
        → applies ≡ true
        → Ensures (λ w. flag w ≡ current) (check_end_of_wal_stream_flag calls r) Checked
    unfolding check_end_of_wal_stream_flag
    check-Checked r on =
        Ensures-bind (λ w. flag w ≡ current)
          (λ x w. (flag w ≡ current) × IsOrdinary x × ((b : Bool) → x ≡ ok b → b ≡ current)) Checked
          (wrapping external (calls.is_end_of_wal_stream r)) _
          (λ w h. (
            laws.look_keeps r w ∙ h,
            external_IsOrdinary (calls.is_end_of_wal_stream r w).0,
            λ b seen.
                laws.look_answers r w b (wrapped_ok (calls.is_end_of_wal_stream r w).0 b seen) ∙ h,
          ))
          branch
          (λ e w h. (
            λ x. absurd (cc),
            λ e' same.
                subst (λ x. Post x w) same (ordinary_end (err e) w on (err_IsOrdinary e h.1)),
          ))
      where
        err_IsOrdinary :
            (e : WalError E) → IsOrdinary {A = Bool} (err e) → IsOrdinary {A = Unit {0}} (err e)
        err_IsOrdinary e h = (λ x. h.0 (cc), λ x. h.1 (cc))

        branch :
            (b : Bool)
            → Ensures
                (λ w.
                  (flag w ≡ current)
                  × IsOrdinary {E = E} {A = Bool} (ok b)
                  × ((b' : Bool)
                      → ◌≡◌ {A = Result (WalError E) Bool} (ok b) (ok b')
                      → b' ≡ current))
                (if b
                  then wrapping external (calls.reset_end_of_wal_stream r)
                    >> fail end_of_wal_stream_reached
                  else pure tt)
                Checked
        branch true w h = reset-Checked r on (sym (h.2 true refl)) w h.0
        branch false w h = (λ e. h.0, λ e same. absurd (cc))

    module _ (cluster : Cluster) (name : String)
        (chosen : should_use_end_of_wal_stream_flag (some cluster) name rewind ≡ applies) where
      pub fetch-Post :
          (r : R) (options : List Bytes) (c : BarmanConfiguration) (n d : Bytes)
          → Ensures
              (λ w. flag w ≡ current)
              (fetch calls errs r options cluster name c n d rewind)
              Post
      unfolding fetch
      fetch-Post r options c n d = rw chosen (
          Ensures-bind (λ w. flag w ≡ current) Checked Post _ _ (gate applies refl)
            (λ _ w h. download-Post r options c n d w (h.0 refl)) (λ e w h. h.1 e refl))
        where
          gate :
              (b : Bool)
              → applies ≡ b
              → Ensures
                  (λ w. flag w ≡ current)
                  (if b then check_end_of_wal_stream_flag calls r else pure tt)
                  Checked
          gate true on = check-Checked r on
          gate false off = λ w h. (λ e. h, λ e same. absurd (cc))
