-- ===== src/RestoreJob/WalDir.antt =====
-- The WAL files on their way from PGDATA to the volume.
mod Tests
use plugin_barman_cloud.Base.{
  ◌≡◌, ◌≢◌, refl, subst, ◌⊎◌, inl, inr, Bool, true, false, String, ◌==◌, string_eq, eq_iff, ==_refl,
  arith, if◌then◌else◌, Bool-cases,
}
use plugin_barman_cloud.Base.Exec.{
  Result, ok, err, Exec, wrapping, wrap_result, continue, pure, ◌>>=◌, ◌>>◌,
}
use plugin_barman_cloud.Base.Exec.Phases.{
  Outcome, Leads, Leads-bind, Leads-wrapping, Leads-reached, Leads-then,
}
use plugin_barman_cloud.RestoreJob.Calls.{JobHookImpl, JobError, external, JobCalls}
use plugin_barman_cloud.RestoreJob.Files.{pg_data_wal, move_wal_dir, restore_custom_wal_dir}

-- The files as the job's calls treat them: `Has d` says that a file is in the directory `d`, also
-- through a link. A move may be interrupted with the file still in the one directory or already in the
-- other; `os.Remove` of a path leaves the content of another directory.
pub record KeepsFile {W E A R T C : Type 0} (calls : JobCalls W E A R T C)
    (Has : String → W → Type 0) : Type 0 where
  pub through_link : (p d : String) (w : W) → d ≢ "" → calls.read_link p w ≡ d → Has p w → Has d w
  pub by_ensure : (d p : String) (w : W) → Has d w → Has d (calls.ensure_directory_exists p w).1
  pub by_move :
      (p q : String) (w : W)
      → Has p w ⊎ Has q w
      → Has p (calls.move_directory_content p q w).1 ⊎ Has q (calls.move_directory_content p q w).1
  pub moved :
      (p q : String) (w : W) (u : Unit {0})
      → Has p w ⊎ Has q w
      → (calls.move_directory_content p q w).0 ≡ ok u
      → Has q (calls.move_directory_content p q w).1
  pub by_remove : (d p : String) (w : W) → d ≢ p → Has d w → Has d (calls.remove_file p w).1
  pub by_symlink : (d p q : String) (w : W) → d ≢ q → Has d w → Has d (calls.symlink p q w).1
  pub link_made :
      (p q : String) (w : W) (u : Unit {0})
      → (calls.symlink p q w).0 ≡ ok u
      → calls.read_link q (calls.symlink p q w).1 ≡ p

-- A file on its way: still in one of the two directories, or safely in the volume.
pub data Place : Type 0 where
  either volume linked : Place

module _ {W E A R T C : Type 0} (calls : JobCalls W E A R T C) (impl : JobHookImpl)
    (Has : String → W → Type 0) (laws : KeepsFile calls Has) where
  abbrev wal : String
  wal = pg_data_wal calls impl

  abbrev vol : String
  vol = impl.pg_wal_folder_to_symlink

  abbrev pub At : Place → W → Type 0
  At either w = Has wal w ⊎ Has vol w
  At volume w = Has vol w
  At linked w = Has vol w × (calls.read_link wal w ≡ vol)

  ensured : (p : String) (w : W) → At either w → At either (calls.ensure_directory_exists p w).1
  ensured p w (inl h) = inl (laws.by_ensure wal p w h)
  ensured p w (inr h) = inr (laws.by_ensure vol p w h)

  move_wal_dir-linked : vol ≢ wal → Leads At either either linked (move_wal_dir calls impl)
  unfolding move_wal_dir
  move_wal_dir-linked apart =
      Leads-then At either either linked external (calls.ensure_directory_exists vol) _ (λ w h. h)
        (ensured vol)
        (λ u1.
          Leads-then At either either linked external (calls.ensure_directory_exists wal) _
            (λ w h. h) (ensured wal)
            (λ u2.
              Leads-bind At either either volume linked
                (wrapping external (calls.move_directory_content wal vol)) _
                (Leads-wrapping At either either volume external
                  (calls.move_directory_content wal vol)
                  (Leads-reached At either either volume (calls.move_directory_content wal vol)
                    (laws.by_move wal vol) (laws.moved wal vol)))
                (λ u3.
                  Leads-then At either volume linked external (calls.remove_file wal) _
                    (λ w h. inr h) (λ w h. laws.by_remove vol wal w apart h)
                    (λ u4.
                      Leads-bind At either volume linked linked
                        (wrapping external (calls.symlink vol wal)) (λ u5. pure true)
                        (Leads-wrapping At either volume linked external (calls.symlink vol wal) (
                          Leads-reached At either volume linked (calls.symlink vol wal)
                            (λ w h. inr (laws.by_symlink vol vol wal w apart h))
                            (λ w u h e. (
                              laws.by_symlink vol vol wal w apart h,
                              laws.link_made vol wal w u e,
                            ))))
                        (λ u5 w h. h)))))

  -- No WAL file is lost on the way to the volume: a file that is in `pg_wal` or in the volume before is
  -- in one of the two after an error of the job, and where the job succeeds, it is in the volume, and
  -- `pg_wal` is a link to the volume. (The volume has a path of its own, which is not empty.)
  pub restore_custom_wal_dir-linked :
      (w : W)
      → vol ≢ ""
      → vol ≢ wal
      → At either w
      → Outcome At either linked
          (restore_custom_wal_dir calls impl w).0
          (restore_custom_wal_dir calls impl w).1
  unfolding restore_custom_wal_dir
  restore_custom_wal_dir-linked w named apart h = elim (Bool-cases (calls.read_link wal w == vol)) [
    | inl t ↦
        let same : calls.read_link wal w ≡ vol = (eq_iff (calls.read_link wal w) vol).0 t in
        rw (t) (there same h, same)
    | inr t ↦ rw (t) (move_wal_dir-linked apart w h)
  ]
    where
      there : calls.read_link wal w ≡ vol → At either w → Has vol w
      there same (inl g) = laws.through_link wal vol w named same g
      there same (inr g) = g

  -- Where restoreCustomWalDir succeeds, called once more in the world that it leaves it changes nothing,
  -- and reports that it changed nothing. This is for a volume for the WAL whose path is neither empty
  -- nor that of pg_wal, for a file that is in pg_wal or in the volume when it is called first, and for
  -- calls on files that do not lose that file and make the link that they report (KeepsFile).
  pub restore_custom_wal_dir_again :
      (w : W) (changed : Bool)
      → vol ≢ ""
      → vol ≢ wal
      → At either w
      → (restore_custom_wal_dir calls impl w).0 ≡ ok changed
      → restore_custom_wal_dir calls impl (restore_custom_wal_dir calls impl w).1
        ≡ (ok false, (restore_custom_wal_dir calls impl w).1)
  restore_custom_wal_dir_again w changed named apart h succeeded =
      already (restore_custom_wal_dir calls impl w).1 (
        link (restore_custom_wal_dir calls impl w).0 succeeded
          (restore_custom_wal_dir-linked w named apart h))
    where
      already :
          (v : W)
          → calls.read_link wal v ≡ vol
          → restore_custom_wal_dir calls impl v ≡ (ok false, v)
      already v e =
          let same : calls.read_link wal v == vol ≡ true =
            (eq_iff (calls.read_link wal v) vol).1 e in
          unfold restore_custom_wal_dir in rw (same) refl

      link :
          (r : Result (JobError E) Bool) {v : W}
          → r ≡ ok changed
          → Outcome At either linked r v
          → calls.read_link wal v ≡ vol
      link (ok b) e (g, l) = l
      link (err f) e g = absurd (cc)
