-- ===== src/Wal/Restore/Flag.antt =====
-- The life of the end-of-wal-stream flag across `restoreFromBarmanObjectStore`.
use plugin_barman_cloud.Base.{◌≡◌, ◌≢◌, Bool, true, false, List, String, Bytes, arith, length}
use plugin_barman_cloud.Base.Exec.{Result, ok, err, wrap_result}
use plugin_barman_cloud.Api.{BarmanConfiguration, ObjectStore}
use plugin_barman_cloud.Wal.Errors.{
  WalErrors, WalError, external, wrapped, end_of_wal_stream_reached, panic,
  classify_wal_restore_error,
}
use plugin_barman_cloud.Wal.Restore.{RestoreCalls}

-- What the restorer documents of its flag, which `flag` reads off the world: to look at it changes
-- nothing and answers what it is, a reset that succeeds clears it, and no other call but the one
-- that sets it touches it; and the download answers once for each file.
pub record FlagLaws {W E R : Type 0} (calls : RestoreCalls W E R) (flag : W → Bool) : Type 0 where
  pub credentials_keep : (s : ObjectStore) (w : W) → flag (calls.credentials_env s w).1 ≡ flag w
  pub options_keep :
      (c : BarmanConfiguration) (n : String) (w : W)
      → flag (calls.wal_restore_options c n w).1 ≡ flag w
  pub new_keeps : (env : List Bytes) (w : W) → flag (calls.new_restorer env w).1 ≡ flag w
  pub spool_keeps :
      (r : R) (n d : Bytes) (w : W) → flag (calls.restore_from_spool r n d w).1 ≡ flag w
  pub list_keeps :
      (r : R) (fs : List Bytes) (d : Bytes) (o : List Bytes) (w : W)
      → flag (calls.restore_list r fs d o w).1 ≡ flag w
  pub look_keeps : (r : R) (w : W) → flag (calls.is_end_of_wal_stream r w).1 ≡ flag w
  pub look_answers :
      (r : R) (w : W) (b : Bool) → (calls.is_end_of_wal_stream r w).0 ≡ ok b → b ≡ flag w
  pub reset_clears :
      (r : R) (w : W)
      → (calls.reset_end_of_wal_stream r w).0 ≡ ok tt
      → flag (calls.reset_end_of_wal_stream r w).1 ≡ false
  pub list_length :
      (r : R) (fs : List Bytes) (d : Bytes) (o : List Bytes) (w : W)
      → length (calls.restore_list r fs d o w).0 ≡ length fs

-- What an invocation does with the flag, by its mode, by whether the flag applies, and by what the
-- flag was before it and is after it.
pub record Outcome {E : Type 0} (rewind applies before : Bool) (r : Result (WalError E) (Unit {0}))
    (after : Bool) : Type 0 where
  pub no_panic : r ≢ err panic
  pub ended :
      r ≡ err end_of_wal_stream_reached
      → (rewind ≡ false) × (applies ≡ true) × (before ≡ true) × (after ≡ false)
  pub rewound : r ≡ ok tt → rewind ≡ true → after ≡ false
  pub untouched : rewind ≡ false → applies ≡ false → after ≡ before

-- Neither of the two errors that the flag is about.
abbrev pub IsOrdinary : {E A : Type 0} → Result (WalError E) A → Type 0
IsOrdinary r = (r ≢ err panic) × (r ≢ err end_of_wal_stream_reached)

pub external_IsOrdinary : {E A : Type 0} (r : Result E A) → IsOrdinary (wrap_result external r)
external_IsOrdinary (ok a) = (λ e. cc, λ e. cc)
external_IsOrdinary (err x) = (λ e. cc, λ e. cc)

pub wrapped_IsOrdinary :
    {E A : Type 0} (s : String) (r : Result E A) → IsOrdinary (wrap_result (wrapped s) r)
wrapped_IsOrdinary s (ok a) = (λ e. cc, λ e. cc)
wrapped_IsOrdinary s (err x) = (λ e. cc, λ e. cc)

pub wrapped_ok : {E A : Type 0} (r : Result E A) (a : A) → wrap_result external r ≡ ok a → r ≡ ok a
wrapped_ok (ok x) a h = cc
wrapped_ok (err x) a h = absurd (cc)

pub classify_IsOrdinary :
    {E : Type 0} (errs : WalErrors E) (n : Bytes) (e : E)
    → IsOrdinary {A = Unit {0}} (err (classify_wal_restore_error errs n e))
unfolding classify_wal_restore_error
classify_IsOrdinary errs n e = (λ h. ground arith, λ h. ground arith)
