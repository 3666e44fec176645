-- ===== src/Wal/Errors.antt =====
-- internal/cnpgi/common/errors.go: the gRPC errors of WAL operations.
use plugin_barman_cloud.Base.{Bool, ◌||◌, String, Bytes, if◌then◌else◌}

-- What `errors.Is` says of an error of the restorer against its four sentinel errors.
pub record WalErrors (E : Type 0) : Type 0 where
  pub is_wal_not_found : E → Bool
  pub is_invalid_wal_name : E → Bool
  pub is_connectivity : E → Bool
  pub is_generic : E → Bool

-- The errors of the WAL service: those of other code, plain or wrapped by `fmt.Errorf` under a
-- message; the two constant ones; the four of a failed download; an index out of range.
pub data WalError (E : Type 0) : Type 0 where
  external : E → WalError E
  wrapped : String → E → WalError E
  spool_management : Bytes → E → WalError E
  end_of_wal_stream_reached : WalError E
  missing_permissions : WalError E
  wal_not_found : Bytes → WalError E
  unavailable : Bytes → E → WalError E
  invalid_wal_name : Bytes → E → WalError E
  internal : Bytes → E → WalError E
  panic : WalError E

-- `classifyWALRestoreError`
unfoldable pub classify_wal_restore_error : {E : Type 0} → WalErrors E → Bytes → E → WalError E
classify_wal_restore_error errs wal_name e =
    if errs.is_wal_not_found e
    then wal_not_found wal_name
    else if errs.is_invalid_wal_name e
    then invalid_wal_name wal_name e
    else if errs.is_connectivity e || errs.is_generic e
    then unavailable wal_name e
    else internal wal_name e
