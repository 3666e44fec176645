-- ===== src/Wal/Env.antt =====
-- internal/cnpgi/common/common.go: environments of the barman-cloud commands, lists of `KEY=value`.
pub mod Merge
use plugin_barman_cloud.Base.{
  ℕ, Bool, true, false, ◌&&◌, ◌||◌, Option, none, some, List, [], ◌∷◌, ◌++◌, String, Bytes, codes,
  join_path, is_some, ◌==◌, nat_eq, if◌then◌else◌,
}
use plugin_barman_cloud.Api.{BarmanConfiguration}

-- `BarmanBackupEndpointCACertificateLocation`
abbrev backup_endpoint_ca_location : Bytes
backup_endpoint_ca_location = codes "/controller/certificates/backup-barman-ca.crt"

-- `GetRestoreCABundleEnv`
unfoldable pub get_restore_ca_bundle_env : BarmanConfiguration → List Bytes
get_restore_ca_bundle_env c =
    if is_some c.endpoint_ca && is_some c.credentials.aws
    then (codes "AWS_CA_BUNDLE=" ++ backup_endpoint_ca_location) ∷ []
    else if is_some c.endpoint_ca && is_some c.credentials.azure
    then (codes "REQUESTS_CA_BUNDLE=" ++ backup_endpoint_ca_location) ∷ []
    else []

-- `BuildCertificateFilePath`
unfoldable pub build_certificate_file_path : String → String
build_certificate_file_path object_store_name =
    join_path "/barman-certificates" (join_path object_store_name "barman-ca.crt")

-- `strings.HasPrefix(item, prefix)`
unfoldable pub has_prefix : Bytes → Bytes → Bool
has_prefix item [] = true
has_prefix [] (p ∷ ps) = false
has_prefix (c ∷ cs) (p ∷ ps) = c == p && has_prefix cs ps

-- The first part of `strings.SplitAfterN(item, "=", 2)`, up to and with the first `=`; `none` where
-- there are not two parts.
unfoldable pub entry_key : Bytes → Option Bytes
entry_key [] = none
entry_key (c ∷ cs) =
    let rest = entry_key cs in
    if c == b'=' then some (c ∷ []) else elim rest [ none ↦ none | some k ↦ some (c ∷ k) ]

-- The inner loop of `MergeEnv`: every item with that key becomes the incoming one, and whether
-- there was one.
unfoldable pub replace_items : Bytes → Bytes → List Bytes → List Bytes × Bool
replace_items key incoming [] = ([], false)
replace_items key incoming (item ∷ items) =
    let (rest, found) = replace_items key incoming items in
    if has_prefix item key then (incoming ∷ rest, true) else (item ∷ rest, found)

-- One round of the outer loop.
unfoldable pub merge_item : List Bytes → Bytes → List Bytes
merge_item result incoming = elim (entry_key incoming) [
  | none ↦ result
  | some key ↦
      let (replaced, found) = replace_items key incoming result in
      if found then replaced else replaced ++ incoming ∷ []
]

-- `MergeEnv`
unfoldable pub merge_env : List Bytes → List Bytes → List Bytes
merge_env env [] = env
merge_env env (incoming ∷ rest) = merge_env (merge_item env incoming) rest
