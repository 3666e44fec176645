-- ===== src/Process/Served.antt =====
-- What a process says that it serves, and what it serves.
use plugin_barman_cloud.Base.{
  ◌≡◌, refl, Bool, false, ◌&&◌, ◌||◌, not, Option, none, some, List, [], ◌∷◌,
}
use plugin_barman_cloud.Base.Exec.{Result, ok, err, and_then}
use plugin_barman_cloud.Process.{Settings}
use plugin_barman_cloud.Process.Identity.{
  ServiceType, reconciler_hooks, lifecycle_service, instance_sidecar_injection, wal_service,
  backup_service, metrics, restore_job, same_service,
}
use plugin_barman_cloud.Process.Servers.{
  Client, WalServiceImplementation, Registered, reconciler_server, lifecycle_server, metrics_server,
  wal_server, backup_server, restore_job_server, health_server, GrpcServer, HttpServer,
  OperatorCnpgi, InstanceCnpgi, RestoreCnpgi, enrich_operator, enrich_instance, enrich_restore,
  add_health_check, operator_server, instance_server, restore_server,
}
use plugin_barman_cloud.Process.Managers.{instance_of, restore_of}

abbrev pub is_of : ServiceType → Option ServiceType → Bool
is_of s none = false
is_of s (some t) = same_service s t

-- The three processes that have a server.
pub data Process (K : Type 0) : Type 0 where
  operator : OperatorCnpgi K → Process K
  instance_sidecar : InstanceCnpgi K → Process K
  restore_sidecar : RestoreCnpgi K → Process K

module _ {K : Type 0} where
  abbrev pub service_of : Registered K → Option ServiceType
  service_of (reconciler_server c) = some reconciler_hooks
  service_of (lifecycle_server c) = some lifecycle_service
  service_of (metrics_server c) = some metrics
  service_of (wal_server w) = some wal_service
  service_of (backup_server c name) = some backup_service
  service_of (restore_job_server c impl) = some restore_job
  service_of health_server = none

  abbrev pub is_registered : ServiceType → GrpcServer K → Bool
  is_registered s [] = false
  is_registered s (r ∷ rs) = is_of s (service_of r) || is_registered s rs

  -- The enrichers one after the other, as the machinery's server runs them before it serves.
  abbrev pub enriched :
      {E : Type 0}
      → List (GrpcServer K → Result E (GrpcServer K))
      → GrpcServer K
      → Result E (GrpcServer K)
  enriched [] server = ok server
  enriched (f ∷ fs) server = and_then (f server) (enriched fs)

  abbrev pub registers : {E : Type 0} → ServiceType → Result E (GrpcServer K) → Bool
  registers s (ok server) = is_registered s server
  registers s (err e) = false

  -- The server serves that service.
  abbrev pub serves : {E : Type 0} → HttpServer E K → ServiceType → Bool
  serves srv s = registers s (enriched srv.enrichers [])

  unfoldable pub server_of : {E : Type 0} → Process K → HttpServer E K
  unfolding operator_server instance_server restore_server enrich_operator
  server_of (operator c) = operator_server c
  server_of (instance_sidecar c) = instance_server c
  server_of (restore_sidecar c) = restore_server c

abbrev pub contains_service : List ServiceType → ServiceType → Bool
contains_service [] s = false
contains_service (t ∷ ts) s = same_service s t || contains_service ts s

-- A process tells CloudNativePG of exactly the services that it serves: whatever its configuration, a
-- service has a registered server in the operator, in the sidecar of an instance or in that of a
-- restore job, if and only if it is among the capabilities of that process. The one capability
-- without a server of its own is the injection of sidecars.
pub serves-capabilities :
    (E K : Type 0) (p : Process K) (s : ServiceType)
    → serves (server_of {E = E} p) s
      ≡ contains_service (server_of {E = E} p).identity_impl.get_plugin_capabilities s
        && not (same_service s instance_sidecar_injection)
unfolding server_of operator_server instance_server restore_server enrich_operator enrich_instance
    enrich_restore add_health_check
serves-capabilities E K (operator c) reconciler_hooks = refl
serves-capabilities E K (operator c) lifecycle_service = refl
serves-capabilities E K (operator c) instance_sidecar_injection = refl
serves-capabilities E K (operator c) wal_service = refl
serves-capabilities E K (operator c) backup_service = refl
serves-capabilities E K (operator c) metrics = refl
serves-capabilities E K (operator c) restore_job = refl
serves-capabilities E K (instance_sidecar c) reconciler_hooks = refl
serves-capabilities E K (instance_sidecar c) lifecycle_service = refl
serves-capabilities E K (instance_sidecar c) instance_sidecar_injection = refl
serves-capabilities E K (instance_sidecar c) wal_service = refl
serves-capabilities E K (instance_sidecar c) backup_service = refl
serves-capabilities E K (instance_sidecar c) metrics = refl
serves-capabilities E K (instance_sidecar c) restore_job = refl
serves-capabilities E K (restore_sidecar c) reconciler_hooks = refl
serves-capabilities E K (restore_sidecar c) lifecycle_service = refl
serves-capabilities E K (restore_sidecar c) instance_sidecar_injection = refl
serves-capabilities E K (restore_sidecar c) wal_service = refl
serves-capabilities E K (restore_sidecar c) backup_service = refl
serves-capabilities E K (restore_sidecar c) metrics = refl
serves-capabilities E K (restore_sidecar c) restore_job = refl

-- The WAL service that is registered first.
abbrev pub wal_of : {K : Type 0} → GrpcServer K → Option (WalServiceImplementation K)
wal_of [] = none
wal_of (wal_server w ∷ rs) = some w
wal_of (r ∷ rs) = wal_of rs

-- The restore job fetches WAL files as the instance that it makes will: from the same settings, and
-- with the same client, the WAL service of the one has the instance name, the spool directory,
-- PGDATA and `pg_wal` of that of the other.
pub sidecars-wal :
    {K : Type 0} (settings : Settings) (client : K) (c : Client K)
    → wal_of (enrich_restore (record (restore_of settings client) { client = c }) [])
      ≡ wal_of (enrich_instance (record (instance_of settings client) { client = c }) [])
unfolding enrich_restore enrich_instance restore_of instance_of add_health_check
sidecars-wal settings client c = refl
