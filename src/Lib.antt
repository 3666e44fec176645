-- ===== src/Lib.antt =====
-- The Barman Cloud plugin of CloudNativePG: a model of its own logic.
--
-- The plugin runs in two places. In the operator (internal/cnpgi/operator, internal/controller) it
-- reads the plugin's stanzas of a Cluster, gives the instances access to the object stores by a Role
-- and a RoleBinding, and injects the sidecar. In the sidecar (internal/cnpgi/common,
-- internal/cnpgi/instance, internal/cnpgi/restore) it archives and restores WAL files and backups by
-- the barman-cloud commands, and reads Secrets and ObjectStores through a client with a cache.
--
-- Which file models which part:
--   Base and its children: tests, lists, texts, maps, and `Exec`, a Go function that may fail and
--     acts on a world outside. The world comes back beside an error, since what was done stays done.
--   Api: api/v1/objectstore_types.go, and the fields of CloudNativePG's and barman-cloud's types
--     that the code looks at. Answers of CloudNativePG's methods on a Cluster are fields of Cluster.
--   Config: internal/cnpgi/operator/config/config.go. NewFromCluster is new_from_cluster, Validate is
--     validate, GetReferredBarmanObjectsKey is get_referred_barman_objects_key.
--   Wal: internal/cnpgi/common. Wal.Segment is wal_import.go (an int32 is its bit pattern, below
--     2 ^ 32, and WAL names are lists of bytes), Wal.Env is common.go,
--     Wal.Errors is errors.go, Wal.Routing and Wal.Restore are the restore half of wal.go,
--     Wal.Archive is Archive, with check.go.
--   Cache: internal/cnpgi/instance/internal/client/client.go. The mutex makes each operation one
--     step on the cache; the clock is read off the world. Cache.Spec is the contract of the client, a
--     map from keys to what was fetched, and Cache.Runs relates runs of the two.
--   Rbac: internal/cnpgi/operator/specs (Rbac.Specs) and internal/cnpgi/operator/rbac/ensure.go
--     (Rbac.Merge, Rbac.Ensure for the Role, Rbac.Binding for the RoleBinding).
--   Reconciler: internal/cnpgi/operator/reconciler.go. Pre is pre, and pre_cluster from the decoded
--     Cluster on.
--   Controller: internal/controller/objectstore_controller.go. Reconcile is reconcile.
--   Instance: internal/cnpgi/instance. Instance.BackupMetadata is types.go, Instance.Catalog is
--     retention.go (cycle, maintenance, deleteBackupsNotInCatalog; Start is the step relation of
--     Instance.Catalog.Loop) and recovery_window.go, Instance.BackupService is backup.go, and
--     Instance.Metrics is metrics.go.
--   Lifecycle: internal/cnpgi/operator/lifecycle.go and its neighbours. Lifecycle.PodSpec has the
--     helpers on lists, Lifecycle.Injection reconcilePodSpec and the injection, Lifecycle.Collect what
--     the sidecar takes from the ObjectStores, Lifecycle.Hook the hook from the request to the patch,
--     and Lifecycle.Requests its types. The constant fields of the sidecar are one mark.
--   RestoreJob: internal/cnpgi/restore/restore.go. RestoreJob.Calls has its types and what it calls,
--     RestoreJob.Load the choice of the backup and the check of the destination, RestoreJob.Files the
--     steps on files and barman-cloud-restore, RestoreJob.Hook is Restore; what the calls have to keep
--     in each phase of a restore is in RestoreJob.Phases.
--   Process: cmd, internal/cmd and the processes of internal/cnpgi. Process.Commands has the commands
--     and the exit codes, Process.Managers manager.go of the three packages, Process.Servers
--     start.go, Process.Identity identity.go and health.go, Process.Scheme the schemes, and
--     Process.Capabilities what the services tell of themselves.
--   Examples: an API server and other inputs for the tests, which stand in the Tests modules of the
--     parts.
--
-- The parts meet as in the code: Wal.Restore takes its configuration from Config and the object
-- store's key from Wal.Routing, the Pre hook builds the rules of Rbac from the ObjectStores that
-- Config refers to, and the controller does so from those that a Role names. A backup writes the
-- metadata that the maintenance reads, both write the recovery window that the metrics tell, and the
-- restore job checks the destination that the WAL archiving will use. The commands of Process read what
-- the injection of Lifecycle puts into the environment of the sidecar.
--
-- Code outside of the repository is an argument: the Kubernetes client and the base client of the
-- cache, the WAL restorer with its spool directory and its flag, the collection of credentials,
-- RetryOnConflict, Semantic.DeepEqual, ToSortedList, the decoders and patches of requests, the
-- barman-cloud commands and the files they work on, viper, controller-runtime's managers and the
-- machinery's servers. What a theorem takes of their documented behaviour is a record of laws
-- (FlagLaws, AnswersKey, RetryLaws, RoleLaws, BindingLaws, StoreLaws, ChecksDestination,
-- GuardsPgData, KeepsFile, AddsFirst) or a predicate (Binds), which the tests fill.
-- What other writers do to the API server between two calls is in the answers of the world.
--
-- Loops are structural recursions, so no fuel is needed; RetryOnConflict is any run of attempts, of
-- any length, that goes on after conflicts only.
--
-- Not modelled: logging and events; the flags of the commands with their defaults and help texts,
-- which are calls of libraries; generated code.
pub mod Base
pub mod Wal
pub mod Api
pub mod Examples
pub mod Config
pub mod Cache
pub mod Rbac
pub mod Reconciler
pub mod Controller
pub mod Instance
pub mod Lifecycle
pub mod RestoreJob
pub mod Process
