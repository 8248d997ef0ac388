-- ===== src/Lib.antt =====
-- A verification library of the operator that restores PostgreSQL databases from kopia snapshots.
--
-- The operator has two controllers. The replica's (src/controllers/replica.rs) decides when a snapshot
-- is restored, creates a restore and performs the switchover; the restore's
-- (src/controllers/restore.rs) takes one restore from Pending through Restoring, Ready and
-- Migrating to Switching, or to Failed. A third loop (src/controllers/canopy.rs) makes the
-- replicas that canopy's worklist asks for, and each run is reported back to canopy
-- (src/controllers/canopy/verification.rs). They meet in the status of the custom resources
-- (src/types), in the restore queue that bounds how many restores run (src/context.rs), and in the
-- results that Jobs post back (src/controllers/jobs.rs).
--
-- Files and the code they model:
--   Types          src/types/restore.rs, src/types/replica.rs: the fields the controllers read
--   Queue          src/context.rs: RestoreQueue, release_restore_slot
--   Scheduling     src/controllers/replica/scheduling.rs: the backoff, the timeouts, check_schedule
--   Reindex        src/controllers/restore/reindex_watch.rs, reindex_verdict
--   Jobs           src/controllers/jobs.rs: classify_job, CallbackStore; Jobs/Log is log_tail
--   Effects        the form of a handler: the calls that it attempts and its result
--   Restore        src/controllers/restore.rs, src/controllers/restore/migration.rs: Restore/Failure is
--                  fail_restore, Restore/Handlers, Restore/Readiness and Restore/Migrating are the
--                  handlers of the phases, Restore/Reconcile is reconcile, Restore/Generations is
--                  GenerationGate, Restore/Batch what is read of a migration, and Restore/Cache the size of the
--                  kopia cache (src/controllers/restore/builders.rs)
--   Kopia          src/kopia.rs, src/util.rs: the filter, the latest snapshot, the JSON in a Job's output;
--                  Kopia/Secret is validate_kopia_secret and kopia_source
--   Replica        src/controllers/replica.rs and create_restore_for_snapshot of
--                  src/controllers/replica/resources.rs: Replica/Credentials, Switchover, Sweep,
--                  Snapshots and Trigger are the stages of reconcile, Replica/Reconcile is reconcile;
--                  the gates of the switchover are Replica/Redaction
--                  (src/controllers/replica/redaction.rs), Replica/Migration and Replica/Build
--                  (src/controllers/replica/schema_build.rs), and its grants Replica/Grants
--   Slug           src/util.rs: slug
--   Canopy         src/controllers/canopy.rs: the tick of the syncer; Canopy/Report is the report of
--                  src/controllers/canopy/verification.rs
--   Server         src/bin/operator.rs: the callbacks that post results; Server/Broker is
--                  post_restore_creds
--   Placement      src/placement.rs: the parser of the operator's placement, and apply
--   Intent         src/controllers/canopy/intent.rs: config_for, to_replica_spec; Intent/Resources is
--                  resolve_resources
--   Storage        src/controllers/replica/resources.rs: compute_storage_size
--   Labels, Split  maps from names to texts, and the text splitters of the standard library
--   Masking        src/controllers/replica/redaction/manifest.rs, mask.rs and apply.rs there, on the documents
--                  of Json: what a redaction manifest parses to, the expression of each mask
--                  (Masking/Mask), and the statements that applying it sends (Masking/Apply)
--   Notifications  src/notifications.rs, and send_notifications of src/controllers/replica/status.rs
--   Status         src/controllers/replica/status.rs: update_condition
--   Phases         src/types/replica.rs: how the phases of a migration and of a redaction are written
--   Registration   src/canopy.rs: register_reporting_schema
--   Config         src/bin/operator.rs: the settings in the operator's ConfigMap, and their reload
--   Sizing         src/quantity.rs, and resolve_postgres_resources and restore_job_resources of
--                  src/controllers/restore/builders.rs
--   Prelude        lists, tests and keys that the others share
-- The children of a module that are named for a subject hold its theorems; Examples holds concrete
-- inputs at which they apply.
--
-- A handler is a value of Effects.M: the list of its calls in the order in which it makes them, and
-- Ok or Err. `?` is bind, a write whose error is only logged is `attempt`. What the cluster, the
-- databases and the clock answer is an argument (a record of answers for one reconcile), so a theorem
-- about a handler holds for every behaviour of the API, with refused writes at any point (only the
-- passes of a schema build, in Replica/Build/Settles, stand on a cluster that takes every write). A write
-- that first reads the object, as update_condition does, is one call, refused where either fails.
-- Times are nanoseconds, on ℕ; an instant that lies ahead of the clock is at distance 0, and all such
-- distances are compared strictly or with positive bounds. No definition runs on fuel: each loop is recursion on
-- a list.
--
-- The passes of a schema build are lists of such answers, one for each reconcile; the patches of a
-- pass are merged into the status that the next one reads.
--
-- A number with a fraction in a redaction manifest is the text that its parser reads it as. What a
-- redaction comes to is an argument of Replica/Redaction: the two meet in the outcome's is_partial.
--
-- Not modelled: the manifests of Jobs and Deployments, SQL, HTTP and metrics, which are I/O or text;
-- the cron parser, the glob matcher, the JSON parser and random numbers, which are third-party code
-- and stand as arguments, as do the quantity parser and its decimals and floats; the rest of the
-- canopy client, and its proxy; the rest of the operator binary (start-up, metrics, probes).
mod Prelude
pub mod Queue
pub mod Labels
pub mod Types
pub mod Effects
pub mod Scheduling
pub mod Reindex
pub mod Jobs
pub mod Kopia
pub mod Restore
pub mod Replica
pub mod Split
pub mod Placement
pub mod Intent
pub mod Storage
pub mod Json
pub mod Masking
pub mod Phases
pub mod Status
pub mod Notifications
pub mod Server
pub mod Slug
pub mod Canopy
pub mod Registration
pub mod Config
pub mod Sizing
mod Examples
