-- ===== src/Examples/Replicas.antt =====
-- One reconcile of a replica, its schedule and its snapshots at concrete inputs: src/controllers/replica.rs and
-- src/kopia.rs.
use postgres_restore_operato.Prelude.{
  ◌≡◌, refl, ◌+◌, true, false, ◌&&◌, ◌||◌, none, some, [], ◌∷◌, arith, ltb, is_none, is_some,
}
use postgres_restore_operato.Types.{PostgresPhysicalReplica, PostgresPhysicalRestore, RestorePhase}
use postgres_restore_operato.Effects.{ok, err, Error}
use postgres_restore_operato.Effects.Emits.{Emits}
use postgres_restore_operato.Queue.{empty}
use postgres_restore_operato.Scheduling.{secs, backoff_pending}
use postgres_restore_operato.Scheduling.Backoff.{ladder}
use postgres_restore_operato.Restore.Failure.{retry_patch, next_failure_count}
use postgres_restore_operato.Kopia.{Snapshot}
use postgres_restore_operato.Replica.{Secret, ReplicaApi}
use postgres_restore_operato.Replica.Allowed.{Allowed}
use postgres_restore_operato.Replica.Safety.{reconcile_replica-Allowed}
use postgres_restore_operato.Replica.Schedule.{
  merge, should_restore_backoff, backoff_pending-retry_patch,
}
use postgres_restore_operato.Replica.Trigger.{should_restore, canopy_desired_changed}
use postgres_restore_operato.Replica.Reconcile.{reconcile_replica}
use postgres_restore_operato.Examples.{a_replica}
use postgres_restore_operato.Examples.Restores.{restoring}

abbrev pub switching : PostgresPhysicalRestore
switching = record restoring { phase = some RestorePhase.switching }

-- A cluster with a restore that waits for its switchover.
abbrev pub cluster : ReplicaApi
cluster = record {
  now = 50;
  accepts = λ c. true;
  find_secret = λ n. Secret.valid;
  ensures = λ n. ok tt;
  restores = ok (switching ∷ []);
  databases = record {
    credentials = ok tt;
    discover = λ r. ok "tamanu";
    connects = λ r d. ok tt;
    existing_schemas = λ r d s. ok s;
    database_size = λ r d. ok 5000;
    is_superuser = λ r. ok true;
    connectable_databases = λ r. ok ("tamanu" ∷ []);
    simple_query = λ r d q. ok [];
  };
  trim = λ s. s;
  pod_phases = λ n. ok [];
  taken_migration = none;
  snapshot_bytes = λ q. some 1000;
  cron_interval = none;
  manifests = record {
    send = λ url. ok (record { status = 200; text = ok "{}" });
    replace_version = λ url v. url;
    base_version = λ v. none;
    parse_manifest = λ s. ok s;
    apply = λ r m. ok (record {
      columns_attempted = 3;
      columns_failed = 0;
      tables_attempted = 1;
      tables_failed = 0;
    });
  };
  rendered = λ e. "error";
  building = record {
    parse_uuid = λ s. some s;
    parse_bytes = λ s. some 10;
    pull_secret = none;
    taken_schema = none;
    byte_length = λ s. 10;
    canopy = none;
    log = none;
    secrets = none;
    masked_tail = λ l s. l;
  };
  pods_of_restore = λ n. ok [];
  pods_of_replica = ok [];
  find_job = λ n. ok none;
  taken_result = none;
  from_str = λ s. err Error.kube;
  glob_matches = λ p s. true;
  restores_now = ok [];
  storage_size = λ n. ok "1Gi";
  new_restore_name = "r-1";
  next_scheduled = some 100;
  input_hash = "h";
  queue = empty;
  max_concurrent_restores = 2;
  builds = λ k n. ok tt;
}

-- A replica that asks for a redaction and keeps a schema.
abbrev pub redacted : PostgresPhysicalReplica
redacted = record a_replica {
  redaction = some (record {
    manifest_url = "https://manifests/redact.json";
    version = none;
    version_query = none;
    version_fallback_to_base = false;
  });
  persistent_schemas = some ("dbt" ∷ []);
}

reconcile_replica-Allowed_example :
    Emits (Allowed cluster redacted (switching ∷ [])) (reconcile_replica cluster redacted)
reconcile_replica-Allowed_example = reconcile_replica-Allowed cluster redacted

in_backoff : backoff_pending a_replica 50 ≡ true
unfolding backoff_pending
in_backoff = refl

should_restore_backoff_example : should_restore cluster a_replica none ≡ (
    (is_none {A = PostgresPhysicalRestore} none && is_some a_replica.current_restore)
    || canopy_desired_changed cluster a_replica none)
should_restore_backoff_example = should_restore_backoff cluster a_replica none in_backoff

backoff_pending-retry_patch_example :
    backoff_pending (merge (retry_patch 1000 (next_failure_count a_replica)) a_replica) 2000
    ≡ ltb 2000 (1000 + secs (ladder 2))
backoff_pending-retry_patch_example = backoff_pending-retry_patch a_replica 1000 2000 (omega arith)

abbrev a_snapshot : Snapshot
a_snapshot = record {
  id = "k1";
  description = "";
  host = "h";
  path = "/data";
  tags = [];
  start_time = "2024-01-01";
  total_size = none;
}

abbrev a_later_one : Snapshot
a_later_one = record a_snapshot { id = "k2"; start_time = "2024-02-01" }
