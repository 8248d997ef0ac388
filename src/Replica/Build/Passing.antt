-- ===== src/Replica/Build/Passing.antt =====
-- When the gate of the schema build opens: `reconcile_schema_build` of
-- src/controllers/replica/schema_build.rs.
use postgres_restore_operato.Prelude.{◌≡◌, refl, ℕ, ◌∙◌, String, Bool, false, arith}
use postgres_restore_operato.Types.{PostgresPhysicalReplica, PostgresPhysicalRestore}
use postgres_restore_operato.Effects.{M, answer, pure, ◌>>=◌, note}
use postgres_restore_operato.Effects.Opens.{passed, Opens, opening, bind-Opens}
use postgres_restore_operato.Replica.{ReplicaApi}
use postgres_restore_operato.Replica.Build.{
  BuildToDo, BuildOutcome, BuildStatus, EmptyBuild, build_to_do, build_status, build_job_name,
}
use postgres_restore_operato.Replica.Build.Step.{
  settle_failed, retry_or_settle, start_build, settle_no_schema, record_schema, finish_schema,
  registration_failed, register_schema, fail_build, by_outcome, do_build, reconcile_schema_build,
}
use postgres_restore_operato.Replica.Build.Settles.{is_over, opens, opens-build_to_do}

module _ (api : ReplicaApi) (replica : PostgresPhysicalReplica) (r : PostgresPhysicalRestore) where
  no_schema-Opens :
      (empty : EmptyBuild) (elapsed : ℕ)
      → Opens false (settle_no_schema api empty replica r elapsed)
  unfolding settle_no_schema
  no_schema-Opens EmptyBuild.rebuild elapsed = search opening depth 20
  no_schema-Opens EmptyBuild.settle elapsed = search opening depth 20

  held-Opens :
      (o : BuildOutcome) (target group rank : String) (build : BuildStatus)
      → Opens false (by_outcome api o replica r target group rank build)
  unfolding by_outcome start_build settle_failed retry_or_settle fail_build register_schema
      registration_failed finish_schema record_schema
  held-Opens BuildOutcome.not_started target group rank build = search opening depth 40
  held-Opens BuildOutcome.running target group rank build = search opening
  held-Opens BuildOutcome.succeeded target group rank build =
      search (opening, no_schema-Opens) depth 40
  held-Opens BuildOutcome.failed target group rank build = search opening depth 20

  closed : (m : M Bool) → Opens false m → passed m.result ≡ false
  closed m h = ground (arith, h.only)

  settled_closed : (error : String) → passed (settle_failed api r.name error).result ≡ false
  unfolding settle_failed
  settled_closed error = closed (settle_failed api r.name error) (search opening)

  built_closed :
      (target group rank : String)
      → passed
          (answer (api.find_job (build_job_name replica.name)) >>= λ job.
            let build = build_status api.building.parse_bytes api.now job in
            by_outcome api build.outcome replica r target group rank build).result
        ≡ false
  built_closed target group rank = closed _ (bind-Opens _ _ λ job. held-Opens _ target group rank _)

  passed-do_build : (to_do : BuildToDo) → passed (do_build api to_do replica r).result ≡ opens to_do
  unfolding do_build note pure ◌>>=◌
  passed-do_build BuildToDo.settled = refl
  passed-do_build BuildToDo.no_target = refl
  passed-do_build BuildToDo.no_image = refl
  passed-do_build BuildToDo.no_group = settled_closed _
  passed-do_build BuildToDo.no_rank = settled_closed _
  passed-do_build BuildToDo.unmigrated = settled_closed _
  passed-do_build (BuildToDo.build image target group rank) = built_closed target group rank

  -- The gate of the schema build opens exactly where a result is recorded on the restore, or the restore
  -- names no builder image or no target version: the pass that records a result still holds it.
  pub passed-reconcile_schema_build :
      passed (reconcile_schema_build api replica r).result ≡ is_over r
  unfolding reconcile_schema_build
  passed-reconcile_schema_build =
      passed-do_build (build_to_do api.building.parse_uuid replica r)
      ∙ opens-build_to_do api.building.parse_uuid replica r
