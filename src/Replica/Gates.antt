-- ===== src/Replica/Gates.antt =====
-- The gates of a switchover, one behind the other: `reconcile` of src/controllers/replica.rs and the steps
-- that it takes on the restore that waits for its switchover.
use postgres_restore_operato.Prelude.{
  ◌≡◌, refl, Bool, true, false, not, ◌&&◌, ◌||◌, Option, none, some, List, [], ◌++◌, ◌==◌, arith,
  eq_refl, find, find-eq_some, any-find, is_none, is_some,
}
use postgres_restore_operato.Types.{RedactionSpec, PostgresPhysicalReplica, PostgresPhysicalRestore}
use postgres_restore_operato.Effects.{
  Result, ok, err, Call, M, or_else, Action, pure, branch, cases, ◌>>=◌,
}
use postgres_restore_operato.Effects.Opens.{passed}
use postgres_restore_operato.Effects.Emits.{
  Emits, emits, bind-Emits, cases-Emits, pure-Emits, All-append,
}
use postgres_restore_operato.Replica.{ReplicaApi, is_active, is_switching, none_or}
use postgres_restore_operato.Replica.Switchover.{
  gate, redaction_gate, migration_gate, switch_over, gated_switchover, clear_suspension,
}
use postgres_restore_operato.Replica.Migration.{reconcile_schema_migration}
use postgres_restore_operato.Replica.Build.Step.{reconcile_schema_build}
use postgres_restore_operato.Replica.Steps.{
  redaction_step-May, migrate_from-May, do_build-May, grants-May,
}
use postgres_restore_operato.Replica.Redaction.{reconcile_redaction_step}
use postgres_restore_operato.Replica.Redaction.Succeeds.{is_redacted, run_succeeds}
use postgres_restore_operato.Replica.Passing.{
  reconcile_redaction_step-Opens, reconcile_schema_migration-Opens,
}
use postgres_restore_operato.Replica.Build.Passing.{passed-reconcile_schema_build}
use postgres_restore_operato.Replica.Allowed.{
  Restores, May, named, redaction_passed, migration_passed, gates_passed,
}

or_else-gate-Emits :
    {P : Call → Type 0} (t : List Call) (r : Result Bool) (rest : M Action)
    → Emits P (record { trace = t; result = r })
    → (passed r ≡ true → Emits P rest)
    → Emits P (or_else (gate (record { trace = t; result = r })) rest)
unfolding gate or_else ◌>>=◌ branch pure cases
or_else-gate-Emits {P} t (ok true) rest h k = record {
  calls = All-append P (t ++ []) rest.trace (All-append P t [] h.calls tt) (k refl).calls;
}
or_else-gate-Emits {P} t (ok false) rest h k = record {
  calls = All-append P (t ++ []) [] (All-append P t [] h.calls tt) tt;
}
or_else-gate-Emits t (err e) rest h k = record { calls = h.calls }

pub gate-Emits :
    {P : Call → Type 0} (step : M Bool) (rest : M Action)
    → Emits P step
    → (passed step.result ≡ true → Emits P rest)
    → Emits P (or_else (gate step) rest)
gate-Emits step rest h k = or_else-gate-Emits step.trace step.result rest h k

open_gate-Emits :
    {P : Call → Type 0} (rest : M Action) → Emits P rest → Emits P (or_else (pure none) rest)
unfolding or_else ◌>>=◌ pure cases
open_gate-Emits rest h = record { calls = h.calls }

is_none_lem : {A : Type 0} (o : Option A) → is_none o ≡ not (is_some o)
is_none_lem none = refl
is_none_lem (some a) = refl

pub cases-gate-Emits :
    {A : Type 0} {P : Call → Type 0} (o : Option A) (step : A → M Bool) (rest : M Action)
    → ((a : A) → o ≡ some a → Emits P (step a))
    → (none_or (λ a. passed (step a).result) o ≡ true → Emits P rest)
    → Emits P (or_else (cases o (pure none) λ a. gate (step a)) rest)
unfolding cases
cases-gate-Emits none step rest h k = open_gate-Emits rest (k refl)
cases-gate-Emits (some a) step rest h k = gate-Emits (step a) rest (h a refl) k

pub branch-gate-Emits :
    {P : Call → Type 0} (b : Bool) (step : M Bool) (rest : M Action)
    → Emits P step
    → ((not b || passed step.result) ≡ true → Emits P rest)
    → Emits P (or_else (branch b (gate step) (pure none)) rest)
unfolding branch
branch-gate-Emits true step rest h k = gate-Emits step rest h k
branch-gate-Emits false step rest h k = open_gate-Emits rest (k refl)

module _ (api : ReplicaApi) (replica : PostgresPhysicalReplica) (restores : Restores) where
  switchover-May :
      (switching : PostgresPhysicalRestore) (active : Option PostgresPhysicalRestore)
      → named
          (λ r. is_switching r && gates_passed api replica (find is_active restores) r)
          switching.name
          restores
        ≡ true
      → May api replica restores (switch_over api replica switching active)
  unfolding switch_over clear_suspension
  switchover-May switching active h = search emits depth 40

  -- What a gate that lets the switchover pass says of the restore.
  redaction_opens :
      (r : PostgresPhysicalRestore) (redaction : Option RedactionSpec)
      → none_or (λ spec. passed (reconcile_redaction_step api replica spec r.name).result) redaction
        ≡ true
      → none_or
          (λ spec. is_redacted replica.redaction_phase || run_succeeds api replica spec r.name)
          redaction
        ≡ true
  redaction_opens r none h = refl
  redaction_opens r (some spec) h =
      ground (arith, h, (reconcile_redaction_step-Opens api replica spec r.name).only)

  migration_opens :
      (r : PostgresPhysicalRestore) (active : Option PostgresPhysicalRestore)
      → (not (is_some replica.persistent_schemas)
          || passed (reconcile_schema_migration api replica r active).result)
        ≡ true
      → migration_passed api replica active r ≡ true
  migration_opens r active h = ground (
    arith,
    h,
    (reconcile_schema_migration-Opens api replica r active).only,
    is_none_lem replica.persistent_schemas,
  )

  module _ (switching : PostgresPhysicalRestore)
      (found : find is_switching restores ≡ some switching) where
    -- What the waiting restore passes, a restore of the list passes under its name.
    waiting :
        (q : PostgresPhysicalRestore → Bool)
        → q switching ≡ true
        → named q switching.name restores ≡ true
    waiting q h =
        any-find is_switching (λ r. r.name == switching.name && q r) restores switching found
          (ground (arith, h, eq_refl switching.name))

    waits : is_switching switching ≡ true
    waits = find-eq_some is_switching restores switching found

    migration_step-May :
        (active : Option PostgresPhysicalRestore)
        → find is_active restores ≡ active
        → redaction_passed api replica switching ≡ true
        → May api replica restores (reconcile_schema_migration api replica switching active)
    unfolding reconcile_schema_migration
    migration_step-May none h redacted =
        cases-Emits _ (search emits) λ schemas. unfold cases in pure-Emits true
    migration_step-May (some active) h redacted = cases-Emits _ (search emits) λ schemas.
        unfold cases in
        migrate_from-May api replica restores switching active
          (waiting (λ r. is_switching r && redaction_passed api replica r)
            (ground (arith, waits, redacted)))
          (any-find is_switching (λ r. is_switching r && redaction_passed api replica r) restores
            switching found (ground (arith, waits, redacted)))
          (waiting (λ r. is_switching r || is_active r) (ground (arith, waits)))
          (any-find is_active (λ r. r.name == active.name && (is_switching r || is_active r))
            restores active h
            (ground (arith, find-eq_some is_active restores active h, eq_refl active.name)))
          schemas

    build_step-May :
        redaction_passed api replica switching ≡ true
        → migration_passed api replica (find is_active restores) switching ≡ true
        → May api replica restores (reconcile_schema_build api replica switching)
    unfolding reconcile_schema_build
    build_step-May redacted migrated =
        do_build-May api replica restores switching
          (any-find is_switching
            (λ r.
              is_switching r
              && (redaction_passed api replica r
                  && migration_passed api replica (find is_active restores) r))
            restores switching found (ground (arith, waits, redacted, migrated)))
          _

    pub gated_switchover-May :
        May api replica restores (gated_switchover api replica switching (find is_active restores))
    unfolding gated_switchover redaction_gate migration_gate
    gated_switchover-May =
        cases-gate-Emits replica.redaction _ _
          (λ spec asked.
            redaction_step-May api replica restores spec switching.name (waiting is_switching waits)
              (ground (arith, asked)))
          λ passes_redaction.
            let redacted = redaction_opens switching replica.redaction passes_redaction in
            branch-gate-Emits _ _ _ (migration_step-May (find is_active restores) refl redacted)
              λ passes_migration.
                let migrated =
                  migration_opens switching (find is_active restores) passes_migration in
                gate-Emits _ _ (build_step-May redacted migrated) λ built.
                  bind-Emits _ _ (grants-May api replica restores switching.name) λ _.
                    switchover-May switching _ (
                      waiting _ (
                        ground (
                          arith,
                          waits,
                          redacted,
                          migrated,
                          built,
                          passed-reconcile_schema_build api replica switching,
                        )))
