-- ===== src/Restore/Measured.antt =====
-- That what is reported of a migration is what its Job and its batch came to:
-- src/controllers/restore/migration.rs, and the verdict that src/controllers/replica/schema_build.rs takes of it.
use postgres_restore_operato.Prelude.{
  ◌≡◌, refl, ap, ◌⊎◌, inl, inr, ℤ, pos, negsuc, quotient, is_natural, String, Bool, true, false,
  not, Option, none, some, List, [], ◌∷◌, map,
}
use postgres_restore_operato.Json.{Json, Fields, get, and_then}
use postgres_restore_operato.Types.{MigrationTiming, MigrationResult, PostgresPhysicalRestore}
use postgres_restore_operato.Effects.{Result, ok, err}
use postgres_restore_operato.Replica.Build.{migrated_to_target}
use postgres_restore_operato.Restore.Batch.{
  elapsed_of, known_size, integer_or, size_of, Batch, Readers, durations, timings_of, total_seconds,
  bytes_before, result_from_batch, read_result,
}

abbrev applied_by : Option Batch → List String
applied_by none = []
applied_by (some batch) = batch.applied

abbrev recorded_ms : Option Batch → Option ℤ
recorded_ms none = none
recorded_ms (some batch) = batch.batch_duration_ms

-- Whole seconds of the batch's own clock where it has one, and the sum of its migrations' otherwise.
abbrev seconds_of : Option ℤ → List MigrationTiming → ℤ
seconds_of none timings = total_seconds timings
seconds_of (some ms) timings = quotient ms 1000

-- The restore with the result in its status.
abbrev with_result : PostgresPhysicalRestore → MigrationResult → PostgresPhysicalRestore
with_result restore result = record restore { migration_result = some result }

-- A result that tells what the batch and the Job came to.
abbrev pub Told :
    PostgresPhysicalRestore → Option Batch → ℤ → Bool → Result MigrationResult → Type 0
Told restore row after job_failed (err e) = ⊥
Told restore row after job_failed (ok result) =
    (map (λ t. t.name) result.timings ≡ applied_by row)
    × (result.total_elapsed_seconds ≡ seconds_of (recorded_ms row) result.timings)
    × (migrated_to_target (with_result restore result) ≡ not job_failed)
    × ((job_failed ≡ true) ⊎ (result.error ≡ none))
    × (result.data_bytes_after ≡ after)
    × ((is_natural result.data_bytes_before ≡ true) ⊎ (result.data_bytes_before ≡ after))

known-natural :
    (size : Option ℤ) (after : ℤ)
    → (is_natural (integer_or (known_size size) after) ≡ true)
      ⊎ (integer_or (known_size size) after ≡ after)
known-natural none after = inr refl
known-natural (some (pos n)) after = inl refl
known-natural (some (negsuc n)) after = inr refl

module _ (readers : Readers) where
  names-timings_of :
      (fields : Fields) (applied : List String)
      → map (λ t. t.name) (timings_of readers fields applied) ≡ applied
  unfolding timings_of
  names-timings_of fields [] = refl
  names-timings_of fields (name ∷ applied) = ap (λ ns. name ∷ ns) (names-timings_of fields applied)

  bytes_before-natural :
      (stats : Option Json) (after : ℤ)
      → (is_natural (bytes_before readers stats after) ≡ true)
        ⊎ (bytes_before readers stats after ≡ after)
  unfolding bytes_before
  bytes_before-natural stats after =
      known-natural
        (and_then (and_then (and_then stats (get "preSnapshot")) (get "databaseSizeBytes"))
          (size_of readers))
        after

  elapsed-seconds_of :
      (ms : Option ℤ) (timings : List MigrationTiming)
      → elapsed_of ms timings ≡ seconds_of ms timings
  elapsed-seconds_of none timings = refl
  elapsed-seconds_of (some ms) timings = refl

  -- Where the database answers, what is read of a migration lists the migrations of its batch in their order, takes
  -- the batch's own duration where it is recorded and the sum of the migrations' otherwise, counts as
  -- migrated where the Job did not fail and only there, holds an error only where the Job failed, and
  -- gives as the size before either a size that is not negative or the size after.
  pub read_result-Told :
      (restore : PostgresPhysicalRestore) (log : Option String) (after : ℤ) (row : Option Batch)
      (job_failed : Bool)
      → Told restore row after job_failed (read_result readers log (ok after) (ok row) job_failed)
  unfolding read_result result_from_batch migrated_to_target total_seconds
  read_result-Told restore log after none false = (refl, refl, refl, inr refl, refl, inr refl)
  read_result-Told restore log after none true = (refl, refl, refl, inl refl, refl, inr refl)
  read_result-Told restore log after (some batch) false = (
    names-timings_of (durations batch.stats) batch.applied,
    elapsed-seconds_of batch.batch_duration_ms
        (timings_of readers (durations batch.stats) batch.applied),
    refl,
    inr refl,
    refl,
    bytes_before-natural batch.stats after,
  )
  read_result-Told restore log after (some batch) true = (
    names-timings_of (durations batch.stats) batch.applied,
    elapsed-seconds_of batch.batch_duration_ms
        (timings_of readers (durations batch.stats) batch.applied),
    refl,
    inl refl,
    refl,
    bytes_before-natural batch.stats after,
  )
