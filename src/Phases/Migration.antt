-- ===== src/Phases/Migration.antt =====
-- The wire format of the phases of a schema migration: `Display` and `FromStr` of `SchemaMigrationPhase` in src/types/replica.rs.
-- `trim` is `str::trim`; `none` is the error on an unknown text.
use Prim.Native.String
use postgres_restore_operato.Prelude.{
  ◌≡◌, refl, String, Option, none, some, ◌==◌, if◌then◌else◌, starts_with, strip_prefix,
  strip_prefix-failure, failure-differs,
}
use postgres_restore_operato.Types.{SchemaMigrationPhase}

unfoldable pub to_string : SchemaMigrationPhase → String
to_string SchemaMigrationPhase.active = "active"
to_string SchemaMigrationPhase.complete = "complete"
to_string SchemaMigrationPhase.partial = "partial"
to_string SchemaMigrationPhase.timeout_skipped = "timeout-skipped"
to_string (SchemaMigrationPhase.failed reason) = String.◌++◌ "failed: " reason

abbrev failed_by : (String → String) → Option String → Option SchemaMigrationPhase
failed_by trim none = none
failed_by trim (some reason) = some (SchemaMigrationPhase.failed (trim reason))

unfoldable pub from_str : (String → String) → String → Option SchemaMigrationPhase
from_str trim s =
    if s == "active"
    then some SchemaMigrationPhase.active
    else (if s == "complete"
        then some SchemaMigrationPhase.complete
        else (if s == "partial"
            then some SchemaMigrationPhase.partial
            else (if s == "timeout-skipped"
                then some SchemaMigrationPhase.timeout_skipped
                else failed_by trim (strip_prefix s "failed:"))))

-- `trim` drops the space that stands after `failed:`.
abbrev pub IsTrimmed : (String → String) → SchemaMigrationPhase → Type 0
IsTrimmed trim (SchemaMigrationPhase.failed reason) = trim (String.◌++◌ " " reason) ≡ reason
IsTrimmed trim _ = Unit

-- A phase that is written is read back, where `trim` drops the space between `failed:` and the reason of a
-- failure, and leaves the reason.
pub from_str-to_string :
    (trim : String → String) (phase : SchemaMigrationPhase)
    → IsTrimmed trim phase
    → from_str trim (to_string phase) ≡ some phase
unfolding from_str to_string starts_with
from_str-to_string trim (SchemaMigrationPhase.failed reason) h =
    rw
      (
        failure-differs reason "active" refl,
        failure-differs reason "complete" refl,
        failure-differs reason "partial" refl,
        failure-differs reason "timeout-skipped" refl,
        strip_prefix-failure reason,
        h,
      )
      refl
from_str-to_string trim SchemaMigrationPhase.active h = refl
from_str-to_string trim SchemaMigrationPhase.complete h = refl
from_str-to_string trim SchemaMigrationPhase.partial h = refl
from_str-to_string trim SchemaMigrationPhase.timeout_skipped h = refl
