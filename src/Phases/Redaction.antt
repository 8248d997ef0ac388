-- ===== src/Phases/Redaction.antt =====
-- The wire format of the phases of a redaction: `Display` and `FromStr` of `RedactionPhase` in src/types/replica.rs.
-- `trim` is `str::trim`; `none` is the error on an unknown text.
use Prim.Native.String
use postgres_restore_operato.Prelude.{
  ◌≡◌, refl, String, Option, none, some, ◌==◌, if◌then◌else◌, starts_with, strip_prefix,
  strip_prefix-failure, failure-differs,
}
use postgres_restore_operato.Types.{RedactionPhase}

unfoldable pub to_string : RedactionPhase → String
to_string RedactionPhase.active = "active"
to_string RedactionPhase.complete = "complete"
to_string RedactionPhase.partial = "partial"
to_string (RedactionPhase.failed reason) = String.◌++◌ "failed: " reason

abbrev failed_by : (String → String) → Option String → Option RedactionPhase
failed_by trim none = none
failed_by trim (some reason) = some (RedactionPhase.failed (trim reason))

unfoldable pub from_str : (String → String) → String → Option RedactionPhase
from_str trim s =
    if s == "active"
    then some RedactionPhase.active
    else (if s == "complete"
        then some RedactionPhase.complete
        else (if s == "partial"
            then some RedactionPhase.partial
            else failed_by trim (strip_prefix s "failed:")))

-- `trim` drops the space that stands after `failed:`.
abbrev pub IsTrimmed : (String → String) → RedactionPhase → Type 0
IsTrimmed trim (RedactionPhase.failed reason) = trim (String.◌++◌ " " reason) ≡ reason
IsTrimmed trim _ = Unit

pub from_str-to_string :
    (trim : String → String) (phase : RedactionPhase)
    → IsTrimmed trim phase
    → from_str trim (to_string phase) ≡ some phase
unfolding from_str to_string starts_with
from_str-to_string trim (RedactionPhase.failed reason) h =
    rw
      (
        failure-differs reason "active" refl,
        failure-differs reason "complete" refl,
        failure-differs reason "partial" refl,
        strip_prefix-failure reason,
        h,
      )
      refl
from_str-to_string trim RedactionPhase.active h = refl
from_str-to_string trim RedactionPhase.complete h = refl
from_str-to_string trim RedactionPhase.partial h = refl
