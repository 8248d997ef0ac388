-- ===== src/Restore/Droppable.antt =====
-- Which schemas `reconcile_migrating` of src/controllers/restore/migration.rs drops.
use text.Mathlib.Text.{starts_with}
use postgres_restore_operato.Prelude.{
  ◌≡◌, String, Bool, true, Option, none, some, List, [], All, any, ◌==◌, false,
}
use postgres_restore_operato.Effects.{ok, Call}
use postgres_restore_operato.Effects.Emits.{Emits}
use postgres_restore_operato.Restore.{RestoreApi}

abbrev pub contains : String → List String → Bool
contains s = any (λ t. t == s)

-- None of the schemas that postgres and its standard hold.
abbrev pub IsOwn : String → Type 0
IsOwn s =
    ((s == "public") ≡ false)
    × ((s == "information_schema") ≡ false)
    × (starts_with s "pg_" ≡ false)

-- A schema that is dropped is named by the caller and is not one of postgres's own.
abbrev pub Drops : List String → Call → Type 0
Drops named (Call.drop_schemas name schemas) =
    All (λ s. (contains s named ≡ true) × IsOwn s) schemas
Drops named _ = Unit

abbrev schemas_of : Option (List String) → List String
schemas_of none = []
schemas_of (some schemas) = schemas

-- The database reports, of the schemas it is asked for, those that are there.
abbrev pub ReportsAsked : RestoreApi → Type 0
ReportsAsked api =
    (asked present : List String)
    → api.existing_schemas asked ≡ ok present
    → All (λ s. contains s asked ≡ true) present
