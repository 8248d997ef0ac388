-- ===== src/Restore/Batch.antt =====
-- What a migration did: `read_result`, `result_from_batch` and `migration_error` of
-- src/controllers/restore/migration.rs. The reader of a JSON number and `str::parse` to an i64 are arguments, and so are
-- the functions on texts that `log_tail` takes.
use Prim.Native.String
use postgres_restore_operato.Prelude.{
  ℤ, pos, quotient, ◌+ℤ◌, is_natural, String, Bool, Option, none, some, List, [], ◌∷◌, ◌++◌, ◌==◌,
  if◌then◌else◌,
}
use postgres_restore_operato.Json.{
  Json, Fields, number, text, end, get, lookup_field, as_str, as_object, and_then,
}
use postgres_restore_operato.Types.{MigrationTiming, MigrationResult}
use postgres_restore_operato.Effects.{Result, ok, err}
use postgres_restore_operato.Split.{join}
use postgres_restore_operato.Jobs.Log.{log_tail}

-- A row of `logs.migrations`.
pub record Batch : Type 0 where
  pub applied : List String
  pub batch_duration_ms : Option ℤ
  pub stats : Option Json

abbrev fields_or_empty : Option Fields → Fields
fields_or_empty none = end
fields_or_empty (some fields) = fields

abbrev pub integer_or : Option ℤ → ℤ → ℤ
integer_or none n = n
integer_or (some m) n = m

abbrev text_or : Option String → String → String
text_or none s = s
text_or (some t) s = t

abbrev pub is_empty_text : String → Bool
is_empty_text s = s == ""

-- The functions on texts of the standard library and of serde_json.
pub record Readers : Type 0 where
  -- `Value::as_i64` on a number.
  pub as_i64 : String → Option ℤ
  -- `str::parse::<i64>`.
  pub parse : String → Option ℤ
  pub lines : String → List String
  pub trim : String → String
  pub trim_start : String → String

-- `Iterator::sum`.
unfoldable pub total_seconds : List MigrationTiming → ℤ
total_seconds [] = pos 0
total_seconds (t ∷ timings) = t.elapsed_seconds +ℤ total_seconds timings

abbrev pub known_size : Option ℤ → Option ℤ
known_size none = none
known_size (some n) = if is_natural n then some n else none

unfoldable pub durations : Option Json → Fields
durations stats =
    fields_or_empty (and_then (and_then stats (get "durationMsPerMigration")) as_object)

abbrev pub elapsed_of : Option ℤ → List MigrationTiming → ℤ
elapsed_of none timings = total_seconds timings
elapsed_of (some ms) timings = quotient ms 1000

abbrev first_text : Option String → Option String → Option String
first_text none other = other
first_text (some s) other = some s

abbrev head_of : Option String → Option String → String
head_of (some label) (some message) = String.◌++◌ label (String.◌++◌ ": " message)
head_of (some label) none = label
head_of none (some message) = message
head_of none none = ""

abbrev place_of : Option String → Option String → List String
place_of (some table) (some column) = String.◌++◌ table (String.◌++◌ "." column) ∷ []
place_of (some one) none = one ∷ []
place_of none (some one) = one ∷ []
place_of none none = []

abbrev one_item : Option String → List String
one_item none = []
one_item (some s) = s ∷ []

abbrev with_context : String → List String → String
with_context head [] = head
with_context head (w ∷ ws) =
    let context = String.◌++◌ "[" (String.◌++◌ (join ", " (w ∷ ws)) "]") in
    if is_empty_text head then context else String.◌++◌ head (String.◌++◌ " " context)

abbrev labelled : String → Option String → String
labelled name none = ""
labelled name (some value) = String.◌++◌ " " (String.◌++◌ name (String.◌++◌ ": " value))

module _ (readers : Readers) where
  abbrev number_of : Json → Option ℤ
  number_of (number s) = readers.as_i64 s
  number_of _ = none

  abbrev pub timing : Fields → String → MigrationTiming
  timing fields name = record {
    name = name;
    elapsed_seconds =
        quotient (integer_or (and_then (lookup_field name fields) number_of) (pos 0)) 1000;
  }

  unfoldable pub timings_of : Fields → List String → List MigrationTiming
  unfolding lookup_field
  timings_of fields [] = []
  timings_of fields (name ∷ applied) = timing fields name ∷ timings_of fields applied

  -- A size is a number, or the text of one.
  abbrev pub size_of : Json → Option ℤ
  size_of (number s) = readers.as_i64 s
  size_of (text s) = readers.parse s
  size_of _ = none

  unfoldable pub bytes_before : Option Json → ℤ → ℤ
  bytes_before stats data_bytes_after =
      let size =
        and_then (and_then (and_then stats (get "preSnapshot")) (get "databaseSizeBytes"))
          size_of in
      integer_or (known_size size) data_bytes_after

  unfoldable pub result_from_batch : Batch → ℤ → Bool → MigrationResult
  result_from_batch batch data_bytes_after job_failed =
      let timings = timings_of (durations batch.stats) batch.applied in
      record {
        total_elapsed_seconds = elapsed_of batch.batch_duration_ms timings;
        failed_migration =
            if job_failed
            then some
                (text_or (and_then (and_then batch.stats (get "failedMigration")) as_str) "unknown")
            else none;
        error = none;
        data_bytes_before = bytes_before batch.stats data_bytes_after;
        data_bytes_after = data_bytes_after;
        timings = timings;
      }

  -- A field of tamanu's error, trimmed, where it is not empty.
  abbrev not_blank : Option String → Option String
  not_blank none = none
  not_blank (some s) = if is_empty_text (readers.trim s) then none else some (readers.trim s)

  abbrev error_field : Json → String → Option String
  error_field error key = not_blank (and_then (get key error) as_str)

  unfoldable pub error_line : Json → String
  error_line error =
      let head =
        head_of (first_text (error_field error "code") (error_field error "name"))
          (error_field error "message") in
      let context =
        place_of (error_field error "table") (error_field error "column")
        ++ one_item (error_field error "constraint") in
      String.◌++◌ (with_context head context) (
        String.◌++◌ (labelled "DETAIL" (error_field error "detail"))
          (labelled "HINT" (error_field error "hint")))

  abbrev tail_of : Option String → Option String
  tail_of none = none
  tail_of (some log) =
      let tail = log_tail readers.lines readers.trim readers.trim_start log in
      if is_empty_text tail then none else some tail

  abbrev line_or_tail : String → Option String → Option String
  line_or_tail line tail = if is_empty_text line then tail else some (readers.trim line)

  unfoldable pub migration_error : Option Json → Option String → Option String
  unfolding error_line
  migration_error stats log = elim (and_then stats (get "error")) [
    | none ↦ tail_of log
    | some error ↦ line_or_tail (error_line error) (tail_of log)
  ]

  -- What is read where no batch is newer than the baseline.
  abbrev no_batch : Option String → ℤ → Bool → MigrationResult
  no_batch log data_bytes_after job_failed = record {
    total_elapsed_seconds = pos 0;
    failed_migration = if job_failed then some "unknown" else none;
    error = if job_failed then migration_error none log else none;
    data_bytes_before = data_bytes_after;
    data_bytes_after = data_bytes_after;
    timings = [];
  }

  abbrev read_row : Option Batch → Option String → ℤ → Bool → MigrationResult
  read_row none log data_bytes_after job_failed = no_batch log data_bytes_after job_failed
  read_row (some batch) log data_bytes_after job_failed =
      record (result_from_batch batch data_bytes_after job_failed) {
        error = if job_failed then migration_error batch.stats log else none;
      }

  abbrev read_sized : Result (Option Batch) → Option String → ℤ → Bool → Result MigrationResult
  read_sized (err e) log data_bytes_after job_failed = err e
  read_sized (ok row) log data_bytes_after job_failed =
      ok (read_row row log data_bytes_after job_failed)

  -- `log` is the redacted log of the Job's container, `size` the connection with the size of its database, and
  -- `row` the newest batch after the baseline.
  unfoldable pub read_result :
      Option String → Result ℤ → Result (Option Batch) → Bool → Result MigrationResult
  unfolding result_from_batch migration_error
  read_result log (err e) row job_failed = err e
  read_result log (ok data_bytes_after) row job_failed =
      read_sized row (if job_failed then log else none) data_bytes_after job_failed
