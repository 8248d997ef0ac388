-- ===== src/Examples/Masks.antt =====
-- A redaction at concrete inputs: src/controllers/replica/redaction/manifest.rs, mask.rs and apply.rs there,
-- and `quote_ident` of src/controllers/postgres.rs.
use Prim.Native.String
use postgres_restore_operato.Prelude.{
  ◌≡◌, refl, String, Bool, true, false, Option, none, some, [], ◌∷◌,
}
use postgres_restore_operato.Json.{Json, Fields, text, object, end, field, get}
use postgres_restore_operato.Effects.{Result, ok}
use postgres_restore_operato.Replica.{Outcome}
use postgres_restore_operato.Replica.Redaction.{outcome_is_partial}
use postgres_restore_operato.Masking.{
  Manifest, parse_manifest, meta_masking, mask_kind, document_masks, column_masks, column_mask,
  parse_range,
}
use postgres_restore_operato.Split.{rsplit_once}
use postgres_restore_operato.Masking.Mask.{quote_ident, mask_expression}
use postgres_restore_operato.Masking.Quoting.{read_ident, read_ident-quote_ident}
use postgres_restore_operato.Masking.Apply.{
  Statement, Sent, Row, Database, apply, lookup_column_infos, group_masks, truncate_tables,
  assignment_of, column_info, apply_masks, push_assignment, apply_table_masks,
}
use postgres_restore_operato.Masking.Redacted.{Redacted, apply-Redacted}
use postgres_restore_operato.Masking.Declared.{Declares, MaskedColumn, declared-MaskedColumn}

read_ident-quote_ident_example :
    read_ident (String.◌++◌ (quote_ident "a\"; DROP TABLE b; --") " SET")
    ≡ some ("a\"; DROP TABLE b; --", " SET")
read_ident-quote_ident_example = read_ident-quote_ident "a\"; DROP TABLE b; --" " SET" refl

abbrev masking : Json → Json
masking mask = object (field "meta" (object (field "masking" mask end)) end)

abbrev patient_columns : Fields
patient_columns = field "email" (masking (text "email")) (
    field "weight"
      (masking (object (field "kind" (text "float") (field "range" (text "40.5-99") end)))) end)

abbrev patients : Json
patients = object (
    field "schema" (text "public")
      (field "name" (text "patients") (field "columns" (object patient_columns) end)))

abbrev logs : Json
logs = object (
    field "schema" (text "logs")
      (field "name" (text "changes") (field "config" (masking (text "truncate")) end)))

abbrev sources : Fields
sources = field "patients" patients (field "logs" logs end)

abbrev document : Json
document = object (field "sources" (object sources) end)

abbrev as_number : String → Option String
as_number s = some s

abbrev reads : String → Result Json
reads body = ok document

abbrev the_manifest : Manifest
the_manifest = record {
  columns =
      record {
        schema = "public";
        table = "patients";
        column = "email";
        kind = "email";
        range = none;
      }
      ∷ record {
        schema = "public";
        table = "patients";
        column = "weight";
        kind = "float";
        range = some ("40.5", "99");
      }
      ∷ [];
  tables = record { schema = "logs"; table = "changes"; kind = "truncate" } ∷ [];
}

the_manifest_lem : parse_manifest as_number reads "{}" ≡ ok the_manifest
unfolding parse_manifest document_masks get column_masks meta_masking column_mask mask_kind
    parse_range rsplit_once
the_manifest_lem = refl

-- A table with both columns, which takes every statement but one that sets two columns at once.
abbrev accepts_one : Sent → Statement → Bool
accepts_one sent (Statement.update schema table (a ∷ b ∷ assignments)) = false
accepts_one sent _ = true

abbrev a_row : String → String → Row
a_row column data_type = record {
  table_schema = "public";
  table_name = "patients";
  column_name = column;
  data_type = data_type;
  is_nullable = "YES";
  column_default = none;
}

abbrev a_database : Database
a_database = record {
  accepts = accepts_one;
  column_rows = λ masks. ok (a_row "email" "text" ∷ a_row "weight" "numeric" ∷ []);
}

abbrev all_sent : Sent
all_sent = (apply a_database the_manifest).0

abbrev an_outcome : Outcome
an_outcome = record {
  columns_attempted = 2;
  columns_failed = 0;
  tables_attempted = 1;
  tables_failed = 0;
}

applied : apply a_database the_manifest ≡ (all_sent, ok an_outcome)
unfolding apply lookup_column_infos group_masks truncate_tables assignment_of column_info
    mask_expression apply_masks push_assignment apply_table_masks
applied = refl

is_whole : outcome_is_partial an_outcome ≡ false
unfolding outcome_is_partial
is_whole = refl

apply-Redacted_example : Redacted a_database the_manifest all_sent
apply-Redacted_example = apply-Redacted a_database the_manifest all_sent an_outcome applied is_whole

email_declared : Declares document "public" "patients" "email" "email"
unfolding get meta_masking mask_kind
email_declared = record {
  sources = sources;
  source_id = "patients";
  source = patients;
  columns = patient_columns;
  col = masking (text "email");
  mask = text "email";
  in_doc = refl;
  in_sources = refl;
  has_schema = refl;
  has_name = refl;
  has_columns = refl;
  in_columns = refl;
  is_masked = refl;
  has_kind = refl;
}

declared-MaskedColumn_example : MaskedColumn "public" "patients" "email" "email" all_sent
declared-MaskedColumn_example =
    declared-MaskedColumn as_number reads "{}" document the_manifest a_database all_sent an_outcome
      "public" "patients" "email" "email" refl email_declared the_manifest_lem applied is_whole
