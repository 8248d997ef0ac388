-- ===== src/Masking.antt =====
-- Redaction manifests: src/controllers/replica/redaction/manifest.rs. `parse_range` of mask.rs reads two
-- `f64`, of which only the rendering is used: `parse_f64` gives it, where a text is a number.
pub mod Mask
pub mod Quoting
pub mod Apply
pub mod Masks
pub mod Redacted
pub mod Declared
use postgres_restore_operato.Prelude.{String, Option, none, some, List, [], ◌∷◌, ◌++◌}
use postgres_restore_operato.Json.{
  Json, Fields, text, object, end, field, get, as_str, as_object, and_then,
}
use postgres_restore_operato.Split.{rsplit_once}
use postgres_restore_operato.Effects.{Result, ok, err}

pub record ColumnMask : Type 0 where
  pub schema : String
  pub table : String
  pub column : String
  pub kind : String
  pub range : Option (String × String)

pub record TableMask : Type 0 where
  pub schema : String
  pub table : String
  pub kind : String

pub record Manifest : Type 0 where
  pub columns : List ColumnMask
  pub tables : List TableMask

abbrev own_or : {A : Type 0} → Option A → Option A → Option A
own_or none other = other
own_or (some own) other = some own

-- `<node>.config.meta.masking`, or else `<node>.meta.masking`.
unfoldable pub meta_masking : Json → Option Json
meta_masking node =
    own_or (and_then (and_then (get "config" node) (λ c. get "meta" c)) (λ m. get "masking" m))
      (and_then (get "meta" node) (λ m. get "masking" m))

unfoldable pub mask_kind : Json → Option String
mask_kind (text s) = some s
mask_kind (object o) = and_then (get "kind" (object o)) as_str
mask_kind _ = none

abbrev both : Option String → Option String → Option (String × String)
both (some lo) (some hi) = some (lo, hi)
both _ _ = none

abbrev range_of : (String → Option String) → Option (String × String) → Option (String × String)
range_of parse_f64 none = none
range_of parse_f64 (some (lo, hi)) = both (parse_f64 lo) (parse_f64 hi)

-- At the last `-`.
unfoldable pub parse_range : (String → Option String) → String → Option (String × String)
parse_range parse_f64 s = range_of parse_f64 (rsplit_once 45 s)

abbrev pub column_list : Option ColumnMask → List ColumnMask → List ColumnMask
column_list none masks = masks
column_list (some mask) masks = mask ∷ masks

abbrev pub tables_of : String → String → Option String → List TableMask
tables_of schema name none = []
tables_of schema name (some kind) = record { schema = schema; table = name; kind = kind } ∷ []

abbrev no_masks : Manifest
no_masks = record { columns = []; tables = [] }

module _ (parse_f64 : String → Option String) where
  -- The range of an extended mask; `get` of a mask that is no object finds nothing.
  unfoldable pub mask_range : Json → Option (String × String)
  mask_range mask = and_then (and_then (get "range" mask) as_str) (parse_range parse_f64)

  unfoldable pub column_mask : String → String → String → Json → Option ColumnMask
  unfolding mask_range
  column_mask schema name col_name col = and_then (meta_masking col) λ mask.
      and_then (mask_kind mask) λ kind. some (record {
        schema = schema;
        table = name;
        column = col_name;
        kind = kind;
        range = mask_range mask;
      })

  unfoldable pub column_masks : String → String → Fields → List ColumnMask
  column_masks schema name end = []
  column_masks schema name (field col_name col fields) =
      column_list (column_mask schema name col_name col) (column_masks schema name fields)

  abbrev pub columns_of : String → String → Option Fields → List ColumnMask
  columns_of schema name none = []
  columns_of schema name (some fields) = column_masks schema name fields

  -- A source without `schema` or `name` is skipped.
  abbrev pub named_source : Option String → Option String → Json → Manifest
  named_source (some schema) (some name) source = record {
    columns = columns_of schema name (and_then (get "columns" source) as_object);
    tables = tables_of schema name (and_then (meta_masking source) mask_kind);
  }
  named_source (some schema) none source = no_masks
  named_source none name source = no_masks

  unfoldable pub source_masks : Json → Manifest
  source_masks source =
      named_source (and_then (get "schema" source) as_str) (and_then (get "name" source) as_str)
        source

  unfoldable pub sources_masks : Fields → Manifest
  unfolding source_masks
  sources_masks end = no_masks
  sources_masks (field source_id source fields) =
      let here = source_masks source in
      let rest = sources_masks fields in
      record { columns = here.columns ++ rest.columns; tables = here.tables ++ rest.tables }

  abbrev manifest_of : Option Fields → Manifest
  manifest_of none = no_masks
  manifest_of (some sources) = sources_masks sources

  unfoldable pub document_masks : Json → Manifest
  unfolding sources_masks
  document_masks doc = manifest_of (and_then (get "sources" doc) as_object)

  abbrev manifest_result : Result Json → Result Manifest
  manifest_result (ok doc) = ok (document_masks doc)
  manifest_result (err e) = err e

  -- `from_str` is the JSON parser.
  unfoldable pub parse_manifest : (String → Result Json) → String → Result Manifest
  parse_manifest from_str json = manifest_result (from_str json)
