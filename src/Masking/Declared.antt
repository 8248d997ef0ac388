-- ===== src/Masking/Declared.antt =====
-- From a column's entry in a manifest document to its masking: `parse_manifest` of
-- src/controllers/replica/redaction/manifest.rs and `apply` of src/controllers/replica/redaction/apply.rs.
use postgres_restore_operato.Prelude.{
  ◌≡◌, refl, sym, String, Bool, true, false, ◌&&◌, ◌||◌, Option, none, some, List, [], ◌∷◌, ◌++◌,
  ◌==◌, any, All, arith, eq_iff, eq_refl, Bool-cases, inl, inr, subst,
}
use postgres_restore_operato.Json.{Json, Fields, text, object, end, field, get, lookup_field}
use postgres_restore_operato.Effects.{Result, ok}
use postgres_restore_operato.Replica.{Outcome}
use postgres_restore_operato.Replica.Redaction.{outcome_is_partial}
use postgres_restore_operato.Masking.{
  ColumnMask, Manifest, meta_masking, mask_kind, mask_range, column_mask, column_list, column_masks,
  source_masks, sources_masks, document_masks, parse_manifest,
}
use postgres_restore_operato.Masking.Mask.{
  ColumnInfo, Expression, mask_expression, expression, unsupported,
}
use postgres_restore_operato.Masking.Apply.{
  Sent, Row, Database, apply, assignment_of, assignment_by, with_info, column_info,
  lookup_column_infos,
}
use postgres_restore_operato.Masking.Masks.{MaskedBy, assigned}
use postgres_restore_operato.Masking.Redacted.{rows_of, apply-Redacted}

-- That a document gives a column of a table a kind of mask.
pub record Declares (doc : Json) (schema table column kind : String) : Type 0 where
  pub sources : Fields
  pub source_id : String
  pub source : Json
  pub columns : Fields
  pub col : Json
  pub mask : Json
  pub in_doc : get "sources" doc ≡ some (object sources)
  pub in_sources : lookup_field source_id sources ≡ some source
  pub has_schema : get "schema" source ≡ some (text schema)
  pub has_name : get "name" source ≡ some (text table)
  pub has_columns : get "columns" source ≡ some (object columns)
  pub in_columns : lookup_field column columns ≡ some col
  pub is_masked : meta_masking col ≡ some mask
  pub has_kind : mask_kind mask ≡ some kind

any-append :
    {A : Type 0} (q : A → Bool) (xs ys : List A) → any q (xs ++ ys) ≡ (any q xs || any q ys)
any-append q [] ys = refl
any-append q (x ∷ xs) ys = ground (arith, any-append q xs ys)

any_witness :
    {A : Type 0} (q : A → Bool) (P : A → Type 0) (xs : List A)
    → All P xs
    → any q xs ≡ true
    → (x : A) × (q x ≡ true) × P x
any_witness q P [] h k = cc
any_witness q P (x ∷ xs) (h, rest) k = elim (Bool-cases (q x)) [
  | inl here ↦ (x, here, h)
  | inr other ↦ any_witness q P xs rest (ground (arith, k, other))
]

column_list-any :
    (q : ColumnMask → Bool) (o : Option ColumnMask) (masks : List ColumnMask)
    → any q masks ≡ true
    → any q (column_list o masks) ≡ true
column_list-any q none masks h = h
column_list-any q (some m) masks h = ground (arith, h)

module _ (parse_f64 : String → Option String) (q : ColumnMask → Bool) where
  column_masks-any :
      (m : ColumnMask) (schema table column : String) (col : Json) (fields : Fields)
      → q m ≡ true
      → column_mask parse_f64 schema table column col ≡ some m
      → lookup_field column fields ≡ some col
      → any q (column_masks parse_f64 schema table fields) ≡ true
  unfolding column_masks lookup_field
  column_masks-any m schema table column col end h k l = cc
  column_masks-any m schema table column col (field c v fields) h k l =
      elim (Bool-cases (c == column)) [
        | inl here ↦
            let same_name = (eq_iff c column).0 here in
            let same_col : v ≡ col = ground (arith, l, here) in
            let found : column_mask parse_f64 schema table c v ≡ some m =
              rw (same_name, same_col) k in
            rw found (ground (arith, h))
        | inr other ↦
            column_list-any q (column_mask parse_f64 schema table c v) _
              (column_masks-any m schema table column col fields h k (ground (arith, l, other)))
      ]

  sources_masks-any :
      (source_id : String) (source : Json) (sources : Fields)
      → any q (source_masks parse_f64 source).columns ≡ true
      → lookup_field source_id sources ≡ some source
      → any q (sources_masks parse_f64 sources).columns ≡ true
  unfolding sources_masks lookup_field
  sources_masks-any source_id source end h l = cc
  sources_masks-any source_id source (field id s sources) h l =
      let here_first = source_masks parse_f64 s in
      rw (any-append q here_first.columns (sources_masks parse_f64 sources).columns)
        (elim (Bool-cases (id == source_id)) [
          | inl here ↦
              let same : s ≡ source = ground (arith, l, here) in rw same (ground (arith, h))
          | inr other ↦
              ground
                (arith, sources_masks-any source_id source sources h (ground (arith, l, other)))
        ])

abbrev is_for : String → String → String → String → ColumnMask → Bool
is_for schema table column kind m =
    m.schema == schema && (m.table == table && (m.column == column && m.kind == kind))

column_mask_lem :
    (parse_f64 : String → Option String) (schema table column kind : String) (col mask : Json)
    → meta_masking col ≡ some mask
    → mask_kind mask ≡ some kind
    → column_mask parse_f64 schema table column col
      ≡ some (record {
        schema = schema;
        table = table;
        column = column;
        kind = kind;
        range = mask_range parse_f64 mask;
      })
unfolding column_mask
column_mask_lem parse_f64 schema table column kind col mask h k = rw (h, k) refl

source_masks_lem :
    (parse_f64 : String → Option String) (schema table : String) (columns : Fields) (source : Json)
    → get "schema" source ≡ some (text schema)
    → get "name" source ≡ some (text table)
    → get "columns" source ≡ some (object columns)
    → (source_masks parse_f64 source).columns ≡ column_masks parse_f64 schema table columns
unfolding source_masks
source_masks_lem parse_f64 schema table columns source h k l = rw (h, k, l) refl

document_masks_lem :
    (parse_f64 : String → Option String) (doc : Json) (sources : Fields)
    → get "sources" doc ≡ some (object sources)
    → document_masks parse_f64 doc ≡ sources_masks parse_f64 sources
unfolding document_masks
document_masks_lem parse_f64 doc sources h = rw h refl

document_masks-Declares :
    (parse_f64 : String → Option String) (doc : Json) (schema table column kind : String)
    → Declares doc schema table column kind
    → any (is_for schema table column kind) (document_masks parse_f64 doc).columns ≡ true
document_masks-Declares parse_f64 doc schema table column kind d =
    let q = is_for schema table column kind in
    let whole = document_masks_lem parse_f64 doc d.sources d.in_doc in
    let listed =
      source_masks_lem parse_f64 schema table d.columns d.source d.has_schema d.has_name
        d.has_columns in
    let found =
      column_masks-any parse_f64 q _ schema table column d.col d.columns
        (ground (arith, eq_refl schema, eq_refl table, eq_refl column, eq_refl kind))
        (column_mask_lem parse_f64 schema table column kind d.col d.mask d.is_masked d.has_kind)
        d.in_columns in
    subst (λ m. any q m.columns ≡ true) (sym whole)
      (sources_masks-any parse_f64 q d.source_id d.source d.sources
        (subst (λ masks. any q masks ≡ true) (sym listed) found) d.in_sources)

-- That an accepted UPDATE set a column to an expression that its kind of mask comes to.
abbrev pub MaskedColumn : String → String → String → String → Sent → Type 0
MaskedColumn schema table column kind sent =
    (mask : ColumnMask) × (info : Option ColumnInfo) × (e : String) × (mask.column ≡ column)
    × (mask.kind ≡ kind)
    × (mask_expression mask info ≡ expression e)
    × (assigned schema table (column, e) sent ≡ true)

module _ (schema table column kind : String) (sent : Sent) where
  moved :
      (s t c e : String)
      → s ≡ schema
      → t ≡ table
      → c ≡ column
      → assigned s t (c, e) sent ≡ true
      → assigned schema table (column, e) sent ≡ true
  moved s t c e hs ht hc h = rw (← hs, ← ht, ← hc) h

  expression-MaskedColumn :
      (mask : ColumnMask) (info : Option ColumnInfo) (ex : Expression)
      → is_for schema table column kind mask ≡ true
      → mask_expression mask info ≡ ex
      → MaskedBy mask (assignment_by mask ex) sent
      → MaskedColumn schema table column kind sent
  expression-MaskedColumn mask info (unsupported reason) same built h = absurd h
  expression-MaskedColumn mask info (expression e) same built h =
      let same_schema = (eq_iff mask.schema schema).0 (ground (arith, same)) in
      let same_table = (eq_iff mask.table table).0 (ground (arith, same)) in
      let same_column = (eq_iff mask.column column).0 (ground (arith, same)) in
      let same_kind = (eq_iff mask.kind kind).0 (ground (arith, same)) in
      (
        mask,
        info,
        e,
        same_column,
        same_kind,
        built,
        moved mask.schema mask.table mask.column e same_schema same_table same_column h,
      )

  with_info-MaskedColumn :
      (mask : ColumnMask) (o : Option ColumnInfo)
      → is_for schema table column kind mask ≡ true
      → MaskedBy mask (with_info mask o) sent
      → MaskedColumn schema table column kind sent
  with_info-MaskedColumn mask none same h = absurd h
  with_info-MaskedColumn mask (some info) same h =
      expression-MaskedColumn mask (some info) _ same refl h

  masked_column :
      (rows : List Row) (masks : List ColumnMask)
      → All (λ mask. MaskedBy mask (assignment_of rows mask) sent) masks
      → any (is_for schema table column kind) masks ≡ true
      → MaskedColumn schema table column kind sent
  unfolding assignment_of
  masked_column rows masks h k =
      let (mask, same, masked) =
        any_witness (is_for schema table column kind)
          (λ mask. MaskedBy mask (assignment_of rows mask) sent) masks h k in
      with_info-MaskedColumn mask (column_info rows mask) same masked

-- Where a manifest document gives a column a kind of mask, and its redaction ends with an outcome that is
-- not partial, an accepted UPDATE has set that column of that table to an expression of that kind,
-- whatever the database answers: no column is left out in silence.
pub declared-MaskedColumn :
    (parse_f64 : String → Option String) (from_str : String → Result Json) (body : String)
    (doc : Json) (manifest : Manifest) (db : Database) (sent : Sent) (outcome : Outcome)
    (schema table column kind : String)
    → from_str body ≡ ok doc
    → Declares doc schema table column kind
    → parse_manifest parse_f64 from_str body ≡ ok manifest
    → apply db manifest ≡ (sent, ok outcome)
    → outcome_is_partial outcome ≡ false
    → MaskedColumn schema table column kind sent
unfolding parse_manifest
declared-MaskedColumn parse_f64 from_str body doc manifest db sent outcome schema table column kind
      parsed declares read applied whole =
    let same : document_masks parse_f64 doc ≡ manifest = grind (arith, rw parsed at read) in
    let there = document_masks-Declares parse_f64 doc schema table column kind declares in
    masked_column schema table column kind sent (rows_of (lookup_column_infos db manifest.columns))
      manifest.columns (apply-Redacted db manifest sent outcome applied whole).0
      (subst (λ m. any (is_for schema table column kind) m.columns ≡ true) same there)
