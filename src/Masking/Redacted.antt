-- ===== src/Masking/Redacted.antt =====
-- What a redaction that is not partial has done: `apply` of src/controllers/replica/redaction/apply.rs.
use postgres_restore_operato.Prelude.{
  ℕ, ◌+◌, ◌≡◌, refl, String, Bool, true, false, ◌&&◌, ◌||◌, List, [], ◌∷◌, ◌==◌, ltb, any, All,
  arith, eq_refl, subst,
}
use postgres_restore_operato.Effects.{Result, ok, err}
use postgres_restore_operato.Replica.{Outcome}
use postgres_restore_operato.Replica.Redaction.{outcome_is_partial}
use postgres_restore_operato.Masking.{TableMask, Manifest}
use postgres_restore_operato.Masking.Apply.{
  Statement, Sent, Row, Database, ByTable, send, last_accepted, apply_masks, group_masks,
  assignment_of, truncate_tables, apply, lookup_column_infos, with_anon, with_extension,
  mask_columns, or_refused,
}
use postgres_restore_operato.Masking.Masks.{
  MaskedBy, apply_masks-keeps, group_masks-Grouped, All-masked,
}

abbrev pub truncates : String → String → Statement × Bool → Bool
truncates s t (Statement.truncate schema table, accepted) = accepted && (schema == s && table == t)
truncates s t _ = false

abbrev pub Truncated : Sent → TableMask → Type 0
Truncated sent t = any (truncates t.schema t.table) sent ≡ true

truncate_tables-keeps :
    (db : Database) (p : Statement × Bool → Bool) (tables : List TableMask) (sent : Sent)
    (failed : ℕ)
    → any p sent ≡ true
    → any p (truncate_tables db tables sent failed).0 ≡ true
unfolding truncate_tables
truncate_tables-keeps db p [] sent failed h = h
truncate_tables-keeps db p (t ∷ tables) sent failed h =
    truncate_tables-keeps db p tables _ _ (ground (arith, h))

-- The failures counted so far are kept.
truncate_tables-failed :
    (db : Database) (tables : List TableMask) (sent : Sent) (failed : ℕ)
    → (truncate_tables db tables sent failed).1 ≡ 0
    → failed ≡ 0
unfolding truncate_tables
truncate_tables-failed db [] sent failed h = h
truncate_tables-failed db (t ∷ tables) sent failed h =
    ground (arith, truncate_tables-failed db tables _ _ h)

truncate_tables-Truncated :
    (db : Database) (tables : List TableMask) (sent : Sent) (failed : ℕ)
    → (truncate_tables db tables sent failed).1 ≡ 0
    → All (Truncated (truncate_tables db tables sent failed).0) tables
unfolding truncate_tables
truncate_tables-Truncated db [] sent failed h = tt
truncate_tables-Truncated db (t ∷ tables) sent failed h =
    let counted = truncate_tables-failed db tables _ _ h in
    (
      truncate_tables-keeps db (truncates t.schema t.table) tables _ _
          (ground (arith, counted, eq_refl t.schema, eq_refl t.table)),
      truncate_tables-Truncated db tables _ _ h,
    )

abbrev pub rows_of : Result (List Row) → List Row
rows_of (ok rows) = rows
rows_of (err e) = []

-- Every column and every table of the manifest was treated by an accepted statement.
abbrev pub Redacted : Database → Manifest → Sent → Type 0
Redacted db manifest sent =
    All
      (λ mask.
        MaskedBy mask (assignment_of (rows_of (lookup_column_infos db manifest.columns)) mask) sent)
      manifest.columns
    × All (Truncated sent) manifest.tables

abbrev Kept : Database → Manifest → Sent × Result Outcome → Type 0
Kept db manifest (sent, ok outcome) = outcome_is_partial outcome ≡ false → Redacted db manifest sent
Kept db manifest (sent, err e) = Unit

tables_kept :
    (db : Database) (by_table : ByTable) (sent : Sent) (tables : List TableMask)
    → All (Truncated sent) tables
    → All (Truncated (apply_masks db by_table sent).0) tables
tables_kept db by_table sent [] h = tt
tables_kept db by_table sent (t ∷ tables) (h, rest) = (
  apply_masks-keeps db (truncates t.schema t.table) by_table sent h,
  tables_kept db by_table sent tables rest,
)

no_failures : (a b c : ℕ) → (ltb 0 (a + b) || ltb 0 c) ≡ false → (a ≡ 0) × (b ≡ 0) × (c ≡ 0)
no_failures a b c h = ground arith

mask_columns-Kept :
    (db : Database) (manifest : Manifest) (sent : Sent) (tables_failed : ℕ)
    (answer : Result (List Row))
    → lookup_column_infos db manifest.columns ≡ answer
    → (tables_failed ≡ 0 → All (Truncated sent) manifest.tables)
    → Kept db manifest (mask_columns db manifest sent tables_failed answer)
unfolding outcome_is_partial
mask_columns-Kept db manifest sent tables_failed (err e) looked h = tt
mask_columns-Kept db manifest sent tables_failed (ok rows) looked h = λ whole.
    let groups = group_masks rows manifest.columns [] 0 in
    let (unmatched, refused, failed) =
      no_failures groups.1 (apply_masks db groups.0 sent).1 tables_failed whole in
    rw looked (
      All-masked db rows groups.0 sent manifest.columns refused
          (group_masks-Grouped rows manifest.columns [] 0 unmatched),
      tables_kept db groups.0 sent manifest.tables (h failed),
    )

with_anon-Kept :
    (db : Database) (manifest : Manifest) (sent : Sent)
    → Kept db manifest (with_anon db manifest sent)
with_anon-Kept db manifest sent =
    mask_columns-Kept db manifest _ _ _ refl (truncate_tables-Truncated db manifest.tables sent 0)

or_refused-Kept :
    (db : Database) (manifest : Manifest) (accepted : Bool) (reason : String) (sent : Sent)
    (next : Sent × Result Outcome)
    → Kept db manifest next
    → Kept db manifest (or_refused accepted reason sent next)
or_refused-Kept db manifest true reason sent next h = h
or_refused-Kept db manifest false reason sent next h = tt

apply-Kept : (db : Database) (manifest : Manifest) → Kept db manifest (apply db manifest)
unfolding apply
apply-Kept db manifest =
    let created = send db [] Statement.create_extension in
    let started = send db created Statement.anon_init in
    or_refused-Kept db manifest (last_accepted created) "CREATE EXTENSION anon failed" created
      (with_extension db manifest created)
      (or_refused-Kept db manifest (last_accepted started) "anon.init() failed" started
        (with_anon db manifest started) (with_anon-Kept db manifest started))

-- Whatever the database answers, a redaction that ends with an outcome that is not partial has masked
-- every column of the manifest, by an accepted UPDATE that sets the column to the expression of its
-- mask, alone or with the table's others, and has truncated every table of it.
pub apply-Redacted :
    (db : Database) (manifest : Manifest) (sent : Sent) (outcome : Outcome)
    → apply db manifest ≡ (sent, ok outcome)
    → outcome_is_partial outcome ≡ false
    → Redacted db manifest sent
apply-Redacted db manifest sent outcome h whole =
    subst (Kept db manifest) h (apply-Kept db manifest) whole
