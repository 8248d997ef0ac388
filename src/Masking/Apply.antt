-- ===== src/Masking/Apply.antt =====
-- What applying a manifest does to a database: src/controllers/replica/redaction/apply.rs. `Database` holds
-- what postgres answers: to a statement, after those that were sent before it, and to the query of the
-- columns.
use Prim.Native.Char.{code}
use Prim.Native.String.{[] as empty_text, ◌∷◌ as cons_text}
use postgres_restore_operato.Prelude.{
  ℕ, ◌+◌, String, Bool, true, false, not, ◌&&◌, ◌||◌, Option, none, some, List, [], ◌∷◌, ◌==◌, ltb,
  eqb, if◌then◌else◌,
}
use postgres_restore_operato.Effects.{Error, Result, ok, err}
use postgres_restore_operato.Replica.{Outcome}
use postgres_restore_operato.Masking.{ColumnMask, TableMask, Manifest}
use postgres_restore_operato.Masking.Mask.{
  ColumnInfo, Expression, mask_expression, expression, unsupported,
}

pub data Statement : Type 0 where
  create_extension anon_init : Statement
  -- A schema and a table.
  truncate : String → String → Statement
  -- A schema, a table, and its columns with the expressions that they are set to.
  update : String → String → List (String × String) → Statement

abbrev pub Sent : Type 0
Sent = List (Statement × Bool)

-- A row of the answer to the query of the columns.
pub record Row : Type 0 where
  pub table_schema : String
  pub table_name : String
  pub column_name : String
  pub data_type : String
  pub is_nullable : String
  pub column_default : Option String

pub record Database : Type 0 where
  pub accepts : Sent → Statement → Bool
  pub column_rows : List ColumnMask → Result (List Row)

abbrev row_info : Row → ColumnInfo
row_info row = record {
  data_type = row.data_type;
  is_nullable = row.is_nullable == "YES";
  column_default = row.column_default;
}

abbrev pub row_is_for : ColumnMask → Row → Bool
row_is_for mask row =
    row.table_schema == mask.schema
    && (row.table_name == mask.table && row.column_name == mask.column)

abbrev later_or : Option ColumnInfo → Option ColumnInfo → Option ColumnInfo
later_or none info = info
later_or (some later) info = some later

-- Of two rows for one column the later counts, as an insert into the map makes it.
unfoldable pub column_info : List Row → ColumnMask → Option ColumnInfo
column_info [] mask = none
column_info (row ∷ rows) mask =
    later_or (column_info rows mask) (if row_is_for mask row then some (row_info row) else none)

unfoldable pub lookup_column_infos : Database → List ColumnMask → Result (List Row)
lookup_column_infos db [] = ok []
lookup_column_infos db (mask ∷ masks) = db.column_rows (mask ∷ masks)

-- `simple_query`: the statement, whether it was accepted, and those sent before.
abbrev pub send : Database → Sent → Statement → Sent
send db sent stmt = (stmt, db.accepts sent stmt) ∷ sent

abbrev pub last_accepted : Sent → Bool
last_accepted [] = true
last_accepted ((stmt, accepted) ∷ sent) = accepted

abbrev no_outcome : Outcome
no_outcome = record {
  columns_attempted = 0;
  columns_failed = 0;
  tables_attempted = 0;
  tables_failed = 0;
}

abbrev one_if : Bool → ℕ
one_if true = 1
one_if false = 0

abbrev truncated : Sent → ℕ → Sent × ℕ
truncated sent failed = (sent, one_if (not (last_accepted sent)) + failed)

-- The tables of a manifest, with the number that failed.
unfoldable pub truncate_tables : Database → List TableMask → Sent → ℕ → Sent × ℕ
truncate_tables db [] sent failed = (sent, failed)
truncate_tables db (t ∷ tables) sent failed =
    let (sent', failed') =
      if t.kind == "truncate"
      then truncated (send db sent (Statement.truncate t.schema t.table)) failed
      else (sent, 1 + failed) in
    truncate_tables db tables sent' failed'

-- The order of `String`, which is that of the codes of the characters.
unfoldable pub text_before : String → String → Bool
text_before s empty_text = false
text_before empty_text (cons_text d t) = true
text_before (cons_text c s) (cons_text d t) =
    let rest = text_before s t in ltb (code c) (code d) || (eqb (code c) (code d) && rest)

-- The columns to set, by table: a `BTreeMap<(&str, &str), Vec<_>>`.
abbrev pub ByTable : Type 0
ByTable = List ((String × String) × List (String × String))

abbrev pub same_key : String × String → String × String → Bool
same_key (s, t) (s', t') = s == s' && t == t'

abbrev pub key_before : String × String → String × String → Bool
key_before (s, t) (s', t') = text_before s s' || (s == s' && text_before t t')

abbrev pub push : {A : Type 0} → List A → A → List A
push [] a = a ∷ []
push (b ∷ bs) a = b ∷ push bs a

-- `by_table.entry(key).or_default().push(assignment)`.
unfoldable pub push_assignment : String × String → String × String → ByTable → ByTable
push_assignment key assignment [] = (key, assignment ∷ []) ∷ []
push_assignment key assignment ((k, assignments) ∷ by_table) =
    let rest = push_assignment key assignment by_table in
    if same_key k key
    then (k, push assignments assignment) ∷ by_table
    else (if key_before key k
        then (key, assignment ∷ []) ∷ ((k, assignments) ∷ by_table)
        else (k, assignments) ∷ rest)

-- The column and the expression that a mask sets it to.
abbrev pub assignment_by : ColumnMask → Expression → Option (String × String)
assignment_by mask (expression e) = some (mask.column, e)
assignment_by mask (unsupported reason) = none

abbrev pub with_info : ColumnMask → Option ColumnInfo → Option (String × String)
with_info mask none = none
with_info mask (some info) = assignment_by mask (mask_expression mask (some info))

unfoldable pub assignment_of : List Row → ColumnMask → Option (String × String)
assignment_of rows mask = with_info mask (column_info rows mask)

abbrev pub grouped : ColumnMask → Option (String × String) → ByTable → ℕ → ByTable × ℕ
grouped mask none by_table failed = (by_table, 1 + failed)
grouped mask (some assignment) by_table failed =
    (push_assignment (mask.schema, mask.table) assignment by_table, failed)

-- The masks by table, with the number of columns that failed.
unfoldable pub group_masks : List Row → List ColumnMask → ByTable → ℕ → ByTable × ℕ
group_masks rows [] by_table failed = (by_table, failed)
group_masks rows (mask ∷ masks) by_table failed =
    let (by_table', failed') = grouped mask (assignment_of rows mask) by_table failed in
    group_masks rows masks by_table' failed'

-- One column at a time.
unfoldable pub retry_columns : Database → String → String → List (String × String) → Sent → Sent × ℕ
retry_columns db schema table [] sent = (sent, 0)
retry_columns db schema table (assignment ∷ assignments) sent =
    let sent' = send db sent (Statement.update schema table (assignment ∷ [])) in
    let (sent'', failed) = retry_columns db schema table assignments sent' in
    (sent'', one_if (not (last_accepted sent')) + failed)

abbrev unless_accepted : Bool → Sent → Sent × ℕ → Sent × ℕ
unless_accepted true sent retried = (sent, 0)
unless_accepted false sent retried = retried

-- All the columns of a table at once, or one by one where that is refused.
unfoldable pub apply_table_masks :
    Database → String → String → List (String × String) → Sent → Sent × ℕ
unfolding retry_columns
apply_table_masks db schema table assignments sent =
    let sent' = send db sent (Statement.update schema table assignments) in
    unless_accepted (last_accepted sent') sent' (retry_columns db schema table assignments sent')

unfoldable pub apply_masks : Database → ByTable → Sent → Sent × ℕ
apply_masks db [] sent = (sent, 0)
apply_masks db (((schema, table), assignments) ∷ by_table) sent =
    let (sent', failed) = apply_table_masks db schema table assignments sent in
    let (sent'', others) = apply_masks db by_table sent' in (sent'', failed + others)

abbrev pub count : {A : Type 0} → List A → ℕ
count [] = 0
count (x ∷ xs) = 1 + count xs

abbrev pub mask_columns : Database → Manifest → Sent → ℕ → Result (List Row) → Sent × Result Outcome
mask_columns db manifest sent tables_failed (err e) = (sent, err e)
mask_columns db manifest sent tables_failed (ok rows) =
    let (by_table, unmatched) = group_masks rows manifest.columns [] 0 in
    let (sent', refused) = apply_masks db by_table sent in
    (
      sent',
      ok (record {
        columns_attempted = count manifest.columns;
        columns_failed = unmatched + refused;
        tables_attempted = count manifest.tables;
        tables_failed = tables_failed;
      }),
    )

abbrev pub with_anon : Database → Manifest → Sent → Sent × Result Outcome
with_anon db manifest sent =
    let (sent', tables_failed) = truncate_tables db manifest.tables sent 0 in
    mask_columns db manifest sent' tables_failed (lookup_column_infos db manifest.columns)

abbrev pub or_refused : Bool → String → Sent → Sent × Result Outcome → Sent × Result Outcome
or_refused true reason sent next = next
or_refused false reason sent next = (sent, err (Error.redaction reason))

abbrev pub with_extension : Database → Manifest → Sent → Sent × Result Outcome
with_extension db manifest sent =
    let sent' = send db sent Statement.anon_init in
    or_refused (last_accepted sent') "anon.init() failed" sent' (with_anon db manifest sent')

-- The statements sent, newest first, and the outcome.
unfoldable pub apply : Database → Manifest → Sent × Result Outcome
apply db manifest =
    let sent = send db [] Statement.create_extension in
    or_refused (last_accepted sent) "CREATE EXTENSION anon failed" sent
      (with_extension db manifest sent)
