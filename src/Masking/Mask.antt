-- ===== src/Masking/Mask.antt =====
-- The SQL expression that a mask assigns to its column: src/controllers/replica/redaction/mask.rs, and
-- `quote_ident` of src/controllers/postgres.rs.
use Prim.Native.Char.{Char, code}
use Prim.Native.String.{String, [], ◌∷◌, ◌++◌}
use postgres_restore_operato.Prelude.{Bool, ◌||◌, Option, none, some, ◌==◌, eqb, if◌then◌else◌}
use postgres_restore_operato.Masking.{ColumnMask}

pub record ColumnInfo : Type 0 where
  pub data_type : String
  pub is_nullable : Bool
  pub column_default : Option String

-- `Result<String, String>`: an expression, or why there is none.
pub data Expression : Type 0 where
  expression : String → Expression
  unsupported : String → Expression

abbrev pub is_quote : Char → Bool
is_quote c = eqb (code c) 34

-- `s.replace('"', "\"\"")`.
unfoldable pub double_quotes : String → String
double_quotes [] = ""
double_quotes (c ∷ s) =
    let rest = double_quotes s in if is_quote c then c ∷ (c ∷ rest) else c ∷ rest

unfoldable pub quote_ident : String → String
quote_ident s = "\"" ++ (double_quotes s ++ "\"")

unfoldable pub null_pres : String → String → String
null_pres col expr = "CASE WHEN " ++ (col ++ (" IS NULL THEN NULL ELSE " ++ (expr ++ " END")))

pub data DataTypeFamily : Type 0 where
  numeric textual bytea other : DataTypeFamily

abbrev is_numeric : String → Bool
is_numeric s =
    s == "smallint"
    || (s == "integer"
        || (s == "bigint"
            || (s == "real" || (s == "double precision" || (s == "numeric" || s == "decimal")))))

abbrev is_textual : String → Bool
is_textual s = s == "character varying" || (s == "character" || (s == "text" || s == "citext"))

unfoldable pub data_type_family : String → DataTypeFamily
data_type_family s =
    if is_numeric s
    then DataTypeFamily.numeric
    else (if is_textual s
        then DataTypeFamily.textual
        else (if s == "bytea" then DataTypeFamily.bytea else DataTypeFamily.other))

-- The range of a mask, or the default of its kind, as the texts that `{lo}` and `{hi}` print.
abbrev range_or : Option (String × String) → String → String → String × String
range_or none lo hi = (lo, hi)
range_or (some range) lo hi = range

abbrev integer_expression : String → String × String → String
integer_expression col (lo, hi) =
    null_pres col
      ("(floor(random() * (" ++ (hi ++ (" - " ++ (lo ++ (" + 1)) + " ++ (lo ++ ")::int"))))))

abbrev random_between : String × String → String
random_between (lo, hi) = "(random() * (" ++ (hi ++ (" - " ++ (lo ++ (") + " ++ (lo ++ ")")))))

abbrev float_expression : String → String × String → String
float_expression col range = null_pres col (random_between range ++ "::numeric")

abbrev money_expression : String → String × String → String
money_expression col range = null_pres col ("round(" ++ (random_between range ++ "::numeric, 2)"))

abbrev zero_by : String → String → DataTypeFamily → Expression
zero_by col data_type DataTypeFamily.bytea =
    Expression.expression ("decode(repeat('00', length(" ++ (col ++ ")), 'hex')"))
zero_by col data_type DataTypeFamily.textual =
    Expression.expression ("repeat('0', length(" ++ (col ++ "))"))
zero_by col data_type DataTypeFamily.numeric = Expression.expression "0"
zero_by col data_type DataTypeFamily.other =
    Expression.unsupported ("zero mask unsupported for type " ++ data_type)

unfoldable pub zero_expression : String → Option ColumnInfo → Expression
zero_expression col none = Expression.unsupported "zero mask needs column type"
zero_expression col (some info) = zero_by col info.data_type (data_type_family info.data_type)

abbrev empty_other : String → Expression
empty_other data_type =
    if data_type == "json" || data_type == "jsonb"
    then Expression.expression ("'{}'::" ++ data_type)
    else (if data_type == "ARRAY"
        then Expression.expression "'{}'"
        else Expression.unsupported ("empty mask unsupported for type " ++ data_type))

abbrev empty_by : String → DataTypeFamily → Expression
empty_by data_type DataTypeFamily.numeric = Expression.expression "0"
empty_by data_type DataTypeFamily.textual = Expression.expression "''"
empty_by data_type DataTypeFamily.bytea = Expression.expression "E'\\\\x'::bytea"
empty_by data_type DataTypeFamily.other = empty_other data_type

unfoldable pub empty_expression : Option ColumnInfo → Expression
empty_expression none = Expression.unsupported "empty mask needs column type"
empty_expression (some info) = empty_by info.data_type (data_type_family info.data_type)

unfoldable pub nil_expression : Option ColumnInfo → Expression
nil_expression none = Expression.unsupported "nil mask needs column type"
nil_expression (some info) =
    if info.is_nullable
    then Expression.expression "NULL"
    else Expression.unsupported "nil mask on non-nullable column"

abbrev default_by : Option String → Expression
default_by none = Expression.unsupported "default mask on column without default"
default_by (some d) = Expression.expression d

unfoldable pub default_expression : Option ColumnInfo → Expression
default_expression none = Expression.unsupported "default mask needs column type"
default_expression (some info) = default_by info.column_default

-- The kinds that read the column's type, and those that are not known.
abbrev typed_expression : String → String → Option ColumnInfo → Expression
typed_expression kind col info =
    if kind == "zero"
    then zero_expression col info
    else (if kind == "empty"
        then empty_expression info
        else (if kind == "nil"
            then nil_expression info
            else (if kind == "default"
                then default_expression info
                else Expression.unsupported ("unknown mask kind: " ++ kind))))

abbrev ranged_expression :
    String → String → Option (String × String) → Option ColumnInfo → Expression
ranged_expression kind col range info =
    if kind == "integer"
    then Expression.expression (integer_expression col (range_or range "-2147483648" "2147483647"))
    else (if kind == "float"
        then Expression.expression (float_expression col (range_or range "0" "1"))
        else (if kind == "money"
            then Expression.expression (money_expression col (range_or range "0" "10000"))
            else typed_expression kind col info))

abbrev name_expression : String → String
name_expression col =
    "CASE WHEN "
    ++ (col
        ++ (" LIKE '% %' THEN anon.fake_first_name() || ' ' || anon.fake_last_name() "
            ++ "ELSE anon.fake_first_name() END"))

-- The expression of the kinds that keep a NULL and read neither range nor type.
abbrev plain_expression : String → String → Option String
plain_expression kind col =
    if kind == "date"
    then some "anon.random_date()"
    else (if kind == "datetime"
        then some (
            "date_trunc('day', "
            ++ (col ++ ") + (floor(random() * 86400) || ' seconds')::interval"))
        else (if kind == "text"
            then some ("anon.lorem_ipsum(characters := length(" ++ (col ++ "))"))
            else (if kind == "string"
                then some ("anon.random_string(length(" ++ (col ++ "))"))
                else (if kind == "email"
                    then some "anon.fake_email()"
                    else (if kind == "name"
                        then some (name_expression col)
                        else (if kind == "phone"
                            then some ("anon.partial(" ++ (col ++ ", 2, '****', 2)"))
                            else (if kind == "place"
                                then some "anon.fake_city()"
                                else (if kind == "url"
                                    then some "'https://example.invalid/' || anon.random_string(8)"
                                    else none))))))))

abbrev kept_null : String → Expression → Option String → Expression
kept_null col otherwise none = otherwise
kept_null col otherwise (some expr) = Expression.expression (null_pres col expr)

unfoldable pub mask_expression : ColumnMask → Option ColumnInfo → Expression
mask_expression mask info =
    let col = quote_ident mask.column in
    kept_null col (ranged_expression mask.kind col mask.range info) (plain_expression mask.kind col)
