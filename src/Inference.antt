-- ===== src/Inference.antt =====
-- src/inference.rs: the types of columns, and the schema inferred from JSON payloads.
-- Regular expressions belong to the regex crate: its `is_match` is a parameter, and the patterns
-- are the source's. `HashMap::into_values` gives the unified columns in an order of its own; the
-- model keeps the order of first appearance.
pub mod Lattice
pub mod Casts
pub mod Schema
pub mod Batch
mod Tests
use Prim.Native.String.{String}
use stackhouse.Prelude.{
  ℕ, ◌==◌, Bool, true, false, ◌||◌, not, Option, none, some, List, [], ◌∷◌, ◌++◌, if◌then◌else◌,
  map, any, foldl,
}
use stackhouse.Prelude.Text.{Text, codes, text_eq, to_lowercase}
use stackhouse.Prelude.Assoc.{Assoc, get, insert}
use stackhouse.Json.{
  Number, pos_int, neg_int, float, Value, null, bool, number, string, array, object, Fields, end,
  field,
}
use stackhouse.Errors.{Result, ok, err, invalid_payload, ◌>>=◌}

-- `enum PgType`
pub data PgType : Type 0 where
  big_int double_precision boolean text jsonb bytea null_type date timestamp_tz uuid : PgType

abbrev rank : PgType → ℕ
rank big_int = 0
rank double_precision = 1
rank boolean = 2
rank text = 3
rank jsonb = 4
rank bytea = 5
rank null_type = 6
rank date = 7
rank timestamp_tz = 8
rank uuid = 9

-- the derived `PartialEq`
unfoldable pub pg_eq : PgType → PgType → Bool
pg_eq a b = rank a == rank b

unfoldable pub as_sql : PgType → Text
as_sql big_int = codes "BIGINT"
as_sql double_precision = codes "DOUBLE PRECISION"
as_sql boolean = codes "BOOLEAN"
as_sql text = codes "TEXT"
as_sql jsonb = codes "JSONB"
as_sql bytea = codes "BYTEA"
as_sql null_type = codes "NULL"
as_sql date = codes "DATE"
as_sql timestamp_tz = codes "TIMESTAMPTZ"
as_sql uuid = codes "UUID"

one_of : List String → Text → Bool
one_of words s = any (λ w. text_eq (codes w) s) words

abbrev int_names : List String
int_names =
    "bigint" ∷ "integer" ∷ "smallint" ∷ "int" ∷ "int2" ∷ "int4" ∷ "int8" ∷ "serial" ∷ "bigserial"
    ∷ []

abbrev float_names : List String
float_names =
    "double precision" ∷ "float8" ∷ "real" ∷ "float4" ∷ "numeric" ∷ "decimal" ∷ "money" ∷ []

abbrev text_names : List String
text_names =
    "text" ∷ "character varying" ∷ "varchar" ∷ "character" ∷ "char" ∷ "bpchar" ∷ "name" ∷ "citext"
    ∷ []

abbrev timestamp_names : List String
timestamp_names =
    "timestamp with time zone" ∷ "timestamp without time zone" ∷ "timestamp" ∷ "timestamptz" ∷ []

-- `PgType::from_data_type`, on the normalised name
of_normalized : Text → Option PgType
unfolding one_of
of_normalized s =
    if one_of int_names s
    then some big_int
    else if one_of float_names s
    then some double_precision
    else if one_of ("boolean" ∷ "bool" ∷ []) s
    then some boolean
    else if one_of text_names s
    then some text
    else if one_of ("jsonb" ∷ "json" ∷ []) s
    then some jsonb
    else if one_of ("bytea" ∷ []) s
    then some bytea
    else if one_of ("date" ∷ []) s
    then some date
    else if one_of timestamp_names s
    then some timestamp_tz
    else if one_of ("uuid" ∷ []) s
    then some uuid
    else none

unfoldable pub from_data_type : Text → Option PgType
unfolding of_normalized to_lowercase
from_data_type data_type = of_normalized (to_lowercase data_type)

-- the arms of `can_promote_to` behind the test for the same type
promotes : PgType → PgType → Bool
promotes big_int double_precision = true
promotes date timestamp_tz = true
promotes _ jsonb = true
promotes _ text = true
promotes null_type _ = true
promotes _ _ = false

unfoldable pub can_promote_to : PgType → PgType → Bool
unfolding pg_eq promotes
can_promote_to a b = if pg_eq a b then true else promotes a b

-- the arms of `common_type` behind the test for the same type
general : PgType → PgType → PgType
general null_type other = other
general other null_type = other
general big_int double_precision = double_precision
general double_precision big_int = double_precision
general date timestamp_tz = timestamp_tz
general timestamp_tz date = timestamp_tz
general _ _ = jsonb

unfoldable pub common_type : PgType → PgType → PgType
unfolding pg_eq general
common_type a b = if pg_eq a b then a else general a b

-- the arms of `using_cast_expr`: the source's type, then the target's
cast_arm : PgType → PgType → Text → Text
cast_arm jsonb text column = column ++ codes " #>> ARRAY[]::text[]"
cast_arm _ jsonb column = codes "to_jsonb(" ++ (column ++ codes ")")
cast_arm _ text column = column ++ codes "::text"
cast_arm big_int double_precision column = column ++ codes "::double precision"
cast_arm jsonb date column = codes "(" ++ (column ++ codes " #>> ARRAY[]::text[])::date")
cast_arm jsonb timestamp_tz column =
    codes "(" ++ (column ++ codes " #>> ARRAY[]::text[])::timestamptz")
cast_arm jsonb uuid column = codes "(" ++ (column ++ codes " #>> ARRAY[]::text[])::uuid")
cast_arm _ target column = column ++ (codes "::" ++ to_lowercase (as_sql target))

-- `self.using_cast_expr(source, column)`
unfoldable pub using_cast_expr : PgType → PgType → Text → Text
unfolding pg_eq cast_arm to_lowercase as_sql
using_cast_expr target source column =
    if pg_eq source target then column else cast_arm source target column

abbrev pub timestamp_re : String
timestamp_re = "^\\d{4}-\\d{2}-\\d{2}[T ]\\d{2}:\\d{2}(:\\d{2}(\\.\\d+)?)?(Z|[+-]\\d{2}:?\\d{2})?$"

abbrev pub date_re : String
date_re = "^\\d{4}-\\d{2}-\\d{2}$"

abbrev pub uuid_re : String
uuid_re = "^[0-9a-fA-F]{8}-[0-9a-fA-F]{4}-[0-9a-fA-F]{4}-[0-9a-fA-F]{4}-[0-9a-fA-F]{12}$"

-- `struct InferredColumn`
pub record InferredColumn : Type 0 where
  pub name : Text
  pub pg_type : PgType
  pub is_nested : Bool
  pub is_nullable : Bool

-- `InferredColumn::new`
unfoldable pub new : Text → PgType → Bool → InferredColumn
new n t nested = record { name = n; pg_type = t; is_nested = nested; is_nullable = true }

abbrev is_null : Value → Bool
is_null null = true
is_null _ = false

abbrev pub nested_value : Value → Bool
nested_value (array _) = true
nested_value (object _) = true
nested_value _ = false

infer_number : Number → PgType
infer_number (pos_int _) = big_int
infer_number (neg_int _) = big_int
infer_number (float _) = double_precision

-- `entry(name).and_modify(…).or_insert(col)`
unfoldable pub absorb : InferredColumn → Option InferredColumn → InferredColumn
absorb col none = col
absorb col (some existing) = record existing {
  pg_type = common_type existing.pg_type col.pg_type;
  is_nested = existing.is_nested || col.is_nested;
}

unfoldable pub merge : Assoc InferredColumn → InferredColumn → Assoc InferredColumn
unfolding absorb
merge unified col = insert col.name (absorb col (get col.name unified)) unified

abbrev pub values_of : Assoc InferredColumn → List InferredColumn
values_of m = map (λ e. e.1) m

module _ (is_match : String → Text → Bool) where
  infer_string : Text → PgType
  infer_string s =
      if is_match timestamp_re s
      then timestamp_tz
      else if is_match date_re s
      then date
      else if is_match uuid_re s
      then uuid
      else text

  unfoldable pub infer_type : Value → PgType
  unfolding infer_string infer_number
  infer_type null = null_type
  infer_type (bool _) = boolean
  infer_type (number n) = infer_number n
  infer_type (string s) = infer_string s
  infer_type (array _) = jsonb
  infer_type (object _) = jsonb

  -- the `filter` and the `map` over the entries
  unfoldable pub columns_of : Fields → List InferredColumn
  unfolding new
  columns_of end = []
  columns_of (field key v rest) =
      let others = columns_of rest in
      if is_null v then others else new key (infer_type v) (nested_value v) ∷ others

  unfoldable pub infer_schema : Value → Result (List InferredColumn)
  infer_schema (object fields) = ok (columns_of fields)
  infer_schema _ = err (invalid_payload "Payload must be a JSON object")

  -- the loop over the payloads
  unify : Assoc InferredColumn → List Value → Result (Assoc InferredColumn)
  unify unified [] = ok unified
  unify unified (value ∷ values) =
      infer_schema value >>= λ columns. unify (foldl merge unified columns) values

  unfoldable pub infer_batch_schema : List Value → Result (List InferredColumn)
  unfolding unify
  infer_batch_schema [] = ok []
  infer_batch_schema (value ∷ values) =
      unify [] (value ∷ values) >>= λ unified. ok (values_of unified)
