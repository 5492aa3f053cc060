-- ===== src/Guard.antt =====
-- src/security/guard.rs: automatic schema evolution. The children are its parts: identifiers, RLS
-- expressions, the churn limit, the difference between payload and table, and the operations.
pub mod Identifier
pub mod Expression
pub mod Churn
pub mod Plan
pub mod Evolve
pub mod Tables
mod Tests
use stackhouse.Prelude.{
  ℕ, Bool, true, false, not, Option, none, some, List, [], ◌∷◌, is_empty, if◌then◌else◌,
}
use stackhouse.Prelude.Text.{Text, codes, text_eq}

-- `MAX_COLUMNS_PER_TABLE`
abbrev pub max_columns_per_table : ℕ
max_columns_per_table = 1000

-- `struct ColumnInfo`
pub record ColumnInfo : Type 0 where
  pub name : Text
  pub col_type : Text
  pub notnull : Bool
  pub pk : Bool

-- What the database's driver gives for a row of `information_schema.columns`: a missing value, or
-- one that is no text, is `none`.
pub record Row : Type 0 where
  pub name : Option Text
  pub data_type : Option Text
  pub is_nullable : Option Text

abbrev pub unwrap_or : Text → Option Text → Text
unwrap_or d none = d
unwrap_or d (some s) = s

column_info : Row → ColumnInfo
column_info r = record {
  name = unwrap_or [] r.name;
  col_type = unwrap_or [] r.data_type;
  notnull = not (text_eq (unwrap_or (codes "YES") r.is_nullable) (codes "YES"));
  pk = text_eq (unwrap_or [] r.name) (codes "id");
}

-- The loop of `fetch_table_info` and of `fetch_table_info_tx`: rows without a name are skipped.
unfoldable pub columns_of_rows : List Row → List ColumnInfo
unfolding column_info
columns_of_rows [] = []
columns_of_rows (r ∷ rows) =
    let rest = columns_of_rows rows in
    if is_empty (unwrap_or [] r.name) then rest else column_info r ∷ rest
