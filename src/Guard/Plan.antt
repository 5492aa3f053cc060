-- ===== src/Guard/Plan.antt =====
-- src/security/guard.rs: the difference between the columns that payloads ask for and those that a
-- table has, as `ensure_schema`, `schema_from_cache` and `preview_schema` compute it, and the SQL.
-- The names and types of columns are taken to be ASCII, as those that the guard creates are.
pub mod Laws
pub mod Cases
pub mod Recheck
pub mod Coverage
pub mod Preview
mod Tests
use stackhouse.Prelude.{
  ℕ, ◌+◌, Bool, true, false, ◌&&◌, ◌||◌, not, Option, none, some, List, [], ◌∷◌, ◌++◌,
  if◌then◌else◌, map, foldl, length, retain, is_empty, ltb,
}
use stackhouse.Prelude.Text.{Text, codes, text_eq, to_lowercase, join}
use stackhouse.Prelude.Assoc.{Assoc, get, insert}
use stackhouse.Errors.{Result, ok, err, schema, ◌>>=◌}
use stackhouse.Inference.{
  PgType, InferredColumn, as_sql, from_data_type, can_promote_to, common_type, pg_eq,
  using_cast_expr,
}
use stackhouse.Guard.{ColumnInfo, max_columns_per_table}

-- `live.iter().map(|c| (c.name.to_lowercase(), c)).collect()`
index_column : Assoc ColumnInfo → ColumnInfo → Assoc ColumnInfo
index_column m c = insert (to_lowercase c.name) c m

unfoldable pub by_lower : List ColumnInfo → Assoc ColumnInfo
unfolding index_column
by_lower live = foldl index_column [] live

-- The columns of every table, which payloads do not set.
unfoldable pub is_base : Text → Bool
is_base key =
    text_eq key (codes "id") || text_eq key (codes "created_at") || text_eq key (codes "updated_at")

abbrev pub Column : Type 0
Column = Text × PgType

abbrev pub Widening : Type 0
Widening = Text × PgType × PgType

-- The three vectors of `ensure_schema`.
pub record Plan : Type 0 where
  pub adds : List Column
  pub widens : List Widening
  pub result : List Column

unfoldable pub no_changes : Plan
no_changes = record { adds = []; widens = []; result = [] }

-- What one round of the loop pushes, in front of what the later rounds push.
unfoldable pub and_then : Plan → Plan → Plan
and_then p q = record {
  adds = p.adds ++ q.adds;
  widens = p.widens ++ q.widens;
  result = p.result ++ q.result;
}

-- One column that the table has, at the type it has.
plan_existing : InferredColumn → ColumnInfo → Option PgType → Result Plan
plan_existing col info none = err (schema "Unknown existing column type '{}' for {}.{}")
plan_existing col info (some existing) =
    let common = common_type existing col.pg_type in
    let plain : Plan = record { adds = []; widens = []; result = (col.name, common) ∷ [] } in
    if not (pg_eq common existing)
    then (if not (can_promote_to existing common)
        then err (schema "Cannot promote column {}.{} from {} to {}")
        else ok (record plain { widens = (info.name, existing, common) ∷ [] }))
    else ok plain

plan_found : InferredColumn → Option ColumnInfo → Result Plan
unfolding plan_existing
plan_found col none = ok (record {
  adds = (col.name, col.pg_type) ∷ [];
  widens = [];
  result = (col.name, col.pg_type) ∷ [];
})
plan_found col (some info) = plan_existing col info (from_data_type info.col_type)

-- One round of the loop of `ensure_schema`.
unfoldable pub plan_column : Assoc ColumnInfo → InferredColumn → Result Plan
unfolding plan_found no_changes
plan_column live col =
    if is_base (to_lowercase col.name)
    then ok no_changes
    else plan_found col (get (to_lowercase col.name) live)

unfoldable pub diff : Assoc ColumnInfo → List InferredColumn → Result Plan
unfolding no_changes and_then
diff live [] = ok no_changes
diff live (col ∷ cols) = do p ← plan_column live col; q ← diff live cols; ok (and_then p q)

-- `schema_from_cache`: one round, and the loop.
cached_existing : InferredColumn → Option PgType → Result (List Column)
cached_existing col none = err (schema "Unknown existing column type '{}' for {}.{}")
cached_existing col (some existing) =
    let common = common_type existing col.pg_type in
    if not (pg_eq common existing)
    then err (schema "Cache stale, requires live verify")
    else ok ((col.name, common) ∷ [])

cached_found : InferredColumn → Option ColumnInfo → Result (List Column)
unfolding cached_existing
cached_found col none = err (schema "Cache missing column, requires live verify")
cached_found col (some info) = cached_existing col (from_data_type info.col_type)

unfoldable pub cached_column : Assoc ColumnInfo → InferredColumn → Result (List Column)
unfolding cached_found
cached_column cached col =
    if is_base (to_lowercase col.name)
    then ok []
    else cached_found col (get (to_lowercase col.name) cached)

cached_columns : Assoc ColumnInfo → List InferredColumn → Result (List Column)
cached_columns cached [] = ok []
cached_columns cached (col ∷ cols) = do
  p ← cached_column cached col
  q ← cached_columns cached cols
  ok (p ++ q)

unfoldable pub schema_from_cache : List InferredColumn → List ColumnInfo → Result (List Column)
unfolding cached_columns
schema_from_cache inferred cached = cached_columns (by_lower cached) inferred

-- The re-check of the widenings against the same live columns, `final_widens`.
is_done : Widening → Option ColumnInfo → Bool
is_done w none = false
is_done (name, from, to) (some info) =
    let current : PgType = elim (from_data_type info.col_type) [ none ↦ from | some t ↦ t ] in
    pg_eq (common_type current to) current

unfoldable pub final_widens : Assoc ColumnInfo → List Widening → List Widening
unfolding is_done
final_widens live ws = retain (λ w. not (is_done w (get (to_lowercase w.0) live))) ws

-- The statements.
widen_part : Widening → Text
widen_part (name, from, to) =
    codes "ALTER COLUMN "
    ++ (name
        ++ (codes " TYPE " ++ (as_sql to ++ (codes " USING " ++ using_cast_expr to from name))))

add_part : Column → Text
add_part (name, t) = codes "ADD COLUMN IF NOT EXISTS " ++ (name ++ (codes " " ++ as_sql t))

unfoldable pub alter_table : Text → List Text → Text
alter_table table parts = codes "ALTER TABLE " ++ (table ++ (codes " " ++ join (codes ", ") parts))

unfoldable pub widen_sql : Text → List Widening → Text
unfolding widen_part
widen_sql table [] = []
widen_sql table (w ∷ ws) = alter_table table (map widen_part (w ∷ ws))

unfoldable pub add_sql : Text → List Column → Text
unfolding add_part
add_sql table [] = []
add_sql table (c ∷ cs) = alter_table table (map add_part (c ∷ cs))

-- What the migration history is given: the two statements, and the way back.
unfoldable pub up_sql : Text → List Widening → List Column → Text
up_sql table ws adds =
    join (codes "; ")
      (retain (λ s. not (is_empty s)) (widen_sql table ws ∷ add_sql table adds ∷ []))

down_part : Widening → Text
down_part (name, from, to) =
    codes "ALTER COLUMN "
    ++ (name
        ++ (codes " TYPE " ++ (as_sql from ++ (codes " USING " ++ using_cast_expr from to name))))

drop_part : Column → Text
drop_part (name, t) = codes "DROP COLUMN IF EXISTS " ++ name

down_parts : Text → List Text → Text
down_parts table [] = []
down_parts table (p ∷ ps) = alter_table table (p ∷ ps)

unfoldable pub down_sql : Text → List Widening → List Column → Text
unfolding down_part drop_part down_parts
down_sql table ws adds = down_parts table (map down_part ws ++ map drop_part adds)
