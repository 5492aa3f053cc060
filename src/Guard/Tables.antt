-- ===== src/Guard/Tables.antt =====
-- src/security/guard.rs: the operations on whole tables and on the cache of their columns.
pub mod Cache
use Prim.Native.String.{String}
use stackhouse.Prelude.{
  ℕ, Bool, true, false, not, Option, none, some, List, [], ◌∷◌, ◌++◌, if◌then◌else◌, map, length,
  is_empty,
}
use stackhouse.Prelude.Text.{Text, codes, trim}
use stackhouse.Prelude.Assoc.{Assoc, get, insert, remove}
use stackhouse.Json.{Value, null, bool, number, string, array, object, Values, nil, cons}
use stackhouse.Errors.{StackhouseError, Result, ok, err, database, table_not_found, for_each, ◌>>=◌}
use stackhouse.Inference.{InferredColumn, infer_schema, infer_batch_schema}
use stackhouse.Guard.{ColumnInfo}
use stackhouse.Guard.Identifier.{validate_identifier}
use stackhouse.Guard.Plan.{Column, Widening, add_sql, widen_sql}
use stackhouse.Guard.Plan.Preview.{SchemaPreview, preview_of}
use stackhouse.Guard.Evolve.{
  Catalog, Guard, TableStats, or_else, fetch_table_info, fetch_table_info_tx, open_tx,
  record_auto_migration, validate_names,
}

module _ {Db : Type 0} where
  -- `schema_cache.insert`
  unfoldable pub cache_table : Guard Db → Text → List ColumnInfo → Guard Db
  cache_table g table columns = record g { schema_cache = insert table columns g.schema_cache }

  -- `schema_cache.remove`
  unfoldable pub uncache : Guard Db → Text → Guard Db
  uncache g table = record g { schema_cache = remove table g.schema_cache }

  -- One notification in the loop of `cache_invalidation_worker`.
  unfoldable pub evict : Guard Db → Text → Guard Db
  unfolding uncache
  evict g payload = if is_empty (trim payload) then g else uncache g (trim payload)

  unfoldable pub clear_cache : Guard Db → Guard Db
  clear_cache g = record g { schema_cache = [] }

  unfoldable pub cached_tables : Guard Db → List Text
  cached_tables g = map (λ e. e.0) g.schema_cache

abbrev values_list : Values → List Value
values_list nil = []
values_list (cons v vs) = v ∷ values_list vs

-- The columns of every new table.
create_table_sql : Text → Text
create_table_sql table =
    codes "CREATE TABLE IF NOT EXISTS "
    ++ (table
        ++ codes
            " (\n                id BIGSERIAL PRIMARY KEY,\n                created_at TIMESTAMP WITH TIME ZONE DEFAULT CURRENT_TIMESTAMP,\n                updated_at TIMESTAMP WITH TIME ZONE DEFAULT CURRENT_TIMESTAMP\n            )")

module _ (c : Catalog) (is_match : String → Text → Bool) where
  open c use {Db}

  -- What a read of the live columns leaves in the cache.
  remember : Guard Db → Text → List ColumnInfo → Guard Db
  unfolding cache_table
  remember g table columns = if not (is_empty columns) then cache_table g table columns else g

  fetch_and_remember : Guard Db → Text → Result (List ColumnInfo) × Guard Db
  unfolding remember
  fetch_and_remember g table = elim (fetch_table_info c is_match g table) [
    | err e ↦ (err e, g)
    | ok columns ↦ (ok columns, remember g table columns)
  ]

  unfoldable pub get_table_schema : Guard Db → Text → Result (List ColumnInfo) × Guard Db
  unfolding fetch_and_remember
  get_table_schema g table = elim (validate_identifier is_match table) [
    | err e ↦ (err e, g)
    | ok _ ↦ elim (get table g.schema_cache) [
      | some columns ↦ (ok columns, g)
      | none ↦ fetch_and_remember g table
    ]
  ]

  -- The statement, the notification and the commit of a table's creation.
  commit_table : Db → Text → Result Db
  unfolding create_table_sql
  commit_table tx table = do
    created ← or_else (c.execute tx (create_table_sql table)) "Failed to create table: {}"
    notified ← or_else (c.notify created table) "Failed to notify schema change: {}"
    or_else (c.commit notified) "Failed to commit create table: {}"

  -- In the transaction, with the live columns seen from it.
  create_in_tx : Guard Db → Text → Db → List ColumnInfo → Result (Unit {0}) × Guard Db
  unfolding commit_table cache_table uncache create_table_sql
  create_in_tx g table tx [] = elim (commit_table tx table) [
    | err e ↦ (err e, g)
    | ok d ↦ (
      ok tt,
      record (uncache g table) {
        db =
            record_auto_migration c is_match d (codes "create_table_" ++ table)
              (create_table_sql table) (codes "DROP TABLE IF EXISTS " ++ table);
      },
    )
  ]
  create_in_tx g table tx (column ∷ columns) =
      elim (or_else (c.rollback tx) "Rollback failed: {}") [
        | err e ↦ (err e, g)
        | ok d ↦ (ok tt, cache_table g table (column ∷ columns))
      ]

  -- The transaction, under the lock, and the live columns seen from it.
  open_live : Guard Db → Text → Result (Db × List ColumnInfo)
  open_live g table = do
    tx ← open_tx c is_match g.db table
    live ← fetch_table_info_tx c is_match tx table
    ok (tx, live)

  -- With the live columns seen before the transaction.
  create_unless_live : Guard Db → Text → List ColumnInfo → Result (Unit {0}) × Guard Db
  unfolding create_in_tx cache_table open_live
  create_unless_live g table [] = elim (open_live g table) [
    | err e ↦ (err e, g)
    | ok (tx, live) ↦ create_in_tx g table tx live
  ]
  create_unless_live g table (column ∷ columns) = (ok tt, cache_table g table (column ∷ columns))

  abbrev known : Option (List ColumnInfo) → Bool
  known none = false
  known (some columns) = not (is_empty columns)

  unfoldable pub ensure_table : Guard Db → Text → Result (Unit {0}) × Guard Db
  unfolding create_unless_live
  ensure_table g table = elim (validate_identifier is_match table) [
    | err e ↦ (err e, g)
    | ok _ ↦ elim (known (get table g.schema_cache)) [
      | true ↦ (ok tt, g)
      | false ↦ elim (fetch_table_info c is_match g table) [
        | err e ↦ (err e, g)
        | ok live ↦ create_unless_live g table live
      ]
    ]
  ]

  -- `add_columns` and `widen_columns`: the statement runs on the pool.
  run_change : Guard Db → Text → Text → String → Result (Unit {0}) × Guard Db
  unfolding uncache
  run_change g table [] message = (ok tt, g)
  run_change g table (s ∷ sql) message = elim (or_else (c.run g.db (s ∷ sql)) message) [
    | err e ↦ (err e, g)
    | ok d ↦ (ok tt, record (uncache g table) { db = d })
  ]

  unfoldable pub add_columns : Guard Db → Text → List Column → Result (Unit {0}) × Guard Db
  unfolding run_change
  add_columns g table columns =
      run_change g table (add_sql table columns) "Failed to add columns: {}"

  unfoldable pub widen_columns : Guard Db → Text → List Widening → Result (Unit {0}) × Guard Db
  unfolding run_change
  widen_columns g table widenings =
      run_change g table (widen_sql table widenings) "Failed to widen columns: {}"

  -- `get_table_stats`; the count is what the store reads from the first row.
  unfoldable pub get_table_stats : Guard Db → Text → Result TableStats × Guard Db
  get_table_stats g table =
      let (schema, g') = get_table_schema g table in
      elim schema [
        | err e ↦ (err e, g')
        | ok [] ↦ (err (table_not_found "{}"), g')
        | ok (column ∷ columns) ↦ elim (c.count_rows g'.db table) [
          | err e ↦ (err e, g')
          | ok n ↦ (
            ok (record {
              name = table;
              column_count = length (column ∷ columns);
              row_count = n;
              columns = column ∷ columns;
            }),
            g',
          )
        ]
      ]

  -- `fetch_table_info(…).unwrap_or_default()`
  live_or_empty : Guard Db → Text → List ColumnInfo
  live_or_empty g table = elim (fetch_table_info c is_match g table) [ err _ ↦ [] | ok live ↦ live ]

  unfoldable pub preview_schema :
      Guard Db → Text → List InferredColumn → Result SchemaPreview × Guard Db
  unfolding live_or_empty
  preview_schema g table inferred = elim (validate_names c is_match table inferred) [
    | err e ↦ (err e, g)
    | ok _ ↦
        let (schema, g') = get_table_schema g table in
        elim schema [
          | err e ↦ (err e, g')
          | ok columns ↦
              (ok (preview_of table (not (is_empty columns)) (live_or_empty g' table) inferred), g')
        ]
  ]

  inferred_of : Value → Result (List InferredColumn)
  inferred_of (array vs) = infer_batch_schema is_match (values_list vs)
  inferred_of payload = infer_schema is_match payload

  unfoldable pub preview_schema_changes : Guard Db → Text → Value → Result SchemaPreview × Guard Db
  unfolding inferred_of
  preview_schema_changes g table payload = elim (inferred_of payload) [
    | err e ↦ (err e, g)
    | ok inferred ↦ preview_schema g table inferred
  ]
