-- ===== src/Guard/Evolve.antt =====
-- src/security/guard.rs: `SchemaGuard` and its operations. PostgreSQL, its driver and the service
-- that keeps the migration history are parameters, a `Catalog`; so are the regex crate's matcher
-- and the instants that the clock gives. A call runs alone: the lock of a table and the advisory
-- lock let one change of a table run at a time.
pub mod Changes
pub mod Limits
pub mod Success
use Prim.Native.String.{String}
use stackhouse.Prelude.{
  ℕ, ◌+◌, Bool, true, false, not, Option, none, some, List, [], ◌∷◌, ◌++◌, if◌then◌else◌, map,
  length, is_empty, ltb,
}
use stackhouse.Prelude.Text.{Text, codes, trim}
use stackhouse.Prelude.Assoc.{Assoc, get, get_or, insert, remove}
use stackhouse.Json.{Value, null, bool, number, string, array, object, Values, nil, cons}
use stackhouse.Errors.{
  StackhouseError, Result, ok, err, database, column_limit_exceeded, rate_limited, table_not_found,
  for_each, ◌>>=◌, ◌>>◌,
}
use stackhouse.Inference.{InferredColumn, infer_schema, infer_batch_schema}
use stackhouse.Guard.{ColumnInfo, Row, columns_of_rows, max_columns_per_table}
use stackhouse.Guard.Identifier.{validate_identifier}
use stackhouse.Guard.Churn
use stackhouse.Guard.Churn.{ChurnTracker, prune, count, record_additions}
use stackhouse.Guard.Plan.{
  Plan, Column, Widening, diff, by_lower, schema_from_cache, final_widens, widen_sql, add_sql,
  up_sql, down_sql,
}
use stackhouse.Guard.Plan.Preview.{SchemaPreview, preview_of}

-- What the guard calls of the database: `none` is an error of the driver. `query`, `run` and
-- `count_rows` are methods of the store, with errors of its own; a transaction is a database of its
-- own until it is committed.
pub record Catalog : Type 1 where
  pub Db : Type 0
  pub query : Db → Text → Result (List Row)
  pub run : Db → Text → Option Db
  pub count_rows : Db → Text → Result ℕ
  pub begin : Db → Option Db
  pub lock : Db → Text → Option Db
  pub query_tx : Db → Text → Option (List Row)
  pub execute : Db → Text → Option Db
  pub notify : Db → Text → Option Db
  pub commit : Db → Option Db
  pub rollback : Db → Option Db
  pub register : Db → Text → Text → Text → Option Db

-- `struct SchemaGuard`, with the database behind its store.
pub record Guard (Db : Type 0) : Type 0 where
  pub schema_cache : Assoc (List ColumnInfo)
  pub churn_tracker : Assoc ChurnTracker
  pub max_new_columns_per_window : ℕ
  pub churn_window : ℕ
  pub db : Db

-- `struct TableStats`
pub record TableStats : Type 0 where
  pub name : Text
  pub column_count : ℕ
  pub row_count : ℕ
  pub columns : List ColumnInfo

-- `SchemaGuard::new`, with the two environment variables as they parse.
unfoldable pub new : {Db : Type 0} → Option ℕ → Option ℕ → Db → Guard Db
new churn_max window d = record {
  schema_cache = [];
  churn_tracker = [];
  max_new_columns_per_window = elim churn_max [ none ↦ 20 | some n ↦ n ];
  churn_window = elim window [ none ↦ 60 | some n ↦ n ];
  db = d;
}

-- `map_err`.
abbrev pub or_else {ℓ} : {A : Type ℓ} → Option A → String → Result A
or_else none e = err (database e)
or_else (some a) e = ok a

unfoldable pub tracker_of : {Db : Type 0} → Guard Db → Text → ChurnTracker
tracker_of g table = get_or Churn.new table g.churn_tracker

abbrev pub churn_error : StackhouseError
churn_error =
    rate_limited
      "Table '{}' has added {} new columns in the last {:?}; limit is {} per rolling window. This is a schema churn rate limit"

abbrev pub cap_error : StackhouseError
cap_error =
    column_limit_exceeded "Table '{}' would exceed {} column limit ({} existing + {} new = {})"

-- The churn limit, for a plan that adds columns: the tracker is pruned even if the call fails.
limit_churn : {Db : Type 0} → Guard Db → Text → ℕ → ℕ → Result (Unit {0}) × Guard Db
limit_churn g table n now =
    let pruned = prune (tracker_of g table) g.churn_window now in
    (
      if ltb g.max_new_columns_per_window (count pruned g.churn_window now + n)
          then err churn_error
          else ok tt,
      record g { churn_tracker = insert table pruned g.churn_tracker },
    )

-- The cap on columns, then the churn limit.
unfoldable pub admit :
    {Db : Type 0} → Guard Db → Text → ℕ → List Column → ℕ → Result (Unit {0}) × Guard Db
unfolding limit_churn
admit g table existing adds now =
    if ltb max_columns_per_table (existing + length adds)
    then (err cap_error, g)
    else if is_empty adds
    then (ok tt, g)
    else limit_churn g table (length adds) now

-- `guard.record(Instant::now(), adds.len())`
record_churn : {Db : Type 0} → Guard Db → Text → List Column → ℕ → Assoc ChurnTracker
record_churn g table adds later =
    if is_empty adds
    then g.churn_tracker
    else insert table (record_additions (tracker_of g table) later (length adds)) g.churn_tracker

abbrev run_if {ℓ} : {A : Type ℓ} → Text → (Text → A → Result A) → A → Result A
run_if [] f a = ok a
run_if (c ∷ s) f a = f (c ∷ s) a

module _ (c : Catalog) (is_match : String → Text → Bool) where
  open c use {Db}

  -- `fetch_table_info`
  unfoldable pub fetch_table_info : Guard Db → Text → Result (List ColumnInfo)
  fetch_table_info g table = c.query g.db table >>= λ rows. ok (columns_of_rows rows)

  -- `fetch_table_info_tx`
  pub fetch_table_info_tx : Db → Text → Result (List ColumnInfo)
  fetch_table_info_tx tx table =
      or_else (c.query_tx tx table) "Failed to fetch table info: {}" >>= λ rows.
      ok (columns_of_rows rows)

  -- `record_auto_migration`, whose result every caller drops.
  unfoldable pub record_auto_migration : Db → Text → Text → Text → Db
  record_auto_migration d name up down =
      if is_empty (trim up) then d else elim (c.register d name up down) [ none ↦ d | some d' ↦ d' ]

  pub open_tx : Db → Text → Result Db
  open_tx d table = do
    tx ← or_else (c.begin d) "Failed to begin transaction: {}"
    or_else (c.lock tx table) "Failed to acquire advisory lock: {}"

  -- The statements of a change, the notification and the commit.
  pub apply_changes : Db → Text → List Widening → List Column → Result Db
  apply_changes tx table widens adds = do
    widened ←
        run_if (widen_sql table widens)
          (λ sql d. or_else (c.execute d sql) "Failed to widen columns: {}") tx
    extended ←
        run_if (add_sql table adds) (λ sql d. or_else (c.execute d sql) "Failed to add columns: {}")
          widened
    notified ← or_else (c.notify extended table) "Failed to notify schema change: {}"
    or_else (c.commit notified) "Failed to commit schema changes: {}"

  -- What follows the commit: the churn, the migration history, and the cache.
  pub committed : Guard Db → Text → List Widening → List Column → ℕ → Db → Guard Db
  committed g table widens adds later d = record g {
    schema_cache = remove table g.schema_cache;
    churn_tracker = record_churn g table adds later;
    db =
        record_auto_migration d (codes "evolve_schema_" ++ table) (up_sql table widens adds)
          (down_sql table widens adds);
  }

  -- From the plan on.
  pub carry_out :
      Guard Db → Db → Text → List ColumnInfo → Plan → ℕ → ℕ → Result (List Column) × Guard Db
  carry_out g tx table live plan now later =
      let (verdict, g') = admit g table (length (by_lower live)) plan.adds now in
      let widens = final_widens (by_lower live) plan.widens in
      elim verdict [
        | err e ↦ (err e, g')
        | ok _ ↦ elim (apply_changes tx table widens plan.adds) [
          | err e ↦ (err e, g')
          | ok d ↦ (ok plan.result, committed g' table widens plan.adds later d)
        ]
      ]

  -- From the transaction on.
  pub evolve : Guard Db → Text → List InferredColumn → ℕ → ℕ → Result (List Column) × Guard Db
  evolve g table inferred now later = elim (open_tx g.db table) [
    | err e ↦ (err e, g)
    | ok tx ↦ elim (fetch_table_info_tx tx table) [
      | err e ↦ (err e, g)
      | ok live ↦ elim (diff (by_lower live) inferred) [
        | err e ↦ (err e, g)
        | ok plan ↦ carry_out g tx table live plan now later
      ]
    ]
  ]

  pub validate_names : Text → List InferredColumn → Result (Unit {0})
  validate_names table inferred = do
    validate_identifier is_match table
    for_each (λ (col : InferredColumn). validate_identifier is_match col.name) inferred

  -- The answer of the cache, if it can give one.
  pub cached_answer : Guard Db → Text → List InferredColumn → Option (List Column)
  cached_answer g table inferred = elim (get table g.schema_cache) [
    | none ↦ none
    | some columns ↦ elim (schema_from_cache inferred columns) [ ok r ↦ some r | err _ ↦ none ]
  ]

  -- `ensure_schema`; `now` is the instant of the churn test, `later` that of the record.
  unfoldable pub ensure_schema :
      Guard Db → Text → List InferredColumn → ℕ → ℕ → Result (List Column) × Guard Db
  unfolding validate_names cached_answer evolve carry_out apply_changes open_tx committed
      fetch_table_info_tx record_churn
  ensure_schema g table inferred now later = elim (validate_names table inferred) [
    | err e ↦ (err e, g)
    | ok _ ↦ elim (cached_answer g table inferred) [
      | some r ↦ (ok r, g)
      | none ↦ evolve g table inferred now later
    ]
  ]

  -- `ensure_columns`
  unfoldable pub ensure_columns : Guard Db → Text → Value → ℕ → ℕ → Result (List Column) × Guard Db
  ensure_columns g table payload now later = elim (infer_schema is_match payload) [
    | err e ↦ (err e, g)
    | ok inferred ↦ ensure_schema g table inferred now later
  ]

  -- `ensure_batch_columns`
  unfoldable pub ensure_batch_columns :
      Guard Db → Text → List Value → ℕ → ℕ → Result (List Column) × Guard Db
  ensure_batch_columns g table payloads now later = elim (infer_batch_schema is_match payloads) [
    | err e ↦ (err e, g)
    | ok inferred ↦ ensure_schema g table inferred now later
  ]
