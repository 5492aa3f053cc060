-- ===== src/Guard/Plan/Preview.antt =====
-- src/security/guard.rs: the loop and the statements of `preview_schema`, against the plan of
-- `ensure_schema`.
use stackhouse.Prelude.{
  ◌+◌, ◌≡◌, refl, Bool, ◌&&◌, not, Option, none, some, List, [], ◌∷◌, ◌++◌, if◌then◌else◌, map,
  arith, length, ltb, Option-cases, inl, inr,
}
use stackhouse.Prelude.Text.{Text, codes, to_lowercase}
use stackhouse.Prelude.Assoc.{Assoc, get}
use stackhouse.Errors.{ok, ◌>>=◌, >>=-eq-ok, ok-injective}
use stackhouse.Inference.{
  PgType, InferredColumn, from_data_type, can_promote_to, common_type, pg_eq,
}
use stackhouse.Guard.{ColumnInfo, max_columns_per_table}
use stackhouse.Guard.Plan.{
  Plan, Column, Widening, no_changes, and_then, plan_column, plan_found, plan_existing, diff,
  is_base, by_lower, alter_table, add_part, widen_part,
}

-- One column that the table has: an unknown type is passed over.
preview_existing : InferredColumn → ColumnInfo → Option PgType → Plan
preview_existing col info none = record {
  adds = [];
  widens = [];
  result = (col.name, col.pg_type) ∷ [];
}
preview_existing col info (some existing) =
    let common = common_type existing col.pg_type in
    record {
      adds = [];
      widens =
          if not (pg_eq common existing) && can_promote_to existing common
          then (info.name, existing, common) ∷ []
          else [];
      result = (col.name, common) ∷ [];
    }

preview_found : InferredColumn → Option ColumnInfo → Plan
unfolding preview_existing
preview_found col none = record {
  adds = (col.name, col.pg_type) ∷ [];
  widens = [];
  result = (col.name, col.pg_type) ∷ [];
}
preview_found col (some info) = preview_existing col info (from_data_type info.col_type)

preview_column : Assoc ColumnInfo → InferredColumn → Plan
unfolding preview_found
preview_column live col =
    if is_base (to_lowercase col.name)
    then no_changes
    else preview_found col (get (to_lowercase col.name) live)

unfoldable pub preview_columns : Assoc ColumnInfo → List InferredColumn → Plan
unfolding preview_column
preview_columns live [] = no_changes
preview_columns live (col ∷ cols) = and_then (preview_column live col) (preview_columns live cols)

-- `struct SchemaPreview`
pub record SchemaPreview : Type 0 where
  pub table_exists : Bool
  pub create_table_sql : Option Text
  pub additions : List Column
  pub widenings : List Widening
  pub add_sql : List Text
  pub widen_sql : List Text
  pub insert_columns : List Column
  pub would_exceed_limit : Bool

preview_add_sql : Text → List Column → List Text
unfolding add_part
preview_add_sql table [] = []
preview_add_sql table (c ∷ cs) = alter_table table (map add_part (c ∷ cs)) ∷ []

preview_widen_sql : Text → List Widening → List Text
unfolding widen_part
preview_widen_sql table [] = []
preview_widen_sql table (w ∷ ws) = alter_table table (map widen_part (w ∷ ws)) ∷ []

create_sql : Text → Text
create_sql table =
    codes "CREATE TABLE IF NOT EXISTS "
    ++ (table
        ++ codes
            " (\n                    id BIGSERIAL PRIMARY KEY,\n                    created_at TIMESTAMP WITH TIME ZONE DEFAULT CURRENT_TIMESTAMP,\n                    updated_at TIMESTAMP WITH TIME ZONE DEFAULT CURRENT_TIMESTAMP\n                )")

-- From the existence of the table and its live columns.
unfoldable pub preview_of : Text → Bool → List ColumnInfo → List InferredColumn → SchemaPreview
unfolding create_sql preview_add_sql preview_widen_sql
preview_of table exists live inferred =
    let plan = preview_columns (by_lower live) inferred in
    record {
      table_exists = exists;
      create_table_sql = if exists then none else some (create_sql table);
      additions = plan.adds;
      widenings = plan.widens;
      add_sql = preview_add_sql table plan.adds;
      widen_sql = preview_widen_sql table plan.widens;
      insert_columns = plan.result;
      would_exceed_limit = ltb max_columns_per_table (length (by_lower live) + length plan.adds);
    }

preview_existing-plan :
    (col : InferredColumn) (info : ColumnInfo) (t : Option PgType) (p : Plan)
    → plan_existing col info t ≡ ok p
    → preview_existing col info t ≡ p
unfolding plan_existing preview_existing
preview_existing-plan col info none p h = cc
preview_existing-plan col info (some t) p h = ground arith

preview_column-plan :
    (live : Assoc ColumnInfo) (col : InferredColumn) (p : Plan)
    → plan_column live col ≡ ok p
    → preview_column live col ≡ p
unfolding plan_column preview_column plan_found preview_found
preview_column-plan live col p h = elim (Option-cases (get (to_lowercase col.name) live)) [
  | inl fresh ↦ ground arith
  | inr (info, found) ↦
      ground (arith, preview_existing-plan col info (from_data_type info.col_type) p)
]

preview_columns-diff :
    (live : Assoc ColumnInfo) (cols : List InferredColumn) (p : Plan)
    → diff live cols ≡ ok p
    → preview_columns live cols ≡ p
unfolding diff preview_columns
preview_columns-diff live [] p h = ok-injective h
preview_columns-diff live (col ∷ cols) p h =
    let (q, hq, h') =
      >>=-eq-ok (plan_column live col) (λ q. diff live cols >>= λ r. ok (and_then q r)) h in
    let (r, hr, e) = >>=-eq-ok (diff live cols) (λ r. ok (and_then q r)) h' in
    rw (preview_column-plan live col q hq, preview_columns-diff live cols r hr) (ok-injective e)

-- Where the schema change can be planned, the preview of it shows the plan: the same additions,
-- widenings and columns to insert, and the limit test that the change will meet.
pub preview_of-diff :
    (table : Text) (exists : Bool) (live : List ColumnInfo) (inferred : List InferredColumn)
    (p : Plan)
    → diff (by_lower live) inferred ≡ ok p
    → let shown = preview_of table exists live inferred in
      (shown.additions ≡ p.adds)
      × (shown.widenings ≡ p.widens)
      × (shown.insert_columns ≡ p.result)
      × (shown.would_exceed_limit
          ≡ ltb max_columns_per_table (length (by_lower live) + length p.adds))
unfolding preview_of
preview_of-diff table exists live inferred p h =
    rw (preview_columns-diff (by_lower live) inferred p h) (refl, refl, refl, refl)
