-- ===== src/Guard/Plan/Laws.antt =====
-- The plan of a schema change, its errors, and the answer of the cache.
use stackhouse.Prelude.{
  ◌≡◌, ap, inl, inr, Option, none, some, List, [], ◌∷◌, ◌++◌, arith, Option-cases,
}
use stackhouse.Prelude.Text.{to_lowercase}
use stackhouse.Prelude.Assoc.{Assoc, get}
use stackhouse.Errors.{StackhouseError, ok, err, schema, ◌>>=◌, >>=-eq-ok, ok-injective}
use stackhouse.Inference.{PgType, InferredColumn, from_data_type}
use stackhouse.Inference.Lattice.{common_type-can_promote_to}
use stackhouse.Guard.{ColumnInfo}
use stackhouse.Guard.Plan.{
  Plan, Column, plan_column, plan_found, plan_existing, diff, by_lower, cached_column,
  cached_columns, cached_found, cached_existing, schema_from_cache,
}

abbrev pub unknown_type : StackhouseError
unknown_type = schema "Unknown existing column type '{}' for {}.{}"

plan_existing-err :
    (col : InferredColumn) (info : ColumnInfo) (t : Option PgType) (e : StackhouseError)
    → plan_existing col info t ≡ err e
    → e ≡ unknown_type
unfolding plan_existing
plan_existing-err col info none e h = cc
plan_existing-err col info (some t) e h = ground (arith, common_type-can_promote_to t col.pg_type)

plan_column-err :
    (live : Assoc ColumnInfo) (col : InferredColumn) (e : StackhouseError)
    → plan_column live col ≡ err e
    → e ≡ unknown_type
unfolding plan_column plan_found
plan_column-err live col e h = elim (Option-cases (get (to_lowercase col.name) live)) [
  | inl fresh ↦ ground arith
  | inr (info, found) ↦ ground (arith, plan_existing-err col info (from_data_type info.col_type) e)
]

-- A plan fails only over a column whose existing type is unknown: the promotion that it makes of a
-- known type is never refused.
pub diff-err :
    (live : Assoc ColumnInfo) (cols : List InferredColumn) (e : StackhouseError)
    → diff live cols ≡ err e
    → e ≡ unknown_type
unfolding diff
diff-err live [] e h = cc
diff-err live (col ∷ cols) e h = ground (arith, plan_column-err live col e, diff-err live cols e)

-- A plan that changes nothing, with its answer.
abbrev pub unchanged : List Column → Plan
unchanged r = record { adds = []; widens = []; result = r }

cached_existing-plan :
    (col : InferredColumn) (info : ColumnInfo) (t : Option PgType) (r : List Column)
    → cached_existing col t ≡ ok r
    → plan_existing col info t ≡ ok (unchanged r)
unfolding cached_existing plan_existing
cached_existing-plan col info none r h = cc
cached_existing-plan col info (some t) r h = ground arith

cached_column-plan :
    (live : Assoc ColumnInfo) (col : InferredColumn) (r : List Column)
    → cached_column live col ≡ ok r
    → plan_column live col ≡ ok (unchanged r)
unfolding cached_column plan_column cached_found plan_found
cached_column-plan live col r h = elim (Option-cases (get (to_lowercase col.name) live)) [
  | inl fresh ↦ ground arith
  | inr (info, found) ↦
      ground (arith, cached_existing-plan col info (from_data_type info.col_type) r)
]

cached_columns-diff :
    (live : Assoc ColumnInfo) (cols : List InferredColumn) (r : List Column)
    → cached_columns live cols ≡ ok r
    → diff live cols ≡ ok (unchanged r)
unfolding cached_columns diff
cached_columns-diff live [] r h = ap (λ x. ok (unchanged x)) (ok-injective h)
cached_columns-diff live (col ∷ cols) r h =
    let (p, hp, h') =
      >>=-eq-ok (cached_column live col) (λ p. cached_columns live cols >>= λ q. ok (p ++ q)) h in
    let (q, hq, e) = >>=-eq-ok (cached_columns live cols) (λ q. ok (p ++ q)) h' in
    rw (cached_column-plan live col p hp, cached_columns-diff live cols q hq)
      (ap (λ x. ok (unchanged x)) (ok-injective e))

-- The cache answers in place of the database exactly as the database would with the same columns:
-- the full comparison gives the same answer and asks for no change.
pub schema_from_cache-diff :
    (inferred : List InferredColumn) (columns : List ColumnInfo) (r : List Column)
    → schema_from_cache inferred columns ≡ ok r
    → diff (by_lower columns) inferred ≡ ok (unchanged r)
unfolding schema_from_cache
schema_from_cache-diff inferred columns r h = cached_columns-diff (by_lower columns) inferred r h
