-- ===== src/Guard/Plan/Tests.antt =====
-- Plans for one small table.
use stackhouse.Prelude.{
  ℕ, ◌+◌, ◌≡◌, ◌⊎◌, refl, Bool, true, false, Option, none, some, List, [], ◌∷◌, length, All, In,
  ltb,
}
use stackhouse.Prelude.Text.{Text, codes, to_lowercase}
use stackhouse.Errors.{ok, err}
use stackhouse.Inference.{PgType, big_int, double_precision, text, InferredColumn, can_promote_to}
use stackhouse.Guard.{ColumnInfo, max_columns_per_table}
use stackhouse.Guard.Plan.{Plan, Column, diff, by_lower, final_widens, schema_from_cache, is_base}
use stackhouse.Guard.Plan.Laws.{unknown_type, unchanged, schema_from_cache-diff}
use stackhouse.Guard.Plan.Recheck.{final_widens-diff}
use stackhouse.Guard.Plan.Coverage.{IsSettled, IsAnswered, diff-covers}
use stackhouse.Guard.Plan.Preview.{preview_of, preview_of-diff}

abbrev column : Text → Text → ColumnInfo
column n t = record { name = n; col_type = t; notnull = false; pk = false }

abbrev ask : Text → PgType → InferredColumn
ask n t = record { name = n; pg_type = t; is_nested = false; is_nullable = true }

abbrev columns : List ColumnInfo
columns = column (codes "id") (codes "bigint") ∷ column (codes "score") (codes "integer") ∷ []

abbrev wanted : List InferredColumn
wanted =
    ask (codes "Score") double_precision ∷ ask (codes "label") text ∷ ask (codes "ID") text ∷ []

abbrev plan : Plan
plan = record {
  adds = (codes "label", text) ∷ [];
  widens = (codes "score", big_int, double_precision) ∷ [];
  result = (codes "Score", double_precision) ∷ (codes "label", text) ∷ [];
}

planned : diff (by_lower columns) wanted ≡ ok plan
unfolding diff stackhouse.Guard.Plan.plan_column is_base to_lowercase stackhouse.Prelude.Assoc.get
    by_lower stackhouse.Prelude.Assoc.insert stackhouse.Inference.from_data_type
    stackhouse.Inference.pg_eq stackhouse.Inference.common_type can_promote_to
planned = refl

diff-covers_example :
    All (IsSettled (by_lower columns) plan) plan.result × All (IsAnswered plan) wanted
diff-covers_example = diff-covers (by_lower columns) wanted plan planned

final_widens-diff_example : final_widens (by_lower columns) plan.widens ≡ plan.widens
final_widens-diff_example = final_widens-diff columns wanted plan planned

preview_of-diff_example :
    let shown = preview_of (codes "games") true columns wanted in
    (shown.additions ≡ plan.adds)
    × (shown.widenings ≡ plan.widens)
    × (shown.insert_columns ≡ plan.result)
    × (shown.would_exceed_limit
        ≡ ltb max_columns_per_table (length (by_lower columns) + length plan.adds))
preview_of-diff_example = preview_of-diff (codes "games") true columns wanted plan planned

abbrev odd_columns : List ColumnInfo
odd_columns = column (codes "label") (codes "tsvector") ∷ []

odd_refused : diff (by_lower odd_columns) wanted ≡ err unknown_type
unfolding diff stackhouse.Guard.Plan.plan_column is_base to_lowercase stackhouse.Prelude.Assoc.get
    by_lower stackhouse.Prelude.Assoc.insert stackhouse.Inference.from_data_type
odd_refused = refl

abbrev held : List InferredColumn
held = ask (codes "Score") big_int ∷ ask (codes "ID") text ∷ []

abbrev held_answer : List Column
held_answer = (codes "Score", big_int) ∷ []

held_cached : schema_from_cache held columns ≡ ok held_answer
unfolding schema_from_cache stackhouse.Guard.Plan.cached_column is_base to_lowercase
    stackhouse.Prelude.Assoc.get by_lower stackhouse.Prelude.Assoc.insert
    stackhouse.Inference.from_data_type stackhouse.Inference.pg_eq stackhouse.Inference.common_type
held_cached = refl

schema_from_cache-diff_example : diff (by_lower columns) held ≡ ok (unchanged held_answer)
schema_from_cache-diff_example = schema_from_cache-diff held columns held_answer held_cached
