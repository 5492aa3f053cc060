-- ===== src/Inference/Tests.antt =====
-- Schemas of small payloads.
use Prim.Native.String.{String}
use mathlib.Core.List.{Permᴰ}
use stackhouse.Prelude.{
  ◌≡◌, ◌≢◌, refl, inl, inr, Bool, true, false, List, [], ◌∷◌, all, map, All, In, some, none,
}
use stackhouse.Prelude.Text.{Text, codes}
use stackhouse.Json.{
  pos_int, Value, null, bool, number, string, array, object, Fields, end, field, nil,
}
use stackhouse.Errors.{ok}
use stackhouse.Inference.{
  PgType, big_int, double_precision, text, jsonb, null_type, date, timestamp_tz, uuid,
  InferredColumn, new, common_type, can_promote_to, as_sql, from_data_type, infer_schema,
  infer_batch_schema,
}
use stackhouse.Inference.Batch.Order.{find_column, infer_batch_schema-perm}
use stackhouse.Inference.Batch.{Holds, infer_batch_schema-Holds}

null_date : can_promote_to null_type date ≡ true
unfolding can_promote_to
null_date = refl

date_jsonb : can_promote_to date jsonb ≡ true
unfolding can_promote_to
date_jsonb = refl

-- A matcher that takes no string for an instant, a date or an identifier.
abbrev no_match : String → Text → Bool
no_match pattern s = false

abbrev small : Fields
small =
    field (codes "n") (number (pos_int 3))
      (field (codes "gone") null (field (codes "tags") (array nil) end))

abbrev other : Fields
other = field (codes "n") (string (codes "three")) end

abbrev n_column : InferredColumn
n_column = record { name = codes "n"; pg_type = big_int; is_nested = false; is_nullable = true }

abbrev tags_column : InferredColumn
tags_column = record { name = codes "tags"; pg_type = jsonb; is_nested = true; is_nullable = true }

abbrev unified : List InferredColumn
unified = record n_column { pg_type = jsonb } ∷ tags_column ∷ []

batch_ok : infer_batch_schema no_match (object small ∷ object other ∷ []) ≡ ok unified
unfolding infer_batch_schema infer_schema stackhouse.Inference.columns_of stackhouse.Inference.merge
    stackhouse.Prelude.Assoc.insert stackhouse.Prelude.Assoc.get common_type
    stackhouse.Inference.infer_type
batch_ok = refl

small_ok : infer_schema no_match (object small) ≡ ok (n_column ∷ tags_column ∷ [])
unfolding infer_schema stackhouse.Inference.columns_of stackhouse.Inference.infer_type
small_ok = refl

infer_batch_schema-Holds_example : Holds unified n_column
infer_batch_schema-Holds_example =
    infer_batch_schema-Holds no_match (object small ∷ object other ∷ []) unified batch_ok
      (object small) (n_column ∷ tags_column ∷ []) n_column (inl refl) small_ok (inl refl)

abbrev mixed : List Value
mixed = object small ∷ bool true ∷ []

batch_swapped_ok : infer_batch_schema no_match (object other ∷ object small ∷ []) ≡ ok unified
unfolding infer_batch_schema infer_schema stackhouse.Inference.columns_of stackhouse.Inference.merge
    stackhouse.Prelude.Assoc.insert stackhouse.Prelude.Assoc.get common_type
    stackhouse.Inference.infer_type
batch_swapped_ok = refl

infer_batch_schema-perm_example : find_column (codes "n") unified ≡ find_column (codes "n") unified
infer_batch_schema-perm_example =
    infer_batch_schema-perm no_match {values = object small ∷ object other ∷ []}
      {values' = object other ∷ object small ∷ []} unified unified (Permᴰ.swap refl refl) batch_ok
      batch_swapped_ok (codes "n")
