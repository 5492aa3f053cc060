-- ===== src/Inference/Schema.antt =====
-- The columns that one payload asks for.
use Prim.Native.String.{String}
use stackhouse.Prelude.{◌≡◌, refl, ap, ◌≢◌, ◌↔◌, Bool, true, List, [], ◌∷◌, arith, map, All}
use stackhouse.Prelude.Text.{Text}
use stackhouse.Json.{
  Number, pos_int, neg_int, float, Value, null, bool, number, string, array, object, Fields, end,
  field,
}
use stackhouse.Errors.{ok}
use stackhouse.Inference.{
  jsonb, null_type, InferredColumn, new, nested_value, infer_type, infer_string, infer_number,
  columns_of, infer_schema,
}

-- What holds of a column that a payload asks for.
abbrev pub IsInsertable : InferredColumn → Type 0
IsInsertable c =
    (c.pg_type ≢ null_type) × ((c.is_nested ≡ true) ↔ (c.pg_type ≡ jsonb)) × (c.is_nullable ≡ true)

-- The keys whose value is not null, in the order of the object.
abbrev pub non_null_keys : Fields → List Text
non_null_keys end = []
non_null_keys (field key null rest) = non_null_keys rest
non_null_keys (field key _ rest) = key ∷ non_null_keys rest

module _ (is_match : String → Text → Bool) where
  infer_string-ne :
      (s : Text) → (infer_string is_match s ≢ null_type) × (infer_string is_match s ≢ jsonb)
  unfolding infer_string
  infer_string-ne s = (λ h. ground arith, λ h. ground arith)

  infer_number-ne : (n : Number) → (infer_number n ≢ null_type) × (infer_number n ≢ jsonb)
  unfolding infer_number
  infer_number-ne (pos_int n) = (λ h. cc, λ h. cc)
  infer_number-ne (neg_int n) = (λ h. cc, λ h. cc)
  infer_number-ne (float n) = (λ h. cc, λ h. cc)

  new-IsInsertable :
      (key : Text) (v : Value)
      → v ≢ null
      → IsInsertable (new key (infer_type is_match v) (nested_value v))
  unfolding new infer_type
  new-IsInsertable key null h = absurd (h refl)
  new-IsInsertable key (bool b) h = (λ e. cc, (λ e. cc, λ e. cc), refl)
  new-IsInsertable key (number n) h =
      ((infer_number-ne n).0, (λ e. cc, λ e. absurd ((infer_number-ne n).1 e)), refl)
  new-IsInsertable key (string s) h =
      ((infer_string-ne s).0, (λ e. cc, λ e. absurd ((infer_string-ne s).1 e)), refl)
  new-IsInsertable key (array xs) h = (λ e. cc, (λ e. refl, λ e. refl), refl)
  new-IsInsertable key (object fs) h = (λ e. cc, (λ e. refl, λ e. refl), refl)

  pub columns_of-IsInsertable : (fields : Fields) → All IsInsertable (columns_of is_match fields)
  unfolding columns_of
  columns_of-IsInsertable end = tt
  columns_of-IsInsertable (field key null rest) = columns_of-IsInsertable rest
  columns_of-IsInsertable (field key (bool b) rest) =
      (new-IsInsertable key (bool b) (λ e. cc), columns_of-IsInsertable rest)
  columns_of-IsInsertable (field key (number n) rest) =
      (new-IsInsertable key (number n) (λ e. cc), columns_of-IsInsertable rest)
  columns_of-IsInsertable (field key (string s) rest) =
      (new-IsInsertable key (string s) (λ e. cc), columns_of-IsInsertable rest)
  columns_of-IsInsertable (field key (array xs) rest) =
      (new-IsInsertable key (array xs) (λ e. cc), columns_of-IsInsertable rest)
  columns_of-IsInsertable (field key (object fs) rest) =
      (new-IsInsertable key (object fs) (λ e. cc), columns_of-IsInsertable rest)

  map-columns_of :
      (fields : Fields) → map (λ c. c.name) (columns_of is_match fields) ≡ non_null_keys fields
  unfolding columns_of new
  map-columns_of end = refl
  map-columns_of (field key null rest) = map-columns_of rest
  map-columns_of (field key (bool b) rest) = ap (λ ks. key ∷ ks) (map-columns_of rest)
  map-columns_of (field key (number n) rest) = ap (λ ks. key ∷ ks) (map-columns_of rest)
  map-columns_of (field key (string s) rest) = ap (λ ks. key ∷ ks) (map-columns_of rest)
  map-columns_of (field key (array xs) rest) = ap (λ ks. key ∷ ks) (map-columns_of rest)
  map-columns_of (field key (object fs) rest) = ap (λ ks. key ∷ ks) (map-columns_of rest)

  -- An object gives one column for each key whose value is not null, in order. No column has the
  -- type NULL, the nested columns are those of type JSONB, and every column is nullable.
  pub infer_schema-columns :
      (fields : Fields)
      → (columns : List InferredColumn) × (infer_schema is_match (object fields) ≡ ok columns)
        × (map (λ c. c.name) columns ≡ non_null_keys fields)
        × All IsInsertable columns
  unfolding infer_schema
  infer_schema-columns fields =
      (columns_of is_match fields, refl, map-columns_of fields, columns_of-IsInsertable fields)
