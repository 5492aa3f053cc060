-- ===== src/Inference/Batch.antt =====
-- The unified schema of a batch.
mod Merge
pub mod Order
use Prim.Native.String.{String}
use stackhouse.Prelude.{
  ◌≡◌, refl, sym, ◌∙◌, ap, ◌⊎◌, inl, inr, Bool, true, false, List, [], ◌∷◌, arith, map, all, All,
  In, Option, some, none, if◌then◌else◌, foldl, subst,
}
use stackhouse.Prelude.Text.{Text}
use stackhouse.Prelude.Assoc.{Assoc, get}
use stackhouse.Json.{Value, null, bool, number, string, array, object, Fields}
use stackhouse.Errors.{
  StackhouseError, Result, ok, err, is_ok, invalid_payload, ◌>>=◌, ok-injective, >>=-eq-ok,
}
use stackhouse.Inference.{
  PgType, InferredColumn, can_promote_to, columns_of, infer_schema, unify, infer_batch_schema,
  merge, values_of,
}
use stackhouse.Inference.Lattice.{Absorbs, Absorbs-can_promote_to}
use Merge.{Covers, IsKeyed, foldl-Covers, foldl-Covers_kept, foldl-IsKeyed, In-values_of, name-get}

-- An entry of the unified schema that can hold a column of a payload.
abbrev pub Holds : List InferredColumn → InferredColumn → Type 0
Holds columns c =
    (e : InferredColumn) × In e columns
    × (e.name ≡ c.name)
    × (can_promote_to c.pg_type e.pg_type ≡ true)
    × (c.is_nested ≡ true → e.is_nested ≡ true)

Covers-Holds :
    (m : Assoc InferredColumn) (c : InferredColumn) → IsKeyed m → Covers m c → Holds (values_of m) c
Covers-Holds m c keyed (e, found, absorbs, nested) = (
  e,
  In-values_of c.name e m found,
  name-get c.name e m keyed found,
  Absorbs-can_promote_to e.pg_type c.pg_type absorbs,
  nested,
)

abbrev pub not_an_object : StackhouseError
not_an_object = invalid_payload "Payload must be a JSON object"

abbrev pub is_object : Value → Bool
is_object (object _) = true
is_object _ = false

module _ (is_match : String → Text → Bool) where
  unify-step :
      (m m' : Assoc InferredColumn) (v : Value) (vs : List Value)
      → unify is_match m (v ∷ vs) ≡ ok m'
      → (fields : Fields) × (v ≡ object fields)
        × (unify is_match (foldl merge m (columns_of is_match fields)) vs ≡ ok m')
  unfolding unify infer_schema
  unify-step m m' null vs h = cc
  unify-step m m' (bool b) vs h = cc
  unify-step m m' (number n) vs h = cc
  unify-step m m' (string s) vs h = cc
  unify-step m m' (array xs) vs h = cc
  unify-step m m' (object fields) vs h = (fields, refl, h)

  unify-IsKeyed :
      (m m' : Assoc InferredColumn) (vs : List Value)
      → unify is_match m vs ≡ ok m'
      → IsKeyed m
      → IsKeyed m'
  unfolding unify
  unify-IsKeyed m m' [] h keyed = subst IsKeyed (ok-injective h) keyed
  unify-IsKeyed m m' (v ∷ vs) h keyed =
      let (fields, _, rest) = unify-step m m' v vs h in
      unify-IsKeyed (foldl merge m (columns_of is_match fields)) m' vs rest
        (foldl-IsKeyed (columns_of is_match fields) m keyed)

  unify-Covers_kept :
      (m m' : Assoc InferredColumn) (vs : List Value) (c : InferredColumn)
      → unify is_match m vs ≡ ok m'
      → Covers m c
      → Covers m' c
  unfolding unify
  unify-Covers_kept m m' [] c h covers = subst (λ x. Covers x c) (ok-injective h) covers
  unify-Covers_kept m m' (v ∷ vs) c h covers =
      let (fields, _, rest) = unify-step m m' v vs h in
      unify-Covers_kept (foldl merge m (columns_of is_match fields)) m' vs c rest
        (foldl-Covers_kept (columns_of is_match fields) m c covers)

  columns_of_lem :
      (fields : Fields) (v : Value) (wanted : List InferredColumn)
      → v ≡ object fields
      → infer_schema is_match v ≡ ok wanted
      → columns_of is_match fields ≡ wanted
  unfolding infer_schema
  columns_of_lem fields v wanted e w = ok-injective (ap (infer_schema is_match) (sym e) ∙ w)

  unify-Covers :
      (m m' : Assoc InferredColumn) (vs : List Value) (v : Value) (wanted : List InferredColumn)
      (c : InferredColumn)
      → unify is_match m vs ≡ ok m'
      → In v vs
      → infer_schema is_match v ≡ ok wanted
      → In c wanted
      → Covers m' c
  unify-Covers m m' [] v wanted c h i w j = elim i [ ]
  unify-Covers m m' (u ∷ us) v wanted c h (inl e) w j =
      let (fields, o, rest) = unify-step m m' u us h in
      unify-Covers_kept (foldl merge m (columns_of is_match fields)) m' us c rest (
        foldl-Covers (columns_of is_match fields) m c
          (subst (In c) (sym (columns_of_lem fields v wanted (e ∙ o) w)) j))
  unify-Covers m m' (u ∷ us) v wanted c h (inr i) w j =
      let (fields, _, rest) = unify-step m m' u us h in
      unify-Covers (foldl merge m (columns_of is_match fields)) m' us v wanted c rest i w j

  -- The unified schema of a batch holds every column that one of its payloads asks for: under the
  -- same name, at a type to which the payload's own type can be promoted, and marked as nested if
  -- the payload's value is nested.
  pub infer_batch_schema-Holds :
      (values : List Value) (columns : List InferredColumn)
      → infer_batch_schema is_match values ≡ ok columns
      → (v : Value) (wanted : List InferredColumn) (c : InferredColumn) → In v values
      → infer_schema is_match v ≡ ok wanted
      → In c wanted
      → Holds columns c
  unfolding infer_batch_schema
  infer_batch_schema-Holds [] columns h v wanted c i w j = elim i [ ]
  infer_batch_schema-Holds (u ∷ us) columns h v wanted c i w j =
      let (m, unified, e) = >>=-eq-ok (unify is_match [] (u ∷ us)) (λ m. ok (values_of m)) h in
      subst (λ cs. Holds cs c) (ok-injective e)
        (Covers-Holds m c (unify-IsKeyed [] m (u ∷ us) unified tt)
          (unify-Covers [] m (u ∷ us) v wanted c unified i w j))

  unify-total :
      (m : Assoc InferredColumn) (values : List Value)
      → (all is_object values ≡ true
          → (m' : Assoc InferredColumn) × (unify is_match m values ≡ ok m'))
        × (all is_object values ≡ false → unify is_match m values ≡ err not_an_object)
  unfolding unify infer_schema
  unify-total m [] = (λ h. (m, refl), λ h. cc)
  unify-total m (null ∷ vs) = (λ h. cc, λ h. refl)
  unify-total m (bool b ∷ vs) = (λ h. cc, λ h. refl)
  unify-total m (number n ∷ vs) = (λ h. cc, λ h. refl)
  unify-total m (string s ∷ vs) = (λ h. cc, λ h. refl)
  unify-total m (array xs ∷ vs) = (λ h. cc, λ h. refl)
  unify-total m (object fields ∷ vs) = unify-total (foldl merge m (columns_of is_match fields)) vs

  -- A batch has a unified schema when every payload is an object, and only then: otherwise the
  -- whole batch is refused, whatever the other payloads are.
  pub infer_batch_schema-total :
      (values : List Value)
      → (all is_object values ≡ true
          → (columns : List InferredColumn) × (infer_batch_schema is_match values ≡ ok columns))
        × (all is_object values ≡ false → infer_batch_schema is_match values ≡ err not_an_object)
  unfolding infer_batch_schema
  infer_batch_schema-total [] = (λ h. ([], refl), λ h. cc)
  infer_batch_schema-total (v ∷ vs) =
      let (good, bad) = unify-total [] (v ∷ vs) in
      (λ h. let (m, e) = good h in (values_of m, rw e refl), λ h. rw (bad h) refl)
