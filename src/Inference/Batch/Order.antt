-- ===== src/Inference/Batch/Order.antt =====
-- The unified schema under another order of the payloads.
use Prim.Native.String.{String}
use mathlib.Core.List.{Permᴰ}
use stackhouse.Prelude.{
  ◌≡◌, refl, sym, ap, ◌∙◌, Bool, true, List, [], ◌∷◌, arith, All, All-map, subst, Option, some,
  none, if◌then◌else◌, foldl,
}
use stackhouse.Prelude.Text.{Text, text_eq, text_eq_iff}
use stackhouse.Prelude.Assoc.{Assoc, get}
use stackhouse.Json.{Value, object, Fields}
use stackhouse.Errors.{ok, ok-injective, >>=-eq-ok}
use stackhouse.Inference.{
  InferredColumn, merge, absorb, columns_of, unify, infer_schema, infer_batch_schema, values_of,
}
use stackhouse.Inference.Schema.{IsInsertable, columns_of-IsInsertable}
use stackhouse.Inference.Batch.{unify-step, unify-IsKeyed}
use stackhouse.Inference.Lattice.{common_type_comm, common_type_assoc}
use stackhouse.Inference.Batch.Merge.{IsKeyed, get-merge}

-- Two maps that answer every lookup alike.
abbrev pub SameLookups : Assoc InferredColumn → Assoc InferredColumn → Type 0
SameLookups m m' = (k : Text) → get k m ≡ get k m'

merge-SameLookups :
    (m m' : Assoc InferredColumn) (c : InferredColumn)
    → SameLookups m m'
    → SameLookups (merge m c) (merge m' c)
merge-SameLookups m m' c h k = rw (get-merge m c k, get-merge m' c k, h c.name, h k) refl

absorb_swap :
    (c d : InferredColumn) (o : Option InferredColumn)
    → c.name ≡ d.name
    → c.is_nullable ≡ d.is_nullable
    → absorb d (some (absorb c o)) ≡ absorb c (some (absorb d o))
unfolding absorb
absorb_swap c d none h n = ground (arith, common_type_comm c.pg_type d.pg_type)
absorb_swap c d (some e) h n = ground (
  arith,
  common_type_comm c.pg_type d.pg_type,
  common_type_assoc e.pg_type c.pg_type d.pg_type,
  common_type_assoc e.pg_type d.pg_type c.pg_type,
)

merge_swap :
    (m : Assoc InferredColumn) (c d : InferredColumn)
    → c.is_nullable ≡ d.is_nullable
    → SameLookups (merge (merge m c) d) (merge (merge m d) c)
merge_swap m c d n k = ground (
  arith,
  get-merge (merge m c) d k,
  get-merge (merge m d) c k,
  get-merge m c k,
  get-merge m d k,
  get-merge m c d.name,
  get-merge m d c.name,
  text_eq_iff c.name k,
  text_eq_iff d.name k,
  text_eq_iff c.name d.name,
  text_eq_iff d.name c.name,
  absorb_swap c d (get c.name m),
)

abbrev Nullable : List InferredColumn → Type 0
Nullable cs = All (λ c. c.is_nullable ≡ true) cs

foldl-SameLookups :
    (cs : List InferredColumn) (m m' : Assoc InferredColumn)
    → SameLookups m m'
    → SameLookups (foldl merge m cs) (foldl merge m' cs)
foldl-SameLookups [] m m' h = h
foldl-SameLookups (c ∷ cs) m m' h =
    foldl-SameLookups cs (merge m c) (merge m' c) (merge-SameLookups m m' c h)

foldl-merge :
    (ds : List InferredColumn) (m : Assoc InferredColumn) (c : InferredColumn)
    → c.is_nullable ≡ true
    → Nullable ds
    → SameLookups (foldl merge (merge m c) ds) (merge (foldl merge m ds) c)
foldl-merge [] m c n h k = refl
foldl-merge (d ∷ ds) m c n h k =
    foldl-SameLookups ds (merge (merge m c) d) (merge (merge m d) c)
      (merge_swap m c d (n ∙ sym h.0)) k
    ∙ foldl-merge ds (merge m d) c n h.1 k

foldl_swap :
    (cs ds : List InferredColumn) (m : Assoc InferredColumn)
    → Nullable cs
    → Nullable ds
    → SameLookups (foldl merge (foldl merge m cs) ds) (foldl merge (foldl merge m ds) cs)
foldl_swap [] ds m h n k = refl
foldl_swap (c ∷ cs) ds m h n k =
    foldl_swap cs ds (merge m c) h.1 n k
    ∙ foldl-SameLookups cs (foldl merge (merge m c) ds) (merge (foldl merge m ds) c)
        (foldl-merge ds m c h.0 n) k

-- The first column of a name.
abbrev pub find_column : Text → List InferredColumn → Option InferredColumn
find_column k [] = none
find_column k (c ∷ cs) = if text_eq c.name k then some c else find_column k cs

find_column-values_of :
    (k : Text) (m : Assoc InferredColumn) → IsKeyed m → find_column k (values_of m) ≡ get k m
unfolding get
find_column-values_of k [] h = refl
find_column-values_of k ((j, c) ∷ m) h = rw h.0 (ground (arith, find_column-values_of k m h.1))

module _ (is_match : String → Text → Bool) where
  columns_of-Nullable : (fields : Fields) → Nullable (columns_of is_match fields)
  columns_of-Nullable fields =
      All-map IsInsertable (λ c. c.is_nullable ≡ true) (columns_of is_match fields) (λ c h. h.2)
        (columns_of-IsInsertable is_match fields)

  unify_object :
      (m : Assoc InferredColumn) (v : Value) (fields : Fields) (vs : List Value)
      → v ≡ object fields
      → unify is_match m (v ∷ vs) ≡ unify is_match (foldl merge m (columns_of is_match fields)) vs
  unfolding unify infer_schema
  unify_object m v fields vs e = rw e refl

  unify-SameLookups :
      (vs : List Value) (m m' n : Assoc InferredColumn)
      → SameLookups m m'
      → unify is_match m vs ≡ ok n
      → (n' : Assoc InferredColumn) × (unify is_match m' vs ≡ ok n') × SameLookups n n'
  unfolding unify
  unify-SameLookups [] m m' n same h =
      (m', refl, subst (λ x. SameLookups x m') (ok-injective h) same)
  unify-SameLookups (v ∷ vs) m m' n same h =
      let (fields, o, rest) = unify-step is_match m n v vs h in
      let (n', r, s) =
        unify-SameLookups vs (foldl merge m (columns_of is_match fields))
          (foldl merge m' (columns_of is_match fields)) n
          (foldl-SameLookups (columns_of is_match fields) m m' same) rest in
      (n', unify_object m' v fields vs o ∙ r, s)

  -- From maps that answer alike, payloads in any order lead to maps that answer alike.
  unify-perm :
      {vs ws : List Value}
      → Permᴰ vs ws
      → (m m' n : Assoc InferredColumn) → SameLookups m m'
      → unify is_match m vs ≡ ok n
      → (n' : Assoc InferredColumn) × (unify is_match m' ws ≡ ok n') × SameLookups n n'
  unfolding unify
  unify-perm Permᴰ.nil m m' n same h =
      (m', refl, subst (λ x. SameLookups x m') (ok-injective h) same)
  unify-perm (Permᴰ.cons {a = a} {b = b} {l₁ = l} {l₂ = l'} e p) m m' n same h =
      let (fields, o, rest) = unify-step is_match m n a l h in
      let (n', r, s) =
        unify-perm p (foldl merge m (columns_of is_match fields))
          (foldl merge m' (columns_of is_match fields)) n
          (foldl-SameLookups (columns_of is_match fields) m m' same) rest in
      (n', unify_object m' b fields l' (sym e ∙ o) ∙ r, s)
  unify-perm (Permᴰ.swap {a = a} {b = b} {a' = a'} {b' = b'} {l = l} e e') m m' n same h =
      let (fs, o, h') = unify-step is_match m n a (b ∷ l) h in
      let (gs, o', rest) = unify-step is_match (foldl merge m (columns_of is_match fs)) n b l h' in
      let cs = columns_of is_match fs in
      let ds = columns_of is_match gs in
      let (n', r, s) =
        unify-SameLookups l (foldl merge (foldl merge m cs) ds) (foldl merge (foldl merge m' ds) cs)
          n
          (λ k.
            foldl_swap cs ds m (columns_of-Nullable fs) (columns_of-Nullable gs) k
            ∙ foldl-SameLookups cs (foldl merge m ds) (foldl merge m' ds)
                (foldl-SameLookups ds m m' same) k)
          rest in
      (
        n',
        unify_object m' a' gs (b' ∷ l) (sym e' ∙ o')
            ∙ unify_object (foldl merge m' ds) b' fs l (sym e ∙ o)
            ∙ r,
        s,
      )
  unify-perm (Permᴰ.trans p q) m m' n same h =
      let (n', r, s) = unify-perm p m m' n same h in
      let (n'', r', s') = unify-perm q m' m' n' (λ k. refl) r in (n'', r', λ k. s k ∙ s' k)

  unified_of :
      (values : List Value) (columns : List InferredColumn)
      → infer_batch_schema is_match values ≡ ok columns
      → (m : Assoc InferredColumn) × (unify is_match [] values ≡ ok m) × (values_of m ≡ columns)
  unfolding infer_batch_schema
  unified_of [] columns h = ([], unfold unify in refl, ok-injective h)
  unified_of (v ∷ vs) columns h =
      let (m, u, e) = >>=-eq-ok (unify is_match [] (v ∷ vs)) (λ m. ok (values_of m)) h in
      (m, u, ok-injective e)

  -- Two orders of the same payloads give unified schemas that agree on every column: the same
  -- names, types and flags.
  pub infer_batch_schema-perm :
      {values values' : List Value} (columns columns' : List InferredColumn)
      → Permᴰ values values'
      → infer_batch_schema is_match values ≡ ok columns
      → infer_batch_schema is_match values' ≡ ok columns'
      → (k : Text) → find_column k columns ≡ find_column k columns'
  infer_batch_schema-perm {values} {values'} columns columns' p h h' k =
      let (m, u, e) = unified_of values columns h in
      let (m', u', e') = unified_of values' columns' h' in
      let (n, r, same) = unify-perm p [] [] m (λ j. refl) u in
      let n-eq : n ≡ m' = ok-injective (sym r ∙ u') in
      sym (ap (find_column k) e)
      ∙ find_column-values_of k m (unify-IsKeyed is_match [] m values u tt)
      ∙ same k
      ∙ ap (get k) n-eq
      ∙ sym (find_column-values_of k m' (unify-IsKeyed is_match [] m' values' u' tt))
      ∙ ap (find_column k) e'
