-- ===== src/Guard/Plan/Cases.antt =====
-- The three ways in which a column enters a plan.
use stackhouse.Prelude.{
  ◌≡◌, refl, true, false, Option, none, some, [], ◌∷◌, ◌⊎◌, inl, inr, arith, Bool-cases,
  Option-cases, sym, ◌∙◌,
}
use stackhouse.Prelude.Text.{to_lowercase}
use stackhouse.Prelude.Assoc.{Assoc, get}
use stackhouse.Errors.{ok, ok-injective}
use stackhouse.Inference.{PgType, InferredColumn, from_data_type, common_type, pg_eq}
use stackhouse.Guard.{ColumnInfo}
use stackhouse.Guard.Plan.{Plan, plan_column, plan_found, plan_existing, is_base}

abbrev pub unchanged_plan : Plan
unchanged_plan = record { adds = []; widens = []; result = [] }

abbrev pub added : InferredColumn → Plan
added col = record {
  adds = (col.name, col.pg_type) ∷ [];
  widens = [];
  result = (col.name, col.pg_type) ∷ [];
}

-- The plan of a column that the table has at a known type.
abbrev pub Existing : Assoc ColumnInfo → InferredColumn → Plan → Type 0
Existing live col p =
    (info : ColumnInfo) × (t : PgType) × (get (to_lowercase col.name) live ≡ some info)
    × (from_data_type info.col_type ≡ some t)
    × (p.adds ≡ [])
    × (p.result ≡ (col.name, common_type t col.pg_type) ∷ [])
    × (((pg_eq (common_type t col.pg_type) t ≡ true) × (p.widens ≡ []))
        ⊎ ((pg_eq (common_type t col.pg_type) t ≡ false)
            × (p.widens ≡ (info.name, t, common_type t col.pg_type) ∷ [])))

abbrev pub Entry : Assoc ColumnInfo → InferredColumn → Plan → Type 0
Entry live col p =
    ((is_base (to_lowercase col.name) ≡ true) × (p ≡ unchanged_plan))
    ⊎ ((is_base (to_lowercase col.name) ≡ false)
        × (get (to_lowercase col.name) live ≡ none)
        × (p ≡ added col))
    ⊎ ((is_base (to_lowercase col.name) ≡ false) × Existing live col p)

plan_existing-parts :
    (col : InferredColumn) (info : ColumnInfo) (t : PgType) (p : Plan)
    → plan_existing col info (some t) ≡ ok p
    → (p.adds ≡ [])
      × (p.result ≡ (col.name, common_type t col.pg_type) ∷ [])
      × (((pg_eq (common_type t col.pg_type) t ≡ true) × (p.widens ≡ []))
          ⊎ ((pg_eq (common_type t col.pg_type) t ≡ false)
              × (p.widens ≡ (info.name, t, common_type t col.pg_type) ∷ [])))
unfolding plan_existing
plan_existing-parts col info t p h = ground arith

Existing-entry :
    (live : Assoc ColumnInfo) (col : InferredColumn) (info : ColumnInfo) (o : Option PgType)
    (p : Plan)
    → get (to_lowercase col.name) live ≡ some info
    → from_data_type info.col_type ≡ o
    → plan_existing col info o ≡ ok p
    → Existing live col p
Existing-entry live col info none p g e h = unfold plan_existing in cc
Existing-entry live col info (some t) p g e h =
    let (a, r, w) = plan_existing-parts col info t p h in (info, t, g, e, a, r, w)

plan_column_base :
    (live : Assoc ColumnInfo) (col : InferredColumn)
    → is_base (to_lowercase col.name) ≡ true
    → plan_column live col ≡ ok unchanged_plan
unfolding plan_column
plan_column_base live col b = rw b refl

plan_column_new :
    (live : Assoc ColumnInfo) (col : InferredColumn)
    → is_base (to_lowercase col.name) ≡ false
    → get (to_lowercase col.name) live ≡ none
    → plan_column live col ≡ ok (added col)
unfolding plan_column plan_found
plan_column_new live col b g = rw (b, g) refl

plan_column_found :
    (live : Assoc ColumnInfo) (col : InferredColumn) (info : ColumnInfo)
    → is_base (to_lowercase col.name) ≡ false
    → get (to_lowercase col.name) live ≡ some info
    → plan_column live col ≡ plan_existing col info (from_data_type info.col_type)
unfolding plan_column plan_found
plan_column_found live col info b g = rw (b, g) refl

pub plan_column-Entry :
    (live : Assoc ColumnInfo) (col : InferredColumn) (p : Plan)
    → plan_column live col ≡ ok p
    → Entry live col p
plan_column-Entry live col p h = elim (Bool-cases (is_base (to_lowercase col.name))) [
  | inl base ↦ inl (base, ok-injective (sym h ∙ plan_column_base live col base))
  | inr other ↦ inr (elim (Option-cases (get (to_lowercase col.name) live)) [
    | inl fresh ↦ inl (other, fresh, ok-injective (sym h ∙ plan_column_new live col other fresh))
    | inr (info, found) ↦ inr (
      other,
      Existing-entry live col info (from_data_type info.col_type) p found refl
          (sym (plan_column_found live col info other found) ∙ h),
    )
  ])
]
