-- ===== src/Billing/Experiments.antt =====
-- src/billing/experiments.rs: `assign_variant`, and `validate_traffic_weights` of
-- src/billing/validators.rs. The SHA-256 digest belongs to a crate: its first eight bytes, as a
-- number of 64 bits, are a parameter. A weight is an `i32` in the two's complement of 64 bits, as
-- `i64::from` and `as u64` read it; ids are positive.
pub mod Laws
mod Tests
use stackhouse.Prelude.{
  ℕ, ◌+◌, ◌*◌, ◌%◌, ◌^◌, Bool, true, false, not, Option, none, some, List, [], ◌∷◌, ◌==◌, ltb, leb,
  if◌then◌else◌, map, foldl, is_empty, length, retain,
}
use stackhouse.Errors.{Result, ok, err, invalid_payload, fail_if, ◌>>=◌, ◌>>◌}

-- `Variant` of src/billing/models.rs, the fields that are read
pub record Variant : Type 0 where
  pub id : ℕ
  pub is_control : Bool
  pub traffic_weight : ℕ

-- `sort_by` on the ids, which is stable.
insert_by_id : Variant → List Variant → List Variant
insert_by_id v [] = v ∷ []
insert_by_id v (w ∷ ws) =
    let rest = insert_by_id v ws in if leb v.id w.id then v ∷ w ∷ ws else w ∷ rest

unfoldable pub sort_by_id : List Variant → List Variant
unfolding insert_by_id
sort_by_id [] = []
sort_by_id (v ∷ vs) = insert_by_id v (sort_by_id vs)

last_id : List Variant → Option ℕ
last_id [] = none
last_id (v ∷ []) = some v.id
last_id (v ∷ w ∷ vs) = last_id (w ∷ vs)

-- The walk, and what it ends with if no variant's share holds the bucket.
walk : ℕ → ℕ → List Variant → Option ℕ
walk bucket cumulative [] = none
walk bucket cumulative (v ∷ vs) =
    let next = (cumulative + v.traffic_weight * 100) % 2 ^ 64 in
    let later = walk bucket next vs in if ltb bucket next then some v.id else later

unfoldable pub choose : ℕ → List Variant → Option ℕ
unfolding walk last_id
choose bucket ordered = elim (walk bucket 0 ordered) [ none ↦ last_id ordered | some i ↦ some i ]

module _ (digest : ℕ → ℕ → ℕ) where
  unfoldable pub assign_variant : ℕ → ℕ → List Variant → Option ℕ
  unfolding choose
  assign_variant experiment_id customer_id [] = none
  assign_variant experiment_id customer_id (v ∷ vs) =
      choose (digest experiment_id customer_id % 10000) (sort_by_id (v ∷ vs))

total_weight : List Variant → ℕ
total_weight [] = 0
total_weight (v ∷ vs) = (v.traffic_weight + total_weight vs) % 2 ^ 32

unfoldable pub validate_traffic_weights : List Variant → Result (Unit {0})
unfolding total_weight
validate_traffic_weights variants = do
  fail_if (is_empty variants) (invalid_payload "experiment must have at least one variant")
  fail_if (not (total_weight variants == 100))
      (invalid_payload "variant traffic weights must sum to 100, got {total}")
  fail_if (not (length (retain (λ (v : Variant). v.is_control) variants) == 1))
      (invalid_payload "experiment must have exactly one control variant")
