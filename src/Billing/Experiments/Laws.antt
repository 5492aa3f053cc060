-- ===== src/Billing/Experiments/Laws.antt =====
-- The shares of the variants.
use stackhouse.Prelude.{
  ℕ, ◌+◌, ◌*◌, ◌%◌, ◌^◌, ◌≤◌, ◌<◌, ◌≡◌, ◌≢◌, refl, sym, ◌∙◌, ap, inl, inr, true, false, not, some,
  List, [], ◌∷◌, ◌++◌, arith, ltb, All, Bool-cases, length, ◌==◌,
}
use stackhouse.Errors.{ok, fail_if-ok}
use stackhouse.Billing.Experiments.{
  Variant, insert_by_id, sort_by_id, walk, choose, assign_variant, total_weight,
  validate_traffic_weights,
}

-- No weight is negative or above 100.
abbrev pub IsPercent : Variant → Type 0
IsPercent v = v.traffic_weight ≤ 100

abbrev pub sum_weights : List Variant → ℕ
sum_weights [] = 0
sum_weights (v ∷ vs) = v.traffic_weight + sum_weights vs

sum_weights-insert :
    (v : Variant) (vs : List Variant)
    → sum_weights (insert_by_id v vs) ≡ v.traffic_weight + sum_weights vs
unfolding insert_by_id
sum_weights-insert v [] = refl
sum_weights-insert v (w ∷ ws) = ground (arith, sum_weights-insert v ws)

sum_weights-sort : (vs : List Variant) → sum_weights (sort_by_id vs) ≡ sum_weights vs
unfolding sort_by_id
sum_weights-sort [] = refl
sum_weights-sort (v ∷ vs) =
    ground (arith, sum_weights-insert v (sort_by_id vs), sum_weights-sort vs)

walk_past :
    (bucket start next : ℕ) (v : Variant) (vs : List Variant) (i : ℕ)
    → (start + v.traffic_weight * 100) % 2 ^ 64 ≡ next
    → ltb bucket next ≡ false
    → walk bucket next vs ≡ some i
    → walk bucket start (v ∷ vs) ≡ some i
unfolding walk
walk_past bucket start next v vs i e past h = rw (e, past, walk) h

walk_here :
    (bucket start : ℕ) (v : Variant) (vs : List Variant)
    → ltb bucket ((start + v.traffic_weight * 100) % 2 ^ 64) ≡ true
    → walk bucket start (v ∷ vs) ≡ some v.id
unfolding walk
walk_here bucket start v vs h = rw (h, walk) refl

-- The variant with the id `i` whose share, behind those of the variants before it, holds the
-- bucket. A share has a hundred buckets for each percent.
abbrev pub HasShare : ℕ → ℕ → List Variant → ℕ → Type 0
HasShare bucket start vs i =
    (before after : List Variant) × (v : Variant) × (vs ≡ before ++ (v ∷ after))
    × (v.id ≡ i)
    × (start + sum_weights before * 100 ≤ bucket)
    × (bucket < start + (sum_weights before + v.traffic_weight) * 100)

walk_share :
    (bucket start : ℕ) (vs : List Variant)
    → start ≤ bucket
    → bucket < start + sum_weights vs * 100
    → start + sum_weights vs * 100 < 2 ^ 64
    → (i : ℕ) × (walk bucket start vs ≡ some i) × HasShare bucket start vs i
walk_share bucket start [] h k m = absurd (omega arith)
walk_share bucket start (v ∷ vs) h k m =
    let next : (start + v.traffic_weight * 100) % 2 ^ 64 ≡ start + v.traffic_weight * 100 =
      omega arith in
    elim (Bool-cases (ltb bucket (start + v.traffic_weight * 100))) [
      | inl here ↦ (
        v.id,
        walk_here bucket start v vs (ap (ltb bucket) next ∙ here),
        ([], vs, v, refl, refl, omega arith, ground arith),
      )
      | inr past ↦
          let (i, e, (before, after, w, split, n, low, high)) =
            walk_share bucket (start + v.traffic_weight * 100) vs (ground arith) (omega arith)
              (omega arith) in
          (
            i,
            walk_past bucket start (start + v.traffic_weight * 100) v vs i next past e,
            (v ∷ before, after, w, ap (λ xs. v ∷ xs) split, n, omega arith, omega arith),
          )
    ]

sum_weights-le : (vs : List Variant) → All IsPercent vs → sum_weights vs ≤ length vs * 100
sum_weights-le [] h = omega arith
sum_weights-le (v ∷ vs) h = omega (arith, h.0, sum_weights-le vs h.1)

total_weight-sum : (vs : List Variant) → sum_weights vs < 2 ^ 32 → total_weight vs ≡ sum_weights vs
unfolding total_weight
total_weight-sum [] h = refl
total_weight-sum (v ∷ vs) h = omega (arith, total_weight-sum vs (omega arith))

of_eq : (n : ℕ) → not (n == 100) ≡ false → n ≡ 100
of_eq n h = ground arith

-- Validated weights, none of them negative or above 100, sum to 100.
validated-sum :
    (vs : List Variant)
    → validate_traffic_weights vs ≡ ok tt
    → All IsPercent vs
    → length vs < 2 ^ 20
    → sum_weights vs ≡ 100
unfolding validate_traffic_weights
validated-sum vs h p n =
    let small : sum_weights vs < 2 ^ 32 = omega (arith, sum_weights-le vs p) in
    let (_, h1) = fail_if-ok _ _ _ h in
    let (total, _) = fail_if-ok _ _ _ h1 in
    sym (total_weight-sum vs small) ∙ of_eq (total_weight vs) total

validated_ne : validate_traffic_weights [] ≢ ok tt
unfolding validate_traffic_weights
validated_ne h = cc

choose_of_walk :
    (bucket : ℕ) (vs : List Variant) (i : ℕ) → walk bucket 0 vs ≡ some i → choose bucket vs ≡ some i
unfolding choose
choose_of_walk bucket vs i h = rw (h, choose) refl

module _ (digest : ℕ → ℕ → ℕ) where
  -- In an experiment whose weights are validated, percents, and of fewer than 2^20 variants, every
  -- customer is assigned a variant: the one whose share holds the customer's bucket, where the
  -- variants, sorted by id, have a hundred buckets for each percent of their weight.
  pub assign_variant-HasShare :
      (experiment_id customer_id : ℕ) (vs : List Variant)
      → validate_traffic_weights vs ≡ ok tt
      → All IsPercent vs
      → length vs < 2 ^ 20
      → (i : ℕ) × (assign_variant digest experiment_id customer_id vs ≡ some i)
        × HasShare (digest experiment_id customer_id % 10000) 0 (sort_by_id vs) i
  unfolding assign_variant
  assign_variant-HasShare experiment_id customer_id [] h p n = absurd (validated_ne h)
  assign_variant-HasShare experiment_id customer_id (v ∷ vs) h p n =
      let bucket = digest experiment_id customer_id % 10000 in
      let sum = sum_weights-sort (v ∷ vs) ∙ validated-sum (v ∷ vs) h p n in
      let (i, e, share) =
        walk_share bucket 0 (sort_by_id (v ∷ vs)) (omega arith) (omega (arith, sum))
          (omega (arith, sum)) in
      (i, choose_of_walk bucket (sort_by_id (v ∷ vs)) i e, share)
