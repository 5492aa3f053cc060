-- ===== src/Billing/Experiments/Tests.antt =====
-- One experiment with two variants.
use stackhouse.Prelude.{
  ℕ, ◌+◌, ◌*◌, ◌%◌, ◌-◌, ◌^◌, ◌≡◌, refl, true, false, some, List, [], ◌∷◌, arith,
}
use stackhouse.Errors.{ok}
use stackhouse.Billing.Experiments.{Variant, sort_by_id, assign_variant, validate_traffic_weights}
use stackhouse.Billing.Experiments.Laws.{HasShare, assign_variant-HasShare}

abbrev variants : List Variant
variants =
    record { id = 9; is_control = true; traffic_weight = 70 }
    ∷ record { id = 4; is_control = false; traffic_weight = 30 }
    ∷ []

-- Stands for the digest.
abbrev mixed : ℕ → ℕ → ℕ
mixed a b = a * 7919 + b * 104729

variants_valid : validate_traffic_weights variants ≡ ok tt
unfolding validate_traffic_weights
variants_valid = refl

assign_variant-HasShare_example :
    (i : ℕ) × (assign_variant mixed 1 2 variants ≡ some i)
    × HasShare (mixed 1 2 % 10000) 0 (sort_by_id variants) i
assign_variant-HasShare_example =
    assign_variant-HasShare mixed 1 2 variants variants_valid (omega arith, (omega arith, tt))
      (omega arith)

-- Weights of 150 and -50 are accepted.
negative_accepted :
    validate_traffic_weights (
      record { id = 1; is_control = true; traffic_weight = 150 }
      ∷ record { id = 2; is_control = false; traffic_weight = 2 ^ 64 - 50 }
      ∷ [])
    ≡ ok tt
unfolding validate_traffic_weights
negative_accepted = refl
