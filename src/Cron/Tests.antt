-- ===== src/Cron/Tests.antt =====
-- Tests and instances of cron expressions.
use stackhouse.Prelude.{ℕ, ◌≡◌, ◌↔◌, refl, none, some, List, [], ◌∷◌, arith, In}
use stackhouse.Prelude.Text.{codes}
use stackhouse.Errors.{ok, err, invalid_payload}
use stackhouse.Cron.{step_values, parse_field, parse, Now}
use stackhouse.Cron.Steps.{IsReached, step_values-IsReached, parse_field-none}
use stackhouse.Cron.Bounds.{IsWithin, IsIncreasing, parse_field-IsIncreasing}

quarters : parse_field 61 0 59 (codes "*/15") ≡ some (ok (0 ∷ 15 ∷ 30 ∷ 45 ∷ []))
unfolding parse_field
quarters = refl

mixed : parse_field 61 0 23 (codes "22,8-10,9,40") ≡ some (ok (8 ∷ 9 ∷ 10 ∷ 22 ∷ []))
unfolding parse_field
mixed = refl

no_step : parse_field 61 0 59 (codes "*/x") ≡ some (err (invalid_payload "Invalid cron step"))
unfolding parse_field
no_step = refl

-- A value that is out of bounds is dropped without an error: the job never runs.
never : parse_field 61 0 59 (codes "60") ≡ some (ok [])
unfolding parse_field
never = refl

two_fields :
    parse 61 (codes "* *")
    ≡ some (err (invalid_payload "Cron expression must have 5 fields (min hour dom month dow)"))
unfolding parse
two_fields = refl

step_values-IsReached_example :
    (vs : List ℕ) × (step_values 61 0 59 15 ≡ some vs) × ((x : ℕ) → In x vs ↔ IsReached 0 59 15 x)
step_values-IsReached_example =
    step_values-IsReached 61 0 59 15 (omega arith) (omega arith) (omega arith)

parse_field-none_example : parse_field 1000 1 31 (codes "*/0") ≡ none
parse_field-none_example = parse_field-none 1000 1 31 (omega arith) (omega arith)

parse_field-IsIncreasing_example :
    IsWithin 0 23 (8 ∷ 9 ∷ 10 ∷ 22 ∷ []) × IsIncreasing (8 ∷ 9 ∷ 10 ∷ 22 ∷ [])
unfolding parse_field
parse_field-IsIncreasing_example =
    parse_field-IsIncreasing 61 0 23 (codes "22,8-10,9,40") (8 ∷ 9 ∷ 10 ∷ 22 ∷ []) (omega arith)
      refl

abbrev noon : Now
noon = record { minute = 0; hour = 12; day = 29; month = 2; weekday = 7 }
