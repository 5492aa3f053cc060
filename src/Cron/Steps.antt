-- ===== src/Cron/Steps.antt =====
-- The loop of a field with a step.
use stackhouse.Prelude.{
  ℕ, zero, suc, ◌+◌, ◌-◌, ◌*◌, ◌%◌, ◌≤◌, ◌<◌, ◌≡◌, ◌↔◌, refl, ap, ◌∙◌, true, Option, none, some,
  List, [], ◌∷◌, arith, leb, In, Bool-cases, inl, inr, ◌⊎◌,
}
use native.Mathlib.Nat.{suc-mul}
use stackhouse.Prelude.Text.{codes}
use stackhouse.Cron.{step_values, parse_field, part_values, parts_values, step_range}

-- `x` is reached from `v` in steps.
abbrev pub IsReached : ℕ → ℕ → ℕ → ℕ → Type 0
IsReached v end step x = (k : ℕ) × (x ≡ v + k * step) × (x ≤ end)

IsReached-later : (v end step x : ℕ) → IsReached (v + step) end step x → IsReached v end step x
IsReached-later v end step x (k, e, h) = (suc k, omega (arith, e, suc-mul k step), h)

IsReached-first :
    (v end step x : ℕ) → IsReached v end step x → (x ≡ v) ⊎ IsReached (v + step) end step x
IsReached-first v end step x (zero, e, h) = inl (omega (arith, e))
IsReached-first v end step x (suc k, e, h) = inr (k, omega (arith, e, suc-mul k step), h)

step_values_on :
    (fuel v end step : ℕ)
    → leb v end ≡ true
    → v + step < 256
    → step_values (suc fuel) v end step
      ≡ elim (step_values fuel (v + step) end step) as (λ x. Option (List ℕ)) [
        | none ↦ none
        | some vs ↦ some (v ∷ vs)
      ]
unfolding step_values
step_values_on fuel v end step within fits =
    rw (within, step_values) (rw (no_wrap v step fits) refl)
  where
    no_wrap : (v step : ℕ) → v + step < 256 → (v + step) % 256 ≡ v + step
    no_wrap v step h = omega arith

IsReached-In :
    (v end step x : ℕ) (vs : List ℕ)
    → leb v end ≡ true
    → (In x vs → IsReached (v + step) end step x)
    → In x (v ∷ vs)
    → IsReached v end step x
IsReached-In v end step x vs within later (inl e) = (0, omega (arith, e), ground (arith, e))
IsReached-In v end step x vs within later (inr m) = IsReached-later v end step x (later m)

In-IsReached :
    (v end step x : ℕ) (vs : List ℕ)
    → (IsReached (v + step) end step x → In x vs)
    → IsReached v end step x
    → In x (v ∷ vs)
In-IsReached v end step x vs later r = elim (IsReached-first v end step x r) [
  | inl e ↦ inl e
  | inr l ↦ inr (later l)
]

-- A step of at least one whose sum with the end does not leave `u8`, and more fuel than there are
-- numbers from the start to the end: the loop ends, and it has collected just the numbers up to the
-- end that are reached from the start in steps.
pub step_values-IsReached :
    (fuel v end step : ℕ)
    → 1 ≤ step
    → end + step < 256
    → end + 1 - v < fuel
    → (vs : List ℕ) × (step_values fuel v end step ≡ some vs)
      × ((x : ℕ) → In x vs ↔ IsReached v end step x)
unfolding step_values
step_values-IsReached zero v end step h k f = absurd (omega arith)
step_values-IsReached (suc fuel) v end step h k f = elim (Bool-cases (leb v end)) [
  | inr over ↦ (
    [],
    rw (over, step_values) refl,
    λ x. (λ m. elim m [ ], λ (n, e, small). absurd (ground arith)),
  )
  | inl within ↦
      let (vs, ran, iff) = step_values-IsReached fuel (v + step) end step h k (ground arith) in
      (
        v ∷ vs,
        step_values_on fuel v end step within (ground arith) ∙ rw ran refl,
        λ x.
            (IsReached-In v end step x vs within (iff x).0, In-IsReached v end step x vs (iff x).1),
      )
]

-- A step of zero: the loop does not end.
step_values-none : (fuel v end : ℕ) → v < 256 → v ≤ end → step_values fuel v end 0 ≡ none
unfolding step_values
step_values-none zero v end h k = refl
step_values-none (suc fuel) v end h k =
    step_values_on fuel v end 0 (ground arith) (omega arith)
    ∙ ap (λ r. elim r as (λ x. Option (List ℕ)) [ none ↦ none | some vs ↦ some (v ∷ vs) ])
        (ap (λ u. step_values fuel u end 0) {x = v + 0} {y = v} (omega arith)
          ∙ step_values-none fuel v end h k)

-- `*/0` in a field whose bounds are in order: the loop of `parse_field` does not end.
pub parse_field-none :
    (fuel min max : ℕ) → min < 256 → min ≤ max → parse_field fuel min max (codes "*/0") ≡ none
unfolding parse_field parts_values part_values step_range
parse_field-none fuel min max h k = rw (step_values-none fuel min max h k) refl
