-- ===== src/Cron/Bounds.antt =====
-- What a parsed field holds.
use stackhouse.Prelude.{
  ℕ, zero, suc, ◌+◌, ◌-◌, ◌≤◌, ◌<◌, ◌≡◌, subst, true, some, List, [], ◌∷◌, arith, leb, ◌==◌, retain,
  All, All-map, All-retain, Bool-cases, Option-cases, inl, inr,
}
use stackhouse.Prelude.Text.{Text, codes, text_eq, split}
use stackhouse.Errors.{Result-cases, ok}
use stackhouse.Cron.{
  count_from, inclusive, insert_sorted, sort, dedup, in_bounds, tidy, parts_values, parse_field,
}

-- Strictly increasing, and increasing.
abbrev pub IsIncreasing : List ℕ → Type 0
IsIncreasing [] = Unit {0}
IsIncreasing (v ∷ vs) = All (λ w. v < w) vs × IsIncreasing vs

abbrev IsSorted : List ℕ → Type 0
IsSorted [] = Unit {0}
IsSorted (v ∷ vs) = All (λ w. v ≤ w) vs × IsSorted vs

abbrev pub IsWithin : ℕ → ℕ → List ℕ → Type 0
IsWithin min max vs = All (λ v. in_bounds min max v ≡ true) vs

insert_sorted-All :
    (P : ℕ → Type 0) (v : ℕ) (vs : List ℕ) → P v → All P vs → All P (insert_sorted v vs)
insert_sorted-All P v [] p h = (p, tt)
insert_sorted-All P v (w ∷ ws) p (q, h) = elim (Bool-cases (leb v w)) [
  | inl e ↦ rw e (p, (q, h))
  | inr e ↦ rw e (q, insert_sorted-All P v ws p h)
]

insert_sorted-IsSorted : (v : ℕ) (vs : List ℕ) → IsSorted vs → IsSorted (insert_sorted v vs)
insert_sorted-IsSorted v [] h = (tt, tt)
insert_sorted-IsSorted v (w ∷ ws) (low, h) = elim (Bool-cases (leb v w)) [
  | inl e ↦
      rw e
        ((ground arith, All-map (λ x. w ≤ x) (λ x. v ≤ x) ws (λ x k. ground arith) low), (low, h))
  | inr e ↦
      rw e (insert_sorted-All (λ x. w ≤ x) v ws (ground arith) low, insert_sorted-IsSorted v ws h)
]

sort-All : (P : ℕ → Type 0) (vs : List ℕ) → All P vs → All P (sort vs)
sort-All P [] h = tt
sort-All P (v ∷ vs) (p, h) = insert_sorted-All P v (sort vs) p (sort-All P vs h)

sort-IsSorted : (vs : List ℕ) → IsSorted (sort vs)
sort-IsSorted [] = tt
sort-IsSorted (v ∷ vs) = insert_sorted-IsSorted v (sort vs) (sort-IsSorted vs)

dedup-All : (P : ℕ → Type 0) (vs : List ℕ) → All P vs → All P (dedup vs)
dedup-All P [] h = tt
dedup-All P (v ∷ []) h = h
dedup-All P (v ∷ (w ∷ ws)) (p, h) = elim (Bool-cases (v == w)) [
  | inl e ↦ rw e (dedup-All P (w ∷ ws) h)
  | inr e ↦ rw e (p, dedup-All P (w ∷ ws) h)
]

dedup-IsIncreasing : (vs : List ℕ) → IsSorted vs → IsIncreasing (dedup vs)
dedup-IsIncreasing [] h = tt
dedup-IsIncreasing (v ∷ []) h = (tt, tt)
dedup-IsIncreasing (v ∷ (w ∷ ws)) ((low, lows), (low', h)) = elim (Bool-cases (v == w)) [
  | inl e ↦ rw e (dedup-IsIncreasing (w ∷ ws) (low', h))
  | inr e ↦ rw e (
    dedup-All (λ x. v < x) (w ∷ ws)
        (ground arith, All-map (λ x. w ≤ x) (λ x. v < x) ws (λ x k. ground arith) low'),
    dedup-IsIncreasing (w ∷ ws) (low', h),
  )
]

count_from-IsWithin :
    (n s min max : ℕ) → min ≤ s → s + n ≤ max + 1 → IsWithin min max (count_from n s)
count_from-IsWithin zero s min max h k = tt
count_from-IsWithin (suc n) s min max h k =
    (ground arith, count_from-IsWithin n (s + 1) min max (omega arith) (omega arith))

count_from-above : (n s v : ℕ) → v < s → All (λ w. v < w) (count_from n s)
count_from-above zero s v h = tt
count_from-above (suc n) s v h = (h, count_from-above n (s + 1) v (omega arith))

count_from-IsIncreasing : (n s : ℕ) → IsIncreasing (count_from n s)
count_from-IsIncreasing zero s = tt
count_from-IsIncreasing (suc n) s =
    (count_from-above n (s + 1) s (omega arith), count_from-IsIncreasing n (s + 1))

tidy-IsIncreasing :
    (min max : ℕ) (vs : List ℕ)
    → IsWithin min max (tidy min max vs) × IsIncreasing (tidy min max vs)
unfolding tidy
tidy-IsIncreasing min max vs =
    let kept = retain (in_bounds min max) vs in
    (
      dedup-All (λ v. in_bounds min max v ≡ true) (sort kept)
          (sort-All (λ v. in_bounds min max v ≡ true) kept (All-retain (in_bounds min max) vs)),
      dedup-IsIncreasing (sort kept) (sort-IsSorted kept),
    )

-- A field that is parsed, with bounds in order, holds values within the bounds, each once and in increasing
-- order.
pub parse_field-IsIncreasing :
    (fuel min max : ℕ) (field : Text) (vs : List ℕ)
    → min ≤ max
    → parse_field fuel min max field ≡ some (ok vs)
    → IsWithin min max vs × IsIncreasing vs
unfolding parse_field tidy
parse_field-IsIncreasing fuel min max field vs h parsed =
    elim (Bool-cases (text_eq field (codes "*"))) [
      | inl e ↦
          subst (λ ws. IsWithin min max ws × IsIncreasing ws) {x = inclusive min max} {y = vs}
            (cc (e, parsed))
            (
              count_from-IsWithin (max + 1 - min) min min max (omega arith) (omega arith),
              count_from-IsIncreasing (max + 1 - min) min,
            )
      | inr e ↦ elim (Option-cases (parts_values fuel min max (split b',' field))) [
        | inl stopped ↦ cc (e, stopped, parsed)
        | inr (r, ran) ↦ elim (Result-cases r) [
          | inl (x, failed) ↦ cc (e, ran, failed, parsed)
          | inr (ws, found) ↦
              subst (λ xs. IsWithin min max xs × IsIncreasing xs) {x = tidy min max ws} {y = vs}
                (cc (e, ran, found, parsed)) (tidy-IsIncreasing min max ws)
        ]
      ]
    ]
