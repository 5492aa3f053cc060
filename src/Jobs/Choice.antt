-- ===== src/Jobs/Choice.antt =====
-- Which job the worker takes.
use stackhouse.Prelude.{
  ℕ, ◌≡◌, subst, true, false, none, some, [], ◌∷◌, arith, All, All-map, Bool-cases, Option-cases,
  inl, inr,
}
use stackhouse.Prelude.Text.{Text}
use stackhouse.Jobs.{Job, Jobs, is_due, is_before, next_due}

is_before_refl : (a : Job) → is_before a a ≡ true
is_before_refl a = ground arith

is_before_trans : (a b c : Job) → is_before a b ≡ true → is_before b c ≡ true → is_before a c ≡ true
is_before_trans a b c h k = ground arith

is_before_total : (a b : Job) → is_before a b ≡ false → is_before b a ≡ true
is_before_total a b h = ground arith

-- A row that is due and stands before each other row that is due.
abbrev pub IsChosen : ℕ → Text × Job → Jobs → Type 0
IsChosen now e jobs =
    (is_due now e.1 ≡ true) × All (λ x. is_due now x.1 ≡ true → is_before e.1 x.1 ≡ true) jobs

-- The rows behind a chosen one, seen from a row before it.
pass_on :
    (now : ℕ) (a b : Text × Job) (jobs : Jobs)
    → is_before a.1 b.1 ≡ true
    → All (λ x. is_due now x.1 ≡ true → is_before b.1 x.1 ≡ true) jobs
    → All (λ x. is_due now x.1 ≡ true → is_before a.1 x.1 ≡ true) jobs
pass_on now a b jobs first =
    All-map (λ x. is_due now x.1 ≡ true → is_before b.1 x.1 ≡ true)
      (λ x. is_due now x.1 ≡ true → is_before a.1 x.1 ≡ true) jobs
      (λ x h due. is_before_trans a.1 b.1 x.1 first (h due))

none_due :
    (now : ℕ) (e : Job) (jobs : Jobs)
    → next_due now jobs ≡ none
    → All (λ x. is_due now x.1 ≡ true → is_before e x.1 ≡ true) jobs
unfolding next_due
none_due now e [] h = tt
none_due now e (x ∷ jobs) h = elim (Bool-cases (is_due now x.1)) [
  | inr late ↦ (λ due. cc, none_due now e jobs (cc (late, h)))
  | inl due ↦ elim (Option-cases (next_due now jobs)) [
    | inl alone ↦ cc (due, alone, h)
    | inr (best, found) ↦ elim (Bool-cases (is_before x.1 best.1)) [
      | inl first ↦ cc (due, found, first, h)
      | inr behind ↦ cc (due, found, behind, h)
    ]
  ]
]

-- The row that the worker takes, with whatever holds of all rows: it is pending and its time has come, and no
-- row that is due has a higher priority, or the same priority and an earlier creation.
pub next_due-IsChosen :
    (P : Text × Job → Type 0) (now : ℕ) (jobs : Jobs) (e : Text × Job)
    → All P jobs
    → next_due now jobs ≡ some e
    → P e × IsChosen now e jobs
unfolding next_due
next_due-IsChosen P now [] e h k = cc
next_due-IsChosen P now (x ∷ jobs) e (p, h) k = elim (Bool-cases (is_due now x.1)) [
  | inr late ↦
      let (q, (due, first)) = next_due-IsChosen P now jobs e h (cc (late, k)) in
      (q, (due, (λ d. cc, first)))
  | inl due ↦ elim (Option-cases (next_due now jobs)) [
    | inl alone ↦
        subst (λ y. P y × IsChosen now y (x ∷ jobs)) {x = x} {y = e} (cc (due, alone, k))
          (p, (due, (λ d. is_before_refl x.1, none_due now x.1 jobs alone)))
    | inr (best, found) ↦
        let (q, (due', first)) = next_due-IsChosen P now jobs best h found in
        elim (Bool-cases (is_before x.1 best.1)) [
          | inl before ↦
              subst (λ y. P y × IsChosen now y (x ∷ jobs)) {x = x} {y = e}
                (cc (due, found, before, k))
                (p, (due, (λ d. is_before_refl x.1, pass_on now x best jobs before first)))
          | inr behind ↦
              subst (λ y. P y × IsChosen now y (x ∷ jobs)) {x = best} {y = e}
                (cc (due, found, behind, k))
                (q, (due', (λ d. is_before_total x.1 best.1 behind, first)))
        ]
  ]
]
