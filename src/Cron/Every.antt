-- ===== src/Cron/Every.antt =====
-- `* * * * *` and the steps of an hour.
use stackhouse.Prelude.{
  ℕ, zero, suc, ◌+◌, ◌-◌, ◌%◌, ◌≤◌, ◌<◌, ◌≡◌, refl, true, some, arith, ◌==◌, Bool-cases, inl, inr,
}
use stackhouse.Prelude.Text.{codes}
use stackhouse.Errors.{ok}
use stackhouse.Cron.{
  count_from, inclusive, parse_field, parse, split_whitespace, CronExpression, Now, holds,
  matches_now,
}

-- A clock's reading.
abbrev pub IsClock : Now → Type 0
IsClock now =
    (now.minute ≤ 59)
    × (now.hour ≤ 23)
    × (1 ≤ now.day)
    × (now.day ≤ 31)
    × (1 ≤ now.month)
    × (now.month ≤ 12)

holds-count_from : (n s v : ℕ) → s ≤ v → v < s + n → holds v (count_from n s) ≡ true
holds-count_from zero s v h k = absurd (omega arith)
holds-count_from (suc n) s v h k = elim (Bool-cases (s == v)) [
  | inl e ↦ rw e refl
  | inr e ↦ rw e (holds-count_from n (s + 1) v (ground arith) (ground arith))
]

holds-inclusive : (min max v : ℕ) → min ≤ v → v ≤ max → holds v (inclusive min max) ≡ true
holds-inclusive min max v h k = holds-count_from (max + 1 - min) min v h (omega arith)

abbrev every : CronExpression
every = record {
  minutes = inclusive 0 59;
  hours = inclusive 0 23;
  days_of_month = inclusive 1 31;
  months = inclusive 1 12;
  days_of_week = inclusive 0 6;
}

matches_now-true :
    (c : CronExpression) (now : Now)
    → holds now.minute c.minutes ≡ true
    → holds now.hour c.hours ≡ true
    → holds now.day c.days_of_month ≡ true
    → holds now.month c.months ≡ true
    → holds (now.weekday % 7) c.days_of_week ≡ true
    → matches_now c now ≡ true
unfolding matches_now
matches_now-true c now minute hour day month weekday =
    rw (matches_now, minute, hour, day, month, weekday) refl

-- The expression `* * * * *` is parsed, whatever the fuel, and matches every reading of the clock.
pub matches_now-parse :
    (fuel : ℕ) (now : Now)
    → IsClock now
    → (c : CronExpression) × (parse fuel (codes "* * * * *") ≡ some (ok c))
      × (matches_now c now ≡ true)
unfolding parse parse_field split_whitespace
matches_now-parse fuel now (minute, hour, day, day', month, month') = (
  every,
  refl,
  matches_now-true every now (holds-inclusive 0 59 now.minute (omega arith) minute)
      (holds-inclusive 0 23 now.hour (omega arith) hour) (holds-inclusive 1 31 now.day day day')
      (holds-inclusive 1 12 now.month month month')
      (holds-inclusive 0 6 (now.weekday % 7) (omega arith) (omega arith)),
)
