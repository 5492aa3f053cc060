-- ===== src/Floats.antt =====
-- `f64` as the program uses it: a parameter, with the laws of its arithmetic that proofs name.
use stackhouse.Prelude.{ℕ, ◌≤◌, ◌≡◌, Bool, true}

pub record Float : Type 1 where
  pub F : Type 0
  pub of_nat : ℕ → F
  -- n / 100
  pub hundredths : ℕ → F
  -- `Duration::as_secs_f64` of a number of nanoseconds
  pub seconds : ℕ → F
  pub add : F → F → F
  pub sub : F → F → F
  pub mul : F → F → F
  pub min : F → F → F
  pub max : F → F → F
  pub le : F → F → Bool
  pub lt : F → F → Bool

-- Laws of IEEE comparison and rounding, for values that are not NaN.
pub record FloatLaws (fl : Float) : Type 0 where
  pub le_refl : (a : fl.F) → fl.le a a ≡ true
  pub le_trans : (a b c : fl.F) → fl.le a b ≡ true → fl.le b c ≡ true → fl.le a c ≡ true
  pub le-min : (a b c : fl.F) → fl.le a b ≡ true → fl.le a c ≡ true → fl.le a (fl.min b c) ≡ true
  pub min-le_right : (a b : fl.F) → fl.le (fl.min a b) b ≡ true
  pub of_nat_mono : (a b : ℕ) → a ≤ b → b ≤ 4294967295 → fl.le (fl.of_nat a) (fl.of_nat b) ≡ true
  -- adding what a rate earns in a stretch of time takes nothing away
  pub le-add_earned :
      (a rate nanos : ℕ)
      → fl.le (fl.of_nat a) (fl.add (fl.of_nat a) (fl.mul (fl.seconds nanos) (fl.of_nat rate)))
        ≡ true
  pub sub_one-le : (a : fl.F) → fl.le (fl.sub a (fl.of_nat 1)) a ≡ true
