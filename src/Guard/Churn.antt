-- ===== src/Guard/Churn.antt =====
-- src/security/guard.rs: `ChurnTracker`, the instants at which a table gained columns. Instants and
-- windows are numbers of one unit.
pub mod Laws
use stackhouse.Prelude.{ℕ, ◌-◌, Bool, List, [], ◌++◌, leb, length, retain, replicate}

pub record ChurnTracker : Type 0 where
  pub additions : List ℕ

unfoldable pub new : ChurnTracker
new = record { additions = [] }

-- `now.saturating_duration_since(t) <= window`
abbrev pub is_recent : ℕ → ℕ → ℕ → Bool
is_recent window now t = leb (now - t) window

unfoldable pub prune : ChurnTracker → ℕ → ℕ → ChurnTracker
prune c window now = record { additions = retain (is_recent window now) c.additions }

unfoldable pub count : ChurnTracker → ℕ → ℕ → ℕ
count c window now = length (retain (is_recent window now) c.additions)

unfoldable pub record_additions : ChurnTracker → ℕ → ℕ → ChurnTracker
record_additions c now n = record { additions = c.additions ++ replicate n now }
