-- ===== src/Guard/Churn/Laws.antt =====
-- What the churn tracker counts.
use stackhouse.Prelude.{
  ℕ, zero, suc, ◌+◌, ◌≤◌, ◌≡◌, refl, ap, List, [], ◌∷◌, arith, length, retain, replicate,
  retain_idem, retain-append, length-append, length-replicate,
}
use stackhouse.Guard.Churn.{ChurnTracker, is_recent, prune, count, record_additions}

-- Pruning at an instant leaves the count at that instant as it was.
pub count-prune :
    (c : ChurnTracker) (window now : ℕ) → count (prune c window now) window now ≡ count c window now
unfolding count prune
count-prune c window now = ap length (retain_idem (is_recent window now) c.additions)

retain_older :
    (window now later : ℕ) (ts : List ℕ)
    → now ≤ later
    → length (retain (is_recent window later) ts) ≤ length (retain (is_recent window now) ts)
retain_older window now later [] h = omega arith
retain_older window now later (t ∷ ts) h = ground (arith, retain_older window now later ts h)

-- As time passes, without a record, the count does not grow.
pub count_antitone :
    (c : ChurnTracker) (window now later : ℕ)
    → now ≤ later
    → count c window later ≤ count c window now
unfolding count
count_antitone c window now later h = retain_older window now later c.additions h

retain-replicate :
    (window now n : ℕ) → retain (is_recent window now) (replicate n now) ≡ replicate n now
retain-replicate window now zero = refl
retain-replicate window now (suc n) = ground (arith, retain-replicate window now n)

-- Recording new columns at an instant adds exactly their number to the count at that instant.
pub count-record_additions :
    (c : ChurnTracker) (window now n : ℕ)
    → count (record_additions c now n) window now ≡ count c window now + n
unfolding count record_additions
count-record_additions c window now n =
    rw
      (
        retain-append (is_recent window now) c.additions (replicate n now),
        length-append (retain (is_recent window now) c.additions)
            (retain (is_recent window now) (replicate n now)),
        retain-replicate window now n,
        length-replicate n now,
      )
      refl
