-- ===== src/Guard/Plan/Coverage.antt =====
-- The columns that a plan answers for.
use stackhouse.Prelude.{
  ◌≡◌, refl, ◌⊎◌, inl, inr, true, some, none, List, [], ◌∷◌, ◌++◌, All, All-append, All-map, In,
  In-append_left, In-append_right, subst,
}
use stackhouse.Prelude.Text.{to_lowercase}
use stackhouse.Prelude.Assoc.{Assoc, get}
use stackhouse.Errors.{ok, ◌>>=◌, >>=-eq-ok, ok-injective}
use stackhouse.Inference.{PgType, InferredColumn, from_data_type, can_promote_to, common_type}
use stackhouse.Inference.Lattice.{common_type-can_promote_to, of_pg_eq, can_promote_to_refl}
use stackhouse.Guard.{ColumnInfo}
use stackhouse.Guard.Plan.{Plan, Column, plan_column, diff, and_then, is_base}
use stackhouse.Guard.Plan.Cases.{Entry, plan_column-Entry}

-- A column of the answer is one that the plan adds at the type answered, or one that the table
-- has, at the type answered or widened to it by the plan.
abbrev pub IsSettled : Assoc ColumnInfo → Plan → Column → Type 0
IsSettled live p x =
    ((get (to_lowercase x.0) live ≡ none) × In x p.adds)
    ⊎ ((info : ColumnInfo) × (t : PgType) × (get (to_lowercase x.0) live ≡ some info)
        × (from_data_type info.col_type ≡ some t)
        × ((x.1 ≡ t) ⊎ In (info.name, t, x.1) p.widens))

IsSettled-left :
    (live : Assoc ColumnInfo) (p q : Plan) (x : Column)
    → IsSettled live p x
    → IsSettled live (and_then p q) x
unfolding and_then
IsSettled-left live p q x (inl (g, i)) = inl (g, In-append_left _ p.adds q.adds i)
IsSettled-left live p q x (inr (info, t, g, e, inl s)) = inr (info, t, g, e, inl s)
IsSettled-left live p q x (inr (info, t, g, e, inr i)) =
    inr (info, t, g, e, inr (In-append_left _ p.widens q.widens i))

IsSettled-right :
    (live : Assoc ColumnInfo) (p q : Plan) (x : Column)
    → IsSettled live q x
    → IsSettled live (and_then p q) x
unfolding and_then
IsSettled-right live p q x (inl (g, i)) = inl (g, In-append_right _ p.adds q.adds i)
IsSettled-right live p q x (inr (info, t, g, e, inl s)) = inr (info, t, g, e, inl s)
IsSettled-right live p q x (inr (info, t, g, e, inr i)) =
    inr (info, t, g, e, inr (In-append_right _ p.widens q.widens i))

-- What one column contributes.
abbrev pub IsAnswered : Plan → InferredColumn → Type 0
IsAnswered p c =
    (is_base (to_lowercase c.name) ≡ true)
    ⊎ ((t : PgType) × In (c.name, t) p.result × (can_promote_to c.pg_type t ≡ true))

Entry-IsSettled :
    (live : Assoc ColumnInfo) (col : InferredColumn) (p : Plan)
    → Entry live col p
    → All (IsSettled live p) p.result × IsAnswered p col
Entry-IsSettled live col p (inl (b, e)) = rw e (tt, inl b)
Entry-IsSettled live col p (inr (inl (_, g, e))) =
    rw e ((inl (g, inl refl), tt), inr (col.pg_type, inl refl, can_promote_to_refl col.pg_type))
Entry-IsSettled live col p (inr (inr (_, (info, t, g, e, a, r, inl (s, w))))) = rw r (
  (inr (info, t, g, e, inl (of_pg_eq _ _ s)), tt),
  inr (common_type t col.pg_type, inl refl, (common_type-can_promote_to t col.pg_type).1),
)
Entry-IsSettled live col p (inr (inr (_, (info, t, g, e, a, r, inr (ne, w))))) =
    rw (r, w)
      (
        (inr (info, t, g, e, inr (inl refl)), tt),
        inr (common_type t col.pg_type, inl refl, (common_type-can_promote_to t col.pg_type).1),
      )

IsAnswered-left : (p q : Plan) (c : InferredColumn) → IsAnswered p c → IsAnswered (and_then p q) c
unfolding and_then
IsAnswered-left p q c (inl b) = inl b
IsAnswered-left p q c (inr (t, i, k)) = inr (t, In-append_left _ p.result q.result i, k)

IsAnswered-right : (p q : Plan) (c : InferredColumn) → IsAnswered q c → IsAnswered (and_then p q) c
unfolding and_then
IsAnswered-right p q c (inl b) = inl b
IsAnswered-right p q c (inr (t, i, k)) = inr (t, In-append_right _ p.result q.result i, k)

result-and_then : (p q : Plan) → (and_then p q).result ≡ p.result ++ q.result
unfolding and_then
result-and_then p q = refl

-- A plan answers every column asked for but the base ones, at a type to which the payload's type
-- can be promoted. Every column of the answer either has no column of the table with its name in lower case and
-- is among the plan's additions at the type answered, or there is such a column, which has the type answered or
-- is among the plan's widenings from its type to the type answered.
pub diff-covers :
    (live : Assoc ColumnInfo) (cols : List InferredColumn) (p : Plan)
    → diff live cols ≡ ok p
    → All (IsSettled live p) p.result × All (IsAnswered p) cols
unfolding diff
diff-covers live [] p h = rw (← ok-injective h) (tt, tt)
diff-covers live (col ∷ cols) p h =
    let (q, hq, h') =
      >>=-eq-ok (plan_column live col) (λ q. diff live cols >>= λ r. ok (and_then q r)) h in
    let (r, hr, e) = >>=-eq-ok (diff live cols) (λ r. ok (and_then q r)) h' in
    let (settled, answered) = Entry-IsSettled live col q (plan_column-Entry live col q hq) in
    let (settled', answered') = diff-covers live cols r hr in
    subst (λ (x : Plan). All (IsSettled live x) x.result × All (IsAnswered x) (col ∷ cols))
      (ok-injective e)
      (
        rw (result-and_then q r) (
            All-append (IsSettled live (and_then q r)) q.result r.result
              (All-map _ _ q.result (IsSettled-left live q r) settled)
              (All-map _ _ r.result (IsSettled-right live q r) settled')),
        (IsAnswered-left q r col answered, All-map _ _ cols (IsAnswered-right q r) answered'),
      )
