-- ===== src/Guard/Plan/Recheck.antt =====
-- The second look at the widenings, against the columns that the plan was made from.
use stackhouse.Prelude.{
  ◌≡◌, refl, true, false, not, some, List, [], ◌∷◌, arith, All, All-append, retain_of_All, inl, inr,
  subst, foldl,
}
use stackhouse.Prelude.Text.{Text, to_lowercase, text_eq_iff}
use stackhouse.Prelude.Assoc.{Assoc, get, insert}
use stackhouse.Errors.{ok, ◌>>=◌, >>=-eq-ok, ok-injective}
use stackhouse.Inference.{PgType, InferredColumn, from_data_type, common_type, pg_eq}
use stackhouse.Inference.Lattice.{common_type_assoc, common_type_idem}
use stackhouse.Guard.{ColumnInfo}
use stackhouse.Guard.Plan.Cases.{Entry, plan_column-Entry}
use stackhouse.Guard.Plan.{
  Plan, Widening, plan_column, diff, by_lower, index_column, final_widens, is_done, and_then,
}

-- Every column stands under its name in lower case.
abbrev pub IsLowered : Assoc ColumnInfo → Type 0
IsLowered live = All (λ e. to_lowercase e.1.name ≡ e.0) live

insert-IsLowered :
    (k : Text) (c : ColumnInfo) (m : Assoc ColumnInfo)
    → to_lowercase c.name ≡ k
    → IsLowered m
    → IsLowered (insert k c m)
unfolding insert
insert-IsLowered k c [] n h = (n, tt)
insert-IsLowered k c ((j, v) ∷ m) n h =
    ground (arith, text_eq_iff j k, insert-IsLowered k c m n h.1)

foldl-IsLowered :
    (cs : List ColumnInfo) (m : Assoc ColumnInfo)
    → IsLowered m
    → IsLowered (foldl index_column m cs)
unfolding index_column
foldl-IsLowered [] m h = h
foldl-IsLowered (c ∷ cs) m h =
    foldl-IsLowered cs (insert (to_lowercase c.name) c m)
      (insert-IsLowered (to_lowercase c.name) c m refl h)

pub by_lower-IsLowered : (live : List ColumnInfo) → IsLowered (by_lower live)
unfolding by_lower
by_lower-IsLowered live = foldl-IsLowered live [] tt

get-IsLowered :
    (k : Text) (m : Assoc ColumnInfo) (info : ColumnInfo)
    → IsLowered m
    → get k m ≡ some info
    → to_lowercase info.name ≡ k
unfolding get
get-IsLowered k [] info h g = cc
get-IsLowered k ((j, v) ∷ m) info h g = ground (arith, text_eq_iff j k, get-IsLowered k m info h.1)

module _ (live : Assoc ColumnInfo) (lowered : IsLowered live) where
  -- What the re-check would have to find to drop a widening.
  abbrev Pending : Widening → Type 0
  Pending w = not (is_done w (get (to_lowercase w.0) live)) ≡ true

  widening-Pending :
      (col : InferredColumn) (info : ColumnInfo) (existing : PgType)
      → get (to_lowercase col.name) live ≡ some info
      → from_data_type info.col_type ≡ some existing
      → pg_eq (common_type existing col.pg_type) existing ≡ false
      → Pending (info.name, existing, common_type existing col.pg_type)
  unfolding is_done
  widening-Pending col info existing g t ne =
      rw (get-IsLowered (to_lowercase col.name) live info lowered g, g, t)
        (rw (← common_type_assoc existing existing col.pg_type, common_type_idem existing, ne) refl)

  Entry-Pending : (col : InferredColumn) (p : Plan) → Entry live col p → All Pending p.widens
  Entry-Pending col p (inl (_, e)) = rw e tt
  Entry-Pending col p (inr (inl (_, _, e))) = rw e tt
  Entry-Pending col p (inr (inr (_, (info, t, g, e, _, _, inl (_, w))))) = rw w tt
  Entry-Pending col p (inr (inr (_, (info, t, g, e, _, _, inr (ne, w))))) =
      rw w (widening-Pending col info t g e ne, tt)

  diff-Pending :
      (cols : List InferredColumn) (p : Plan) → diff live cols ≡ ok p → All Pending p.widens
  unfolding diff
  diff-Pending [] p h = rw (← ok-injective h) tt
  diff-Pending (col ∷ cols) p h =
      let (q, hq, h') =
        >>=-eq-ok (plan_column live col) (λ q. diff live cols >>= λ r. ok (and_then q r)) h in
      let (r, hr, e) = >>=-eq-ok (diff live cols) (λ r. ok (and_then q r)) h' in
      subst (λ (x : Plan). All Pending x.widens) (ok-injective e)
        (All-append Pending q.widens r.widens
          (Entry-Pending col q (plan_column-Entry live col q hq)) (diff-Pending cols r hr))

-- The re-check of the widenings drops none of them: it looks at the columns from which the plan
-- was made.
pub final_widens-diff :
    (columns : List ColumnInfo) (cols : List InferredColumn) (p : Plan)
    → diff (by_lower columns) cols ≡ ok p
    → final_widens (by_lower columns) p.widens ≡ p.widens
unfolding final_widens
final_widens-diff columns cols p h =
    retain_of_All _ p.widens (diff-Pending (by_lower columns) (by_lower-IsLowered columns) cols p h)
