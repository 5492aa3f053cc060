-- ===== src/Guard/Evolve/Changes.antt =====
-- The ways in which a call of `ensure_schema` ends, and what each leaves.
use Prim.Native.String.{String}
use stackhouse.Prelude.{
  ℕ, ◌≡◌, refl, subst, ap, ◌⊎◌, inl, inr, Bool, some, List, arith, length, Option-cases,
}
use stackhouse.Prelude.Text.{Text}
use stackhouse.Errors.{Result-cases, StackhouseError, Result, ok, err}
use stackhouse.Inference.{InferredColumn}
use stackhouse.Guard.{ColumnInfo}
use stackhouse.Guard.Plan.{Plan, Column, diff, by_lower, final_widens}
use stackhouse.Guard.Evolve.{
  Catalog, Guard, admit, carry_out, committed, apply_changes, evolve, open_tx, fetch_table_info_tx,
  validate_names, cached_answer, ensure_schema,
}

-- What a failing call leaves as it was.
abbrev pub Kept : {Db : Type 0} → Guard Db → Guard Db → Type 0
Kept g g' =
    (g'.db ≡ g.db)
    × (g'.schema_cache ≡ g.schema_cache)
    × (g'.max_new_columns_per_window ≡ g.max_new_columns_per_window)
    × (g'.churn_window ≡ g.churn_window)

pub admit-Kept :
    {Db : Type 0} (g : Guard Db) (table : Text) (existing : ℕ) (adds : List Column) (now : ℕ)
    → Kept g (admit g table existing adds now).1
unfolding admit
admit-Kept g table existing adds now = ground arith

module _ (c : Catalog) (is_match : String → Text → Bool) where
  open c use {Db}

  -- What has been passed on the way to a committed change.
  pub record Done (g : Guard Db) (table : Text) (inferred : List InferredColumn) (now later : ℕ)
      (r : List Column) (g'' : Guard Db) : Type 0 where
    pub tx : Db
    pub live : List ColumnInfo
    pub plan : Plan
    pub d : Db
    pub opened : open_tx c is_match g.db table ≡ ok tx
    pub fetched : fetch_table_info_tx c is_match tx table ≡ ok live
    pub planned : diff (by_lower live) inferred ≡ ok plan
    pub admitted : (admit g table (length (by_lower live)) plan.adds now).0 ≡ ok tt
    pub applied :
        apply_changes c is_match tx table (final_widens (by_lower live) plan.widens) plan.adds
        ≡ ok d
    pub answered : r ≡ plan.result
    pub left :
        g''
        ≡ committed c is_match
            (admit g table (length (by_lower live)) plan.adds now).1
            table
            (final_widens (by_lower live) plan.widens)
            plan.adds
            later
            d

  -- A failure, with the churn tracker that the admission may have pruned.
  pub record Failed (g : Guard Db) (table : Text) (now : ℕ) (g'' : Guard Db) : Type 0 where
    pub kept : Kept g g''
    pub pruned :
        (g''.churn_tracker ≡ g.churn_tracker)
        ⊎ ((existing : ℕ) × (adds : List Column) × (g'' ≡ (admit g table existing adds now).1))

  abbrev Outcome :
      Guard Db → Text → List InferredColumn → ℕ → ℕ → Result (List Column) × Guard Db → Type 0
  Outcome g table inferred now later x =
      ((e : StackhouseError) × (x.0 ≡ err e) × Failed g table now x.1)
      ⊎ ((r : List Column) × (x.0 ≡ ok r) × Done g table inferred now later r x.1)

  unmoved : (g : Guard Db) (table : Text) (now : ℕ) → Failed g table now g
  unmoved g table now = record { kept = (refl, refl, refl, refl); pruned = inl refl }

  pruned_only :
      (g : Guard Db) (table : Text) (existing : ℕ) (adds : List Column) (now : ℕ)
      → Failed g table now (admit g table existing adds now).1
  pruned_only g table existing adds now = record {
    kept = admit-Kept g table existing adds now;
    pruned = inr (existing, adds, refl);
  }

  module _ (g : Guard Db) (table : Text) (inferred : List InferredColumn) (now later : ℕ) where
    abbrev Ends : Result (List Column) × Guard Db → Type 0
    Ends = Outcome g table inferred now later

    carry_out-Outcome :
        (tx : Db) (live : List ColumnInfo) (plan : Plan)
        → open_tx c is_match g.db table ≡ ok tx
        → fetch_table_info_tx c is_match tx table ≡ ok live
        → diff (by_lower live) inferred ≡ ok plan
        → Ends (carry_out c is_match g tx table live plan now later)
    unfolding carry_out
    carry_out-Outcome tx live plan o f p =
        let a = admit g table (length (by_lower live)) plan.adds now in
        let widens = final_widens (by_lower live) plan.widens in
        elim (Result-cases a.0) [
          | inl (e, q) ↦
              subst Ends {x = (err e, a.1)} (rw (q, carry_out) refl)
                (inl (e, refl, pruned_only g table (length (by_lower live)) plan.adds now))
          | inr (_, q) ↦ elim (Result-cases (apply_changes c is_match tx table widens plan.adds)) [
            | inl (e, r) ↦
                subst Ends {x = (err e, a.1)} (rw (q, r, carry_out) refl)
                  (inl (e, refl, pruned_only g table (length (by_lower live)) plan.adds now))
            | inr (d, r) ↦
                subst Ends
                  {x = (ok plan.result, committed c is_match a.1 table widens plan.adds later d)}
                  (rw (q, r, carry_out) refl)
                  (inr (
                    plan.result,
                    refl,
                    record {
                      tx = tx;
                      live = live;
                      plan = plan;
                      d = d;
                      opened = o;
                      fetched = f;
                      planned = p;
                      admitted = q;
                      applied = r;
                      answered = refl;
                      left = refl;
                    },
                  ))
          ]
        ]

    evolve-Outcome : Ends (evolve c is_match g table inferred now later)
    unfolding evolve
    evolve-Outcome = elim (Result-cases (open_tx c is_match g.db table)) [
      | inl (e, o) ↦
          subst Ends {x = (err e, g)} (rw (o, evolve) refl) (inl (e, refl, unmoved g table now))
      | inr (tx, o) ↦ elim (Result-cases (fetch_table_info_tx c is_match tx table)) [
        | inl (e, f) ↦
            subst Ends {x = (err e, g)} (rw (o, f, evolve) refl)
              (inl (e, refl, unmoved g table now))
        | inr (live, f) ↦ elim (Result-cases (diff (by_lower live) inferred)) [
          | inl (e, p) ↦
              subst Ends {x = (err e, g)} (rw (o, f, p, evolve) refl)
                (inl (e, refl, unmoved g table now))
          | inr (plan, p) ↦
              subst Ends {x = carry_out c is_match g tx table live plan now later}
                (rw (o, f, p, evolve) refl) (carry_out-Outcome tx live plan o f p)
        ]
      ]
    ]

    -- The ways in which a call ends: refused at once, answered from the cache, or as above.
    abbrev CallEnds : Result (List Column) × Guard Db → Type 0
    CallEnds x =
        ((e : StackhouseError) × (x.0 ≡ err e) × Failed g table now x.1)
        ⊎ ((r : List Column) × (x ≡ (ok r, g))
            × (validate_names c is_match table inferred ≡ ok tt)
            × (cached_answer c is_match g table inferred ≡ some r))
        ⊎ ((r : List Column) × (x.0 ≡ ok r)
            × (validate_names c is_match table inferred ≡ ok tt)
            × Done g table inferred now later r x.1)

    of_evolve :
        (x : Result (List Column) × Guard Db)
        → validate_names c is_match table inferred ≡ ok tt
        → Ends x
        → CallEnds x
    of_evolve x v (inl failed) = inl failed
    of_evolve x v (inr (r, e, done)) = inr (inr (r, e, v, done))

    pub ensure_schema-CallEnds : CallEnds (ensure_schema c is_match g table inferred now later)
    unfolding ensure_schema
    ensure_schema-CallEnds = elim (Result-cases (validate_names c is_match table inferred)) [
      | inl (e, v) ↦
          subst CallEnds {x = (err e, g)} (rw (v, ensure_schema) refl)
            (inl (e, refl, unmoved g table now))
      | inr (_, v) ↦ elim (Option-cases (cached_answer c is_match g table inferred)) [
        | inr (r, k) ↦
            subst CallEnds {x = (ok r, g)} (rw (v, k, ensure_schema) refl)
              (inr (inl (r, refl, v, k)))
        | inl k ↦
            subst CallEnds {x = evolve c is_match g table inferred now later}
              (rw (v, k, ensure_schema) refl)
              (of_evolve (evolve c is_match g table inferred now later) v evolve-Outcome)
      ]
    ]

    -- A failed call of `ensure_schema` leaves the database, the cache, the limit and its window
    -- as they were.
    pub ensure_schema-error :
        (e : StackhouseError)
        → (ensure_schema c is_match g table inferred now later).0 ≡ err e
        → Kept g (ensure_schema c is_match g table inferred now later).1
    ensure_schema-error e h = elim ensure_schema-CallEnds [
      | inl (_, _, failed) ↦ failed.kept
      | inr (inl (r, s, _, _)) ↦ cc (ap (λ (y : Result (List Column) × Guard Db). y.0) s)
      | inr (inr (r, s, _, _)) ↦ cc s
    ]
