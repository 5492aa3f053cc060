-- ===== src/Guard/Evolve/Success.antt =====
-- What a successful call of `ensure_schema` has done.
use Prim.Native.String.{String}
use stackhouse.Prelude.{
  ◌++◌, ℕ, ◌+◌, ◌≤◌, ◌≡◌, refl, sym, subst, ap, ◌∙◌, ◌⊎◌, inl, inr, Bool, some, List, arith, length,
}
use stackhouse.Prelude.Text.{Text, codes}
use stackhouse.Prelude.Assoc.{remove}
use stackhouse.Errors.{Result, ok, ok-injective}
use stackhouse.Inference.{InferredColumn}
use stackhouse.Guard.{ColumnInfo, max_columns_per_table}
use stackhouse.Guard.Plan.Recheck.{final_widens-diff}
use stackhouse.Guard.Plan.{Plan, Column, Widening, diff, by_lower, final_widens}
use stackhouse.Guard.Evolve.{
  Catalog, Guard, admit, committed, ensure_schema, cached_answer, validate_names,
}
use stackhouse.Guard.Evolve.Changes.{Done, admit-Kept, ensure_schema-CallEnds}
use stackhouse.Guard.Evolve.{apply_changes, open_tx, fetch_table_info_tx, record_auto_migration}
use stackhouse.Guard.Plan.{up_sql, down_sql}

-- An admitted change stays within the cap.
admit-cap :
    {Db : Type 0} (g : Guard Db) (table : Text) (existing : ℕ) (adds : List Column) (now : ℕ)
    → (admit g table existing adds now).0 ≡ ok tt
    → existing + length adds ≤ max_columns_per_table
unfolding admit
admit-cap g table existing adds now h = ground arith

module _ (c : Catalog) (is_match : String → Text → Bool) where
  open c use {Db}

  -- A plan made from the columns that the transaction reads, and carried out by it: `r` is the
  -- answer and `g'` the guard that is left.
  pub record Carried (g : Guard Db) (table : Text) (inferred : List InferredColumn)
      (r : List Column) (g' : Guard Db) : Type 0 where
    pub tx : Db
    pub live : List ColumnInfo
    pub plan : Plan
    pub d : Db
    pub opened : open_tx c is_match g.db table ≡ ok tx
    pub fetched : fetch_table_info_tx c is_match tx table ≡ ok live
    pub planned : diff (by_lower live) inferred ≡ ok plan
    pub capped : length (by_lower live) + length plan.adds ≤ max_columns_per_table
    pub applied : apply_changes c is_match tx table plan.widens plan.adds ≡ ok d
    pub answered : r ≡ plan.result
    pub database :
        g'.db
        ≡ record_auto_migration c is_match d
            (codes "evolve_schema_" ++ table)
            (up_sql table plan.widens plan.adds)
            (down_sql table plan.widens plan.adds)
    pub forgotten : g'.schema_cache ≡ remove table g.schema_cache

  committed_lem :
      (g g' : Guard Db) (table : Text) (ws : List Widening) (adds : List Column) (later : ℕ)
      (d : Db)
      → g'.schema_cache ≡ g.schema_cache
      → let g'' = committed c is_match g' table ws adds later d in
        (g''.schema_cache ≡ remove table g.schema_cache)
        × (g''.db
            ≡ record_auto_migration c is_match d
                (codes "evolve_schema_" ++ table)
                (up_sql table ws adds)
                (down_sql table ws adds))
  unfolding committed
  committed_lem g g' table ws adds later d e = (ap (remove table) e, refl)

  Carried-of_Done :
      (g : Guard Db) (table : Text) (inferred : List InferredColumn) (now later : ℕ)
      (r : List Column) (g'' : Guard Db)
      → Done c is_match g table inferred now later r g''
      → Carried g table inferred r g''
  Carried-of_Done g table inferred now later r g'' done =
      let e = final_widens-diff done.live inferred done.plan done.planned in
      let n = length (by_lower done.live) in
      let (cache, database) =
        committed_lem g (admit g table n done.plan.adds now).1 table
          (final_widens (by_lower done.live) done.plan.widens) done.plan.adds later done.d
          (admit-Kept g table n done.plan.adds now).1 in
      record {
        tx = done.tx;
        live = done.live;
        plan = done.plan;
        d = done.d;
        opened = done.opened;
        fetched = done.fetched;
        planned = done.planned;
        capped = admit-cap g table n done.plan.adds now done.admitted;
        applied =
            subst (λ ws. apply_changes c is_match done.tx table ws done.plan.adds ≡ ok done.d) e
              done.applied;
        answered = done.answered;
        database =
            ap (λ (x : Guard Db). x.db) done.left
            ∙ database
            ∙ ap
                (λ ws.
                  record_auto_migration c is_match done.d (codes "evolve_schema_" ++ table)
                    (up_sql table ws done.plan.adds) (down_sql table ws done.plan.adds))
                e;
        forgotten = ap (λ (x : Guard Db). x.schema_cache) done.left ∙ cache;
      }

  -- A successful call is answered by the cache and changes nothing, or it has carried out, in a
  -- transaction under the table's lock, the plan made from the columns that the transaction reads:
  -- its answer is the plan's, the table stays within the cap on columns, the database is the one
  -- after all of the plan's statements, the commit and the entry in the migration history, and the
  -- table's columns are no longer cached.
  pub ensure_schema-ok :
      (g : Guard Db) (table : Text) (inferred : List InferredColumn) (now later : ℕ)
      (r : List Column)
      → (ensure_schema c is_match g table inferred now later).0 ≡ ok r
      → let g' = (ensure_schema c is_match g table inferred now later).1 in
        (validate_names c is_match table inferred ≡ ok tt)
        × (((g' ≡ g) × (cached_answer c is_match g table inferred ≡ some r))
            ⊎ Carried g table inferred r g')
  ensure_schema-ok g table inferred now later r h =
      elim (ensure_schema-CallEnds c is_match g table inferred now later) [
        | inl (e, s, _) ↦ cc (s, h)
        | inr (inl (r', s, v, k)) ↦
            let first : ok r ≡ ok r' =
              sym h ∙ ap (λ (y : Result (List Column) × Guard Db). y.0) s in
            (
              v,
              inl (
                ap (λ (y : Result (List Column) × Guard Db). y.1) s,
                k ∙ ap some (sym (ok-injective first)),
              ),
            )
        | inr (inr (r', s, v, done)) ↦ (
          v,
          inr (
              subst
                (λ x.
                  Carried g table inferred x
                    (ensure_schema c is_match g table inferred now later).1)
                (ok-injective (sym s ∙ h)) (Carried-of_Done g table inferred now later r' _ done)),
        )
      ]
