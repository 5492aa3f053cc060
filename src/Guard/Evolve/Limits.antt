-- ===== src/Guard/Evolve/Limits.antt =====
-- The churn limit, as `ensure_schema` keeps it.
use Prim.Native.String.{String}
use stackhouse.Prelude.{
  ℕ, ◌+◌, ◌≤◌, ◌≡◌, refl, sym, subst, ◌⊎◌, inl, inr, Bool, true, some, List, [], ◌∷◌, arith, length,
  is_empty, Option-cases, Bool-cases,
}
use stackhouse.Prelude.Text.{Text, text_eq}
use stackhouse.Prelude.Assoc.{
  get, insert, get-insert, get-insert_self, get_or_of_none, get_or_of_some,
}
use stackhouse.Errors.{Result, ok}
use stackhouse.Inference.{InferredColumn}
use stackhouse.Guard.Churn
use stackhouse.Guard.Churn.{ChurnTracker, prune, count, record_additions}
use stackhouse.Guard.Churn.Laws.{count-prune, count_antitone, count-record_additions}
use stackhouse.Guard.Plan.{Column, Widening, by_lower, final_widens}
use stackhouse.Guard.Evolve.{
  Catalog, Guard, admit, committed, ensure_schema, record_churn, tracker_of,
}
use stackhouse.Guard.Evolve.Changes.{Failed, ensure_schema-CallEnds}

-- No tracker counts more than the limit at an instant.
abbrev pub WithinLimit : {Db : Type 0} → Guard Db → ℕ → Type 0
WithinLimit g t =
    (table : Text) (tracker : ChurnTracker)
    → get table g.churn_tracker ≡ some tracker
    → count tracker g.churn_window t ≤ g.max_new_columns_per_window

count-new : (window t : ℕ) → count Churn.new window t ≡ 0
unfolding count Churn.new
count-new window t = refl

module _ {Db : Type 0} (g : Guard Db) (table : Text) (now : ℕ) (within : WithinLimit g now) where
  tracker_of-le : count (tracker_of g table) g.churn_window now ≤ g.max_new_columns_per_window
  unfolding tracker_of
  tracker_of-le = elim (Option-cases (get table g.churn_tracker)) [
    | inl fresh ↦
        rw (get_or_of_none Churn.new table g.churn_tracker fresh, count-new g.churn_window now)
          (omega arith)
    | inr (tracker, found) ↦
        rw (get_or_of_some Churn.new table g.churn_tracker tracker found)
          (within table tracker found)
  ]

  -- One tracker replaced by one within the limit.
  insert-WithinLimit :
      (tracker : ChurnTracker) (later : ℕ)
      → now ≤ later
      → count tracker g.churn_window later ≤ g.max_new_columns_per_window
      → WithinLimit (record g { churn_tracker = insert table tracker g.churn_tracker }) later
  insert-WithinLimit tracker later h k other found e = elim (Bool-cases (text_eq table other)) [
    | inl same ↦ ground (arith, get-insert table other tracker g.churn_tracker)
    | inr different ↦ ground (
      arith,
      get-insert table other tracker g.churn_tracker,
      within other found,
      count_antitone found g.churn_window now later h,
    )
  ]

  later-WithinLimit : (later : ℕ) → now ≤ later → WithinLimit g later
  later-WithinLimit later h other found e =
      omega (arith, within other found e, count_antitone found g.churn_window now later h)

  pruned : ChurnTracker
  pruned = prune (tracker_of g table) g.churn_window now

  pruned-le :
      (later : ℕ)
      → now ≤ later
      → count pruned g.churn_window later ≤ count (tracker_of g table) g.churn_window now
  unfolding pruned
  pruned-le later h = omega (
    arith,
    count_antitone (prune (tracker_of g table) g.churn_window now) g.churn_window now later h,
    count-prune (tracker_of g table) g.churn_window now,
  )

  abbrev with_pruned : Guard Db
  with_pruned = record g { churn_tracker = insert table pruned g.churn_tracker }

  admit-cases :
      (existing : ℕ) (adds : List Column)
      → (((admit g table existing adds now).1 ≡ g)
          × ((admit g table existing adds now).0 ≡ ok tt → is_empty adds ≡ true))
        ⊎ (((admit g table existing adds now).1 ≡ with_pruned)
            × ((admit g table existing adds now).0 ≡ ok tt
                → count pruned g.churn_window now + length adds ≤ g.max_new_columns_per_window))
  unfolding admit pruned
  admit-cases existing adds = ground arith

  with_pruned-WithinLimit : (later : ℕ) → now ≤ later → WithinLimit with_pruned later
  with_pruned-WithinLimit later h =
      insert-WithinLimit pruned later h (omega (arith, pruned-le later h, tracker_of-le))

  admit-WithinLimit :
      (existing : ℕ) (adds : List Column) (later : ℕ)
      → now ≤ later
      → WithinLimit (admit g table existing adds now).1 later
  admit-WithinLimit existing adds later h = elim (admit-cases existing adds) [
    | inl (same, _) ↦ subst (λ x. WithinLimit x later) (sym same) (later-WithinLimit later h)
    | inr (new, _) ↦ subst (λ x. WithinLimit x later) (sym new) (with_pruned-WithinLimit later h)
  ]

tracker-with_pruned :
    {Db : Type 0} (g : Guard Db) (table : Text) (now : ℕ) (within : WithinLimit g now)
    → tracker_of (with_pruned g table now within) table ≡ pruned g table now within
unfolding tracker_of
tracker-with_pruned g table now within =
    get_or_of_some Churn.new table (with_pruned g table now within).churn_tracker
      (pruned g table now within)
      (get-insert_self table (pruned g table now within) g.churn_tracker)

module _ (c : Catalog) (is_match : String → Text → Bool) where
  open c use {Db}

  -- Recording the new columns keeps the limit, if there is room for them.
  committed-WithinLimit :
      (g : Guard Db) (table : Text) (widens : List Widening) (adds : List Column) (later : ℕ)
      (d : Db)
      → WithinLimit g later
      → (is_empty adds ≡ true)
        ⊎ (count (tracker_of g table) g.churn_window later + length adds
            ≤ g.max_new_columns_per_window)
      → WithinLimit (committed c is_match g table widens adds later d) later
  unfolding committed record_churn
  committed-WithinLimit g table widens [] later d within room = within
  committed-WithinLimit g table widens (a ∷ adds) later d within (inl e) = cc
  committed-WithinLimit g table widens (a ∷ adds) later d within (inr room) =
      insert-WithinLimit g table later within
        (record_additions (tracker_of g table) later (length (a ∷ adds))) later (omega arith)
        (omega (
          arith,
          count-record_additions (tracker_of g table) g.churn_window later (length (a ∷ adds)),
        ))

  admitted-WithinLimit :
      (g : Guard Db) (table : Text) (existing : ℕ) (adds : List Column) (widens : List Widening)
      (now later : ℕ) (d : Db)
      → WithinLimit g now
      → now ≤ later
      → (admit g table existing adds now).0 ≡ ok tt
      → WithinLimit
          (committed c is_match (admit g table existing adds now).1 table widens adds later d)
          later
  admitted-WithinLimit g table existing adds widens now later d within h a =
      elim (admit-cases g table now within existing adds) [
        | inl (same, empty) ↦
            subst (λ x. WithinLimit (committed c is_match x table widens adds later d) later)
              (sym same)
              (committed-WithinLimit g table widens adds later d
                (later-WithinLimit g table now within later h) (inl (empty a)))
        | inr (new, room) ↦
            let g' = with_pruned g table now within in
            subst (λ x. WithinLimit (committed c is_match x table widens adds later d) later)
              (sym new)
              (committed-WithinLimit g' table widens adds later d
                (with_pruned-WithinLimit g table now within later h)
                (inr (
                  rw (tracker-with_pruned g table now within) (
                    omega (
                      arith,
                      room a,
                      count_antitone (pruned g table now within) g.churn_window now later h,
                    )))))
      ]

  Failed-WithinLimit :
      (g g' : Guard Db) (table : Text) (now later : ℕ)
      → WithinLimit g now
      → now ≤ later
      → Failed c is_match g table now g'
      → WithinLimit g' later
  Failed-WithinLimit g g' table now later within h failed = elim failed.pruned [
    | inl same ↦ λ other tracker found.
        let (_, _, m, w) = failed.kept in
        rw (m, w) (later-WithinLimit g table now within later h other tracker (rw same at found))
    | inr (existing, adds, e) ↦
        subst (λ x. WithinLimit x later) (sym e)
          (admit-WithinLimit g table now within existing adds later h)
  ]

  -- The churn limit is an invariant of `ensure_schema`: if no tracker counts more than the limit
  -- at the instant of the churn test, none does at the instant of the record, which is not
  -- before it, however the call ends.
  pub ensure_schema-WithinLimit :
      (g : Guard Db) (table : Text) (inferred : List InferredColumn) (now later : ℕ)
      → WithinLimit g now
      → now ≤ later
      → WithinLimit (ensure_schema c is_match g table inferred now later).1 later
  ensure_schema-WithinLimit g table inferred now later within h =
      elim (ensure_schema-CallEnds c is_match g table inferred now later) [
        | inl (e, _, failed) ↦ Failed-WithinLimit g _ table now later within h failed
        | inr (inl (r, s, _, _)) ↦
            subst (λ (x : Result (List Column) × Guard Db). WithinLimit x.1 later) (sym s)
              (later-WithinLimit g table now within later h)
        | inr (inr (r, s, _, done)) ↦
            subst (λ x. WithinLimit x later) (sym done.left)
              (admitted-WithinLimit g table (length (by_lower done.live)) done.plan.adds
                (final_widens (by_lower done.live) done.plan.widens) now later done.d within h
                done.admitted)
      ]
