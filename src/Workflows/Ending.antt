-- ===== src/Workflows/Ending.antt =====
-- A run ends: every round brings a pending step out of `Pending`.
use stackhouse.Prelude.{
  ℕ, zero, suc, ◌≤◌, ◌<◌, ◌≡◌, refl, sym, ap, ◌∙◌, subst, Bool, true, none, some, List, [], ◌∷◌,
  arith, Option-cases, Bool-cases, inl, inr, all, All, In, In-All, In-retain, List-cases, length,
  retain, ltb, retain-All, length-retain_lt, &&-true, All-map, is_some,
}
use stackhouse.Prelude.Text.{Text}
use stackhouse.Prelude.Assoc.{Assoc, get, get-insert, get-remove_self}
use stackhouse.Json.{Value}
use stackhouse.Errors.{Result, ok, err}
use stackhouse.Workflows.Types.{
  WorkflowStep, StepStatus, Outside, State, entry, get_step_status_sync, complete_run,
}
use stackhouse.Workflows.Steps.{Executed}
use stackhouse.Workflows.Dag.{
  is_pending, all_done, is_ready, finish, settle, run_ready, rounds, resolve_step_input,
}
use stackhouse.Workflows.Status.{stage, Keeps, Keeps-trans, stage-update_step_state_self}
use stackhouse.Workflows.Status.Totality.{IsCalm, Starter, Persistent, keeping, Good}

module _ (o : Outside) (run_id : Text) where
  open o use {W}

  stage-pending :
      (s : State W) (step_id : Text)
      → is_pending (get_step_status_sync run_id step_id s) ≡ true
      → stage run_id s step_id ≤ 1
  unfolding get_step_status_sync
  stage-pending s step_id h = elim (Option-cases (entry run_id step_id s)) [
    | inl gone ↦ rw gone (omega arith)
    | inr (st, held) ↦
        rw
          (
            held,
            sym (
                  ap (λ e. is_pending (elim e [ none ↦ StepStatus.pending | some t ↦ t.status ]))
                    held)
                ∙ h,
          )
          (omega arith)
  ]

  stage-settle :
      (step : WorkflowStep) (answer : Result Value) (completed : Assoc Value) (s : State W)
      → 1 ≤ stage run_id s step.id
      → stage run_id (settle o run_id step answer completed s).1 step.id ≡ 2
  unfolding settle
  stage-settle step (ok output) completed s held =
      stage-update_step_state_self run_id o StepStatus.completed (some output) step.id s refl held
  stage-settle step (err e) completed s held =
      stage-update_step_state_self run_id o StepStatus.failed none step.id s refl held

  get-finish :
      (steps : List WorkflowStep) (completed : Assoc Value) (s : State W)
      → get run_id (finish o run_id steps completed s).active_runs ≡ none
  unfolding finish complete_run
  get-finish steps completed s = elim (Bool-cases (all_done o run_id steps s)) [
    | inl done ↦ rw (done, finish) (get-remove_self run_id s.active_runs)
    | inr stuck ↦ rw (stuck, finish) (get-remove_self run_id s.active_runs)
  ]

  abbrev pub is_open : State W → WorkflowStep → Bool
  is_open s step = ltb (stage run_id s step.id) 2

  -- Outputs are never lost.
  abbrev pub Grows : Assoc Value → Assoc Value → Type 0
  Grows c c' = (d : Text) → is_some (get d c) ≡ true → is_some (get d c') ≡ true

  pub settle-Grows :
      (step : WorkflowStep) (answer : Result Value) (completed : Assoc Value) (s : State W)
      → Grows completed (settle o run_id step answer completed s).0
  unfolding settle
  settle-Grows step (ok output) completed s d h =
      ground (arith, get-insert step.id d output completed)
  settle-Grows step (err e) completed s d h = h

  module _ (execute : WorkflowStep → Value → State W → Executed o run_id) where
    -- The loop over the ready steps, where each of them is executed.
    module _ (start : Starter o) (p : Persistent o run_id) where
      open p use {Rel, Rel_refl, Rel_trans, of_update}

      settle-Rel :
          (step : WorkflowStep) (answer : Result Value) (completed : Assoc Value) (s : State W)
          → Rel s (settle o run_id step answer completed s).1
      unfolding settle
      settle-Rel step (ok output) completed s =
          of_update StepStatus.completed (some output) step.id s refl
      settle-Rel step (err e) completed s = of_update StepStatus.failed none step.id s refl

      pub run_ready-Rel :
          (ready : List WorkflowStep) (completed : Assoc Value) (s : State W)
          → All (Good o run_id start p execute) ready
          → (completed' : Assoc Value) × (s' : State W) × (run_ready o run_id execute ready
                completed s
              ≡ some (completed', s'))
            × Rel s s'
            × Grows completed completed'
      unfolding run_ready
      run_ready-Rel [] completed s good = (completed, s, refl, Rel_refl s, λ d h. h)
      run_ready-Rel (step ∷ ready) completed s (good, goods) =
          let (answer, s', e, k) = good (resolve_step_input step completed) s in
          let c' = (settle o run_id step answer completed s').0 in
          let s'' = (settle o run_id step answer completed s').1 in
          let (c'', s''', e', k', g) = run_ready-Rel ready c' s'' goods in
          (
            c'',
            s''',
            rw (e, run_ready) e',
            Rel_trans s s' s''' k (Rel_trans s' s'' s''' (settle-Rel step answer completed s') k'),
            λ d h. g d (settle-Grows step answer completed s' d h),
          )

    pub rounds_over :
        (n : ℕ) (steps : List WorkflowStep) (completed : Assoc Value) (s : State W)
        → retain (is_ready o run_id completed s) steps ≡ []
        → rounds o run_id execute (suc n) steps completed s
          ≡ some (finish o run_id steps completed s)
    unfolding rounds
    rounds_over n steps completed s e = rw (e, rounds) refl

    pub rounds_on :
        (n : ℕ) (steps : List WorkflowStep) (completed completed' : Assoc Value) (s s' : State W)
        (step : WorkflowStep) (ready : List WorkflowStep)
        → retain (is_ready o run_id completed s) steps ≡ step ∷ ready
        → run_ready o run_id execute (step ∷ ready) completed s ≡ some (completed', s')
        → rounds o run_id execute (suc n) steps completed s
          ≡ rounds o run_id execute n steps completed' s'
    unfolding rounds
    rounds_on n steps completed completed' s s' step ready e ran = rw (e, rounds) (rw ran refl)

  module _ (start : Starter o) (calm : IsCalm o run_id)
      (execute : WorkflowStep → Value → State W → Executed o run_id) where
    abbrev pub GoodStep : WorkflowStep → Type 0
    GoodStep = Good o run_id start (keeping o run_id calm) execute

    -- The first of the ready steps leaves `Pending`.
    run_ready-first :
        (step : WorkflowStep) (ready : List WorkflowStep) (completed : Assoc Value) (s : State W)
        → All GoodStep (step ∷ ready)
        → 1 ≤ stage run_id s step.id
        → (completed' : Assoc Value) × (s' : State W) × (run_ready o run_id execute
              (step ∷ ready)
              completed
              s
            ≡ some (completed', s'))
          × Keeps run_id s s'
          × (2 ≤ stage run_id s' step.id)
    unfolding run_ready
    run_ready-first step ready completed s (good, goods) held =
        let (answer, s', e, k) = good (resolve_step_input step completed) s in
        let c' = (settle o run_id step answer completed s').0 in
        let s'' = (settle o run_id step answer completed s').1 in
        let (c'', s''', e', k', g) =
          run_ready-Rel execute start (keeping o run_id calm) ready c' s'' goods in
        (
          c'',
          s''',
          rw (e, run_ready) e',
          Keeps-trans run_id s s' s''' k (
              Keeps-trans run_id s' s'' s'''
                (settle-Rel execute start (keeping o run_id calm) step answer completed s') k'),
          omega (
            arith,
            k' step.id,
            k step.id,
            stage-settle step answer completed s' (omega (arith, k step.id)),
          ),
        )

    -- A round with a ready step leaves fewer steps that are open, and all of them held.
    round-progress :
        (steps : List WorkflowStep) (completed : Assoc Value) (s : State W) (step : WorkflowStep)
        (ready : List WorkflowStep)
        → All GoodStep steps
        → All (λ a. 1 ≤ stage run_id s a.id) steps
        → retain (is_ready o run_id completed s) steps ≡ step ∷ ready
        → (completed' : Assoc Value) × (s' : State W) × (run_ready o run_id execute
              (step ∷ ready)
              completed
              s
            ≡ some (completed', s'))
          × All (λ a. 1 ≤ stage run_id s' a.id) steps
          × (length (retain (is_open s') steps) < length (retain (is_open s) steps))
    unfolding is_ready
    round-progress steps completed s step ready good held e =
        let p = is_ready o run_id completed s in
        let (m, is) = In-retain p step steps (subst (λ xs. In step xs) (sym e) (inl refl)) in
        let (pending, met) =
          &&-true (is_pending (get_step_status_sync run_id step.id s))
            (all (λ dep. is_some (get dep completed)) step.depends_on) is in
        let (completed', s', ran, k, left) =
          run_ready-first step ready completed s
            (subst (All GoodStep) e (retain-All GoodStep p steps good))
            (In-All (λ a. 1 ≤ stage run_id s a.id) step steps held m) in
        (
          completed',
          s',
          ran,
          All-map (λ a. 1 ≤ stage run_id s a.id) (λ a. 1 ≤ stage run_id s' a.id) steps
              (λ a h. omega (arith, h, k a.id)) held,
          length-retain_lt (is_open s) (is_open s') (λ a h. ground (arith, k a.id)) step steps m
              (ground (arith, stage-pending s step.id pending)) (ground (arith, left)),
        )

    pub rounds-ends :
        (n : ℕ) (steps : List WorkflowStep) (completed : Assoc Value) (s : State W)
        → All GoodStep steps
        → All (λ step. 1 ≤ stage run_id s step.id) steps
        → length (retain (is_open s) steps) < n
        → (s' : State W) × (rounds o run_id execute n steps completed s ≡ some s')
          × (get run_id s'.active_runs ≡ none)
    rounds-ends zero steps completed s good held h = absurd (omega arith)
    rounds-ends (suc n) steps completed s good held h =
        elim (List-cases (retain (is_ready o run_id completed s) steps)) [
          | inl e ↦ (
            finish o run_id steps completed s,
            rounds_over execute n steps completed s e,
            get-finish steps completed s,
          )
          | inr (step, ready, e) ↦
              let (completed', s', ran, held', fewer) =
                round-progress steps completed s step ready good held e in
              let (s'', ended, gone) =
                rounds-ends n steps completed' s' good held' (omega (arith, fewer, h)) in
              (
                s'',
                rounds_on execute n steps completed completed' s s' step ready e ran ∙ ended,
                gone,
              )
        ]
