-- ===== src/Workflows/Cancelled.antt =====
-- `cancel_run` while the run is executed, and a parallel group that contains itself: the engine does
-- not stop.
use stackhouse.Prelude.{
  ℕ, zero, suc, ◌≡◌, refl, sym, ap, ◌∙◌, subst, true, none, List, [], ◌∷◌, Option-cases, inl, inr,
  all, all-All, All-all, All-map, In, retain, retain-In, List-cases, is_some,
}
use stackhouse.Prelude.Text.{Text}
use stackhouse.Prelude.Assoc.{Assoc, get}
use stackhouse.Json.{Value}
use stackhouse.Errors.{ok}
use stackhouse.Workflows.Types.{
  parallel, WorkflowStep, StepStatus, Outside, State, entry, get_step_status_sync,
}
use stackhouse.Workflows.Steps.{
  Executed, find_steps, mark_running, run_all, run_parallel, execute_arm, execute_step,
}
use stackhouse.Workflows.Gone.{IsGone, StepStays, execute_step-Stays}
use stackhouse.Workflows.Gone.Starts.{IsFresh, ReadyStay, run_ready-Stay, start_run-Stays}
use stackhouse.Workflows.Dag.{run_ready, start_run, is_ready, rounds}
use stackhouse.Workflows.Status.Totality.{Starter}
use stackhouse.Workflows.Ending.{Grows, rounds_on}

module _ (o : Outside) (run_id : Text) where
  open o use {W}

  gone-pending :
      (s : State W) (step_id : Text)
      → IsGone o run_id s
      → get_step_status_sync run_id step_id s ≡ StepStatus.pending
  unfolding get_step_status_sync entry
  gone-pending s step_id gone = rw (gone, get_step_status_sync, entry) refl

  still_met :
      (c c' : Assoc Value) (deps : List Text)
      → Grows o run_id c c'
      → all (λ dep. is_some (get dep c)) deps ≡ true
      → all (λ dep. is_some (get dep c')) deps ≡ true
  still_met c c' deps grows met =
      All-all (λ dep. is_some (get dep c')) deps
        (All-map (λ dep. is_some (get dep c) ≡ true) (λ dep. is_some (get dep c') ≡ true) deps grows
          (all-All (λ dep. is_some (get dep c)) deps met))

  module _ (execute : WorkflowStep → Value → State W → Executed o run_id)
      (steady : StepStays o run_id execute) (steps : List WorkflowStep) (step : WorkflowStep)
      (member : In step steps) where
    gone-is_ready :
        (completed : Assoc Value) (s : State W)
        → all (λ dep. is_some (get dep completed)) step.depends_on ≡ true
        → IsGone o run_id s
        → is_ready o run_id completed s step ≡ true
    unfolding is_ready
    gone-is_ready completed s met gone = rw (met, is_ready) (rw (gone-pending s step.id gone) refl)

    rounds-none_of_gone :
        (n : ℕ) (completed : Assoc Value) (s : State W)
        → all (λ dep. is_some (get dep completed)) step.depends_on ≡ true
        → IsGone o run_id s
        → rounds o run_id execute n steps completed s ≡ none
    unfolding rounds
    rounds-none_of_gone zero completed s met gone = refl
    rounds-none_of_gone (suc n) completed s met gone =
        let is = gone-is_ready completed s met gone in
        elim (List-cases (retain (is_ready o run_id completed s) steps)) [
          | inl e ↦
              absurd
                (subst (In step) e (retain-In (is_ready o run_id completed s) step steps member is))
          | inr (first, ready, e) ↦
              let went =
                run_ready-Stay o run_id run_id execute steady (first ∷ ready) completed s gone in
              elim (Option-cases (run_ready o run_id execute (first ∷ ready) completed s)) [
                | inl never ↦ rw (e, rounds) (rw never refl)
                | inr ((completed', s'), ran) ↦
                    let (stays, grows) = subst (ReadyStay o run_id run_id completed) ran went in
                    rounds_on o run_id execute n steps completed completed' s s' first ready e ran
                    ∙ rounds-none_of_gone n completed' s'
                        (still_met completed completed' step.depends_on grows met) stays
              ]
        ]

  -- The run is no longer active, as after `cancel_run`, the dependencies of one of the workflow's steps are met, and the
  -- identifiers drawn for nested runs are others than the run's: the loop of `execute_dag` does not end, whatever number
  -- of rounds it is given, and however deep groups and nested runs may go.
  pub rounds-none :
      (levels depth m tenant_id : ℕ) (steps : List WorkflowStep) (step : WorkflowStep)
      (completed : Assoc Value) (s : State W)
      → IsFresh o run_id
      → In step steps
      → all (λ dep. is_some (get dep completed)) step.depends_on ≡ true
      → get run_id s.active_runs ≡ none
      → (n : ℕ)
      → rounds o run_id
          (execute_step o run_id
            (λ tenant i. start_run o levels depth m i tenant)
            depth
            tenant_id
            steps)
          n
          steps
          completed
          s
        ≡ none
  rounds-none levels depth m tenant_id steps step completed s fresh member met gone n =
      let start = λ (tenant : ℕ) (i : Text). start_run o levels depth m i tenant in
      rounds-none_of_gone (execute_step o run_id start depth tenant_id steps)
        (execute_step-Stays o run_id start
          (λ tenant i input t gone'.
            start_run-Stays o run_id fresh levels depth m tenant i input t gone')
          run_id depth tenant_id steps)
        steps step member n completed s met gone

  run_all-none :
      (run : WorkflowStep → Value → State W → Executed o run_id) (step : WorkflowStep)
      (subs : List WorkflowStep) (input : Value) (s : State W)
      → In step subs
      → ((input : Value) (s : State W) → run step input s ≡ none)
      → run_all o run_id run subs input s ≡ none
  unfolding run_all
  run_all-none run step [] input s m never = elim m [ ]
  run_all-none run step (sub ∷ subs) input s (inl e) never =
      rw (ap (λ x. run x input s) (sym e) ∙ never input s, run_all) refl
  run_all-none run step (sub ∷ subs) input s (inr m) never = elim (Option-cases (run sub input s)) [
    | inl stopped ↦ rw (stopped, run_all) refl
    | inr ((answer, s'), ran) ↦
        rw (ran, run_all) (rw (run_all-none run step subs input s' m never) refl)
  ]

  -- A parallel group that names itself, with all its steps found: `execute_step` does not return, however
  -- deep it may go.
  pub execute_step-none :
      (start : Starter o) (tenant_id : ℕ) (steps subs : List WorkflowStep) (step : WorkflowStep)
      (ids : List Text)
      → step.step_type ≡ parallel ids
      → find_steps ids steps ≡ ok subs
      → In step subs
      → (depth : ℕ) (input : Value) (s : State W)
      → execute_step o run_id start depth tenant_id steps step input s ≡ none
  unfolding execute_step execute_arm run_parallel
  execute_step-none start tenant_id steps subs step ids group found m zero input s = refl
  execute_step-none start tenant_id steps subs step ids group found m (suc depth) input s =
      rw (group, execute_step)
        (rw (found, execute_arm)
          (rw
            (
              run_all-none (execute_step o run_id start depth tenant_id steps) step subs input
                  (mark_running o run_id subs s) m
                  (execute_step-none start tenant_id steps subs step ids group found m depth),
              run_parallel,
            )
            refl))
