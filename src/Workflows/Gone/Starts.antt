-- ===== src/Workflows/Gone/Starts.antt =====
-- `start_run` and the loop over the graph, for a run that is not active: neither makes it active again.
use stackhouse.Prelude.{
  ℕ, zero, suc, ◌≡◌, ◌∙◌, subst, false, Option, none, some, List, [], ◌∷◌, Option-cases, Bool-cases,
  List-cases, inl, inr, retain,
}
use stackhouse.Prelude.Text.{Text, text_eq}
use stackhouse.Prelude.Assoc.{Assoc, get-insert_other}
use stackhouse.Json.{Value}
use stackhouse.Errors.{Result, Result-cases, ok, err}
use stackhouse.Workflows.Types.{WorkflowStep, RunStatus, StepStatus, WorkflowRun, Outside, State}
use stackhouse.Workflows.Steps.{execute_step}
use stackhouse.Workflows.Dag.{
  input_key, is_ready, all_done, finish, settle, run_ready, rounds, tenant_of, execute_dag,
  resolve_step_input, new_run, begin_run, stored_steps, start_steps, start_run,
}
use stackhouse.Workflows.Ending.{Grows, settle-Grows}
use stackhouse.Workflows.Gone.{
  IsGone, Stays, StartStays, StepStays, complete_run-IsGone, update_step_state-IsGone,
  execute_step-Stays,
}

module _ (o : Outside) (run_id : Text) where
  open o use {W}

  abbrev RoundsStay : Option (State W) → Type 0
  RoundsStay none = Unit {0}
  RoundsStay (some s) = IsGone o run_id s

  -- Where the loop over the ready steps comes to its end, the run is not active and no output is lost.
  abbrev pub ReadyStay : Text → Assoc Value → Option (Assoc Value × State W) → Type 0
  ReadyStay r c none = Unit {0}
  ReadyStay r c (some (c', s')) = IsGone o run_id s' × Grows o r c c'

  module _ (r : Text) where
    settle-IsGone :
        (step : WorkflowStep) (answer : Result Value) (completed : Assoc Value) (s : State W)
        → IsGone o run_id s
        → IsGone o run_id (settle o r step answer completed s).1
    unfolding settle
    settle-IsGone step (ok output) completed s gone =
        update_step_state-IsGone o run_id r step.id StepStatus.completed (some output) s gone
    settle-IsGone step (err e) completed s gone =
        update_step_state-IsGone o run_id r step.id StepStatus.failed none s gone

    finish-IsGone :
        (steps : List WorkflowStep) (completed : Assoc Value) (s : State W)
        → IsGone o run_id s
        → IsGone o run_id (finish o r steps completed s)
    unfolding finish
    finish-IsGone steps completed s gone = elim (Bool-cases (all_done o r steps s)) [
      | inl done ↦ rw (done, finish) (complete_run-IsGone o run_id r RunStatus.completed _ s gone)
      | inr stuck ↦ rw (stuck, finish) (complete_run-IsGone o run_id r RunStatus.failed none s gone)
    ]

    module _ (execute : WorkflowStep → Value → State W → Option (Result Value × State W))
        (steady : StepStays o run_id execute) where
      pub run_ready-Stay :
          (ready : List WorkflowStep) (completed : Assoc Value) (s : State W)
          → IsGone o run_id s
          → ReadyStay r completed (run_ready o r execute ready completed s)
      unfolding run_ready
      run_ready-Stay [] completed s gone = (gone, λ d h. h)
      run_ready-Stay (step ∷ ready) completed s gone =
          let input = resolve_step_input step completed in
          elim (Option-cases (execute step input s)) [
            | inl never ↦ rw (never, run_ready) tt
            | inr ((answer, s'), ran) ↦
                let gone' = subst (Stays o run_id) ran (steady step input s gone) in
                let c' = (settle o r step answer completed s').0 in
                let s'' = (settle o r step answer completed s').1 in
                let rest =
                  run_ready-Stay ready c' s'' (settle-IsGone step answer completed s' gone') in
                elim (Option-cases (run_ready o r execute ready c' s'')) [
                  | inl never ↦ rw (ran, run_ready) (rw never tt)
                  | inr ((c'', s'''), ran') ↦
                      let (gone'', grows) = subst (ReadyStay r c') ran' rest in
                      rw (ran, run_ready)
                        (rw ran'
                          (gone'', λ d h. grows d (settle-Grows o r step answer completed s' d h)))
                ]
          ]

      rounds-Stay :
          (n : ℕ) (steps : List WorkflowStep) (completed : Assoc Value) (s : State W)
          → IsGone o run_id s
          → RoundsStay (rounds o r execute n steps completed s)
      unfolding rounds
      rounds-Stay zero steps completed s gone = tt
      rounds-Stay (suc n) steps completed s gone =
          elim (List-cases (retain (is_ready o r completed s) steps)) [
            | inl e ↦ rw (e, rounds) (finish-IsGone steps completed s gone)
            | inr (step, ready, e) ↦
                let went = run_ready-Stay (step ∷ ready) completed s gone in
                elim (Option-cases (run_ready o r execute (step ∷ ready) completed s)) [
                  | inl never ↦ rw (e, rounds) (rw never tt)
                  | inr ((completed', s'), ran) ↦
                      rw (e, rounds)
                        (rw ran (
                          rounds-Stay n steps completed' s'
                            (subst (ReadyStay r completed) ran went).0))
                ]
          ]

  -- The identifiers that are drawn for runs are others than this run's.
  abbrev pub IsFresh : Type 0
  IsFresh = (w : W) → text_eq (o.new_id w).0 run_id ≡ false

  module _ (fresh : IsFresh) where
    start_steps-Stays :
        (start : ℕ → Text → Value → State W → Option (Result WorkflowRun × State W)) (depth n : ℕ)
        (workflow_id : Text) (tenant_id : ℕ) (input : Value) (steps : List WorkflowStep)
        (s : State W)
        → StartStays o run_id start
        → IsGone o run_id s
        → Stays o run_id (start_steps o start depth n workflow_id tenant_id input steps s)
    unfolding start_steps execute_dag begin_run
    start_steps-Stays start depth n workflow_id tenant_id input steps s starts gone =
        let r = (o.new_id s.world).0 in
        let w = (o.new_id s.world).1 in
        let run = new_run o r workflow_id tenant_id input steps in
        let begun = begin_run o run (record s { world = w }) in
        let still : IsGone o run_id begun =
          get-insert_other r run_id run s.active_runs (fresh s.world) ∙ gone in
        elim (Option-cases (o.insert_error w run)) [
          | inr (e, failed) ↦ rw (failed, start_steps) gone
          | inl inserted ↦
              let execute = execute_step o r start depth (tenant_of o r begun) steps in
              let went =
                rounds-Stay r execute
                  (execute_step-Stays o run_id start starts r depth (tenant_of o r begun) steps) n
                  steps ((input_key, input) ∷ []) begun still in
              elim (Option-cases (execute_dag o r start depth n steps input begun)) [
                | inl never ↦ rw (inserted, start_steps) (rw never tt)
                | inr (s', ran) ↦ rw (inserted, start_steps) (rw ran (subst RoundsStay ran went))
              ]
        ]

    pub start_run-Stays :
        (levels depth n tenant_id : ℕ) (workflow_id : Text) (input : Value) (s : State W)
        → IsGone o run_id s
        → Stays o run_id (start_run o levels depth n workflow_id tenant_id input s)
    unfolding start_run
    start_run-Stays zero depth n tenant_id workflow_id input s gone = tt
    start_run-Stays (suc levels) depth n tenant_id workflow_id input s gone =
        elim (Result-cases (o.load s.world workflow_id tenant_id)) [
          | inl (e, failed) ↦ rw (failed, start_run) gone
          | inr (column, found) ↦ elim (Option-cases column) [
            | inl missing ↦ rw (found, start_run) (rw missing gone)
            | inr (c, there) ↦
                rw (found, start_run)
                  (rw there (
                    start_steps-Stays (λ tenant i. start_run o levels depth n i tenant) depth n
                      workflow_id tenant_id input (stored_steps o c) s
                      (λ tenant i input' s' gone'.
                        start_run-Stays levels depth n tenant i input' s' gone')
                      gone))
          ]
        ]
