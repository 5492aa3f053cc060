-- ===== src/Workflows/Nested.antt =====
-- A workflow that starts itself.
use stackhouse.Prelude.{
  ℕ, zero, suc, ◌≡◌, refl, ap, ◌∙◌, subst, true, false, none, some, List, [], ◌∷◌, arith, any,
  if◌then◌else◌, Bool-cases, inl, inr,
}
use stackhouse.Prelude.Text.{Text, text_eq, text_eq_iff}
use stackhouse.Prelude.Assoc.{Assoc, get, insert, get-insert, get-insert_self}
use stackhouse.Json.{Value}
use stackhouse.Errors.{ok}
use stackhouse.Workflows.Types.{
  sub_workflow, WorkflowStep, StepStatus, StepState, WorkflowRun, Outside, State, entry,
  get_step_status_sync,
}
use stackhouse.Workflows.Steps.{run_sub, execute_arm, execute_step}
use stackhouse.Workflows.Dag.{
  input_key, is_ready, run_ready, rounds, execute_dag, tenant_of, first_state, parallel_children,
  initial_states, states_of, new_run, begin_run, stored_steps, start_steps, start_run,
}
use stackhouse.Workflows.Status.Totality.{Starter}
use stackhouse.Workflows.Runs.{start_run-loaded}

-- Steps with the same name start in the same state.
initial_states-first :
    (children : List Text) (step : WorkflowStep) (steps : List WorkflowStep)
    (states : Assoc StepState)
    → get step.id states ≡ some (first_state children step)
    → get step.id (initial_states children steps states) ≡ some (first_state children step)
unfolding initial_states
initial_states-first children step [] states h = h
initial_states-first children step (x ∷ steps) states h =
    initial_states-first children step steps (insert x.id (first_state children x) states)
      (elim (Bool-cases (text_eq x.id step.id)) [
        | inr other ↦
            ground (arith, other, h, get-insert x.id step.id (first_state children x) states)
        | inl same ↦
            subst
              (λ (i : Text).
                get i (insert x.id (first_state children x) states)
                ≡ some (record (first_state children x) {
                  status =
                      if any (λ c. text_eq c i) children
                      then StepStatus.waiting
                      else StepStatus.pending;
                }))
              ((text_eq_iff x.id step.id).0 same)
              (get-insert_self x.id (first_state children x) states)
      ])

module _ (o : Outside) where
  open o use {W}

  begin_run-pending :
      (run_id workflow_id : Text) (tenant_id : ℕ) (input : Value) (step : WorkflowStep)
      (rest : List WorkflowStep) (s : State W)
      → any (λ i. text_eq i step.id) (parallel_children (step ∷ rest)) ≡ false
      → get_step_status_sync run_id step.id
          (begin_run o (new_run o run_id workflow_id tenant_id input (step ∷ rest)) s)
        ≡ StepStatus.pending
  unfolding get_step_status_sync entry begin_run states_of initial_states
  begin_run-pending run_id workflow_id tenant_id input step rest s alone =
      rw (get_step_status_sync, begin_run, entry, get-insert_self)
        (rw
          (initial_states-first (parallel_children (step ∷ rest)) step rest
            (insert step.id (first_state (parallel_children (step ∷ rest)) step) [])
            (get-insert_self step.id (first_state (parallel_children (step ∷ rest)) step) []))
          (rw alone refl))

  module _ (run_id : Text) where
    -- The first of the steps is ready and does not return.
    rounds-none_of_first :
        (start : Starter o) (depth tenant_id n : ℕ) (workflow_id : Text)
        (all_steps : List WorkflowStep) (step : WorkflowStep) (rest : List WorkflowStep)
        (completed : Assoc Value) (s : State W)
        → step.step_type ≡ sub_workflow workflow_id
        → ((input : Value) (s : State W) → start tenant_id workflow_id input s ≡ none)
        → is_ready o run_id completed s step ≡ true
        → rounds o run_id
            (execute_step o run_id start depth tenant_id all_steps)
            n
            (step ∷ rest)
            completed
            s
          ≡ none
    unfolding rounds run_ready execute_step execute_arm run_sub
    rounds-none_of_first start depth tenant_id zero workflow_id all_steps step rest completed s sub
          never ready =
        refl
    rounds-none_of_first start zero tenant_id (suc n) workflow_id all_steps step rest completed s
          sub never ready =
        rw (ready, rounds) refl
    rounds-none_of_first start (suc depth) tenant_id (suc n) workflow_id all_steps step rest
          completed s sub never ready =
        rw (ready, rounds) (rw (sub, execute_step) (rw (never, execute_arm, run_sub) refl))

  tenant_of-begin_run :
      (run_id workflow_id : Text) (tenant_id : ℕ) (input : Value) (steps : List WorkflowStep)
      (s : State W)
      → tenant_of o run_id (begin_run o (new_run o run_id workflow_id tenant_id input steps) s)
        ≡ tenant_id
  unfolding tenant_of begin_run
  tenant_of-begin_run run_id workflow_id tenant_id input steps s =
      rw (tenant_of, begin_run, get-insert_self) refl

  execute_dag-none :
      (start : Starter o) (run_id workflow_id : Text) (tenant_id depth n : ℕ) (input : Value)
      (step : WorkflowStep) (rest : List WorkflowStep) (s : State W)
      → step.step_type ≡ sub_workflow workflow_id
      → step.depends_on ≡ []
      → any (λ i. text_eq i step.id) (parallel_children (step ∷ rest)) ≡ false
      → ((input : Value) (s : State W) → start tenant_id workflow_id input s ≡ none)
      → execute_dag o run_id start depth n
          (step ∷ rest)
          input
          (begin_run o (new_run o run_id workflow_id tenant_id input (step ∷ rest)) s)
        ≡ none
  unfolding execute_dag is_ready
  execute_dag-none start run_id workflow_id tenant_id depth n input step rest s sub free alone
        never =
      let begun = begin_run o (new_run o run_id workflow_id tenant_id input (step ∷ rest)) s in
      rounds-none_of_first run_id start depth (tenant_of o run_id begun) n workflow_id (step ∷ rest)
        step rest ((input_key, input) ∷ []) begun sub
        (λ i t.
          ap (λ x. start x workflow_id i t)
            (tenant_of-begin_run run_id workflow_id tenant_id input (step ∷ rest) s)
          ∙ never i t)
        (rw (begin_run-pending run_id workflow_id tenant_id input step rest s alone, is_ready)
          (rw free refl))

  -- The workflow's first step waits for nothing, stands in no parallel group, and starts the workflow itself; each time
  -- the workflow is found and the row of the run is inserted: `start_run` does not return, whatever the depth of
  -- nested runs, the depth of groups and the number of rounds.
  pub start_run-none :
      (workflow_id : Text) (tenant_id : ℕ) (column : Value) (step : WorkflowStep)
      (rest : List WorkflowStep)
      → ((w : W) → o.load w workflow_id tenant_id ≡ ok (some column))
      → ((w : W) (run : WorkflowRun) → o.insert_error w run ≡ none)
      → stored_steps o column ≡ step ∷ rest
      → step.step_type ≡ sub_workflow workflow_id
      → step.depends_on ≡ []
      → any (λ i. text_eq i step.id) (parallel_children (step ∷ rest)) ≡ false
      → (levels depth n : ℕ) (input : Value) (s : State W)
      → start_run o levels depth n workflow_id tenant_id input s ≡ none
  unfolding start_run start_steps
  start_run-none workflow_id tenant_id column step rest found inserted held sub free alone zero
        depth n input s =
      refl
  start_run-none workflow_id tenant_id column step rest found inserted held sub free alone
        (suc levels) depth n input s =
      let w = (o.new_id s.world).1 in
      let start = λ (tenant : ℕ) (i : Text). start_run o levels depth n i tenant in
      start_run-loaded o depth tenant_id levels n workflow_id input column s (found s.world)
      ∙ ap (λ xs. start_steps o start depth n workflow_id tenant_id input xs s) held
      ∙ rw (inserted, start_steps)
          (rw
            (execute_dag-none start (o.new_id s.world).0 workflow_id tenant_id depth n input step
              rest (record s { world = w }) sub free alone
              (start_run-none workflow_id tenant_id column step rest found inserted held sub free
                alone levels depth n))
            refl)
