-- ===== src/Workflows/Dag.antt =====
-- src/compute/workflows.rs: `start_run` and the loop of `execute_dag`.
use stackhouse.Prelude.{
  ℕ, zero, suc, Bool, true, false, ◌&&◌, Option, none, some, List, [], ◌∷◌, ◌++◌, is_some,
  if◌then◌else◌, retain, all, any,
}
use stackhouse.Prelude.Text.{Text, codes, text_eq}
use stackhouse.Prelude.Assoc.{Assoc, get, get_or, insert}
use stackhouse.Json.{Value, string, object, Fields, end, field}
use stackhouse.Errors.{Result, ok, err, not_found}
use stackhouse.Workflows.Types.{
  parallel, WorkflowStep, RunStatus, StepStatus, StepState, WorkflowRun, Outside, State,
  get_step_status_sync, update_step_state, complete_run,
}
use stackhouse.Workflows.Steps.{Executed, execute_step}

abbrev pub is_pending : StepStatus → Bool
is_pending StepStatus.pending = true
is_pending _ = false

-- `Completed | Skipped | Failed`
abbrev pub is_done : StepStatus → Bool
is_done StepStatus.completed = true
is_done StepStatus.skipped = true
is_done StepStatus.failed = true
is_done _ = false

abbrev pub input_key : Text
input_key = codes "$input"

merge_inputs : List Text → Assoc Value → Fields
merge_inputs [] completed = end
merge_inputs (d ∷ deps) completed = elim (get d completed) [
  | none ↦ merge_inputs deps completed
  | some v ↦ field d v (merge_inputs deps completed)
]

-- A dependency that is named twice stands once in the source's object; names are taken to differ.
unfoldable pub resolve_step_input : WorkflowStep → Assoc Value → Value
unfolding merge_inputs
resolve_step_input step completed = elim step.depends_on [
  | [] ↦ get_or (object end) input_key completed
  | d ∷ ds ↦ elim ds [
    | [] ↦ get_or (object end) d completed
    | e ∷ es ↦ object (merge_inputs (d ∷ e ∷ es) completed)
  ]
]

unfoldable pub fields_of : Assoc Value → Fields
fields_of [] = end
fields_of ((k, v) ∷ m) = field k v (fields_of m)

module _ (o : Outside) (run_id : Text) where
  open o use {W}

  unfoldable pub is_ready : Assoc Value → State W → WorkflowStep → Bool
  is_ready completed s step =
      is_pending (get_step_status_sync run_id step.id s)
      && all (λ dep. is_some (get dep completed)) step.depends_on

  unfoldable pub all_done : List WorkflowStep → State W → Bool
  all_done steps s =
      all (λ (step : WorkflowStep). is_done (get_step_status_sync run_id step.id s)) steps

  -- No step is ready.
  unfoldable pub finish : List WorkflowStep → Assoc Value → State W → State W
  unfolding fields_of
  finish steps completed s =
      if all_done steps s
      then complete_run o run_id RunStatus.completed (some (object (fields_of completed))) s
      else complete_run o run_id RunStatus.failed none s

  -- What an answer does to the run.
  unfoldable pub settle :
      WorkflowStep → Result Value → Assoc Value → State W → Assoc Value × State W
  settle step (ok output) completed s = (
    insert step.id output completed,
    update_step_state o run_id step.id StepStatus.completed (some output) s,
  )
  settle step (err e) completed s =
      (completed, update_step_state o run_id step.id StepStatus.failed none s)

  module _ (execute : WorkflowStep → Value → State W → Executed o run_id) where
    -- The loop over the ready steps.
    unfoldable pub run_ready :
        List WorkflowStep → Assoc Value → State W → Option (Assoc Value × State W)
    run_ready [] completed s = some (completed, s)
    run_ready (step ∷ ready) completed s =
        elim (execute step (resolve_step_input step completed) s) [
          | none ↦ none
          | some (answer, s') ↦
              let (completed', s'') = settle step answer completed s' in
              run_ready ready completed' s''
        ]

    -- The `loop`, by the number of rounds that are left. `none` is the end of the fuel.
    unfoldable pub rounds : ℕ → List WorkflowStep → Assoc Value → State W → Option (State W)
    rounds zero steps completed s = none
    rounds (suc n) steps completed s = elim (retain (is_ready completed s) steps) [
      | [] ↦ some (finish steps completed s)
      | step ∷ ready ↦ elim (run_ready (step ∷ ready) completed s) [
        | none ↦ none
        | some (completed', s') ↦ rounds n steps completed' s'
      ]
    ]

  unfoldable pub tenant_of : State W → ℕ
  tenant_of s = elim (get run_id s.active_runs) [ none ↦ 0 | some r ↦ r.tenant_id ]

  -- `depth` bounds parallel groups, `n` the rounds.
  unfoldable pub execute_dag :
      (ℕ → Text → Value → State W → Option (Result WorkflowRun × State W))
      → ℕ
      → ℕ
      → List WorkflowStep
      → Value
      → State W
      → Option (State W)
  unfolding tenant_of
  execute_dag start depth n steps input s =
      rounds (execute_step o run_id start depth (tenant_of s) steps) n steps
        ((input_key, input) ∷ []) s

-- Steps that stand in a parallel group.
unfoldable pub parallel_children : List WorkflowStep → List Text
parallel_children [] = []
parallel_children (step ∷ steps) = elim step.step_type [
  | parallel ids ↦ ids ++ parallel_children steps
  | _ ↦ parallel_children steps
]

abbrev pub first_state : List Text → WorkflowStep → StepState
first_state children step = record {
  status = if any (λ i. text_eq i step.id) children then StepStatus.waiting else StepStatus.pending;
  output = none;
}

-- `step_states` at the start of a run.
unfoldable pub initial_states : List Text → List WorkflowStep → Assoc StepState → Assoc StepState
initial_states children [] states = states
initial_states children (step ∷ steps) states =
    initial_states children steps (insert step.id (first_state children step) states)

unfoldable pub states_of : List WorkflowStep → Assoc StepState
unfolding parallel_children initial_states
states_of steps = initial_states (parallel_children steps) steps []

module _ (o : Outside) where
  open o use {W}

  abbrev pub new_run : Text → Text → ℕ → Value → List WorkflowStep → WorkflowRun
  new_run run_id workflow_id tenant_id input steps = record {
    run_id = run_id;
    workflow_id = workflow_id;
    tenant_id = tenant_id;
    status = RunStatus.running;
    input = input;
    step_states = states_of steps;
  }

  -- The value of the column `steps`, read as a text.
  unfoldable pub stored_steps : Value → List WorkflowStep
  stored_steps (string t) = elim (o.parse_steps t) [ none ↦ [] | some steps ↦ steps ]
  stored_steps _ = elim (o.parse_steps (codes "[]")) [ none ↦ [] | some steps ↦ steps ]

  -- The run in the table and among the active runs.
  unfoldable pub begin_run : WorkflowRun → State W → State W
  begin_run run s = record s {
    active_runs = insert run.run_id run s.active_runs;
    rows =
        insert run.run_id
          (record { status = RunStatus.running; output = none; step_states = run.step_states })
          s.rows;
  }

  -- From the steps on.
  unfoldable pub start_steps :
      (ℕ → Text → Value → State W → Option (Result WorkflowRun × State W))
      → ℕ
      → ℕ
      → Text
      → ℕ
      → Value
      → List WorkflowStep
      → State W
      → Option (Result WorkflowRun × State W)
  start_steps start depth n workflow_id tenant_id input steps s =
      let (run_id, w) = o.new_id s.world in
      let run = new_run run_id workflow_id tenant_id input steps in
      elim (o.insert_error w run) [
        | some e ↦ some (err e, record s { world = w })
        | none ↦
            elim (execute_dag o run_id start depth n steps input
              (begin_run run (record s { world = w }))) [
                | none ↦ none
                | some s' ↦ some (ok run, s')
              ]
      ]

  -- `levels` bounds how deep workflows start one another. `none` is the end of the fuel.
  unfoldable pub start_run :
      ℕ → ℕ → ℕ → Text → ℕ → Value → State W → Option (Result WorkflowRun × State W)
  unfolding stored_steps start_steps
  start_run zero depth n workflow_id tenant_id input s = none
  start_run (suc levels) depth n workflow_id tenant_id input s =
      elim (o.load s.world workflow_id tenant_id) [
        | err e ↦ some (err e, s)
        | ok found ↦ elim found [
          | none ↦ some (err (not_found "Workflow not found or disabled"), s)
          | some column ↦
              start_steps (λ tenant i. start_run levels depth n i tenant) depth n workflow_id
                tenant_id input (stored_steps column) s
        ]
      ]
