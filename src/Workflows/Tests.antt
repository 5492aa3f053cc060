-- ===== src/Workflows/Tests.antt =====
-- Tests and instances of workflows.
use stackhouse.Prelude.{
  ℕ, zero, suc, ◌≡◌, refl, ◌<◌, Bool, true, false, Option, none, some, List, [], ◌∷◌, if◌then◌else◌,
  inl, inr,
}
use stackhouse.Prelude.Text.{codes, text_eq}
use stackhouse.Prelude.Assoc.{Assoc, get}
use stackhouse.Json.{Value, null, string, array, nil, cons, object, field, end}
use stackhouse.Errors.{internal, Result, ok, err}
use stackhouse.Workflows.Types.{
  StepType, function, delay, parallel, sub_workflow, WorkflowStep, StepStatus, RunStatus, RunRow,
  WorkflowRun, Outside, State,
}
use stackhouse.Workflows.Steps.{execute_step}
use stackhouse.Workflows.Dag.{
  input_key, stored_steps, parallel_children, start_run, rounds, new_run,
}
use stackhouse.Workflows.Runs.{start_run-completed_of_array}
use stackhouse.Workflows.Cancelled.{rounds-none}
use stackhouse.Workflows.Nested.{start_run-none}

abbrev first : WorkflowStep
first = record { id = codes "a"; step_type = function (codes "f"); depends_on = [] }

abbrev second : WorkflowStep
second = record {
  id = codes "b";
  step_type = parallel (codes "c" ∷ []);
  depends_on = codes "a" ∷ [];
}

abbrev child : WorkflowStep
child = record { id = codes "c"; step_type = delay 5; depends_on = [] }

abbrev knot : WorkflowStep
knot = record { id = codes "k"; step_type = parallel (codes "k" ∷ []); depends_on = [] }

abbrev steps : List WorkflowStep
steps = first ∷ second ∷ child ∷ []

-- An outside that answers with its input, or fails, and counts the calls.
abbrev outside : Value → Bool → Outside
outside column fails = record {
  W = ℕ;
  call = λ w tenant t input. (if fails then err (internal "down") else ok input, suc w);
  cancelled = λ w run_id. false;
  display = λ e. codes "error";
  load = λ w workflow_id tenant. ok (some column);
  parse_steps = λ t. if text_eq t (codes "[]") then some [] else some steps;
  new_id = λ w. (codes "run", suc w);
  insert_error = λ w run. none;
  accepts = λ w update. true;
  query_error = λ w. none;
  wait = λ w run_id. (internal "Sub-workflow {} timed out", suc w);
}

abbrev start : State ℕ
start = record { active_runs = []; rows = []; world = 0 }

abbrev column : Value
column = string (codes "[...]")

abbrev status_of : {W : Type 0} → Option (Result WorkflowRun × State W) → Option RunStatus
status_of none = none
status_of (some (answer, s)) = elim (get (codes "run") s.rows) [
  | none ↦ none
  | some row ↦ some row.status
]

run_completed :
    status_of (start_run (outside column false) 1 2 4 (codes "w") 7 null start)
    ≡ some RunStatus.completed
unfolding start_run stackhouse.Workflows.Dag.execute_dag rounds stackhouse.Workflows.Dag.is_ready
    stackhouse.Workflows.Types.get_step_status_sync get stackhouse.Workflows.Dag.begin_run
    stackhouse.Prelude.Assoc.insert stackhouse.Workflows.Dag.states_of
    stackhouse.Workflows.Dag.run_ready execute_step stackhouse.Workflows.Dag.settle
    stackhouse.Workflows.Types.update_step_state stackhouse.Workflows.Dag.finish
    stackhouse.Workflows.Dag.all_done stackhouse.Workflows.Types.complete_run
run_completed = refl

-- Every call outside fails, the first step among them; the child of the group is never run.
run_failed :
    status_of (start_run (outside column true) 1 2 4 (codes "w") 7 null start)
    ≡ some RunStatus.failed
unfolding start_run stackhouse.Workflows.Dag.execute_dag rounds stackhouse.Workflows.Dag.is_ready
    stackhouse.Workflows.Types.get_step_status_sync get stackhouse.Workflows.Dag.begin_run
    stackhouse.Prelude.Assoc.insert stackhouse.Workflows.Dag.states_of
    stackhouse.Workflows.Dag.run_ready execute_step stackhouse.Workflows.Dag.settle
    stackhouse.Workflows.Types.update_step_state stackhouse.Workflows.Dag.finish
    stackhouse.Workflows.Dag.all_done stackhouse.Workflows.Types.complete_run
run_failed = refl

start_run-completed_of_array_example :
    (run : WorkflowRun) × (s' : State ℕ) × (start_run
        (outside (array (cons null nil)) false)
        1
        2
        1
        (codes "w")
        7
        null
        start
      ≡ some (ok run, s'))
    × (get run.run_id s'.rows
        ≡ some (record {
          status = RunStatus.completed;
          output = some (object (field input_key null end));
          step_states = [];
        }))
start_run-completed_of_array_example =
    start_run-completed_of_array (outside (array (cons null nil)) false) 2 7 0 0 (codes "w") null
      (cons null nil) start refl refl refl refl

rounds-none_example :
    rounds
      (outside column false)
      (codes "gone")
      (execute_step
        (outside column false)
        (codes "gone")
        (λ tenant i. start_run (outside column false) 3 2 4 i tenant)
        2
        7
        steps)
      9
      steps
      []
      start
    ≡ none
unfolding get
rounds-none_example =
    rounds-none (outside column false) (codes "gone") 3 2 4 7 steps first [] start (λ w. refl)
      (inl refl) refl refl 9

-- A workflow with a step that starts it again.
abbrev again : WorkflowStep
again = record { id = codes "s"; step_type = sub_workflow (codes "w"); depends_on = [] }

abbrev circle : Outside
circle = record (outside column false) { parse_steps = λ t. some (again ∷ first ∷ []) }

circle_never_ends : start_run circle 5 2 4 (codes "w") 7 null start ≡ none
unfolding stored_steps parallel_children
circle_never_ends =
    start_run-none circle (codes "w") 7 column again (first ∷ []) (λ w. refl) (λ w run. refl) refl
      refl refl refl 5 2 4 null start

-- The only step fails, and the run is recorded as completed.
abbrev lone : Outside
lone = record (outside column true) { parse_steps = λ t. some (first ∷ []) }

failed_step_completes :
    status_of (start_run lone 1 2 4 (codes "w") 7 null start) ≡ some RunStatus.completed
unfolding start_run stackhouse.Workflows.Dag.execute_dag rounds stackhouse.Workflows.Dag.is_ready
    stackhouse.Workflows.Types.get_step_status_sync get stackhouse.Workflows.Dag.begin_run
    stackhouse.Prelude.Assoc.insert stackhouse.Workflows.Dag.states_of
    stackhouse.Workflows.Dag.run_ready execute_step stackhouse.Workflows.Dag.settle
    stackhouse.Workflows.Types.update_step_state stackhouse.Workflows.Dag.finish
    stackhouse.Workflows.Dag.all_done stackhouse.Workflows.Types.complete_run
failed_step_completes = refl
