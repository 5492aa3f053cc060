-- ===== src/Workflows/Types.antt =====
-- src/compute/workflows.rs: the data of workflows and of their runs. Of a step, the fields that the
-- engine reads: it reads neither `condition`, `retry` and `timeout_secs` nor the workflow's `config`
-- (but for the time limit on a sub-workflow). Times are left out.
use stackhouse.Prelude.{ℕ, Bool, Option, none, some, List, if◌then◌else◌}
use stackhouse.Prelude.Text.{Text}
use stackhouse.Prelude.Assoc.{Assoc, get, insert, remove}
use stackhouse.Json.{Value}
use stackhouse.Errors.{StackhouseError, not_found, Result, ok, err}

-- `enum StepType`
pub data StepType : Type 0 where
  function : (function_id : Text) → StepType
  http_request : (method url : Text) → (headers : List (Text × Text)) → StepType
  ai_agent : (agent_id prompt : Text) → StepType
  delay : (seconds : ℕ) → StepType
  condition : (expression if_true if_false : Text) → StepType
  parallel : (step_ids : List Text) → StepType
  sub_workflow : (workflow_id : Text) → StepType
  transform : (expression : Text) → StepType
  webhook : (url method : Text) → StepType

-- `struct WorkflowStep`
pub record WorkflowStep : Type 0 where
  pub id : Text
  pub step_type : StepType
  pub depends_on : List Text

-- `enum RunStatus` and `enum StepStatus`
pub data RunStatus : Type 0 where
  pending running completed failed cancelled paused : RunStatus

pub data StepStatus : Type 0 where
  pending running completed failed skipped waiting : StepStatus

-- `struct StepState`
pub record StepState : Type 0 where
  pub status : StepStatus
  pub output : Option Value

-- `struct WorkflowRun`, as `active_runs` holds it.
pub record WorkflowRun : Type 0 where
  pub run_id : Text
  pub workflow_id : Text
  pub tenant_id : ℕ
  pub status : RunStatus
  pub input : Value
  pub step_states : Assoc StepState

-- A row of the table `stackhouse_workflow_runs`.
pub record RunRow : Type 0 where
  pub status : RunStatus
  pub output : Option Value
  pub step_states : Assoc StepState

-- A row that the store is asked to change: a step's state or the end of a run, whose missing
-- output is the empty text.
pub data Update : Type 0 where
  step_written : Update
  run_written : (output : Option Value) → Update

-- What the engine calls outside this file: functions, HTTP, agents and the sleep of a
-- delay (`call`), the store, the parser of serde_json, and the formatting of an error. `cancelled` tells
-- whether `cancel_run` has been called for a run by then; `accepts`, whether the store carries a change out;
-- `query_error`, whether the row of a run can be read. `wait` is the poll for a nested run that is not over, with the
-- error of its time limit or of a query.
pub record Outside : Type 1 where
  pub W : Type 0
  pub call : W → ℕ → StepType → Value → Result Value × W
  pub cancelled : W → Text → Bool
  pub display : StackhouseError → Text
  pub load : W → Text → ℕ → Result (Option Value)
  pub parse_steps : Text → Option (List WorkflowStep)
  pub new_id : W → Text × W
  pub insert_error : W → WorkflowRun → Option StackhouseError
  pub accepts : W → Update → Bool
  pub query_error : W → Option StackhouseError
  pub wait : W → Text → StackhouseError × W

-- The engine's active runs, the rows of its table, and the outside.
pub record State (W : Type 0) : Type 0 where
  pub active_runs : Assoc WorkflowRun
  pub rows : Assoc RunRow
  pub world : W

abbrev pub set_entry : StepStatus → Option Value → Text → Assoc StepState → Assoc StepState
set_entry status output step_id states = elim (get step_id states) [
  | none ↦ states
  | some old ↦ insert step_id (record { status = status; output = output }) states
]

-- `step_states || {step_id: …}` on the row.
abbrev pub persist_step : Text → Text → StepStatus → Option Value → Assoc RunRow → Assoc RunRow
persist_step run_id step_id status output rows = elim (get run_id rows) [
  | none ↦ rows
  | some row ↦
      insert run_id
        (record row {
          step_states =
              insert step_id (record { status = status; output = output }) row.step_states;
        })
        rows
]

abbrev pub persist_run : Text → RunStatus → Option Value → Assoc RunRow → Assoc RunRow
persist_run run_id status output rows = elim (get run_id rows) [
  | none ↦ rows
  | some row ↦ insert run_id (record row { status = status; output = output }) rows
]

abbrev pub set_run_step :
    Text → Text → StepStatus → Option Value → Assoc WorkflowRun → Assoc WorkflowRun
set_run_step run_id step_id status output runs = elim (get run_id runs) [
  | none ↦ runs
  | some r ↦
      insert run_id (record r { step_states = set_entry status output step_id r.step_states }) runs
]

module _ {W : Type 0} where
  -- What the engine holds of a step of a run.
  unfoldable pub entry : Text → Text → State W → Option StepState
  entry run_id step_id s = elim (get run_id s.active_runs) [
    | none ↦ none
    | some r ↦ get step_id r.step_states
  ]

  unfoldable pub get_step_status_sync : Text → Text → State W → StepStatus
  unfolding entry
  get_step_status_sync run_id step_id s = elim (entry run_id step_id s) [
    | none ↦ StepStatus.pending
    | some st ↦ st.status
  ]

module _ (o : Outside) where
  open o use {W}

  -- The answer of the store is dropped.
  unfoldable pub update_step_state : Text → Text → StepStatus → Option Value → State W → State W
  update_step_state run_id step_id status output s = record s {
    active_runs = set_run_step run_id step_id status output s.active_runs;
    rows =
        if o.accepts s.world step_written
        then persist_step run_id step_id status output s.rows
        else s.rows;
  }

  unfoldable pub complete_run : Text → RunStatus → Option Value → State W → State W
  complete_run run_id status output s = record s {
    active_runs = remove run_id s.active_runs;
    rows =
        if o.accepts s.world (run_written output)
        then persist_run run_id status output s.rows
        else s.rows;
  }

  unfoldable pub cancel_run : Text → State W → State W
  unfolding complete_run
  cancel_run run_id s = complete_run run_id RunStatus.cancelled none s

  -- The calls of `cancel_run` that have arrived by now take effect.
  unfoldable pub catch_up : Text → State W → State W
  unfolding cancel_run
  catch_up run_id s = if o.cancelled s.world run_id then cancel_run run_id s else s

  unfoldable pub get_run : Text → State W → Result RunRow
  get_run run_id s = elim (o.query_error s.world) [
    | some e ↦ err e
    | none ↦ elim (get run_id s.rows) [ none ↦ err (not_found "Run not found") | some row ↦ ok row ]
  ]
