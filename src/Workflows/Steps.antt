-- ===== src/Workflows/Steps.antt =====
-- src/compute/workflows.rs: `execute_step`. The steps of a parallel group run one after another; the
-- source polls them in turn, and writes their states in this order. An answer of the outside
-- takes effect with the calls of `cancel_run` that arrived before it.
use stackhouse.Prelude.{
  ℕ, zero, suc, Bool, true, false, not, ◌&&◌, ◌||◌, Option, none, some, List, [], ◌∷◌, foldl,
  is_empty, if◌then◌else◌, ◌==◌, ◌^◌,
}
use stackhouse.Prelude.Text.{Text, codes, text_eq, to_lowercase, split}
use stackhouse.Json.{
  Number, pos_int, neg_int, float, Value, null, bool, number, string, array, object, nil, cons,
  Fields, end, field,
}
use stackhouse.Errors.{StackhouseError, Result, ok, err, not_found, internal, ◌>>=◌}
use stackhouse.Workflows.Types.{
  StepType, function, http_request, ai_agent, delay, condition, parallel, sub_workflow, transform,
  webhook, WorkflowStep, RunStatus, StepStatus, WorkflowRun, RunRow, Outside, State,
  update_step_state, catch_up, get_run,
}

-- `value.get(key)` and `unwrap_or(null)`.
find_field : Text → Fields → Value
find_field key end = null
find_field key (field k v rest) = if text_eq k key then v else find_field key rest

get_key : Value → Text → Value
unfolding find_field
get_key (object fields) key = find_field key fields
get_key _ key = null

-- A path with dots.
pub extract : Text → Value → Value
unfolding get_key
extract expression input = foldl get_key input (split b'.' expression)

-- A float is its bits: 0 and -0 are false.
number_truthy : Number → Bool
number_truthy (pos_int n) = not (n == 0)
number_truthy (neg_int n) = true
number_truthy (float bits) = not (bits == 0 || bits == 2 ^ 63)

pub is_truthy : Value → Bool
unfolding number_truthy to_lowercase
is_truthy null = false
is_truthy (bool b) = b
is_truthy (number n) = number_truthy n
is_truthy (string s) = not (is_empty s) && not (text_eq (to_lowercase s) (codes "false"))
is_truthy (array nil) = false
is_truthy (array (cons v vs)) = true
is_truthy (object end) = false
is_truthy (object (field k v rest)) = true

-- `map.insert(key, value)`
abbrev pub set_field : Text → Value → Fields → Fields
set_field key v end = field key v end
set_field key v (field k w rest) =
    let others = set_field key v rest in if text_eq k key then field k v rest else field k w others

unfoldable pub find_step : Text → List WorkflowStep → Option WorkflowStep
find_step step_id [] = none
find_step step_id (s ∷ steps) = if text_eq s.id step_id then some s else find_step step_id steps

unfoldable pub find_steps : List Text → List WorkflowStep → Result (List WorkflowStep)
unfolding find_step
find_steps [] steps = ok []
find_steps (i ∷ ids) steps = elim (find_step i steps) [
  | none ↦ err (not_found "Parallel step {} not found in workflow")
  | some s ↦ find_steps ids steps >>= λ others. ok (s ∷ others)
]

module _ (o : Outside) (run_id : Text) where
  open o use {W}

  -- One step executed: its answer and the state after it. `none` is the end of the fuel.
  abbrev pub Executed : Type 0
  Executed = Option (Result Value × State W)

  -- An answer of the outside, with the cancellations that came before it.
  unfoldable pub call_outside : ℕ → StepType → Value → State W → Result Value × State W
  unfolding catch_up
  call_outside tenant_id t input s =
      let (answer, w) = o.call s.world tenant_id t input in
      (answer, catch_up o run_id (record s { world = w }))

  unfoldable pub mark_running : List WorkflowStep → State W → State W
  mark_running [] s = s
  mark_running (sub ∷ subs) s =
      mark_running subs (update_step_state o run_id sub.id StepStatus.running none s)

  -- `join_all`
  unfoldable pub run_all :
      (WorkflowStep → Value → State W → Executed)
      → List WorkflowStep
      → Value
      → State W
      → Option (List (WorkflowStep × Result Value) × State W)
  run_all run [] input s = some ([], s)
  run_all run (sub ∷ subs) input s = elim (run sub input s) [
    | none ↦ none
    | some (answer, s') ↦ elim (run_all run subs input s') [
      | none ↦ none
      | some (answers, s'') ↦ some ((sub, answer) ∷ answers, s'')
    ]
  ]

  abbrev pub error_value : StackhouseError → Value
  error_value e = object (field (codes "error") (string (o.display e)) end)

  -- The loop over the answers.
  unfoldable pub settle_all :
      List (WorkflowStep × Result Value) → Fields → State W → Fields × State W
  settle_all [] result s = (result, s)
  settle_all ((sub, ok value) ∷ rest) result s =
      settle_all rest (set_field sub.id value result)
        (update_step_state o run_id sub.id StepStatus.completed (some value) s)
  settle_all ((sub, err e) ∷ rest) result s =
      settle_all rest (set_field sub.id (error_value e) result)
        (update_step_state o run_id sub.id StepStatus.failed (some (error_value e)) s)

  unfoldable pub run_parallel :
      (WorkflowStep → Value → State W → Executed) → List WorkflowStep → Value → State W → Executed
  unfolding run_all settle_all mark_running
  run_parallel run subs input s = elim (run_all run subs input (mark_running subs s)) [
    | none ↦ none
    | some (answers, s') ↦
        let (result, s'') = settle_all answers end s' in some (ok (object result), s'')
  ]

  abbrev pub sub_failed : StackhouseError
  sub_failed = internal "Sub-workflow {} finished with status: {}"

  abbrev pub sub_output : Text → Text → RunRow → Value
  sub_output workflow_id sub_id row = object (
      field (codes "output") (elim row.output [ none ↦ null | some v ↦ v ])
        (field (codes "run_id") (string sub_id) (
          field (codes "status") (string (codes "completed"))
            (field (codes "sub_workflow_id") (string workflow_id) end))))

  -- The loop that polls a nested run. Nothing but `cancel_run` changes its row by then.
  unfoldable pub wait_for : Text → State W → Result Value × State W
  unfolding catch_up
  wait_for sub_id s =
      let (e, w) = o.wait s.world sub_id in
      (
        err (if o.cancelled w sub_id then sub_failed else e),
        catch_up o sub_id (record s { world = w }),
      )

  -- The nested run is looked up.
  unfoldable pub sub_answer : Text → Text → State W → Result Value × State W
  unfolding get_run wait_for
  sub_answer workflow_id sub_id s = elim (get_run o sub_id s) [
    | err e ↦ (err e, s)
    | ok row ↦ elim row.status [
      | RunStatus.completed ↦ (ok (sub_output workflow_id sub_id row), s)
      | RunStatus.failed ↦ (err sub_failed, s)
      | RunStatus.cancelled ↦ (err sub_failed, s)
      | _ ↦ wait_for sub_id s
    ]
  ]

  -- A nested run, where `start` is `start_run`; then the cancellations of this run that came before.
  unfoldable pub run_sub :
      (ℕ → Text → Value → State W → Option (Result WorkflowRun × State W))
      → ℕ
      → Text
      → Value
      → State W
      → Executed
  unfolding sub_answer catch_up
  run_sub start tenant_id workflow_id input s = elim (start tenant_id workflow_id input s) [
    | none ↦ none
    | some (started, s') ↦ elim started [
      | err e ↦ some (err e, catch_up o run_id s')
      | ok sub ↦
          let (answer, s'') = sub_answer workflow_id sub.run_id s' in
          some (answer, catch_up o run_id s'')
    ]
  ]

  -- The arms of `execute_step`, with the recursive calls as arguments.
  unfoldable pub execute_arm :
      (ℕ → Text → Value → State W → Option (Result WorkflowRun × State W))
      → (WorkflowStep → Value → State W → Executed)
      → ℕ
      → List WorkflowStep
      → StepType
      → Value
      → State W
      → Executed
  unfolding run_parallel run_sub call_outside find_steps extract is_truthy
  execute_arm start run tenant_id steps (delay seconds) input s =
      let (_, s') = call_outside tenant_id (delay seconds) input s in
      some (ok (object (field (codes "delayed") (number (pos_int seconds)) end)), s')
  execute_arm start run tenant_id steps (transform expression) input s =
      some (ok (extract expression input), s)
  execute_arm start run tenant_id steps (condition expression if_true if_false) input s =
      let met = is_truthy (extract expression input) in
      some (
        ok (
            object (
              field (codes "branch") (string (if met then if_true else if_false))
                (field (codes "condition_met") (bool met) end))),
        s,
      )
  execute_arm start run tenant_id steps (parallel step_ids) input s =
      elim (find_steps step_ids steps) [
        | err e ↦ some (err e, s)
        | ok subs ↦ run_parallel run subs input s
      ]
  execute_arm start run tenant_id steps (function i) input s =
      some (call_outside tenant_id (function i) input s)
  execute_arm start run tenant_id steps (http_request m u h) input s =
      some (call_outside tenant_id (http_request m u h) input s)
  execute_arm start run tenant_id steps (ai_agent i p) input s =
      some (call_outside tenant_id (ai_agent i p) input s)
  execute_arm start run tenant_id steps (sub_workflow i) input s = run_sub start tenant_id i input s
  execute_arm start run tenant_id steps (webhook u m) input s =
      some (call_outside tenant_id (webhook u m) input s)

  -- The fuel bounds the depth of parallel groups.
  unfoldable pub execute_step :
      (ℕ → Text → Value → State W → Option (Result WorkflowRun × State W))
      → ℕ
      → ℕ
      → List WorkflowStep
      → WorkflowStep
      → Value
      → State W
      → Executed
  unfolding execute_arm
  execute_step start zero tenant_id steps step input s = none
  execute_step start (suc depth) tenant_id steps step input s =
      execute_arm start (execute_step start depth tenant_id steps) tenant_id steps step.step_type
        input s
