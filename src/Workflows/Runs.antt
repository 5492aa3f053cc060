-- ===== src/Workflows/Runs.antt =====
-- What becomes of a run that is started.
use stackhouse.Prelude.{ℕ, suc, ◌≡◌, refl, ap, ◌∙◌, true, Option, none, some, [], ◌∷◌}
use stackhouse.Prelude.Text.{Text, codes}
use stackhouse.Prelude.Assoc.{Assoc, get, insert, get-insert_self}
use stackhouse.Json.{Value, array, Values, object, field, end}
use stackhouse.Errors.{Result, ok, err}
use stackhouse.Workflows.Types.{
  RunStatus, WorkflowRun, RunRow, run_written, Outside, State, complete_run, persist_run,
}
use stackhouse.Workflows.Dag.{
  input_key, all_done, finish, rounds, execute_dag, initial_states, states_of, new_run, begin_run,
  stored_steps, start_steps, start_run, fields_of,
}

get-persist_run :
    (run_id : Text) (status : RunStatus) (output : Option Value) (row : RunRow)
    (rows : Assoc RunRow)
    → get run_id (persist_run run_id status output (insert run_id row rows))
      ≡ some (record row { status = status; output = output })
get-persist_run run_id status output row rows =
    rw (persist_run, get-insert_self)
      (get-insert_self run_id (record row { status = status; output = output })
        (insert run_id row rows))

module _ (o : Outside) (depth tenant_id : ℕ) where
  open o use {W}

  abbrev IsOver : State W → Result WorkflowRun → Type 0
  IsOver s' (ok r) = get r.run_id s'.active_runs ≡ none
  IsOver s' (err e) = Unit {0}

  pub start_run-loaded :
      (levels n : ℕ) (workflow_id : Text) (input column : Value) (s : State W)
      → o.load s.world workflow_id tenant_id ≡ ok (some column)
      → start_run o (suc levels) depth n workflow_id tenant_id input s
        ≡ start_steps o
            (λ tenant i. start_run o levels depth n i tenant)
            depth
            n
            workflow_id
            tenant_id
            input
            (stored_steps o column)
            s
  unfolding start_run
  start_run-loaded levels n workflow_id input column s loaded = rw (loaded, start_run) refl

  stored_steps-array :
      (steps : Values) → o.parse_steps (codes "[]") ≡ some [] → stored_steps o (array steps) ≡ []
  unfolding stored_steps
  stored_steps-array steps parsed = rw (parsed, stored_steps) refl

  -- A column `steps` that comes back as an array, as a JSONB column does, is read as no steps at all,
  -- where serde_json reads `[]` as the empty list: if the row is inserted and the store accepts
  -- the output, `start_run` returns the run, and its row is completed with the input
  -- as the whole output, no matter which steps the array holds.
  pub start_run-completed_of_array :
      (levels n : ℕ) (workflow_id : Text) (input : Value) (steps : Values) (s : State W)
      → o.load s.world workflow_id tenant_id ≡ ok (some (array steps))
      → o.parse_steps (codes "[]") ≡ some []
      → o.insert_error
          (o.new_id s.world).1
          (new_run o (o.new_id s.world).0 workflow_id tenant_id input [])
        ≡ none
      → o.accepts (o.new_id s.world).1 (run_written (some (object (field input_key input end))))
        ≡ true
      → (run : WorkflowRun) × (s' : State W) × (start_run o
            (suc levels)
            depth
            (suc n)
            workflow_id
            tenant_id
            input
            s
          ≡ some (ok run, s'))
        × (get run.run_id s'.rows
            ≡ some (record {
              status = RunStatus.completed;
              output = some (object (field input_key input end));
              step_states = [];
            }))
  unfolding start_steps execute_dag rounds finish complete_run begin_run states_of all_done
      fields_of initial_states
  start_run-completed_of_array levels n workflow_id input steps s loaded parsed inserted accepted =
      let w = (o.new_id s.world).1 in
      let run = new_run o (o.new_id s.world).0 workflow_id tenant_id input [] in
      let begun = begin_run o run (record s { world = w }) in
      (
        run,
        finish o run.run_id [] ((input_key, input) ∷ []) begun,
        start_run-loaded levels (suc n) workflow_id input (array steps) s loaded
            ∙ ap
                (λ xs.
                  start_steps o (λ tenant i. start_run o levels depth (suc n) i tenant) depth
                    (suc n) workflow_id tenant_id input xs s)
                (stored_steps-array steps parsed)
            ∙ rw (start_steps, inserted) refl,
        rw accepted (get-persist_run run.run_id RunStatus.completed _ _ s.rows),
      )
