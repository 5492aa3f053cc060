-- ===== src/Workflows/Gone.antt =====
-- A run that is not active never becomes active again, while any run is executed.
pub mod Starts
use stackhouse.Prelude.{
  ℕ, zero, suc, ◌≡◌, refl, sym, subst, Bool, true, false, Option, none, some, List, [], ◌∷◌, arith,
  Option-cases, Bool-cases, List-cases, inl, inr, retain,
}
use stackhouse.Prelude.Text.{Text, text_eq, text_eq_iff}
use stackhouse.Prelude.Assoc.{Assoc, get, insert, get-insert, get-insert_other, get-remove}
use stackhouse.Json.{Value, Fields, end, object}
use stackhouse.Errors.{Result, Result-cases, ok, err}
use stackhouse.Workflows.Types.{
  StepType, condition, parallel, sub_workflow, transform, WorkflowStep, RunStatus, StepStatus,
  WorkflowRun, RunRow, Outside, State, set_run_step, update_step_state, complete_run, cancel_run,
  catch_up, get_run,
}
use stackhouse.Workflows.Steps.{
  Executed, set_field, error_value, find_steps, sub_failed, sub_output, wait_for, sub_answer,
  run_sub, call_outside, mark_running, run_all, settle_all, run_parallel, execute_arm, execute_step,
}

module _ (o : Outside) (run_id : Text) where
  open o use {W}

  abbrev pub IsGone : State W → Type 0
  IsGone s = get run_id s.active_runs ≡ none

  -- The run is not active in the state that comes out, where one comes out.
  abbrev pub Stays : {A : Type 0} → Option (A × State W) → Type 0
  Stays none = Unit {0}
  Stays (some (a, s)) = IsGone s

  abbrev pub StartStays :
      (ℕ → Text → Value → State W → Option (Result WorkflowRun × State W)) → Type 0
  StartStays start =
      (tenant_id : ℕ) (i : Text) (input : Value) (s : State W)
      → IsGone s
      → Stays (start tenant_id i input s)

  abbrev pub StepStays : (WorkflowStep → Value → State W → Option (Result Value × State W)) → Type 0
  StepStays run =
      (step : WorkflowStep) (input : Value) (s : State W) → IsGone s → Stays (run step input s)

  pub complete_run-IsGone :
      (r : Text) (status : RunStatus) (output : Option Value) (s : State W)
      → IsGone s
      → IsGone (complete_run o r status output s)
  unfolding complete_run
  complete_run-IsGone r status output s gone =
      ground (arith, gone, get-remove r run_id s.active_runs)

  catch_up-IsGone : (r : Text) (s : State W) → IsGone s → IsGone (catch_up o r s)
  unfolding catch_up cancel_run
  catch_up-IsGone r s gone = elim (Bool-cases (o.cancelled s.world r)) [
    | inl e ↦ rw (e, catch_up) (complete_run-IsGone r RunStatus.cancelled none s gone)
    | inr e ↦ rw (e, catch_up) gone
  ]

  -- The run is another than `r`.
  set_run_step-IsGone :
      (r : Text) (i : Text) (status : StepStatus) (output : Option Value) (runs : Assoc WorkflowRun)
      → get run_id runs ≡ none
      → get run_id (set_run_step r i status output runs) ≡ none
  set_run_step-IsGone r i status output runs gone = elim (Option-cases (get r runs)) [
    | inl missing ↦ rw (missing, set_run_step) gone
    | inr (run, held) ↦ elim (Bool-cases (text_eq r run_id)) [
      | inl same ↦ cc ((text_eq_iff r run_id).0 same, gone)
      | inr other ↦ rw (held, set_run_step) (rw (get-insert_other r run_id _ runs other) gone)
    ]
  ]

  pub update_step_state-IsGone :
      (r i : Text) (status : StepStatus) (output : Option Value) (s : State W)
      → IsGone s
      → IsGone (update_step_state o r i status output s)
  unfolding update_step_state
  update_step_state-IsGone r i status output s gone =
      set_run_step-IsGone r i status output s.active_runs gone

  wait_for-IsGone : (r sub_id : Text) (s : State W) → IsGone s → IsGone (wait_for o r sub_id s).1
  unfolding wait_for
  wait_for-IsGone r sub_id s gone =
      catch_up-IsGone sub_id (record s { world = (o.wait s.world sub_id).1 }) gone

  status-IsGone :
      (r workflow_id sub_id : Text) (row : RunRow) (status : RunStatus) (s : State W)
      → IsGone s
      → IsGone
          (elim status as (λ x. Result Value × State W) [
            | RunStatus.completed ↦ (ok (sub_output o r workflow_id sub_id row), s)
            | RunStatus.failed ↦ (err (sub_failed o r), s)
            | RunStatus.cancelled ↦ (err (sub_failed o r), s)
            | _ ↦ wait_for o r sub_id s
          ]).1
  status-IsGone r workflow_id sub_id row RunStatus.completed s gone = gone
  status-IsGone r workflow_id sub_id row RunStatus.failed s gone = gone
  status-IsGone r workflow_id sub_id row RunStatus.cancelled s gone = gone
  status-IsGone r workflow_id sub_id row _ s gone = wait_for-IsGone r sub_id s gone

  sub_answer-IsGone :
      (r workflow_id sub_id : Text) (s : State W)
      → IsGone s
      → IsGone (sub_answer o r workflow_id sub_id s).1
  unfolding sub_answer
  sub_answer-IsGone r workflow_id sub_id s gone = elim (Result-cases (get_run o sub_id s)) [
    | inl (e, failed) ↦ rw (failed, sub_answer) gone
    | inr (row, found) ↦
        rw (found, sub_answer) (status-IsGone r workflow_id sub_id row row.status s gone)
  ]

  module _ (start : ℕ → Text → Value → State W → Option (Result WorkflowRun × State W))
      (starts : StartStays start) (r : Text) where
    run_sub-Stays :
        (tenant_id : ℕ) (i : Text) (input : Value) (s : State W)
        → IsGone s
        → Stays (run_sub o r start tenant_id i input s)
    unfolding run_sub
    run_sub-Stays tenant_id i input s gone = elim (Option-cases (start tenant_id i input s)) [
      | inl never ↦ rw (never, run_sub) tt
      | inr ((started, s'), ran) ↦
          let gone' : IsGone s' = subst Stays ran (starts tenant_id i input s gone) in
          elim (Result-cases started) [
            | inl (e, failed) ↦ rw (ran, run_sub) (rw failed (catch_up-IsGone r s' gone'))
            | inr (sub, begun) ↦
                rw (ran, run_sub)
                  (rw begun (
                    catch_up-IsGone r (sub_answer o r i sub.run_id s').1
                      (sub_answer-IsGone r i sub.run_id s' gone')))
          ]
    ]

    mark_running-IsGone :
        (subs : List WorkflowStep) (s : State W) → IsGone s → IsGone (mark_running o r subs s)
    unfolding mark_running
    mark_running-IsGone [] s gone = gone
    mark_running-IsGone (sub ∷ subs) s gone =
        mark_running-IsGone subs (update_step_state o r sub.id StepStatus.running none s)
          (update_step_state-IsGone r sub.id StepStatus.running none s gone)

    settle_all-IsGone :
        (answers : List (WorkflowStep × Result Value)) (result : Fields) (s : State W)
        → IsGone s
        → IsGone (settle_all o r answers result s).1
    unfolding settle_all
    settle_all-IsGone [] result s gone = gone
    settle_all-IsGone ((sub, ok v) ∷ rest) result s gone =
        settle_all-IsGone rest (set_field sub.id v result)
          (update_step_state o r sub.id StepStatus.completed (some v) s)
          (update_step_state-IsGone r sub.id StepStatus.completed (some v) s gone)
    settle_all-IsGone ((sub, err e) ∷ rest) result s gone =
        settle_all-IsGone rest (set_field sub.id (error_value o r e) result)
          (update_step_state o r sub.id StepStatus.failed (some (error_value o r e)) s)
          (update_step_state-IsGone r sub.id StepStatus.failed (some (error_value o r e)) s gone)

    run_all-Stays :
        (run : WorkflowStep → Value → State W → Option (Result Value × State W))
        (subs : List WorkflowStep) (input : Value) (s : State W)
        → StepStays run
        → IsGone s
        → Stays (run_all o r run subs input s)
    unfolding run_all
    run_all-Stays run [] input s steady gone = gone
    run_all-Stays run (sub ∷ subs) input s steady gone = elim (Option-cases (run sub input s)) [
      | inl never ↦ rw (never, run_all) tt
      | inr ((answer, s'), ran) ↦
          let rest =
            run_all-Stays run subs input s' steady (subst Stays ran (steady sub input s gone)) in
          elim (Option-cases (run_all o r run subs input s')) [
            | inl never ↦ rw (ran, run_all) (rw never tt)
            | inr ((answers, s''), ran') ↦ rw (ran, run_all) (rw ran' (subst Stays ran' rest))
          ]
    ]

    run_parallel-Stays :
        (run : WorkflowStep → Value → State W → Option (Result Value × State W))
        (subs : List WorkflowStep) (input : Value) (s : State W)
        → StepStays run
        → IsGone s
        → Stays (run_parallel o r run subs input s)
    unfolding run_parallel
    run_parallel-Stays run subs input s steady gone =
        let marked = mark_running o r subs s in
        let ended = run_all-Stays run subs input marked steady (mark_running-IsGone subs s gone) in
        elim (Option-cases (run_all o r run subs input marked)) [
          | inl never ↦ rw (never, run_parallel) tt
          | inr ((answers, s'), ran) ↦
              rw (ran, run_parallel) (settle_all-IsGone answers end s' (subst Stays ran ended))
        ]

    execute_arm-Stays :
        (run : WorkflowStep → Value → State W → Option (Result Value × State W)) (tenant_id : ℕ)
        (steps : List WorkflowStep) (t : StepType) (input : Value) (s : State W)
        → StepStays run
        → IsGone s
        → Stays (execute_arm o r start run tenant_id steps t input s)
    unfolding execute_arm call_outside
    execute_arm-Stays run tenant_id steps (parallel ids) input s steady gone =
        elim (Result-cases (find_steps ids steps)) [
          | inl (e, failed) ↦ rw (failed, execute_arm) gone
          | inr (subs, found) ↦
              rw (found, execute_arm) (run_parallel-Stays run subs input s steady gone)
        ]
    execute_arm-Stays run tenant_id steps (sub_workflow i) input s steady gone =
        run_sub-Stays tenant_id i input s gone
    execute_arm-Stays run tenant_id steps (transform expression) input s steady gone = gone
    execute_arm-Stays run tenant_id steps (condition expression a b) input s steady gone = gone
    execute_arm-Stays run tenant_id steps t input s steady gone =
        catch_up-IsGone r (record s { world = (o.call s.world tenant_id t input).1 }) gone

    pub execute_step-Stays :
        (depth tenant_id : ℕ) (steps : List WorkflowStep)
        → StepStays (execute_step o r start depth tenant_id steps)
    unfolding execute_step
    execute_step-Stays zero tenant_id steps step input s gone = tt
    execute_step-Stays (suc depth) tenant_id steps step input s gone =
        execute_arm-Stays (execute_step o r start depth tenant_id steps) tenant_id steps
          step.step_type input s (execute_step-Stays depth tenant_id steps) gone
