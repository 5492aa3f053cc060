-- ===== src/Workflows/Status/Totality.antt =====
-- A step whose parallel groups nest within the depth is executed, and keeps the states.
use stackhouse.Prelude.{
  ℕ, zero, suc, ◌≡◌, refl, sym, ◌∙◌, Bool, true, false, Option, none, some, List, [], ◌∷◌, arith,
  inl, inr, all, All, all-All, All-map,
}
use stackhouse.Prelude.Text.{Text}
use stackhouse.Json.{Value, Fields, object, end}
use stackhouse.Errors.{Result-cases, Result, ok, err}
use stackhouse.Workflows.Types.{
  StepType, condition, parallel, sub_workflow, transform, WorkflowRun, catch_up, WorkflowStep,
  StepStatus, Outside, State, entry, update_step_state,
}
use stackhouse.Workflows.Dag.{is_pending}
use stackhouse.Workflows.Steps.{
  Executed, find_steps, call_outside, mark_running, run_all, settle_all, run_parallel, execute_arm,
  set_field, error_value, execute_step,
}
use stackhouse.Workflows.Status.{Keeps, Keeps-refl, Keeps-trans, update_step_state-Keeps}

-- The parallel groups that the step opens nest at most `depth - 1` deep, and
-- neither the step nor a step of the groups starts another workflow.
unfoldable pub nests_within : ℕ → List WorkflowStep → WorkflowStep → Bool
nests_within zero steps step = false
nests_within (suc depth) steps step = elim step.step_type [
  | parallel ids ↦ elim (find_steps ids steps) [
    | err e ↦ true
    | ok subs ↦ all (nests_within depth steps) subs
  ]
  | sub_workflow i ↦ false
  | _ ↦ true
]

nests_within-groups :
    (depth : ℕ) (steps : List WorkflowStep) (step : WorkflowStep) (ids : List Text)
    (subs : List WorkflowStep)
    → nests_within (suc depth) steps step ≡ true
    → step.step_type ≡ parallel ids
    → find_steps ids steps ≡ ok subs
    → All (λ sub. nests_within depth steps sub ≡ true) subs
unfolding nests_within
nests_within-groups depth steps step ids subs h group found =
    all-All (nests_within depth steps) subs (sym opened ∙ h)
  where
    opened : nests_within (suc depth) steps step ≡ all (nests_within depth steps) subs
    opened = rw (group, nests_within) (rw found refl)

nests_within-sub :
    (depth : ℕ) (steps : List WorkflowStep) (step : WorkflowStep) (i : Text)
    → nests_within (suc depth) steps step ≡ true
    → step.step_type ≡ sub_workflow i
    → false ≡ true
unfolding nests_within
nests_within-sub depth steps step i h sub = sym opened ∙ h
  where
    opened : nests_within (suc depth) steps step ≡ false
    opened = rw (sub, nests_within) refl

-- `start_run`, as the engine calls it for a nested run.
abbrev pub Starter : Outside → Type 0
Starter o = ℕ → Text → Value → State o.W → Option (Result WorkflowRun × State o.W)

-- A relation between states that no execution of a step leaves: kept by the change of a state and by
-- an answer of the outside.
pub record Persistent (o : Outside) (run_id : Text) : Type 1 where
  pub Rel : State o.W → State o.W → Type 0
  pub Rel_refl : (s : State o.W) → Rel s s
  pub Rel_trans : (s s' s'' : State o.W) → Rel s s' → Rel s' s'' → Rel s s''
  pub of_update :
      (status : StepStatus) (output : Option Value) (i : Text) (s : State o.W)
      → is_pending status ≡ false
      → Rel s (update_step_state o run_id i status output s)
  pub of_call :
      (tenant_id : ℕ) (t : StepType) (input : Value) (s : State o.W)
      → Rel s (call_outside o run_id tenant_id t input s).1

-- Nobody cancels the run.
abbrev pub IsCalm : Outside → Text → Type 0
IsCalm o run_id = (w : o.W) → o.cancelled w run_id ≡ false

module _ (o : Outside) (run_id : Text) where
  pub call_outside-Keeps :
      IsCalm o run_id
      → (tenant_id : ℕ) (t : StepType) (input : Value) (s : State o.W)
      → Keeps run_id s (call_outside o run_id tenant_id t input s).1
  unfolding call_outside catch_up entry
  call_outside-Keeps calm tenant_id t input s j =
      rw (calm (o.call s.world tenant_id t input).1) (omega arith)

  -- What was held stays held, and pending steps alone are pending.
  abbrev pub keeping : IsCalm o run_id → Persistent o run_id
  keeping calm = record {
    Rel = Keeps run_id;
    Rel_refl = Keeps-refl run_id;
    Rel_trans = Keeps-trans run_id;
    of_update = update_step_state-Keeps run_id o;
    of_call = call_outside-Keeps calm;
  }

module _ (o : Outside) (run_id : Text) (start : Starter o) (p : Persistent o run_id) where
  open o use {W}
  open p use {Rel, Rel_refl, Rel_trans, of_update, of_call}

  abbrev Answers : Option (Result Value × State W) → State W → Type 0
  Answers e s = (answer : Result Value) × (s' : State W) × (e ≡ some (answer, s')) × Rel s s'

  abbrev pub Good : (WorkflowStep → Value → State W → Executed o run_id) → WorkflowStep → Type 0
  Good run step = (input : Value) (s : State W) → Answers (run step input s) s

  mark_running-Rel : (subs : List WorkflowStep) (s : State W) → Rel s (mark_running o run_id subs s)
  unfolding mark_running
  mark_running-Rel [] s = Rel_refl s
  mark_running-Rel (sub ∷ subs) s =
      let s' = update_step_state o run_id sub.id StepStatus.running none s in
      Rel_trans s s' (mark_running o run_id subs s')
        (of_update StepStatus.running none sub.id s refl) (mark_running-Rel subs s')

  settle_all-Rel :
      (answers : List (WorkflowStep × Result Value)) (result : Fields) (s : State W)
      → Rel s (settle_all o run_id answers result s).1
  unfolding settle_all
  settle_all-Rel [] result s = Rel_refl s
  settle_all-Rel ((sub, ok v) ∷ rest) result s =
      let s' = update_step_state o run_id sub.id StepStatus.completed (some v) s in
      Rel_trans s s' (settle_all o run_id rest (set_field sub.id v result) s').1
        (of_update StepStatus.completed (some v) sub.id s refl)
        (settle_all-Rel rest (set_field sub.id v result) s')
  settle_all-Rel ((sub, err e) ∷ rest) result s =
      let v = error_value o run_id e in
      let s' = update_step_state o run_id sub.id StepStatus.failed (some v) s in
      Rel_trans s s' (settle_all o run_id rest (set_field sub.id v result) s').1
        (of_update StepStatus.failed (some v) sub.id s refl)
        (settle_all-Rel rest (set_field sub.id v result) s')

  run_all-Answers :
      (run : WorkflowStep → Value → State W → Executed o run_id) (subs : List WorkflowStep)
      (input : Value) (s : State W)
      → All (Good run) subs
      → (answers : List (WorkflowStep × Result Value)) × (s' : State W) × (run_all o run_id run subs
            input s
          ≡ some (answers, s'))
        × Rel s s'
  unfolding run_all
  run_all-Answers run [] input s good = ([], s, refl, Rel_refl s)
  run_all-Answers run (sub ∷ subs) input s (good, goods) =
      let (answer, s', e, k) = good input s in
      let (answers, s'', e', k') = run_all-Answers run subs input s' goods in
      ((sub, answer) ∷ answers, s'', rw (e, run_all) (rw e' refl), Rel_trans s s' s'' k k')

  run_parallel-Answers :
      (run : WorkflowStep → Value → State W → Executed o run_id) (subs : List WorkflowStep)
      (input : Value) (s : State W)
      → All (Good run) subs
      → Answers (run_parallel o run_id run subs input s) s
  unfolding run_parallel
  run_parallel-Answers run subs input s good =
      let marked = mark_running o run_id subs s in
      let (answers, s', e, k) = run_all-Answers run subs input marked good in
      let (result, s'') = settle_all o run_id answers end s' in
      (
        ok (object result),
        s'',
        rw (e, run_parallel) refl,
        Rel_trans s marked s'' (mark_running-Rel subs s)
            (Rel_trans marked s' s'' k (settle_all-Rel answers end s')),
      )

  -- An arm, where the steps of a parallel group are executed.
  execute_arm-Answers :
      (run : WorkflowStep → Value → State W → Executed o run_id) (tenant_id : ℕ)
      (steps : List WorkflowStep) (t : StepType) (input : Value) (s : State W)
      → ((ids : List Text) (subs : List WorkflowStep)
          → t ≡ parallel ids
          → find_steps ids steps ≡ ok subs
          → All (Good run) subs)
      → ((i : Text) → t ≡ sub_workflow i → false ≡ true)
      → Answers (execute_arm o run_id start run tenant_id steps t input s) s
  unfolding execute_arm
  execute_arm-Answers run tenant_id steps (parallel ids) input s good may =
      elim (Result-cases (find_steps ids steps)) [
        | inl (e, failed) ↦ (err e, s, rw (failed, execute_arm) refl, Rel_refl s)
        | inr (subs, found) ↦
            let (answer, s', e, k) =
              run_parallel-Answers run subs input s (good ids subs refl found) in
            (answer, s', rw (found, execute_arm) e, k)
      ]
  execute_arm-Answers run tenant_id steps (transform expression) input s good may =
      (_, s, refl, Rel_refl s)
  execute_arm-Answers run tenant_id steps (condition expression a b) input s good may =
      (_, s, refl, Rel_refl s)
  execute_arm-Answers run tenant_id steps (sub_workflow i) input s good may = cc (may i refl)
  execute_arm-Answers run tenant_id steps t input s good may =
      (_, (call_outside o run_id tenant_id t input s).1, refl, of_call tenant_id t input s)

  pub execute_step-Answers :
      (depth tenant_id : ℕ) (steps : List WorkflowStep) (step : WorkflowStep)
      → nests_within depth steps step ≡ true
      → Good (execute_step o run_id start depth tenant_id steps) step
  unfolding nests_within execute_step
  execute_step-Answers zero tenant_id steps step h input s = cc
  execute_step-Answers (suc depth) tenant_id steps step h input s =
      execute_arm-Answers (execute_step o run_id start depth tenant_id steps) tenant_id steps
        step.step_type input s
        (λ ids subs group found.
          All-map (λ sub. nests_within depth steps sub ≡ true)
            (Good (execute_step o run_id start depth tenant_id steps)) subs
            (λ sub. execute_step-Answers depth tenant_id steps sub)
            (nests_within-groups depth steps step ids subs h group found))
        (λ i sub. nests_within-sub depth steps step i h sub)
