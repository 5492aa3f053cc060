-- ===== src/Workflows/Status.antt =====
-- How the states of the steps move: an entry that is held stays, and one that has left `Pending` never
-- returns to it, as long as the run is not cancelled.
pub mod Totality
use stackhouse.Prelude.{
  ℕ, zero, suc, ◌≤◌, ◌≡◌, refl, sym, ap, ◌∙◌, subst, Bool, true, false, Option, none, some, List,
  [], ◌∷◌, arith, if◌then◌else◌, Option-cases, Bool-cases, inl, inr,
}
use stackhouse.Prelude.Text.{Text, text_eq, text_eq_iff, text_eq_refl}
use stackhouse.Prelude.Assoc.{Assoc, get, insert, get-insert, get-insert_self}
use stackhouse.Json.{Value, Fields}
use stackhouse.Errors.{Result, ok, err}
use stackhouse.Workflows.Types.{
  StepType, WorkflowStep, StepStatus, StepState, WorkflowRun, Outside, State, set_entry,
  set_run_step, entry, update_step_state,
}
use stackhouse.Workflows.Dag.{is_pending}

-- 0 for a step that is not held, 1 for a pending one, 2 for one that has left `Pending`.
abbrev pub stage_of : Option StepState → ℕ
stage_of none = 0
stage_of (some st) = if is_pending st.status then 1 else 2

abbrev pub marked : ℕ → ℕ
marked zero = 0
marked (suc n) = 2

stage-set_entry :
    (status : StepStatus) (output : Option Value) (i j : Text) (m : Assoc StepState)
    → is_pending status ≡ false
    → stage_of (get j (set_entry status output i m))
      ≡ (if text_eq i j then marked (stage_of (get j m)) else stage_of (get j m))
stage-set_entry status output i j m e = elim (Option-cases (get i m)) [
  | inl missing ↦ rw (missing, set_entry) ground (arith, text_eq_iff i j)
  | inr (old, held) ↦
      rw (held, set_entry) ground
        (arith, text_eq_iff i j, get-insert i j (record { status = status; output = output }) m)
]

module _ (run_id : Text) where
  module _ {W : Type 0} where
    abbrev pub stage : State W → Text → ℕ
    stage s step_id = stage_of (entry run_id step_id s)

    abbrev pub Keeps : State W → State W → Type 0
    Keeps s s' = (step_id : Text) → stage s step_id ≤ stage s' step_id

    pub Keeps-refl : (s : State W) → Keeps s s
    Keeps-refl s j = omega arith

    pub Keeps-trans : (s s' s'' : State W) → Keeps s s' → Keeps s' s'' → Keeps s s''
    Keeps-trans s s' s'' h k j = omega (arith, h j, k j)

  module _ (o : Outside) where
    open o use {W}

    pub stage-update_step_state :
        (status : StepStatus) (output : Option Value) (i j : Text) (s : State W)
        → is_pending status ≡ false
        → stage (update_step_state o run_id i status output s) j
          ≡ (if text_eq i j then marked (stage s j) else stage s j)
    unfolding update_step_state entry
    stage-update_step_state status output i j s e = elim (Option-cases (get run_id s.active_runs)) [
      | inl gone ↦ rw (gone, update_step_state, set_run_step, entry) ground arith
      | inr (r, held) ↦
          rw (held, update_step_state, set_run_step, entry, get-insert_self)
            (stage-set_entry status output i j r.step_states e)
    ]

    pub update_step_state-Keeps :
        (status : StepStatus) (output : Option Value) (i : Text) (s : State W)
        → is_pending status ≡ false
        → Keeps s (update_step_state o run_id i status output s)
    update_step_state-Keeps status output i s e j =
        ground (arith, stage-update_step_state status output i j s e)

    -- A step that was held has left `Pending`.
    pub stage-update_step_state_self :
        (status : StepStatus) (output : Option Value) (i : Text) (s : State W)
        → is_pending status ≡ false
        → 1 ≤ stage s i
        → stage (update_step_state o run_id i status output s) i ≡ 2
    stage-update_step_state_self status output i s e held =
        ground (arith, stage-update_step_state status output i i s e, text_eq_refl i)
