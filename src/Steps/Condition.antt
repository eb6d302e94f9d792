-- ===== src/Steps/Condition.antt =====
-- The condition executor of src/steps/condition.py and the branches that the orchestrator skips.
use mathlib.Core.Option.{get_or}
use workflow_automation_engi.Engine.Models.{StepDefinition}
use workflow_automation_engi.Engine.Context.{StepInput}
use workflow_automation_engi.Engine.Session.{StepExecution}
use workflow_automation_engi.Engine.Orchestrator.{resolve_condition_branches, id_set}
use workflow_automation_engi.Steps.{
  Jinja, execute_condition, evaluate_expression, evaluate_truthiness, log_prefix,
}
use workflow_automation_engi.Prelude.{
  Value, Fields, find, String, ◌≡◌, Bool, true, false, bool, str, arr, field, end, none_left, ok,
  Bool-cases, refl, ◌⊎◌, inl, inr, some, arith, Option-cases, Result-cases, Result-split,
}

abbrev pub branch : String → Fields → Value
branch name config = get_or (find name config) (arr none_left)

abbrev pub condition_output : Bool → Fields → Fields
condition_output true config =
    field "result" (bool true)
      (field "branch" (str "true") (field "branch_steps" (branch "true_branch" config) end))
condition_output false config =
    field "result" (bool false)
      (field "branch" (str "false") (field "branch_steps" (branch "false_branch" config) end))

-- An output of the condition executor is one of two.
execute_condition_cases :
    (jinja : Jinja) (config : Fields) (context : StepInput) (output : Fields)
    → execute_condition jinja config context ≡ ok output
    → (b : Bool) × (output ≡ condition_output b config)
unfolding execute_condition
execute_condition_cases jinja config context output h =
    elim (Option-cases (find "expression" config)) [
      | inl missing ↦ absurd (cc (rw missing at h))
      | inr (v, e) ↦ elim (Result-cases (log_prefix jinja v)) [
        | inr (x, l) ↦ absurd (cc (rw (e, l) at h))
        | inl l ↦ elim (Result-split (evaluate_expression jinja v context)) [
          | inr (x, r) ↦ absurd (cc (rw (e, l, r) at h))
          | inl (result_str, r) ↦ elim (Bool-cases (evaluate_truthiness result_str)) [
            | inl t ↦ (true, ground (arith, rw (e, l, r, t) at h))
            | inr t ↦ (false, ground (arith, rw (e, l, r, t) at h))
          ]
        ]
      ]
    ]

-- When a condition step succeeded with its output stored in its row, the branch that the output
-- names as taken is one of the two configured ones, and the orchestrator skips the other one.
pub condition_skips_other :
    (jinja : Jinja) (step_def : StepDefinition) (context : StepInput) (row : StepExecution)
    (output : Fields)
    → execute_condition jinja step_def.config context ≡ ok output
    → row.output_data ≡ some output
    → (find "branch_steps" output ≡ some (branch "true_branch" step_def.config))
        × (resolve_condition_branches step_def row ≡ id_set (branch "false_branch" step_def.config))
      ⊎ (find "branch_steps" output ≡ some (branch "false_branch" step_def.config))
        × (resolve_condition_branches step_def row ≡ id_set (branch "true_branch" step_def.config))
unfolding resolve_condition_branches
condition_skips_other jinja step_def context row output ran stored =
    let (b, e) = execute_condition_cases jinja step_def.config context output ran in skips b e
  where
    skips :
        (b : Bool)
        → output ≡ condition_output b step_def.config
        → (find "branch_steps" output ≡ some (branch "true_branch" step_def.config))
            × (resolve_condition_branches step_def row
                ≡ id_set (branch "false_branch" step_def.config))
          ⊎ (find "branch_steps" output ≡ some (branch "false_branch" step_def.config))
            × (resolve_condition_branches step_def row
                ≡ id_set (branch "true_branch" step_def.config))
    skips true e = rw (stored, e) (inl (refl, refl))
    skips false e = rw (stored, e) (inr (refl, refl))
