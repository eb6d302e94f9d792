-- ===== src/Steps/Tests.antt =====
-- Examples for src/steps: a renderer that answers with the template.
use workflow_automation_engi.Engine.Models.{StepDefinition, condition}
use workflow_automation_engi.Engine.Context.{StepInput}
use workflow_automation_engi.Engine.Session.{StepExecution}
use workflow_automation_engi.Engine.Orchestrator.{resolve_condition_branches, id_set}
use workflow_automation_engi.Steps.{
  Jinja, rendered, failed, execute_condition, execute_delay, evaluate_truthiness,
  evaluate_expression,
}
use workflow_automation_engi.Steps.Delay.{Within, execute_delay_iff}
use workflow_automation_engi.Steps.Condition.{branch, condition_skips_other}
use workflow_automation_engi.Prelude.{
  Fields, find, ◌≡◌, ◌↔◌, ◌⊎◌, refl, none, some, ok, [], end, field, str, float, bool, arr, item,
  none_left, pos, true, is_space, strip_left,
}

abbrev echo : Jinja
echo (str s) context = rendered s
echo _ context = failed "not a template"

abbrev test_config : Fields
test_config = field "expression" (str " True ") (
    field "true_branch" (arr (item (str "approve") none_left))
      (field "false_branch" (arr (item (str "reject") none_left)) end))

abbrev test_step_def : StepDefinition
test_step_def = record {
  id = "check";
  type = condition;
  config = test_config;
  depends_on = [];
  retry = none;
}

abbrev test_context : StepInput
test_context = record { steps = []; trigger = end; depth = 0; tenant_id = some 1 }

abbrev test_output : Fields
test_output =
    field "result" (bool true) (
      field "branch" (str "true") (field "branch_steps" (arr (item (str "approve") none_left)) end))

abbrev test_row : StepExecution
test_row = record {
  id = 9;
  tenant_id = 1;
  execution_id = 7;
  step_id = "check";
  step_type = "condition";
  status = "completed";
  input_data = end;
  output_data = some test_output;
  error = none;
  attempt = 1;
  max_attempts = 3;
  started_at = some 10;
  completed_at = some 20;
  duration_ms = some (pos 10);
}

ran : execute_condition echo test_config test_context ≡ ok test_output
unfolding execute_condition evaluate_expression evaluate_truthiness find strip_left is_space
ran = refl

condition_skips_other_example :
    (find "branch_steps" test_output ≡ some (branch "true_branch" test_config))
      × (resolve_condition_branches test_step_def test_row
          ≡ id_set (branch "false_branch" test_config))
    ⊎ (find "branch_steps" test_output ≡ some (branch "false_branch" test_config))
      × (resolve_condition_branches test_step_def test_row
          ≡ id_set (branch "true_branch" test_config))
condition_skips_other_example =
    condition_skips_other echo test_step_def test_context test_row test_output ran refl

abbrev half_hour : Fields
half_hour = field "seconds" (float (pos 3601) 1) end

half_hour_found : find "seconds" half_hour ≡ some (float (pos 3601) 1)
unfolding find
half_hour_found = refl

execute_delay_iff_example :
    (execute_delay half_hour ≡ ok (field "delayed_seconds" (float (pos 3601) 1) end))
    ↔ Within (some (pos 3601, 2))
execute_delay_iff_example = execute_delay_iff half_hour (float (pos 3601) 1) half_hour_found
