-- ===== src/Steps/Registry.antt =====
-- STEP_REGISTRY of src/queue/tasks.py and the dispatch `_run_step` of src/engine/orchestrator.py.
use workflow_automation_engi.Engine.Models.{
  http, transform, condition, delay, sub_workflow, StepType, StepDefinition,
}
use workflow_automation_engi.Steps.{Jinja, execute_transform, execute_condition, execute_delay}
use workflow_automation_engi.Steps.Http.{HttpEnv, execute_http}
use workflow_automation_engi.Prelude.{Fields}
use workflow_automation_engi.Engine.Context.{StepInput}
use workflow_automation_engi.Engine.Session.{Action, lift}

module _ (http_env : HttpEnv) (jinja : Jinja)
    (sub_workflow_executor : Fields → StepInput → Action Fields) where
  -- The executor of each type; every type has one.
  unfoldable pub step_registry : StepType → Fields → StepInput → Action Fields
  step_registry http config context = lift (execute_http http_env jinja config context)
  step_registry transform config context = lift (execute_transform jinja config context)
  step_registry condition config context = lift (execute_condition jinja config context)
  step_registry delay config context = lift (execute_delay config)
  step_registry sub_workflow config context = sub_workflow_executor config context

  unfoldable pub run_step : StepDefinition → StepInput → Action Fields
  run_step step_def context = step_registry step_def.type step_def.config context
