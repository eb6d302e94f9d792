-- ===== src/Steps/Empty.antt =====
-- The executors of src/steps on an empty configuration.
use workflow_automation_engi.Engine.Models.{
  StepType, http, transform, condition, delay, sub_workflow,
}
use workflow_automation_engi.Db.{Workflow}
use workflow_automation_engi.Steps.{
  Jinja, is_falsy, execute_transform, execute_condition, execute_delay,
}
use workflow_automation_engi.Steps.Http.{HttpEnv, execute_http}
use workflow_automation_engi.Steps.SubWorkflow.{
  UuidText, NestedStarter, MappingJinja, execute_sub_workflow,
}
use workflow_automation_engi.Steps.Registry.{step_registry}
use workflow_automation_engi.Prelude.{
  Fields, find, Exception, Dict, ℕ, ◌≡◌, refl, end, err, app_error, other,
}
use workflow_automation_engi.Engine.Context.{StepInput}
use workflow_automation_engi.Engine.Session.{Action, Session}

-- An exception with the code of a wrong configuration.
abbrev pub IsConfigError : Exception → Type 0
IsConfigError (app_error e) = e.code ≡ "STEP_CONFIG_ERROR"
IsConfigError (other m) = ⊥

module _ (http_env : HttpEnv) (jinja : Jinja) (max_sub_workflow_depth : ℕ) (uuids : UuidText)
    (mapping : MappingJinja) (workflows : Dict ℕ Workflow) (start : NestedStarter) where
  -- The registry with the sub-workflow executor of src/steps/sub_workflow.py.
  abbrev pub full_registry : StepType → Fields → StepInput → Action Fields
  full_registry =
      step_registry http_env jinja
        (execute_sub_workflow max_sub_workflow_depth uuids mapping workflows start)

  -- On an empty configuration, which is what a step's row holds as its input unless something
  -- writes it, every executor raises a configuration error and leaves the session as it was.
  pub step_registry_empty :
      (step_type : StepType) (context : StepInput) (s : Session)
      → (x : Exception) × IsConfigError x × (full_registry step_type end context s ≡ (err x, s))
  unfolding step_registry execute_http execute_transform execute_condition execute_delay
      execute_sub_workflow find is_falsy
  step_registry_empty http context s = (_, refl, refl)
  step_registry_empty transform context s = (_, refl, refl)
  step_registry_empty condition context s = (_, refl, refl)
  step_registry_empty delay context s = (_, refl, refl)
  step_registry_empty sub_workflow context s = (_, refl, refl)
