-- ===== src/Engine/Tests/Retries.antt =====
-- Examples for the retries of src/engine/orchestrator.py, with an executor that always fails.
use workflow_automation_engi.Prelude.{
  Fields, ◌≡◌, refl, inl, get, nat_key, some, err, other, part, [], ◌∷◌, none, end, arith,
}
use workflow_automation_engi.Engine.Session.{Action}
use workflow_automation_engi.Engine.Models.{StepDefinition, http}
use workflow_automation_engi.Engine.Context.{StepInput}
use workflow_automation_engi.Engine.Orchestrator.{execute_step_with_retry}
use workflow_automation_engi.Engine.Orchestrator.Retry.{
  RetryEnds, execute_step_with_retry-RetryEnds,
}
use workflow_automation_engi.Engine.Tests.{test_env, test_execution, test_step, test_session}
use workflow_automation_engi.Engine.Orchestrator.Attempt.{KeepsRows}

abbrev always_fails : StepDefinition → StepInput → Action Fields
always_fails step_def context s = (err (other (part "timeout" ∷ [])), s)

abbrev test_step_def : StepDefinition
test_step_def = record { id = "fetch"; type = http; config = end; depends_on = []; retry = none }

keeps : KeepsRows always_fails 9 7
keeps = record { steps = λ d i s. refl; executions = λ d i s. refl }

step_stored : get 9 test_session.step_executions ≡ some test_step
unfolding get
step_stored = refl

execution_stored : get 7 test_session.executions ≡ some (test_execution "pending")
unfolding get
execution_stored = refl

execute_step_with_retry-RetryEnds_example :
    RetryEnds test_env always_fails 7 test_step_def 9 keeps 3
      (execute_step_with_retry test_env always_fails 7 test_step_def 9 test_session)
execute_step_with_retry-RetryEnds_example =
    execute_step_with_retry-RetryEnds test_env always_fails 7 test_step_def 9 keeps test_step
      (test_execution "pending") test_session step_stored execution_stored (inl refl) (omega arith)
