-- ===== src/Queue.antt =====
-- src/queue/tasks.py: the task that executes one step for a worker. The registry of the executors
-- is that of Steps/Registry.
pub mod Outcomes
mod Tests
use workflow_automation_engi.Engine.Session.{
  ◌>>=◌, ◌>>◌, Action, Context, Env, save_step, StepExecution, lift, load_step, Execution, gets,
  handle, or_raise, throw, pure,
}
use workflow_automation_engi.Engine.Models.{
  StepType, http, transform, condition, delay, sub_workflow,
}
use workflow_automation_engi.Prelude.{
  if◌then◌else◌, ◌==◌, Fields, Exception, Result, raise, raise_f, str_exc, get, ℕ, ◌+◌, String,
  Bool, not, none, some, [], ◌∷◌, ok, err, other, part, shown, string_key, nat_key,
}
use workflow_automation_engi.Engine.Context.{StepInput, merge_step_output}
use workflow_automation_engi.Engine.State.{transition_step}

-- `StepType(value)`
unfoldable pub step_type_of : String → Result StepType
step_type_of value =
    if value == "http"
    then ok http
    else if value == "transform"
    then ok transform
    else if value == "condition"
    then ok condition
    else if value == "delay"
    then ok delay
    else if value == "sub_workflow"
    then ok sub_workflow
    else err (other (part "'" ∷ part value ∷ part "' is not a valid StepType" ∷ []))

-- `get_step_input` alone: without the tenant, and with no depth, which is read as 0.
abbrev pub plain_input : Context → StepInput
plain_input context = record {
  steps = context.steps;
  trigger = context.trigger;
  depth = 0;
  tenant_id = none;
}

module _ (env : Env) (registry : StepType → Fields → StepInput → Action Fields)
    (step_execution_id execution_id : ℕ) where
  -- Lines 145 to 151: the body of the `try`.
  unfoldable pub run_executor : StepType → StepExecution → Execution → Action Fields
  unfolding save_step load_step
  run_executor step_type step_exec execution = do
    output ← registry step_type step_exec.input_data (plain_input execution.context)
    transition_step env step_execution_id "completed" none
    row ← load_step step_execution_id
    save_step step_execution_id (record row { output_data = some output })
    merge_step_output execution_id step_exec.step_id output
    pure output

  -- Lines 161 to 174: the attempt is counted, the step failed, and the exception raised again.
  unfoldable pub record_failure : Exception → Action Fields
  unfolding save_step load_step
  record_failure exc = do
    row ← load_step step_execution_id
    save_step step_execution_id
        (record row { attempt = (if row.attempt == 0 then 1 else row.attempt) + 1 })
    transition_step env step_execution_id "failed" (some (str_exc exc))
    throw exc

  unfoldable pub attempt_step : StepType → StepExecution → Execution → Action Fields
  unfolding run_executor record_failure
  attempt_step step_type step_exec execution s =
      let (r, s') = run_executor step_type step_exec execution s in
      handle r (λ output. pure output) record_failure s'

  unfoldable pub execute_step : Bool → Action Fields
  unfolding attempt_step step_type_of
  execute_step has_session_factory = do
    lift (
        if has_session_factory
        then ok tt
        else raise "WORKER_ERROR" "Database session factory not available in worker context." 500)
    found ← gets (λ s. get step_execution_id s.step_executions)
    step_exec ← lift (
        or_raise found (
          raise_f "NOT_FOUND"
            (part "Step execution " ∷ shown step_execution_id ∷ part " not found." ∷ []) 404))
    found_execution ← gets (λ s. get execution_id s.executions)
    execution ← lift (
        or_raise found_execution (
          raise_f "NOT_FOUND" (part "Execution " ∷ shown execution_id ∷ part " not found." ∷ [])
            404))
    transition_step env step_execution_id "running" none
    step_type ← lift (step_type_of step_exec.step_type)
    attempt_step step_type step_exec execution
