-- ===== src/Engine/Context.antt =====
-- src/engine/context.py: the context that the steps of an execution share.
use workflow_automation_engi.Engine.Session.{
  ◌>>=◌, Action, Context, gets, lift, or_raise, save_execution,
}
use mathlib.Core.Option.{get_or}
use workflow_automation_engi.Prelude.{
  Fields, raise, Dict, get, put, ℕ, String, Option, nat_key, string_key,
}

-- What a step executor is given; the session is the state of its action.
pub record StepInput : Type 0 where
  pub steps : Dict String Fields
  pub trigger : Fields
  pub depth : ℕ
  pub tenant_id : Option ℕ

unfoldable pub merge_step_output : ℕ → String → Fields → Action (Unit {0})
unfolding save_execution
merge_step_output execution_id step_id output_data = do
  found ← gets (λ s. get execution_id s.executions)
  execution ← lift (or_raise found (raise "NOT_FOUND" "Execution not found." 404))
  let ctx = execution.context
  let merged = record ctx { steps = put step_id output_data ctx.steps }
  save_execution execution_id (record execution { context = merged })

-- `get_step_input`, with the metadata that the orchestrator adds to its result.
unfoldable pub get_step_input : Context → StepInput
get_step_input context = record {
  steps = context.steps;
  trigger = context.trigger;
  depth = get_or context.depth 0;
  tenant_id = context.tenant_id;
}
