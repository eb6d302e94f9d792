-- ===== src/Engine/Start.antt =====
-- `start_execution` of src/engine/orchestrator.py: the rows of a new execution, and its run.
pub mod Rows
pub mod Alike
pub mod Agree
pub mod Launch
pub mod Run
use workflow_automation_engi.Engine.Session.{
  ◌>>=◌, ◌>>◌, Execution, Env, Action, pure, lift, save_execution, save_step, load_execution,
}
use workflow_automation_engi.Db.{Workflow}
use workflow_automation_engi.Prelude.{
  Fields, Dict, put, ℕ, ◌+◌, String, Option, none, some, List, [], ◌∷◌, ok, string_key, end,
}
use workflow_automation_engi.Engine.Models.{RetryConfig, StepDefinition, type_value}
use workflow_automation_engi.Engine.Context.{StepInput}
use workflow_automation_engi.Engine.Orchestrator.{execute_dag}
use workflow_automation_engi.Engine.State.{transition_execution}
use workflow_automation_engi.Engine.Parser.{ParserEnv, parse_workflow_definition}

-- A row's generated id
unfoldable pub new_uuid : Env → Action ℕ
new_uuid env s = (ok (env.uuid_at s.uuids), record s { uuids = s.uuids + 1 })

-- `retry_config.max_attempts if retry_config else 3`
abbrev pub attempts_of : Option RetryConfig → ℕ
attempts_of none = 3
attempts_of (some r) = r.max_attempts

-- The loop over `parsed.steps`: a pending row for each step, and `step_map`.
unfoldable pub create_steps :
    Env → ℕ → ℕ → List StepDefinition → Dict String ℕ → Action (Dict String ℕ)
unfolding save_step new_uuid
create_steps env tenant_id execution_id [] step_map = pure step_map
create_steps env tenant_id execution_id (step_def ∷ steps) step_map = do
  id ← new_uuid env
  save_step id (record {
    id = id;
    tenant_id = tenant_id;
    execution_id = execution_id;
    step_id = step_def.id;
    step_type = type_value step_def.type;
    status = "pending";
    input_data = end;
    output_data = none;
    error = none;
    attempt = 1;
    max_attempts = attempts_of step_def.retry;
    started_at = none;
    completed_at = none;
    duration_ms = none;
  })
  create_steps env tenant_id execution_id steps (put step_def.id id step_map)

module _ (env : Env) (parser : ParserEnv)
    (run_step : StepDefinition → StepInput → Action Fields) where
  unfoldable pub start_execution : Workflow → Fields → ℕ → Option ℕ → ℕ → Action Execution
  unfolding new_uuid save_execution load_execution create_steps
  start_execution workflow trigger_data tenant_id replayed_from depth = do
    parsed ← lift (
        parse_workflow_definition parser (record {
          name = workflow.name;
          trigger_type = workflow.trigger_type;
          steps = workflow.steps;
        }))
    id ← new_uuid env
    save_execution id (record {
      id = id;
      tenant_id = tenant_id;
      workflow_id = workflow.id;
      status = "pending";
      trigger_data = trigger_data;
      context = record { trigger = trigger_data; steps = []; depth = none; tenant_id = none };
      replayed_from = replayed_from;
      started_at = none;
      completed_at = none;
      error = none;
      duration_ms = none;
    })
    transition_execution env id "running"
    step_map ← create_steps env tenant_id id parsed.steps []
    -- Lines 92 to 97: `ctx` is the document that `execution.context` holds already, of a plain JSONB
    -- column, so assigning it is no change to write. The row keeps its context, without "_depth" and
    -- "_tenant_id", and `session.refresh` reads the row before any step's input is assembled.
    execution ← load_execution id
    save_execution id execution
    execute_dag env run_step id parsed.steps step_map
    load_execution id
