-- ===== src/Engine/Tests.antt =====
-- Data for the examples of src/engine: a clock that counts seconds, and rows.
mod States
mod Retries
pub mod Parsing
mod Failures
mod Dag
mod Cycles
use workflow_automation_engi.Engine.Session.{
  Env, Execution, StepExecution, Session, Action, Context,
}
use workflow_automation_engi.Engine.Models.{StepDefinition}
use workflow_automation_engi.Prelude.{String, ◌-◌, ◌*◌, [], ◌∷◌, none, end, field, str, pos}

abbrev pub test_env : Env
test_env = record { time_at = λ n. n * 1000; elapsed_ms = λ a b. pos (b - a); uuid_at = λ n. n }

abbrev pub test_execution : String → Execution
test_execution status = record {
  id = 7;
  tenant_id = 1;
  workflow_id = 3;
  status = status;
  trigger_data = end;
  context = record { trigger = end; steps = []; depth = none; tenant_id = none };
  replayed_from = none;
  started_at = none;
  completed_at = none;
  error = none;
  duration_ms = none;
}

abbrev pub test_step : StepExecution
test_step = record {
  id = 9;
  tenant_id = 1;
  execution_id = 7;
  step_id = "fetch";
  step_type = "http";
  status = "pending";
  input_data = end;
  output_data = none;
  error = none;
  attempt = 1;
  max_attempts = 3;
  started_at = none;
  completed_at = none;
  duration_ms = none;
}

abbrev pub test_session : Session
test_session = record {
  executions = (7, test_execution "pending") ∷ [];
  step_executions = (9, test_step) ∷ [];
  clock_reads = 4;
  uuids = 10;
}
