-- ===== src/Queue/Tests.antt =====
-- Examples for the task: a queued delay step whose executor succeeds.
use workflow_automation_engi.Queue.{execute_step, step_type_of, StepType, delay, StepInput}
use workflow_automation_engi.Engine.Session.{Env, Execution, StepExecution, Session, Action}
use workflow_automation_engi.Queue.Outcomes.{TaskEnds, execute_step-TaskEnds}
use workflow_automation_engi.Prelude.{
  Fields, get, ◌-◌, ◌*◌, ◌≡◌, refl, true, none, some, [], ◌∷◌, arith, end, ok, pos, nat_key,
}
use workflow_automation_engi.Engine.Models.{StepType}
use workflow_automation_engi.Engine.Context.{StepInput}

abbrev test_env : Env
test_env = record { time_at = λ n. n * 1000; elapsed_ms = λ a b. pos (b - a); uuid_at = λ n. n }

abbrev test_execution : Execution
test_execution = record {
  id = 7;
  tenant_id = 1;
  workflow_id = 3;
  status = "running";
  trigger_data = end;
  context = record { trigger = end; steps = []; depth = none; tenant_id = none };
  replayed_from = none;
  started_at = none;
  completed_at = none;
  error = none;
  duration_ms = none;
}

abbrev queued_step : StepExecution
queued_step = record {
  id = 9;
  tenant_id = 1;
  execution_id = 7;
  step_id = "wait";
  step_type = "delay";
  status = "queued";
  input_data = end;
  output_data = none;
  error = none;
  attempt = 1;
  max_attempts = 3;
  started_at = none;
  completed_at = none;
  duration_ms = none;
}

abbrev queued_session : Session
queued_session = record {
  executions = (7, test_execution) ∷ [];
  step_executions = (9, queued_step) ∷ [];
  clock_reads = 0;
  uuids = 10;
}

abbrev answers : StepType → Fields → StepInput → Action Fields
answers step_type config context s = (ok end, s)

step_stored : get 9 queued_session.step_executions ≡ some queued_step
unfolding get
step_stored = refl

execution_stored : get 7 queued_session.executions ≡ some test_execution
unfolding get
execution_stored = refl

typed : step_type_of "delay" ≡ ok delay
unfolding step_type_of
typed = refl

execute_step-TaskEnds_example :
    TaskEnds test_env answers 9 7 1 (execute_step test_env answers 9 7 true queued_session)
execute_step-TaskEnds_example =
    execute_step-TaskEnds test_env answers 9 7 delay queued_step test_execution queued_session
      (λ config. record { steps = λ d i s. refl; executions = λ d i s. refl }) step_stored
      execution_stored refl (omega arith) typed
