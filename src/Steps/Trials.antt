-- ===== src/Steps/Trials.antt =====
-- Examples for the runs of executions with the executors of src/steps: a workflow of two steps, and
-- one of a sub-workflow step.
use workflow_automation_engi.Db.{Workflow}
use workflow_automation_engi.Engine.Tests.{test_env}
use workflow_automation_engi.Engine.Tests.Parsing.{test_parser, test_raw}
use workflow_automation_engi.Engine.Models.{StepDefinition, sub_workflow}
use workflow_automation_engi.Engine.Orchestrator.{execute_step_with_retry}
use workflow_automation_engi.Engine.Parser.{ParserEnv, constructed}
use workflow_automation_engi.Engine.Session.{Execution, StepExecution, Session}
use workflow_automation_engi.Engine.Start.{start_execution}
use workflow_automation_engi.Steps.Samples.{plain, client, uuids, mapping, no_start}
use workflow_automation_engi.Steps.Tenantless.{run_any}
use workflow_automation_engi.Steps.Runs.{start_execution_unnested}
use workflow_automation_engi.Steps.SubWorkflow.{NestedStarter}
use workflow_automation_engi.Steps.Unnested.{sub_workflow_fails}
use workflow_automation_engi.Prelude.{
  Dict, get, ℕ, ◌≡◌, refl, inl, arith, true, false, none, some, [], ◌∷◌, str, field, end, ok, err,
  other, part, nat_key,
}

abbrev child : Workflow
child = record {
  id = 3;
  tenant_id = 1;
  name = test_raw.name;
  description = none;
  trigger_type = test_raw.trigger_type;
  trigger_config = end;
  steps = test_raw.steps;
  is_active = true;
  webhook_path = none;
  webhook_secret = none;
  created_at = 0;
  updated_at = 0;
}

abbrev known : Dict ℕ Workflow
known = (3, child) ∷ []

abbrev nest : StepDefinition
nest = record {
  id = "nest";
  type = sub_workflow;
  config = field "workflow_id" (str "3") end;
  depends_on = [];
  retry = none;
}

abbrev nest_parser : ParserEnv
nest_parser = record test_parser { construct = λ v. constructed nest }

abbrev parent : Workflow
parent = record child { id = 4; steps = str "nest" ∷ [] }

abbrev other_start : NestedStarter
other_start workflow trigger_data tenant_id depth s = (err (other (part "started" ∷ [])), s)

abbrev empty_session : Session
empty_session = record { executions = []; step_executions = []; clock_reads = 0; uuids = 10 }

abbrev running_execution : Execution
running_execution = record {
  id = 7;
  tenant_id = 1;
  workflow_id = 4;
  status = "running";
  trigger_data = end;
  context = record { trigger = end; steps = []; depth = none; tenant_id = none };
  replayed_from = none;
  started_at = some 1;
  completed_at = none;
  error = none;
  duration_ms = none;
}

abbrev pending_step : StepExecution
pending_step = record {
  id = 9;
  tenant_id = 1;
  execution_id = 7;
  step_id = "nest";
  step_type = "sub_workflow";
  status = "pending";
  input_data = end;
  output_data = none;
  error = none;
  attempt = 1;
  max_attempts = 3;
  started_at = none;
  completed_at = none;
  duration_ms = none;
}

abbrev nest_session : Session
nest_session = record {
  executions = (7, running_execution) ∷ [];
  step_executions = (9, pending_step) ∷ [];
  clock_reads = 4;
  uuids = 10;
}

step_stored : get 9 nest_session.step_executions ≡ some pending_step
unfolding get
step_stored = refl

execution_stored : get 7 nest_session.executions ≡ some running_execution
unfolding get
execution_stored = refl

start_execution_unnested_example :
    start_execution test_env nest_parser
      (run_any client plain 5 uuids mapping known no_start)
      parent
      end
      1
      none
      0
      empty_session
    ≡ start_execution test_env nest_parser
        (run_any client plain 5 uuids mapping known other_start)
        parent
        end
        1
        none
        4
        empty_session
start_execution_unnested_example =
    start_execution_unnested test_env nest_parser client plain 5 uuids mapping known no_start
      other_start parent end 1 none 0 4 empty_session

sub_workflow_fails_example :
    ((execute_step_with_retry test_env
        (run_any client plain 5 uuids mapping known no_start)
        7
        nest
        9
        nest_session).0
      ≡ ok false)
    × ((row' : StepExecution) × (get 9
            (execute_step_with_retry test_env
              (run_any client plain 5 uuids mapping known no_start)
              7
              nest
              9
              nest_session).1.step_executions
          ≡ some row')
        × (row'.status ≡ "failed")
        × (row'.attempt ≡ 3))
sub_workflow_fails_example =
    sub_workflow_fails test_env client plain 5 uuids mapping known no_start 7 9 nest pending_step
      running_execution nest_session refl step_stored execution_stored refl (inl refl) (omega arith)
