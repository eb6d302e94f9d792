-- ===== src/Services/Tests.antt =====
-- Examples for the services: what belongs to tenant 1, asked for by tenant 2.
use workflow_automation_engi.Services.Detail.{
  Poll, get_execution, logs_response, stream_execution, connected, forwarded, stream_events,
  forward,
}
use workflow_automation_engi.Db.{Workflow}
use workflow_automation_engi.Services.Overrides.{AreDistinct, or_else, merge_overrides-find}
use workflow_automation_engi.Engine.Session.{Env, Execution, Session, StepExecution}
use workflow_automation_engi.Services.{
  Starter, manual_execute, replay_execution, cancel_execution, merge_overrides, steps_of,
}
use workflow_automation_engi.Services.Tenancy.{not_found, requests_foreign}
use workflow_automation_engi.Prelude.{
  ℕ, Dict, get, nat_key, ◌≡◌, ◌≢◌, refl, none, some, ok, true, [], ◌∷◌, end, pos, ◌*◌, ◌-◌, arith,
  Fields, find, String, str, obj, field, All, inr, false, List,
}
use workflow_automation_engi.Services.Cancel.{IsClosed, IsPresent, cancel_execution-IsClosed}
use workflow_automation_engi.Engine.Orchestrator.Frame.{execution_status}
use workflow_automation_engi.Services.Logs.{
  ExecutionLog, ReprText, record_execution_log, get_execution_logs, matches_step, new_log,
}
use workflow_automation_engi.Services.Logs.Recorded.{
  IsInserted, get_execution_logs-record_execution_log,
}

abbrev test_env : Env
test_env = record { time_at = λ n. n * 1000; elapsed_ms = λ a b. pos (b - a); uuid_at = λ n. n }

abbrev test_workflow : Workflow
test_workflow = record {
  id = 3;
  tenant_id = 1;
  name = "orders";
  description = none;
  trigger_type = "manual";
  trigger_config = end;
  steps = [];
  is_active = true;
  webhook_path = none;
  webhook_secret = none;
  created_at = 0;
  updated_at = 0;
}

abbrev workflows : Dict ℕ Workflow
workflows = (3, test_workflow) ∷ []

abbrev test_execution : Execution
test_execution = record {
  id = 7;
  tenant_id = 1;
  workflow_id = 3;
  status = "running";
  trigger_data = end;
  context = record { trigger = end; steps = []; depth = none; tenant_id = none };
  replayed_from = none;
  started_at = some 5;
  completed_at = none;
  error = none;
  duration_ms = none;
}

abbrev test_session : Session
test_session = record {
  executions = (7, test_execution) ∷ [];
  step_executions = [];
  clock_reads = 0;
  uuids = 0;
}

abbrev test_start : Starter
test_start workflow trigger_data tenant_id replayed_from s = (ok test_execution, s)

other_tenant : test_workflow.tenant_id ≢ 2
other_tenant = λ h. omega arith

workflow_stored : get 3 workflows ≡ some test_workflow
unfolding get
workflow_stored = refl

execution_stored : get 7 test_session.executions ≡ some test_execution
unfolding get
execution_stored = refl

abbrev test_polls : List Poll
test_polls =
    record { msg = some (record { type = "message"; payload = "step" }); disconnected = false }
    ∷ record { msg = none; disconnected = true }
    ∷ record { msg = some (record { type = "message"; payload = "late" }); disconnected = false }
    ∷ []

requests_foreign_example :
    (manual_execute test_start workflows 3 2 end test_session
      ≡ (not_found "Workflow not found.", test_session))
    × (replay_execution test_start workflows 7 2 end test_session
        ≡ (not_found "Execution not found.", test_session))
    × (cancel_execution test_env 7 2 test_session
        ≡ (not_found "Execution not found.", test_session))
    × (get_execution (λ id. 0) (λ id. 0) 7 2 test_session ≡ not_found "Execution not found.")
    × (logs_response 7 2 none test_session [] ≡ not_found "Execution not found.")
    × (stream_execution 7 2 test_polls test_session ≡ not_found "Execution not found.")
requests_foreign_example =
    requests_foreign test_start workflows 2 test_session test_env (λ id. 0) (λ id. 0) [] test_polls
      3 7 none end test_workflow test_execution workflow_stored other_tenant execution_stored
      other_tenant

stream_execution_ends :
    stream_execution 7 1 test_polls test_session
    ≡ ok (connected 7 test_execution.status ∷ forwarded "step" ∷ [])
unfolding stream_execution stream_events forward get
stream_execution_ends = refl

abbrev test_section : Fields
test_section = field "amount" (str "10") (field "currency" (str "EUR") end)

abbrev test_trigger : Fields
test_trigger = field "source" (str "manual") (field "data" (obj test_section) end)

overrides_AreDistinct : AreDistinct (field "amount" (str "20") end)
unfolding find
overrides_AreDistinct = (refl, tt)

section_found : find "data" test_trigger ≡ some (obj test_section)
unfolding find
section_found = refl

merge_overrides-find_example :
    (merged after : Fields) × (merge_overrides test_trigger (field "amount" (str "20") end)
      ≡ ok merged)
    × (find "data" merged ≡ some (obj after))
    × ((j : String)
        → find j after ≡ or_else (find j (field "amount" (str "20") end)) (find j test_section))
    × ((j : String) → j ≢ "data" → find j merged ≡ find j test_trigger)
merge_overrides-find_example =
    merge_overrides-find test_trigger end test_section "amount" (str "20") overrides_AreDistinct
      section_found

abbrev open_step : StepExecution
open_step = record {
  id = 9;
  tenant_id = 1;
  execution_id = 7;
  step_id = "fetch";
  step_type = "http";
  status = "running";
  input_data = end;
  output_data = none;
  error = none;
  attempt = 1;
  max_attempts = 3;
  started_at = some 6;
  completed_at = none;
  duration_ms = none;
}

abbrev open_session : Session
open_session = record test_session { step_executions = (9, open_step) ∷ [] }

open_steps-IsPresent : All (λ j. IsPresent j open_session) (steps_of 7 open_session.step_executions)
unfolding steps_of get
open_steps-IsPresent = ((open_step, refl), tt)

cancel_execution-IsClosed_example :
    ((cancel_execution test_env 7 1 open_session).0 ≡ ok true)
    × (execution_status 7 (cancel_execution test_env 7 1 open_session).1 ≡ some "cancelled")
    × All
        (λ j. IsClosed j (cancel_execution test_env 7 1 open_session).1)
        (steps_of 7 open_session.step_executions)
cancel_execution-IsClosed_example =
    cancel_execution-IsClosed test_env 7 1 test_execution open_session execution_stored refl
      (inr refl) open_steps-IsPresent

abbrev test_text : ReprText
test_text = record { repr = λ s. s; levels = "{'info', 'warn', 'error', 'debug'}" }

abbrev started_log : ExecutionLog
started_log = new_log 20 5 1 7 "info" "started" none none

abbrev later_log : ExecutionLog
later_log = new_log 19 9 1 7 "info" "done" none none

any_step : matches_step none none ≡ true
unfolding matches_step
any_step = refl

log_recorded :
    (record_execution_log test_text 20 5 1 7 "info" "started" none none (later_log ∷ [])).0
    ≡ ok started_log
unfolding record_execution_log
log_recorded = refl

logs_before : get_execution_logs 7 1 none test_session (later_log ∷ []) ≡ ok (later_log ∷ [])
unfolding get_execution_logs get
logs_before = refl

get_execution_logs-record_execution_log_example :
    (after : List ExecutionLog) × (get_execution_logs 7 1 none test_session
        (record_execution_log test_text 20 5 1 7 "info" "started" none none (later_log ∷ [])).1
      ≡ ok after)
    × IsInserted started_log (later_log ∷ []) after
get_execution_logs-record_execution_log_example =
    get_execution_logs-record_execution_log test_text 20 5 1 7 "info" "started" none none none
      test_session (later_log ∷ []) (later_log ∷ []) started_log any_step log_recorded logs_before
