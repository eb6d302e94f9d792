-- ===== src/Steps/Samples.antt =====
-- Examples for the executors with a client or a session.
use workflow_automation_engi.Engine.Models.{delay}
use workflow_automation_engi.Steps.{Jinja, is_falsy, evaluate_expression, rendered}
use workflow_automation_engi.Steps.Empty.{IsConfigError, full_registry, step_registry_empty}
use workflow_automation_engi.Steps.Http.{Response, HttpEnv, execute_http, responded}
use workflow_automation_engi.Steps.SubWorkflow.{UuidText, NestedStarter, MappingJinja}
use workflow_automation_engi.Steps.Answers.{Succeeded, execute_http-Succeeded}
use workflow_automation_engi.Prelude.{
  Fields, find, Exception, raise, ◌≡◌, refl, some, [], int, str, obj, field, end, ok, err, pos,
}
use workflow_automation_engi.Engine.Context.{StepInput}
use workflow_automation_engi.Engine.Session.{Session}

abbrev pub plain : Jinja
plain template context = rendered "http://localhost"

abbrev pub answer : Response
answer = record { status_code = 204; headers = end; text = ""; duration_ms = pos 3 }

abbrev pub client : HttpEnv
client = record {
  upper = λ s. "GET";
  text_of = λ v. "30";
  request = λ r. responded answer;
  max_response_body_size = 100;
  http_step_timeout = int (pos 30);
}

abbrev http_config : Fields
http_config = field "url" (str "http://localhost") end

abbrev test_context : StepInput
test_context = record { steps = []; trigger = end; depth = 1; tenant_id = some 1 }

abbrev http_output : Fields
http_output =
    field "status_code" (int (pos 204))
      (field "headers" (obj end) (field "body" (str "") (field "duration_ms" (int (pos 3)) end)))

answered : execute_http client plain http_config test_context ≡ ok http_output
unfolding execute_http find is_falsy evaluate_expression
answered = refl

execute_http-Succeeded_example : Succeeded client http_output
execute_http-Succeeded_example =
    execute_http-Succeeded client plain http_config test_context http_output answered

abbrev pub uuids : UuidText
uuids = record { parse = λ v. some 3; text = λ n. "3" }

abbrev pub mapping : MappingJinja
mapping template steps trigger = rendered "7"

abbrev test_session : Session
test_session = record { executions = []; step_executions = []; clock_reads = 0; uuids = 0 }

abbrev pub no_start : NestedStarter
no_start workflow trigger_data tenant_id depth s = (raise "QUEUE" "No queue." 503, s)

step_registry_empty_example :
    (x : Exception) × IsConfigError x
    × (full_registry client plain 5 uuids mapping [] no_start delay end test_context test_session
        ≡ (err x, test_session))
step_registry_empty_example =
    step_registry_empty client plain 5 uuids mapping [] no_start delay test_context test_session
