-- ===== src/Handlers/Tests.antt =====
-- Examples for src/api/middleware/errors.py.
use workflow_automation_engi.Engine.Session.{Env, Execution, Session}
use workflow_automation_engi.Handlers.{handle_exception, http_exception_handler}
use workflow_automation_engi.Handlers.Ended.{cancel_execution_ended}
use workflow_automation_engi.Services.{cancel_execution}
use workflow_automation_engi.Prelude.{
  part, Exception, get, ◌-◌, ◌*◌, ◌≡◌, refl, inl, inr, none, some, [], ◌∷◌, end, err, pos, nat_key,
}

abbrev test_env : Env
test_env = record { time_at = λ n. n * 1000; elapsed_ms = λ a b. pos (b - a); uuid_at = λ n. n }

abbrev failed_execution : Execution
failed_execution = record {
  id = 7;
  tenant_id = 1;
  workflow_id = 3;
  status = "failed";
  trigger_data = end;
  context = record { trigger = end; steps = []; depth = none; tenant_id = none };
  replayed_from = none;
  started_at = some 5;
  completed_at = some 9;
  error = none;
  duration_ms = none;
}

abbrev test_session : Session
test_session = record {
  executions = (7, failed_execution) ∷ [];
  step_executions = [];
  clock_reads = 4;
  uuids = 10;
}

execution_stored : get 7 test_session.executions ≡ some failed_execution
unfolding get
execution_stored = refl

cancel_execution_ended_example :
    (exc : Exception) × (cancel_execution test_env 7 1 test_session ≡ (err exc, test_session))
    × ((handle_exception exc).status_code ≡ 409)
    × ((handle_exception exc).error.code ≡ "INVALID_TRANSITION")
cancel_execution_ended_example =
    cancel_execution_ended test_env 7 1 failed_execution test_session execution_stored refl
      (inr (inl refl))

no_method : (http_exception_handler 418 (part "teapot" ∷ [])).error.code ≡ "HTTP_ERROR"
unfolding http_exception_handler get
no_method = refl
