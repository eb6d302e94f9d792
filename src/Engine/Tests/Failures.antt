-- ===== src/Engine/Tests/Failures.antt =====
-- Examples for the end of an execution in src/engine/orchestrator.py whose step has failed.
use workflow_automation_engi.Prelude.{
  ℕ, ◌≡◌, refl, some, none, end, [], ◌∷◌, get, put, nat_key, inl, inr, Everywhere, Everywhere-put,
  Fields, ok,
}
use workflow_automation_engi.Engine.Session.{Session, Execution, Action}
use workflow_automation_engi.Engine.Models.{StepDefinition}
use workflow_automation_engi.Engine.Context.{StepInput}
use workflow_automation_engi.Engine.State.Timed.{AllTimed, IsTimed}
use workflow_automation_engi.Engine.Orchestrator.{fail_execution}
use workflow_automation_engi.Engine.Orchestrator.Failure.{fail_execution_untimed}
use workflow_automation_engi.Engine.Tests.{test_env}

abbrev running_row : Execution
running_row = record {
  id = 7;
  tenant_id = 1;
  workflow_id = 3;
  status = "running";
  trigger_data = end;
  context = record { trigger = end; steps = []; depth = none; tenant_id = none };
  replayed_from = none;
  started_at = some 5;
  completed_at = none;
  error = none;
  duration_ms = none;
}

abbrev running_session : Session
running_session = record {
  executions = (7, running_row) ∷ [];
  step_executions = [];
  clock_reads = 6;
  uuids = 0;
}

abbrev answers_nothing : StepDefinition → StepInput → Action Fields
answers_nothing step_def context s = (ok end, s)

no_rows : Everywhere {K = ℕ} IsTimed []
unfolding get
no_rows j v h = absurd (cc h)

running_IsTimed : AllTimed running_session
unfolding put
running_IsTimed =
    Everywhere-put IsTimed 7 running_row [] no_rows (inr (inl (refl, refl, refl, refl)))

running_stored : get 7 running_session.executions ≡ some running_row
unfolding get
running_stored = refl

fail_execution_untimed_example :
    ¬ AllTimed (fail_execution test_env answers_nothing 7 "fetch" running_session).1
fail_execution_untimed_example =
    fail_execution_untimed test_env answers_nothing 7 "fetch" running_row running_session
      running_IsTimed running_stored refl
