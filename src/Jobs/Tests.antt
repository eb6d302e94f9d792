-- ===== src/Jobs/Tests.antt =====
-- Examples for src/queue/jobs.py: an execution that has run for two hours.
use workflow_automation_engi.Engine.Session.{Env, Execution, Session}
use workflow_automation_engi.Jobs.{is_stale, cleanup_stale_executions}
use workflow_automation_engi.Jobs.Stale.{cutoff, set_at, cleanup_executions}
use workflow_automation_engi.Prelude.{
  IsKeyed, get, nat_key, if◌then◌else◌, ◌≡◌, refl, none, some, [], ◌∷◌, end, pos, ◌+◌, ◌-◌,
}

abbrev test_env : Env
test_env = record {
  time_at = λ n. 7_200_000_000 + n;
  elapsed_ms = λ a b. pos (b - a);
  uuid_at = λ n. n;
}

abbrev stale_row : Execution
stale_row = record {
  id = 7;
  tenant_id = 1;
  workflow_id = 3;
  status = "running";
  trigger_data = end;
  context = record { trigger = end; steps = []; depth = none; tenant_id = none };
  replayed_from = none;
  started_at = some 5;
  completed_at = none;
  error = none;
  duration_ms = none;
}

abbrev test_session : Session
test_session = record {
  executions = (7, stale_row) ∷ [];
  step_executions = [];
  clock_reads = 0;
  uuids = 0;
}

executions_IsKeyed : IsKeyed test_session.executions
unfolding get
executions_IsKeyed = (refl, tt)

row_stored : get 7 test_session.executions ≡ some stale_row
unfolding get
row_stored = refl

cleanup_executions_example :
    (row' : Execution) × (get 7 (cleanup_stale_executions test_env test_session).1.executions
      ≡ some row')
    × (if is_stale (cutoff test_env test_session executions_IsKeyed) stale_row
        then (row'.status ≡ "failed")
          × (row'.completed_at ≡ some (set_at test_env test_session executions_IsKeyed))
        else (row' ≡ stale_row))
cleanup_executions_example =
    cleanup_executions test_env test_session executions_IsKeyed 7 stale_row row_stored
