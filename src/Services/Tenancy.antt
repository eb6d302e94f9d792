-- ===== src/Services/Tenancy.antt =====
-- Requests of src/api/executions.py for what belongs to another tenant.
use workflow_automation_engi.Db.{Workflow}
use workflow_automation_engi.Services.{
  Starter, manual_execute, replay_execution, cancel_execution, Session,
}
use workflow_automation_engi.Prelude.{
  ◌==◌, Fields, Result, raise, Dict, get, ℕ, String, ◌≡◌, ◌≢◌, false, some, arith, nat_key, Option,
  List,
}
use workflow_automation_engi.Services.Logs.{ExecutionLog, get_execution_logs}
use workflow_automation_engi.Services.Detail.{get_execution, logs_response, stream_execution, Poll}
use workflow_automation_engi.Engine.Session.{Session, Execution, Env}

abbrev pub not_found : {A : Type 0} → String → Result A
not_found message = raise "NOT_FOUND" message 404

foreign : (a b : ℕ) → a ≢ b → (a == b) ≡ false
foreign a b h = ground arith

module _ (start : Starter) (workflows : Dict ℕ Workflow) (tenant_id : ℕ) (s : Session) where
  manual_execute_foreign :
      (id : ℕ) (trigger_data : Fields) (w : Workflow)
      → get id workflows ≡ some w
      → w.tenant_id ≢ tenant_id
      → manual_execute start workflows id tenant_id trigger_data s
        ≡ (not_found "Workflow not found.", s)
  unfolding manual_execute
  manual_execute_foreign id trigger_data w found differ = rw (found, foreign _ _ differ)

  replay_execution_foreign :
      (id : ℕ) (override_data : Fields) (ex : Execution)
      → get id s.executions ≡ some ex
      → ex.tenant_id ≢ tenant_id
      → replay_execution start workflows id tenant_id override_data s
        ≡ (not_found "Execution not found.", s)
  unfolding replay_execution
  replay_execution_foreign id override_data ex found differ = rw (found, foreign _ _ differ)

  cancel_execution_foreign :
      (id : ℕ) (env : Env) (ex : Execution)
      → get id s.executions ≡ some ex
      → ex.tenant_id ≢ tenant_id
      → cancel_execution env id tenant_id s ≡ (not_found "Execution not found.", s)
  unfolding cancel_execution
  cancel_execution_foreign id env ex found differ = rw (found, foreign _ _ differ)

  get_execution_foreign :
      (id : ℕ) (created_at step_created_at : ℕ → ℕ) (ex : Execution)
      → get id s.executions ≡ some ex
      → ex.tenant_id ≢ tenant_id
      → get_execution created_at step_created_at id tenant_id s ≡ not_found "Execution not found."
  unfolding get_execution
  get_execution_foreign id created_at step_created_at ex found differ =
      rw (found, foreign _ _ differ)

  logs_response_foreign :
      (id : ℕ) (step_id : Option String) (logs : List ExecutionLog) (ex : Execution)
      → get id s.executions ≡ some ex
      → ex.tenant_id ≢ tenant_id
      → logs_response id tenant_id step_id s logs ≡ not_found "Execution not found."
  unfolding logs_response get_execution_logs
  logs_response_foreign id step_id logs ex found differ = rw (found, foreign _ _ differ)

  stream_execution_foreign :
      (id : ℕ) (polls : List Poll) (ex : Execution)
      → get id s.executions ≡ some ex
      → ex.tenant_id ≢ tenant_id
      → stream_execution id tenant_id polls s ≡ not_found "Execution not found."
  unfolding stream_execution
  stream_execution_foreign id polls ex found differ = rw (found, foreign _ _ differ)

  module _ (env : Env) (created_at step_created_at : ℕ → ℕ) (logs : List ExecutionLog)
      (polls : List Poll) where
    -- Executing by hand a workflow of another tenant, and replaying or cancelling an execution of
    -- another tenant, are NOT_FOUND, start nothing and change nothing; so is reading the execution,
    -- its log or its events, which shows nothing of it.
    pub requests_foreign :
        (workflow_id execution_id : ℕ) (step_id : Option String) (given : Fields) (w : Workflow)
        (ex : Execution)
        → get workflow_id workflows ≡ some w
        → w.tenant_id ≢ tenant_id
        → get execution_id s.executions ≡ some ex
        → ex.tenant_id ≢ tenant_id
        → (manual_execute start workflows workflow_id tenant_id given s
            ≡ (not_found "Workflow not found.", s))
          × (replay_execution start workflows execution_id tenant_id given s
              ≡ (not_found "Execution not found.", s))
          × (cancel_execution env execution_id tenant_id s ≡ (not_found "Execution not found.", s))
          × (get_execution created_at step_created_at execution_id tenant_id s
              ≡ not_found "Execution not found.")
          × (logs_response execution_id tenant_id step_id s logs ≡ not_found "Execution not found.")
          × (stream_execution execution_id tenant_id polls s ≡ not_found "Execution not found.")
    requests_foreign workflow_id execution_id step_id given w ex found differ stored differ' = (
      manual_execute_foreign workflow_id given w found differ,
      replay_execution_foreign execution_id given ex stored differ',
      cancel_execution_foreign execution_id env ex stored differ',
      get_execution_foreign execution_id created_at step_created_at ex stored differ',
      logs_response_foreign execution_id step_id logs ex stored differ',
      stream_execution_foreign execution_id polls ex stored differ',
    )
