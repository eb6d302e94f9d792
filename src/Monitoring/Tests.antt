-- ===== src/Monitoring/Tests.antt =====
-- Examples for src/api/metrics.py and src/api/health.py.
use mathlib.Core.Option.{get_or}
use workflow_automation_engi.Db.{Workflow}
use workflow_automation_engi.Engine.Session.{Execution}
use workflow_automation_engi.Monitoring.{
  health_check, get_execution_metrics, Metrics, group_by, counts,
}
use workflow_automation_engi.Prelude.{
  ℕ, String, List, [], ◌∷◌, none, some, end, Dict, Value, ℤ, refl, raise, get, put, ◌≡◌, true, int,
  ok, pos, nat_key, ◌==◌, length, select, ◌+◌, ◌≤◌, string_key,
}
use workflow_automation_engi.Monitoring.Totals.{
  AreRates, sum_workflows, get_execution_metrics-total,
}

abbrev orders : Workflow
orders = record {
  id = 3;
  tenant_id = 1;
  name = "orders";
  description = none;
  trigger_type = "manual";
  trigger_config = end;
  steps = [];
  is_active = true;
  webhook_path = none;
  webhook_secret = none;
  created_at = 0;
  updated_at = 0;
}

abbrev workflows : Dict ℕ Workflow
workflows = (3, orders) ∷ []

abbrev ended : ℕ → String → Execution
ended id status = record {
  id = id;
  tenant_id = 1;
  workflow_id = 3;
  status = status;
  trigger_data = end;
  context = record { trigger = end; steps = []; depth = none; tenant_id = none };
  replayed_from = none;
  started_at = some 5;
  completed_at = some 9;
  error = none;
  duration_ms = some (pos 4);
}

abbrev executions : List Execution
executions = ended 7 "completed" ∷ ended 8 "failed" ∷ ended 9 "completed" ∷ []

abbrev int_avg : List ℤ → ℤ
int_avg values = pos 4

abbrev rounded_ratio : ℕ → ℕ → Value
rounded_ratio failed total = int (pos 1)

workflow_found : get 3 workflows ≡ some orders
unfolding get
workflow_found = refl

abbrev test_metrics : Metrics
test_metrics = get_execution_metrics int_avg rounded_ratio 1 workflows executions [] []

get_execution_metrics-total_example :
    (test_metrics.total ≡ 3)
    × ((status : String)
        → get_or (get status test_metrics.by_status) 0
          ≡ length (select (λ ex. ex.status == status) executions))
    × (sum_workflows test_metrics.by_workflow ≡ test_metrics.total)
    × AreRates int_avg rounded_ratio test_metrics.step_failure_rates
    × (test_metrics.webhook_delivery_stats.accepted + test_metrics.webhook_delivery_stats.rejected
          + test_metrics.webhook_delivery_stats.error
        ≤ test_metrics.webhook_delivery_stats.total)
get_execution_metrics-total_example =
    get_execution_metrics-total int_avg rounded_ratio 1 workflows executions [] []
      ((orders, workflow_found), ((orders, workflow_found), ((orders, workflow_found), tt)))

metrics_by_status :
    (get_execution_metrics int_avg rounded_ratio 1 workflows executions [] []).by_status
    ≡ ("completed", 2) ∷ ("failed", 1) ∷ []
unfolding get_execution_metrics group_by counts put get
metrics_by_status = refl

health_degraded :
    (health_check (ok tt) (raise "CONNECTION" "refused" 500) (ok ("arq:worker:1" ∷ []))).status
    ≡ "degraded"
unfolding health_check
health_degraded = refl
