-- ===== src/Monitoring.antt =====
-- src/api/health.py and src/api/metrics.py: the state of the services, and numbers on executions.
-- SQL's GROUP BY keeps the rows of each group; the database gives the groups in any order.
pub mod Groups
pub mod Totals
mod Tests
use mathlib.Core.Option.{get_or}
use workflow_automation_engi.Db.{Workflow}
use workflow_automation_engi.Engine.Session.{Execution, StepExecution}
use workflow_automation_engi.Webhooks.{Delivery}
use workflow_automation_engi.Prelude.{
  ℕ, String, Bool, List, [], ◌∷◌, Dict, Result, ok, err, nat_eq, str_eq, if◌then◌else◌, Eq, ◌==◌,
  Value, length, select, ℤ, keys, get, put, ◌+◌, ◌≡◌, ◌↔◌, true, false, ◌&&◌, ◌||◌, none, some, map,
  arith, eq_iff, int, pos, nat_key, string_key,
}

-- `try: SELECT 1`, and the same with a PING
abbrev pub responds : Result (Unit {0}) → Bool
responds (ok tt) = true
responds (err exc) = false

abbrev pub count_workers : Result (List String) → ℕ
count_workers (ok keys) = length keys
count_workers (err exc) = 0

abbrev pub compute_status : Bool → Bool → String
compute_status pg redis = if pg && redis then "ok" else if pg || redis then "degraded" else "error"

pub record Health : Type 0 where
  pub status : String
  pub pg : Bool
  pub redis : Bool
  pub workers : ℕ

-- The answers of the database, of Redis, and of Redis on the keys of the workers are given.
unfoldable pub health_check : Result (Unit {0}) → Result (Unit {0}) → Result (List String) → Health
health_check select_one ping worker_keys =
    let pg = responds select_one in
    let redis = responds ping in
    record {
      status = compute_status pg redis;
      pg = pg;
      redis = redis;
      workers = count_workers worker_keys;
    }

pair_iff : (p q : ℕ × String) → (nat_eq p.0 q.0 && str_eq p.1 q.1 ≡ true) ↔ (p ≡ q)
pair_iff p q = (λ h. ground (arith, eq_iff p.1 q.1), λ h. rw h (ground (arith, eq_iff q.1 q.1)))

-- Two columns are grouped by together.
instance pub group_key : Eq (ℕ × String)
group_key = record { beq = λ p q. nat_eq p.0 q.0 && str_eq p.1 q.1; beq_iff = λ p q. pair_iff p q }

module _ {A K : Type 0} ⦃e : Eq K⦄ where
  -- GROUP BY
  unfoldable pub group_by : (A → K) → List A → Dict K (List A)
  group_by key [] = []
  group_by key (x ∷ xs) =
      let groups = group_by key xs in put (key x) (x ∷ get_or (get (key x) groups) []) groups

-- `func.count()` of each group
unfoldable pub counts : {A K : Type 0} → Dict K (List A) → Dict K ℕ
counts [] = []
counts ((k, rows) ∷ groups) = (k, length rows) ∷ counts groups

-- sum(row.cnt for row in rows)
unfoldable pub sum_counts : {K : Type 0} → Dict K ℕ → ℕ
sum_counts [] = 0
sum_counts ((k, cnt) ∷ rows) = cnt + sum_counts rows

-- The values that are not NULL
unfoldable pub durations : List Execution → List ℤ
durations [] = []
durations (ex ∷ rows) =
    let rest = durations rows in
    elim ex.duration_ms [ none ↦ rest | some duration_ms ↦ duration_ms ∷ rest ]

pub record WorkflowStats : Type 0 where
  pub workflow_id : ℕ
  pub workflow_name : String
  pub count : ℕ
  pub avg_duration_ms : ℤ

pub record StepStats : Type 0 where
  pub step_type : String
  pub total : ℕ
  pub failed : ℕ
  pub rate : Value

pub record WebhookStats : Type 0 where
  pub total : ℕ
  pub accepted : ℕ
  pub rejected : ℕ
  pub error : ℕ

pub record Metrics : Type 0 where
  pub total : ℕ
  pub by_status : Dict String ℕ
  pub avg_duration_ms : ℤ
  pub by_workflow : List WorkflowStats
  pub step_failure_rates : List StepStats
  pub webhook_delivery_stats : WebhookStats

-- JOIN on the workflow's id
unfoldable pub join_workflows : Dict ℕ Workflow → List Execution → List (Execution × Workflow)
join_workflows workflows [] = []
join_workflows workflows (ex ∷ rows) =
    let rest = join_workflows workflows rows in
    elim (get ex.workflow_id workflows) [ none ↦ rest | some workflow ↦ (ex, workflow) ∷ rest ]

abbrev pub webhook_stats : Dict String ℕ → WebhookStats
webhook_stats by_status = record {
  total = sum_counts by_status;
  accepted = get_or (get "accepted" by_status) 0;
  rejected = get_or (get "rejected" by_status) 0;
  error = get_or (get "error" by_status) 0;
}

-- `int` of the database's average of at least one value, and Python's `round(failed / total, 3)`
module _ (int_avg : List ℤ → ℤ) (rounded_ratio : ℕ → ℕ → Value) where
  -- `int(row.avg_ms) if row.avg_ms else 0`, where the average of no values is NULL
  unfoldable pub average_ms : List Execution → ℤ
  unfolding durations
  average_ms rows = elim (durations rows) [ [] ↦ pos 0 | values ↦ int_avg values ]

  unfoldable pub workflow_rows :
      Dict (ℕ × String) (List (Execution × Workflow)) → List WorkflowStats
  workflow_rows [] = []
  workflow_rows (((workflow_id, workflow_name), rows) ∷ groups) =
      record {
        workflow_id = workflow_id;
        workflow_name = workflow_name;
        count = length rows;
        avg_duration_ms = average_ms (map (λ p. p.0) rows);
      }
      ∷ workflow_rows groups

  unfoldable pub step_rows : Dict String (List StepExecution) → List StepStats
  step_rows [] = []
  step_rows ((step_type, rows) ∷ groups) =
      let total = length rows in
      let failed = length (select (λ se. se.status == "failed") rows) in
      record {
        step_type = step_type;
        total = total;
        failed = failed;
        rate = if nat_eq total 0 then int (pos 0) else rounded_ratio failed total;
      }
      ∷ step_rows groups

  unfoldable pub get_execution_metrics :
      ℕ → Dict ℕ Workflow → List Execution → List StepExecution → List Delivery → Metrics
  unfolding group_by counts sum_counts average_ms join_workflows workflow_rows step_rows
  get_execution_metrics tenant_id workflows executions step_executions deliveries =
      let mine = select (λ ex. ex.tenant_id == tenant_id) executions in
      let by_status = counts (group_by (λ ex. ex.status) mine) in
      let joined = join_workflows workflows mine in
      let steps = select (λ se. se.tenant_id == tenant_id) step_executions in
      let wh_by_status =
        counts (group_by (λ d. d.status) (select (λ d. d.tenant_id == tenant_id) deliveries)) in
      record {
        total = sum_counts by_status;
        by_status = by_status;
        avg_duration_ms = average_ms mine;
        by_workflow = workflow_rows (group_by (λ p. (p.0.workflow_id, p.1.name)) joined);
        step_failure_rates = step_rows (group_by (λ se. se.step_type) steps);
        webhook_delivery_stats = webhook_stats wh_by_status;
      }
