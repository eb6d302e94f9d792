-- ===== src/Monitoring/Totals.antt =====
-- What the numbers of src/api/metrics.py add up to.
use mathlib.Core.Option.{get_or}
use workflow_automation_engi.Monitoring.{
  group_by, counts, sum_counts, WorkflowStats, StepStats, join_workflows, workflow_rows, step_rows,
  Delivery, Execution, StepExecution, WebhookStats, Metrics, get_execution_metrics, group_key,
}
use workflow_automation_engi.Prelude.{
  ◌==◌, length, select, Dict, get, ◌+◌, ◌≡◌, refl, ap, ◌∙◌, List, [], ◌∷◌, arith, Bool-cases, Value,
  All, ℤ, ℕ, suc, ◌≤◌, String, inl, inr, Bool, some, eq_iff, nat_key, string_key, sym,
}
use workflow_automation_engi.Db.{Workflow}
use workflow_automation_engi.Webhooks.{Delivery}
use workflow_automation_engi.Engine.Session.{Execution, StepExecution}
use workflow_automation_engi.Monitoring.Groups.{
  sum_counts-group_by, get-counts-group_by, group_by-AreFilled, AreFilled,
}

length-select : {A : Type 0} (p : A → Bool) (xs : List A) → length (select p xs) ≤ length xs
length-select p [] = omega arith
length-select p (x ∷ xs) = ground (arith, length-select p xs)

-- Rows with one of three statuses
length-three :
    (xs : List Delivery)
    → length (select (λ d. d.status == "accepted") xs)
        + length (select (λ d. d.status == "rejected") xs)
        + length (select (λ d. d.status == "error") xs)
      ≤ length xs
length-three [] = omega arith
length-three (d ∷ xs) = ground (
  arith,
  eq_iff d.status "accepted",
  eq_iff d.status "rejected",
  eq_iff d.status "error",
  eq_iff "accepted" "rejected",
  eq_iff "accepted" "error",
  eq_iff "rejected" "error",
  length-three xs,
)

abbrev pub HasWorkflow : Dict ℕ Workflow → Execution → Type 0
HasWorkflow workflows ex = (w : Workflow) × (get ex.workflow_id workflows ≡ some w)

length-join_workflows :
    (workflows : Dict ℕ Workflow) (rows : List Execution)
    → All (HasWorkflow workflows) rows
    → length (join_workflows workflows rows) ≡ length rows
unfolding join_workflows
length-join_workflows workflows [] all = refl
length-join_workflows workflows (ex ∷ rows) ((w, found), all) =
    rw (found, length) (ap suc (length-join_workflows workflows rows all))

All-select :
    {A : Type 0} (P : A → Type 0) (p : A → Bool) (xs : List A) → All P xs → All P (select p xs)
All-select P p [] all = tt
All-select P p (x ∷ xs) all = elim (Bool-cases (p x)) [
  | inl passes ↦ rw passes (all.0, All-select P p xs all.1)
  | inr fails ↦ rw fails (All-select P p xs all.1)
]

-- The executions that the rows of the workflows count
unfoldable pub sum_workflows : List WorkflowStats → ℕ
sum_workflows [] = 0
sum_workflows (row ∷ rows) = row.count + sum_workflows rows

module _ (int_avg : List ℤ → ℤ) (rounded_ratio : ℕ → ℕ → Value) where
  sum_workflows-counts :
      (groups : Dict (ℕ × String) (List (Execution × Workflow)))
      → sum_workflows (workflow_rows int_avg rounded_ratio groups) ≡ sum_counts (counts groups)
  unfolding sum_workflows workflow_rows sum_counts counts
  sum_workflows-counts [] = refl
  sum_workflows-counts ((k, rows) ∷ groups) = ground (arith, sum_workflows-counts groups)

  -- Of each type of steps there is at least one, and at most all have failed.
  abbrev pub AreRates : List StepStats → Type 0
  AreRates rows = All (λ row. (1 ≤ row.total) × (row.failed ≤ row.total)) rows

  step_rows-AreRates :
      (groups : Dict String (List StepExecution))
      → AreFilled groups
      → AreRates (step_rows int_avg rounded_ratio groups)
  unfolding step_rows
  step_rows-AreRates [] filled = tt
  step_rows-AreRates ((k, rows) ∷ groups) filled = (
    (filled.0, length-select (λ se. se.status == "failed") rows),
    step_rows-AreRates groups filled.1,
  )

  module _ (tenant_id : ℕ) (workflows : Dict ℕ Workflow) (executions : List Execution)
      (step_executions : List StepExecution) (deliveries : List Delivery) where
    abbrev metrics : Metrics
    metrics =
        get_execution_metrics int_avg rounded_ratio tenant_id workflows executions step_executions
          deliveries

    abbrev mine : List Execution
    mine = select (λ ex. ex.tenant_id == tenant_id) executions

    abbrev stats : WebhookStats
    stats = metrics.webhook_delivery_stats

    -- Where every execution has its workflow, the total is the number of executions of the tenant,
    -- the number under a status is that of its executions with the status, and those of the
    -- workflows add up to the total; of each type of steps at least one is counted and at most all
    -- as failed; and the accepted, rejected and broken webhooks are at most all.
    pub get_execution_metrics-total :
        All (HasWorkflow workflows) executions
        → (metrics.total ≡ length mine)
          × ((status : String)
              → get_or (get status metrics.by_status) 0
                ≡ length (select (λ ex. ex.status == status) mine))
          × (sum_workflows metrics.by_workflow ≡ metrics.total)
          × AreRates metrics.step_failure_rates
          × (stats.accepted + stats.rejected + stats.error ≤ stats.total)
    unfolding get_execution_metrics
    get_execution_metrics-total known =
        let joined = join_workflows workflows mine in
        let received = select (λ d. d.tenant_id == tenant_id) deliveries in
        (
          sum_counts-group_by (λ ex. ex.status) mine,
          λ status. get-counts-group_by (λ ex. ex.status) status mine,
          sum_workflows-counts (group_by (λ p. (p.0.workflow_id, p.1.name)) joined)
              ∙ sum_counts-group_by (λ p. (p.0.workflow_id, p.1.name)) joined
              ∙ length-join_workflows workflows mine (All-select _ _ executions known)
              ∙ sym (sum_counts-group_by (λ ex. ex.status) mine),
          step_rows-AreRates
              (group_by (λ se. se.step_type)
                (select (λ se. se.tenant_id == tenant_id) step_executions))
              (group_by-AreFilled (λ se. se.step_type) _),
          omega (
            arith,
            length-three received,
            get-counts-group_by (λ d. d.status) "accepted" received,
            get-counts-group_by (λ d. d.status) "rejected" received,
            get-counts-group_by (λ d. d.status) "error" received,
            sum_counts-group_by (λ d. d.status) received,
          ),
        )
