-- ===== src/Engine/Orchestrator/Visit.antt =====
-- How the step that a round of `_execute_dag` of src/engine/orchestrator.py runs ends.
use workflow_automation_engi.Engine.Orchestrator.Frame.{
  step_row, execution_status, execute_step_with_retry-Preserves, status_of, status-Untouched,
}
use workflow_automation_engi.Prelude.{
  Option-cases, Fields, Exception, Result, get, ℕ, ◌≤◌, String, ◌≡◌, ap, ◌∙◌, ◌⊎◌, inl, inr, true,
  Option, none, some, List, ok, err, nat_key, string_key, Bool-cases, Result-split, get-put_self,
  refl, ◌++◌,
}
use workflow_automation_engi.Engine.Models.{StepDefinition, is_condition}
use workflow_automation_engi.Engine.Context.{StepInput}
use workflow_automation_engi.Engine.Session.{
  ◌>>◌, Execution, StepExecution, Env, Session, Action, pure, load_step,
}
use workflow_automation_engi.Engine.Orchestrator.{
  resolve_condition_branches, execute_step_with_retry, fail_execution, skip_branches, run_unskipped,
}
use workflow_automation_engi.Engine.Orchestrator.Attempt.{KeepsRows}
use workflow_automation_engi.Engine.Orchestrator.Retry.{execute_step_with_retry-RetryEnds}

-- A step's row that has not been run, one that needs no more, and one that has failed.
abbrev pub HasStatus : ℕ → String → Session → Type 0
HasStatus id status s = (row : StepExecution) × (step_row id s ≡ some row) × (row.status ≡ status)

abbrev pub Settled : ℕ → Session → Type 0
Settled id s = HasStatus id "completed" s ⊎ HasStatus id "skipped" s

abbrev pub Pending : ℕ → Session → Type 0
Pending id s =
    (row : StepExecution) × (step_row id s ≡ some row)
    × (row.status ≡ "pending")
    × (1 ≤ row.max_attempts)

pub Settled-later :
    (id : ℕ) (s s' : Session) → step_row id s' ≡ step_row id s → Settled id s → Settled id s'
Settled-later id s s' same (inl (row, found, status)) = inl (row, same ∙ found, status)
Settled-later id s s' same (inr (row, found, status)) = inr (row, same ∙ found, status)

module _ (env : Env) (run_step : StepDefinition → StepInput → Action Fields)
    (execution_id : ℕ) where
  -- An exception comes from the branches of a condition.
  abbrev pub Unresolved : StepDefinition → Exception → Type 0
  Unresolved step_def x =
      (row : StepExecution) × (is_condition step_def.type ≡ true)
      × (resolve_condition_branches step_def row ≡ err x)

  pub running-row :
      (s : Session)
      → execution_status execution_id s ≡ some "running"
      → (row : Execution) × (get execution_id s.executions ≡ some row) × (row.status ≡ "running")
  running-row s h = elim (Option-cases (get execution_id s.executions)) [
    | inl gone ↦ absurd (cc (rw gone at h))
    | inr (row, found) ↦ (row, found, let e = rw found at h in cc)
  ]

  -- How a round ends for the step that it visits.
  abbrev pub VisitEnds : StepDefinition → ℕ → Result (Option (List String)) × Session → Type 0
  VisitEnds step_def id out =
      ((skipped : List String) × (out.0 ≡ ok (some skipped))
        × (execution_status execution_id out.1 ≡ some "running")
        × Settled id out.1)
      ⊎ (out.0 ≡ ok none)
        × (execution_status execution_id out.1 ≡ some "failed")
        × HasStatus id "failed" out.1
      ⊎ ((x : Exception) × (out.0 ≡ err x) × Unresolved step_def x)

  branches-VisitEnds :
      (step_def : StepDefinition) (id : ℕ) (skipped : List String) (s : Session)
      → execution_status execution_id s ≡ some "running"
      → HasStatus id "completed" s
      → VisitEnds step_def id (skip_branches env run_step execution_id step_def id skipped s)
  unfolding skip_branches load_step
  branches-VisitEnds step_def id skipped s running (row, found, completed) =
      elim (Bool-cases (is_condition step_def.type)) [
        | inl condition ↦ elim (Result-split (resolve_condition_branches step_def row)) [
          | inl (new, resolved) ↦
              rw (condition, found, resolved)
                (inl (skipped ++ new, refl, running, inl (row, found, completed)))
          | inr (x, raised) ↦
              rw (condition, found, raised) (inr (inr (x, refl, (row, refl, raised))))
        ]
        | inr plain ↦ rw plain (inl (skipped, refl, running, inl (row, found, completed)))
      ]

  fail-VisitEnds :
      (step_def : StepDefinition) (id : ℕ) (s : Session)
      → execution_status execution_id s ≡ some "running"
      → HasStatus id "failed" s
      → VisitEnds step_def id
          ((fail_execution env run_step execution_id step_def.id >> pure none) s)
  unfolding fail_execution
  fail-VisitEnds step_def id s running failed =
      let (row, found, _) = running-row s running in
      rw found (inr (inl (refl, ap status_of (get-put_self execution_id _ s.executions), failed)))

  module _ (step_def : StepDefinition) (id : ℕ) (keeps : KeepsRows run_step id execution_id)
      (skipped : List String) (s : Session)
      (running : execution_status execution_id s ≡ some "running") (pending : Pending id s) where
    still_running :
        execution_status execution_id
          (execute_step_with_retry env run_step execution_id step_def id s).1
        ≡ some "running"
    still_running =
        (execute_step_with_retry-Preserves (execution_status execution_id) env run_step execution_id
            step_def id
            (status-Untouched env run_step execution_id step_def id (λ context. record {
              at = λ s. ap status_of (keeps.executions step_def context s);
            }))).at
          s
        ∙ running

    pub run-VisitEnds :
        VisitEnds step_def id (run_unskipped env run_step execution_id step_def id skipped s)
    unfolding run_unskipped
    run-VisitEnds =
        let (execution, present, _) = running-row s running in
        let (row, found, status, attempts) = pending in
        let (row', stored, outcome) =
          execute_step_with_retry-RetryEnds env run_step execution_id step_def id keeps row
            execution s found present (inl status) attempts in
        let s' = (execute_step_with_retry env run_step execution_id step_def id s).1 in
        elim outcome [
          | inl (success, completed, _, _) ↦
              rw success
                (branches-VisitEnds step_def id skipped s' still_running (row', stored, completed))
          | inr (failure, failed, _) ↦
              rw failure (fail-VisitEnds step_def id s' still_running (row', stored, failed))
        ]
