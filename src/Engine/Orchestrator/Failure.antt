-- ===== src/Engine/Orchestrator/Failure.antt =====
-- How `_execute_dag` of src/engine/orchestrator.py ends an execution whose step has failed.
use workflow_automation_engi.Prelude.{
  ℕ, String, Fields, ◌≡◌, refl, ◌∙◌, sym, some, false, get, nat_key, get-put_self, part, [], ◌∷◌,
  inl, inr, arith,
}
use workflow_automation_engi.Engine.Session.{Env, Session, Execution, Action}
use workflow_automation_engi.Engine.Models.{StepDefinition}
use workflow_automation_engi.Engine.Context.{StepInput}
use workflow_automation_engi.Engine.Orchestrator.{fail_execution}
use workflow_automation_engi.Engine.State.Timed.{IsTimed, AllTimed, is_some}

-- A row that is failed without an end is not timed.
failed_untimed :
    (row : Execution) → row.status ≡ "failed" → is_some row.completed_at ≡ false → ¬ IsTimed row
failed_untimed row failed endless (inl (h, a, b, c)) =
    absurd (let e : "failed" ≡ "pending" = sym failed ∙ h in cc)
failed_untimed row failed endless (inr (inl (h, a, b, c))) =
    absurd (let e : "failed" ≡ "running" = sym failed ∙ h in cc)
failed_untimed row failed endless (inr (inr (h, ended, c))) = absurd (cc)

running_endless :
    (row : Execution) → row.status ≡ "running" → IsTimed row → is_some row.completed_at ≡ false
running_endless row running (inl (h, a, endless, c)) = endless
running_endless row running (inr (inl (h, a, endless, c))) = endless
running_endless row running (inr (inr (h, a, c))) = absurd (let e = rw running at h in omega arith)

module _ (env : Env) (run_step : StepDefinition → StepInput → Action Fields)
    (execution_id : ℕ) where
  -- When a step has exhausted its retries, the running execution is failed without an end: from
  -- a session whose executions are all timed comes one where they are not.
  pub fail_execution_untimed :
      (step_id : String) (row : Execution) (s : Session)
      → AllTimed s
      → get execution_id s.executions ≡ some row
      → row.status ≡ "running"
      → ¬ AllTimed (fail_execution env run_step execution_id step_id s).1
  unfolding fail_execution
  fail_execution_untimed step_id row s all found running timed =
      let failed : Execution = record row {
        status = "failed";
        error =
            some (part "Step '" ∷ part step_id ∷ part "' failed after exhausting retries." ∷ []);
      } in
      failed_untimed failed refl (running_endless row running (all execution_id row found))
        ((rw found at timed) execution_id failed (get-put_self execution_id failed s.executions))
