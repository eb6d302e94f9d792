-- ===== src/Engine/Orchestrator/Rounds.antt =====
-- One round of the loop of `_execute_dag` of src/engine/orchestrator.py: which rows it leaves
-- alone, and how it ends for the step that it visits.
use workflow_automation_engi.Engine.Orchestrator.Frame.{
  step_row, Untouched, transition_step-Preserves, execute_step_with_retry-Preserves,
  skip_branches-Preserves, step_row-Untouched,
}
use workflow_automation_engi.Engine.Frame.{
  Preserves, Preserves-found, Preserves-pure, Preserves-if, Preserves-bind, Preserves-lift,
  Preserves-gets, Preserves-elim,
}
use workflow_automation_engi.Prelude.{
  Option-cases, Fields, All, contains, Dict, get, ℕ, String, ap, ◌∙◌, ◌≢◌, inl, inr, none, some,
  List, [], ◌∷◌, nat_key, string_key, refl,
}
use workflow_automation_engi.Engine.Models.{StepDefinition}
use workflow_automation_engi.Engine.Context.{StepInput}
use workflow_automation_engi.Engine.Session.{
  Env, Action, or_raise, Execution, save_execution, utc_now,
}
use workflow_automation_engi.Engine.Orchestrator.{fail_execution, run_unskipped, visit_step, walk}
use workflow_automation_engi.Engine.State.{
  transition_execution, validate_execution_transition, stamp_execution, execution_not_found,
}
use workflow_automation_engi.Engine.Orchestrator.Attempt.{KeepsRows}

module _ (env : Env) (run_step : StepDefinition → StepInput → Action Fields)
    (execution_id : ℕ) where
  fail_execution-step :
      (j : ℕ) (step_id : String)
      → Preserves (step_row j) (fail_execution env run_step execution_id step_id)
  unfolding fail_execution
  fail_execution-step j step_id = record {
    at = λ s. elim (Option-cases (get execution_id s.executions)) [
      | inl gone ↦ rw gone
      | inr (row, found) ↦ rw found
    ];
  }

  utc_now-step : (j : ℕ) → Preserves (step_row j) (utc_now env)
  unfolding utc_now
  utc_now-step j = record { at = λ s. refl }

  save_execution-step :
      (j : ℕ) (row : Execution) → Preserves (step_row j) (save_execution execution_id row)
  unfolding save_execution
  save_execution-step j row = record { at = λ s. refl }

  complete-step :
      (j : ℕ) → Preserves (step_row j) (transition_execution env execution_id "completed")
  unfolding transition_execution
  complete-step j =
      Preserves-bind _ _ (Preserves-gets (λ s. get execution_id s.executions)) (λ found.
        Preserves-bind _ _ (Preserves-lift (or_raise found execution_not_found)) (λ row.
          Preserves-bind _ _ (Preserves-lift (validate_execution_transition row.status "completed"))
            (λ _. Preserves-bind _ _ (utc_now-step j) (λ now.
              Preserves-bind _ _ (save_execution-step j (stamp_execution env "completed" now row))
                (λ _. Preserves-pure (stamp_execution env "completed" now row))))))

  module _ (j : ℕ) (keeps : KeepsRows run_step j execution_id) where
    untouched :
        (step_def : StepDefinition) (id : ℕ)
        → id ≢ j
        → Untouched (step_row j) env run_step execution_id step_def id
    untouched step_def id apart =
        step_row-Untouched env run_step execution_id step_def id j apart
          (λ context. record { at = keeps.steps step_def context })

    run_unskipped-step :
        (step_def : StepDefinition) (id : ℕ) (skipped : List String)
        → id ≢ j
        → Preserves (step_row j) (run_unskipped env run_step execution_id step_def id skipped)
    unfolding run_unskipped
    run_unskipped-step step_def id skipped apart =
        let u = untouched step_def id apart in
        Preserves-bind _ _
          (execute_step_with_retry-Preserves (step_row j) env run_step execution_id step_def id u)
          (λ success.
            Preserves-if success _ _
              (skip_branches-Preserves (step_row j) env run_step execution_id step_def id u skipped)
              (Preserves-bind _ _ (fail_execution-step j step_def.id) (λ _. Preserves-pure none)))

    module _ (step_defs : Dict String StepDefinition) (step_map : Dict String ℕ) where
      pub visit_step-step :
          (skipped : List String) (step_id : String)
          → get step_id step_map ≢ some j
          → Preserves
              (step_row j)
              (visit_step env run_step execution_id step_defs step_map skipped step_id)
      unfolding visit_step
      visit_step-step skipped step_id apart =
          Preserves-found (get step_id step_defs) _ _ (λ step_def _.
            Preserves-found (get step_id step_map) _ _ (λ id found.
              let differ : id ≢ j = λ same. apart (found ∙ ap some same) in
              Preserves-if (contains step_id skipped) _ _
                (Preserves-bind _ _
                  (transition_step-Preserves (step_row j) env run_step execution_id step_def id
                    (untouched step_def id differ) "skipped" none)
                  (λ _. Preserves-pure (some skipped)))
                (run_unskipped-step step_def id skipped differ)))

      pub walk-step :
          (order skipped : List String)
          → All (λ step_id. get step_id step_map ≢ some j) order
          → Preserves (step_row j) (walk env run_step execution_id step_defs step_map order skipped)
      unfolding walk
      walk-step [] skipped apart = Preserves-bind _ _ (complete-step j) (λ _. Preserves-pure tt)
      walk-step (step_id ∷ order) skipped apart =
          Preserves-bind _ _ (visit_step-step skipped step_id apart.0) (λ next.
            Preserves-elim next _ _ (Preserves-pure tt)
              (λ skipped'. walk-step order skipped' apart.1))
