-- ===== src/Engine/Start/Agree.antt =====
-- Runs of src/engine/orchestrator.py with two executors that agree on each input without a tenant:
-- on an execution whose context has none, `_execute_dag` cannot tell them apart.
use workflow_automation_engi.Engine.Session.{
  Env, Session, Action, utc_now, save_step, load_step, StepExecution, pure, ◌>>◌,
}
use workflow_automation_engi.Engine.Frame.{
  Preserves, Preserves-bind, Preserves-if, Preserves-pure, Preserves-found,
}
use workflow_automation_engi.Prelude.{
  Fields, get, get-put_self, ℕ, zero, suc, ◌+◌, String, ◌≡◌, refl, ap, inl, inr, Option, none, some,
  List, [], ◌∷◌, Option-cases, nat_key, string_key, leb, str_exc, contains, Dict,
}
use workflow_automation_engi.Engine.Models.{StepDefinition}
use workflow_automation_engi.Engine.Context.{StepInput, merge_step_output, get_step_input}
use workflow_automation_engi.Engine.Orchestrator.{
  begin_attempt, try_step, attempt_loop, execute_step_with_retry, skip_branches, run_unskipped,
  fail_execution, visit_step, walk, execute_dag, step_defs_of,
}
use workflow_automation_engi.Engine.State.{transition_step}
use workflow_automation_engi.Engine.Orchestrator.Frame.{
  Untouched, begin_attempt-Preserves, try_step-Preserves, transition_step-Preserves,
  execute_step_with_retry-Preserves, skip_branches-Preserves,
}
use workflow_automation_engi.Engine.Start.Alike.{
  tenant_of, context_tenant, Alike, Alike-refl, Alike-if, Alike-bind, Alike-handle, Alike-found,
  Alike-elim,
}

module _ (env : Env) (run run' : StepDefinition → StepInput → Action Fields) (execution_id : ℕ)
    (agree : (d : StepDefinition) (i : StepInput) → i.tenant_id ≡ none → run d i ≡ run' d i)
    (keeps : (d : StepDefinition) (i : StepInput)
      → Preserves (context_tenant execution_id) (run' d i)) where
  abbrev bare : Session → Option ℕ
  bare = context_tenant execution_id

  merge_step_output-bare :
      (step_id : String) (output : Fields)
      → Preserves bare (merge_step_output execution_id step_id output)
  unfolding merge_step_output
  merge_step_output-bare step_id output = record {
    at = λ s. elim (Option-cases (get execution_id s.executions)) [
      | inl gone ↦ rw gone (ap tenant_of gone)
      | inr (row, found) ↦ rw (found, get-put_self execution_id _ s.executions)
    ];
  }

  fail_execution-bare :
      (step_id : String) → Preserves bare (fail_execution env run' execution_id step_id)
  unfolding fail_execution
  fail_execution-bare step_id = record {
    at = λ s. elim (Option-cases (get execution_id s.executions)) [
      | inl gone ↦ rw gone (ap tenant_of gone)
      | inr (row, found) ↦ rw (found, get-put_self execution_id _ s.executions)
    ];
  }

  module _ (step_def : StepDefinition) (id : ℕ) where
    untouched : Untouched bare env run' execution_id step_def id
    unfolding utc_now save_step
    untouched = record {
      clock = record { at = λ s. refl };
      row = λ row. record { at = λ s. refl };
      output = merge_step_output-bare step_def.id;
      run = keeps step_def;
    }

    begin_attempt-Alike :
        (attempt : ℕ)
        → Alike bare
            (begin_attempt env run execution_id step_def id attempt)
            (begin_attempt env run' execution_id step_def id attempt)
    unfolding begin_attempt
    begin_attempt-Alike attempt = Alike-refl _

    try_step-Alike :
        Alike bare
          (try_step env run execution_id step_def id)
          (try_step env run' execution_id step_def id)
    unfolding try_step get_step_input
    try_step-Alike = record {
      at = λ s h. elim (Option-cases (get execution_id s.executions)) [
        | inl gone ↦ rw gone
        | inr (execution, found) ↦
            let e : execution.context.tenant_id ≡ none = rw found at h in
            rw (found, agree step_def (get_step_input execution.context) e)
      ];
    }

    attempt_loop-Alike :
        (max_attempts left attempt : ℕ)
        → Alike bare
            (attempt_loop env run execution_id step_def id max_attempts left attempt)
            (attempt_loop env run' execution_id step_def id max_attempts left attempt)
    unfolding attempt_loop
    attempt_loop-Alike max_attempts zero attempt = Alike-refl _
    attempt_loop-Alike max_attempts (suc left) attempt =
        Alike-bind _ _ _ _ (begin_attempt-Alike (attempt + 1))
          (begin_attempt-Preserves bare env run' execution_id step_def id untouched (attempt + 1))
          (λ _.
            Alike-handle _ _ _ _ _ try_step-Alike
              (try_step-Preserves bare env run' execution_id step_def id untouched)
              (λ exc.
                Alike-bind _ _ _ _ (Alike-refl _)
                  (transition_step-Preserves bare env run' execution_id step_def id untouched
                    "failed" (some (str_exc exc)))
                  (λ _.
                    Alike-if (leb max_attempts (attempt + 1)) _ _ _ _ (Alike-refl _)
                      (attempt_loop-Alike max_attempts left (attempt + 1)))))

    pub execute_step_with_retry-Alike :
        Alike bare
          (execute_step_with_retry env run execution_id step_def id)
          (execute_step_with_retry env run' execution_id step_def id)
    unfolding execute_step_with_retry load_step
    execute_step_with_retry-Alike =
        Alike-bind _ _ _ _ (Alike-refl _) (record { at = λ s. refl })
          (λ (row : StepExecution). attempt_loop-Alike row.max_attempts row.max_attempts 0)

    run_unskipped-Alike :
        (skipped : List String)
        → Alike bare
            (run_unskipped env run execution_id step_def id skipped)
            (run_unskipped env run' execution_id step_def id skipped)
    unfolding run_unskipped skip_branches fail_execution
    run_unskipped-Alike skipped =
        Alike-bind _ _ _ _ execute_step_with_retry-Alike
          (execute_step_with_retry-Preserves bare env run' execution_id step_def id untouched)
          (λ success. Alike-refl _)

    run_unskipped-bare :
        (skipped : List String)
        → Preserves bare (run_unskipped env run' execution_id step_def id skipped)
    unfolding run_unskipped
    run_unskipped-bare skipped =
        Preserves-bind _ _
          (execute_step_with_retry-Preserves bare env run' execution_id step_def id untouched)
          (λ success.
            Preserves-if success _ _
              (skip_branches-Preserves bare env run' execution_id step_def id untouched skipped)
              (Preserves-bind _ _ (fail_execution-bare step_def.id) (λ _. Preserves-pure none)))

  module _ (step_defs : Dict String StepDefinition) (step_map : Dict String ℕ) where
    visit_step-Alike :
        (skipped : List String) (step_id : String)
        → Alike bare
            (visit_step env run execution_id step_defs step_map skipped step_id)
            (visit_step env run' execution_id step_defs step_map skipped step_id)
    unfolding visit_step
    visit_step-Alike skipped step_id = Alike-found (get step_id step_defs) _ _ _ (λ step_def.
        Alike-found (get step_id step_map) _ _ _ (λ id.
          Alike-if (contains step_id skipped) _ _ _ _
            (Alike-refl (transition_step env id "skipped" none >> pure (some skipped)))
            (run_unskipped-Alike step_def id skipped)))

    visit_step-bare :
        (skipped : List String) (step_id : String)
        → Preserves bare (visit_step env run' execution_id step_defs step_map skipped step_id)
    unfolding visit_step
    visit_step-bare skipped step_id = Preserves-found (get step_id step_defs) _ _ (λ step_def _.
        Preserves-found (get step_id step_map) _ _ (λ id _.
          Preserves-if (contains step_id skipped) _ _
            (Preserves-bind _ _
              (transition_step-Preserves bare env run' execution_id step_def id
                (untouched step_def id) "skipped" none)
              (λ _. Preserves-pure (some skipped)))
            (run_unskipped-bare step_def id skipped)))

    walk-Alike :
        (order skipped : List String)
        → Alike bare
            (walk env run execution_id step_defs step_map order skipped)
            (walk env run' execution_id step_defs step_map order skipped)
    unfolding walk
    walk-Alike [] skipped = Alike-refl _
    walk-Alike (step_id ∷ order) skipped =
        Alike-bind _ _ _ _ (visit_step-Alike skipped step_id) (visit_step-bare skipped step_id)
          (λ next. Alike-elim next _ _ _ (λ skipped'. walk-Alike order skipped'))

  pub execute_dag-Alike :
      (steps : List StepDefinition) (step_map : Dict String ℕ)
      → Alike bare
          (execute_dag env run execution_id steps step_map)
          (execute_dag env run' execution_id steps step_map)
  unfolding execute_dag
  execute_dag-Alike steps step_map = walk-Alike (step_defs_of steps) step_map _ []
