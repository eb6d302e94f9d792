-- ===== src/Engine/Orchestrator/Frame.antt =====
-- What the functions of src/engine/orchestrator.py leave as it was while they run a step.
use workflow_automation_engi.Engine.Frame.{
  Preserves, Preserves-handle, frame_rules, Preserves-pure, Preserves-lift, Preserves-gets,
  Preserves-bind, Preserves-if,
}
use workflow_automation_engi.Engine.Session.{
  Session, Execution, StepExecution, Env, Action, save_step, utc_now, load_execution, load_step,
  or_raise,
}
use workflow_automation_engi.Prelude.{
  Option-cases, Fields, Message, get, get-put, get-put_self, ℕ, zero, suc, ◌+◌, String, refl, ◌≢◌,
  inl, inr, Option, none, some, List, arith, nat_key, ap, leb, str_exc, true, false,
}
use workflow_automation_engi.Engine.Models.{StepDefinition}
use workflow_automation_engi.Engine.Context.{StepInput, merge_step_output}
use workflow_automation_engi.Engine.Orchestrator.{
  begin_attempt, try_step, attempt_loop, execute_step_with_retry, skip_branches,
}
use workflow_automation_engi.Engine.State.{
  transition_step, validate_step_transition, stamp_step, step_not_found,
}

module _ {T : Type 0} (f : Session → T) (env : Env)
    (run_step : StepDefinition → StepInput → Action Fields) (execution_id : ℕ)
    (step_def : StepDefinition) (id : ℕ) where
  -- What is read of the session depends on nothing that the running of the step writes.
  pub record Untouched : Type 0 where
    pub clock : Preserves f (utc_now env)
    pub row : (row : StepExecution) → Preserves f (save_step id row)
    pub output : (output : Fields) → Preserves f (merge_step_output execution_id step_def.id output)
    pub run : (context : StepInput) → Preserves f (run_step step_def context)

  module _ (u : Untouched) where
    pub transition_step-Preserves :
        (new : String) (error : Option Message) → Preserves f (transition_step env id new error)
    unfolding transition_step
    transition_step-Preserves new error =
        Preserves-bind _ _ (Preserves-gets (λ s. get id s.step_executions)) (λ found.
          Preserves-bind _ _ (Preserves-lift (or_raise found step_not_found)) (λ row.
            Preserves-bind _ _ (Preserves-lift (validate_step_transition row.status new)) (λ _.
              Preserves-bind _ _ u.clock (λ now.
                Preserves-bind _ _ (u.row (stamp_step env new now error row))
                  (λ _. Preserves-pure (stamp_step env new now error row))))))

    load_step-Preserves : Preserves f (load_step id)
    unfolding load_step
    load_step-Preserves = record { at = λ s. refl }

    load_execution-Preserves : Preserves f (load_execution execution_id)
    unfolding load_execution
    load_execution-Preserves = record { at = λ s. refl }

    pub begin_attempt-Preserves :
        (attempt : ℕ) → Preserves f (begin_attempt env run_step execution_id step_def id attempt)
    unfolding begin_attempt
    begin_attempt-Preserves attempt =
        search (frame_rules, u.row, transition_step-Preserves, load_step-Preserves) depth 14

    pub try_step-Preserves : Preserves f (try_step env run_step execution_id step_def id)
    unfolding try_step
    try_step-Preserves =
        search
          (
            frame_rules, u.row, u.run, u.output, transition_step-Preserves, load_step-Preserves,
            load_execution-Preserves,
          )
          depth 14

    pub attempt_loop-Preserves :
        (max_attempts left attempt : ℕ)
        → Preserves f (attempt_loop env run_step execution_id step_def id max_attempts left attempt)
    unfolding attempt_loop
    attempt_loop-Preserves max_attempts zero attempt = search frame_rules
    attempt_loop-Preserves max_attempts (suc left) attempt =
        Preserves-bind _ _ (begin_attempt-Preserves (attempt + 1)) (λ _.
          Preserves-handle _ _ _ try_step-Preserves (λ _. Preserves-pure true)
            (λ exc.
              Preserves-bind _ _ (transition_step-Preserves "failed" (some (str_exc exc))) (λ _.
                Preserves-if (leb max_attempts (attempt + 1)) _ _ (Preserves-pure false)
                  (attempt_loop-Preserves max_attempts left (attempt + 1)))))

    pub execute_step_with_retry-Preserves :
        Preserves f (execute_step_with_retry env run_step execution_id step_def id)
    unfolding execute_step_with_retry
    execute_step_with_retry-Preserves =
        search (frame_rules, load_step-Preserves, attempt_loop-Preserves) depth 14

    pub skip_branches-Preserves :
        (skipped : List String)
        → Preserves f (skip_branches env run_step execution_id step_def id skipped)
    unfolding skip_branches
    skip_branches-Preserves skipped = search (frame_rules, load_step-Preserves) depth 14

-- The row of a step, and the status of an execution.
abbrev pub step_row : ℕ → Session → Option StepExecution
step_row id s = get id s.step_executions

abbrev pub status_of : Option Execution → Option String
status_of none = none
status_of (some row) = some row.status

abbrev pub execution_status : ℕ → Session → Option String
execution_status id s = status_of (get id s.executions)

module _ (env : Env) (run_step : StepDefinition → StepInput → Action Fields) (execution_id : ℕ)
    (step_def : StepDefinition) (id : ℕ) where
  merge_step_output-status :
      (step_id : String) (output : Fields)
      → Preserves (execution_status execution_id) (merge_step_output execution_id step_id output)
  unfolding merge_step_output
  merge_step_output-status step_id output = record {
    at = λ s. elim (Option-cases (get execution_id s.executions)) [
      | inl gone ↦ rw gone (ap status_of gone)
      | inr (row, found) ↦ rw (found, get-put_self execution_id _ s.executions)
    ];
  }

  merge_step_output-step :
      (j : ℕ) (step_id : String) (output : Fields)
      → Preserves (step_row j) (merge_step_output execution_id step_id output)
  unfolding merge_step_output
  merge_step_output-step j step_id output = record {
    at = λ s. elim (Option-cases (get execution_id s.executions)) [
      | inl gone ↦ rw gone
      | inr (row, found) ↦ rw found
    ];
  }

  save_step-others :
      (j : ℕ) → id ≢ j → (row : StepExecution) → Preserves (step_row j) (save_step id row)
  unfolding save_step
  save_step-others j apart row = record {
    at = λ s. ground (arith, get-put id j row s.step_executions);
  }

  -- The row of another step is untouched if the executor leaves it, and the execution's status is.
  pub step_row-Untouched :
      (j : ℕ)
      → id ≢ j
      → ((context : StepInput) → Preserves (step_row j) (run_step step_def context))
      → Untouched (step_row j) env run_step execution_id step_def id
  unfolding utc_now
  step_row-Untouched j apart run = record {
    clock = record { at = λ s. refl };
    row = save_step-others j apart;
    output = merge_step_output-step j step_def.id;
    run = run;
  }

  pub status-Untouched :
      ((context : StepInput)
        → Preserves (execution_status execution_id) (run_step step_def context))
      → Untouched (execution_status execution_id) env run_step execution_id step_def id
  unfolding utc_now save_step
  status-Untouched run = record {
    clock = record { at = λ s. refl };
    row = λ row. record { at = λ s. refl };
    output = merge_step_output-status step_def.id;
    run = run;
  }
