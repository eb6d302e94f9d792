-- ===== src/Engine/Orchestrator/Retry.antt =====
-- The retries of a step: what `_execute_step_with_retry` of src/engine/orchestrator.py leaves in
-- the step's row, whatever the executor answers.
use workflow_automation_engi.Engine.Session.{StepExecution, Env, Session, Execution, Action}
use workflow_automation_engi.Prelude.{
  get, ℕ, ◌+◌, ◌≡◌, refl, some, arith, ok, nat_key, Fields, ap, ◌∙◌, ◌⊎◌, inl, inr, true,
  string_key, Result, suc, ◌≤◌, Bool, false, leb, leb→le, Bool-cases, tests, str_exc, ◌<◌, zero,
}
use workflow_automation_engi.Engine.Models.{StepDefinition}
use workflow_automation_engi.Engine.Context.{StepInput}
use workflow_automation_engi.Engine.Orchestrator.{attempt_loop, execute_step_with_retry}
use workflow_automation_engi.Engine.State.Diagram.{validate_step_transition_iff}
use workflow_automation_engi.Engine.Orchestrator.Attempt.{
  transition_moves, Startable, begin_runs, KeepsRows, try_runs,
}

module _ (env : Env) (run_step : StepDefinition → StepInput → Action Fields) (execution_id : ℕ)
    (step_def : StepDefinition) (id : ℕ) where
  module _ (keeps : KeepsRows run_step id execution_id) where
    -- How the loop can end: with the step completed in an allowed attempt, or failed in the last.
    abbrev pub RetryEnds : ℕ → Result Bool × Session → Type 0
    RetryEnds max_attempts out =
        (row' : StepExecution) × (get id out.1.step_executions ≡ some row')
        × ((out.0 ≡ ok true)
              × (row'.status ≡ "completed")
              × (1 ≤ row'.attempt)
              × (row'.attempt ≤ max_attempts)
            ⊎ (out.0 ≡ ok false) × (row'.status ≡ "failed") × (row'.attempt ≡ max_attempts))

    module _ (max_attempts : ℕ) where
      Ends : ℕ → ℕ → Type 0
      Ends left attempt =
          (row : StepExecution) (execution : Execution) (s : Session)
          → get id s.step_executions ≡ some row
          → get execution_id s.executions ≡ some execution
          → Startable row
          → RetryEnds max_attempts
              (attempt_loop env run_step execution_id step_def id max_attempts left attempt s)

      -- One round: the next ones are asked for only where the test lets them run.
      round-Ends :
          (left attempt : ℕ)
          → attempt < max_attempts
          → (leb max_attempts (attempt + 1) ≡ false → Ends left (attempt + 1))
          → Ends (suc left) attempt
      unfolding attempt_loop Ends
      round-Ends left attempt room next row execution s found present startable =
          let (s1, made1, after1) =
            begin_runs env run_step execution_id step_def id row execution (attempt + 1) s found
              present startable in
          let (s2, outcome) =
            try_runs env run_step execution_id step_def id keeps after1.row' after1.execution s1
              after1.stored after1.present after1.same_status in
          elim outcome [
            | inl (made2, after2) ↦
                rw (made1, made2)
                  (
                    after2.row',
                    after2.stored,
                    inl (
                      refl,
                      after2.same_status,
                      omega (arith, after2.same_attempt, after1.same_attempt),
                      omega (arith, after2.same_attempt, after1.same_attempt),
                    ),
                  )
            | inr (x, made2, after2) ↦
                let m =
                  transition_moves env id "failed" (some (str_exc x)) after2.row' s2 after2.stored (
                    (validate_step_transition_iff after2.row'.status "failed").1
                      (inr (inr (inr (inl (after2.same_status, refl)))))) in
                elim (Bool-cases (leb max_attempts (attempt + 1))) [
                  | inl last ↦
                      rw (made1, made2, m.made, last)
                        (
                          m.row',
                          m.stored,
                          inr (
                            refl,
                            m.status,
                            omega (
                              tests,
                              m.attempt,
                              after2.same_attempt,
                              after1.same_attempt,
                              leb→le max_attempts (attempt + 1) last,
                            ),
                          ),
                        )
                  | inr more ↦
                      rw (made1, made2, m.made, more)
                        (next more m.row' after2.execution m.s' m.stored
                          (ap (get execution_id) m.kept ∙ after2.present) (inr m.status))
                ]
          ]

      loop-Ends : (left attempt : ℕ) → attempt + suc left ≡ max_attempts → Ends (suc left) attempt
      loop-Ends zero attempt total =
          round-Ends zero attempt (omega arith)
            (λ more. absurd (let h : leb max_attempts (attempt + 1) ≡ true = ground arith in cc))
      loop-Ends (suc left) attempt total =
          round-Ends (suc left) attempt (omega arith)
            (λ _. loop-Ends left (attempt + 1) (omega arith))

    all-Ends : (max_attempts : ℕ) → 1 ≤ max_attempts → Ends max_attempts max_attempts 0
    all-Ends zero h = absurd (omega arith)
    all-Ends (suc left) h = loop-Ends (suc left) left 0 (omega arith)

    -- Started on a pending or failed step with at least one attempt, whatever the executor answers,
    -- the retries raise nothing: they return True with the step completed in an attempt from 1 to
    -- max_attempts, or False with the step failed in attempt max_attempts.
    pub execute_step_with_retry-RetryEnds :
        (row : StepExecution) (execution : Execution) (s : Session)
        → get id s.step_executions ≡ some row
        → get execution_id s.executions ≡ some execution
        → Startable row
        → 1 ≤ row.max_attempts
        → RetryEnds row.max_attempts
            (execute_step_with_retry env run_step execution_id step_def id s)
    unfolding execute_step_with_retry Ends
    execute_step_with_retry-RetryEnds row execution s found present startable some_attempt =
        rw found (all-Ends row.max_attempts some_attempt row execution s found present startable)
