-- ===== src/Queue/Outcomes.antt =====
-- How the task of src/queue/tasks.py ends for the step that it executes.
use workflow_automation_engi.Engine.Session.{Action, Env, Session, StepExecution, Execution}
use workflow_automation_engi.Queue.{
  record_failure, StepType, StepInput, step_type_of, plain_input, attempt_step, execute_step,
}
use workflow_automation_engi.Prelude.{
  ◌==◌, Fields, Exception, Result, str_exc, get, put, get-put_self, ℕ, ◌+◌, ◌≤◌, ◌≡◌, refl, ◌⊎◌,
  inl, inr, false, some, arith, end, ok, err, nat_key, ap, ◌∙◌, subst, true, none, [],
}
use workflow_automation_engi.Engine.Models.{StepType, StepDefinition, delay}
use workflow_automation_engi.Engine.Context.{StepInput, merge_step_output}
use workflow_automation_engi.Engine.Orchestrator.Attempt.{KeepsRows, transition_moves}
use workflow_automation_engi.Engine.State.Diagram.{validate_step_transition_iff}

-- A step definition; what `KeepsRows` says of the registry does not depend on it.
abbrev any_step : StepDefinition
any_step = record { id = ""; type = delay; config = end; depends_on = []; retry = none }

module _ (env : Env) (registry : StepType → Fields → StepInput → Action Fields)
    (id execution_id : ℕ) where
  -- The task returns with the step completed, or raises with it failed and the attempt counted.
  abbrev pub TaskEnds : ℕ → Result Fields × Session → Type 0
  TaskEnds attempt out =
      (row : StepExecution) × (get id out.1.step_executions ≡ some row)
      × (((output : Fields) × (out.0 ≡ ok output)
            × (row.status ≡ "completed")
            × (row.output_data ≡ some output))
          ⊎ ((x : Exception) × (out.0 ≡ err x)
              × (row.status ≡ "failed")
              × (row.attempt ≡ attempt + 1)))

  failure-TaskEnds :
      (x : Exception) (row : StepExecution) (s : Session)
      → get id s.step_executions ≡ some row
      → row.status ≡ "running"
      → 1 ≤ row.attempt
      → TaskEnds row.attempt (record_failure env registry id execution_id x s)
  unfolding record_failure
  failure-TaskEnds x row s found running counted =
      let test : (row.attempt == 0) ≡ false = ground arith in
      let row1 : StepExecution = record row { attempt = row.attempt + 1 } in
      let s1 : Session = record s { step_executions = put id row1 s.step_executions } in
      let m =
        transition_moves env id "failed" (some (str_exc x)) row1 s1
          (get-put_self id row1 s.step_executions)
          ((validate_step_transition_iff row.status "failed").1
            (inr (inr (inr (inl (running, refl)))))) in
      rw (found, test, m.made) (m.row', m.stored, inr (x, refl, m.status, m.attempt))

  module _ (step_type : StepType) (step_exec row : StepExecution) (execution : Execution)
      (s : Session) (running : row.status ≡ "running") (counted : 1 ≤ row.attempt) where
    attempt-TaskEnds :
        (r : Result Fields) (s1 : Session)
        → registry step_type step_exec.input_data (plain_input execution.context) s ≡ (r, s1)
        → get id s1.step_executions ≡ some row
        → get execution_id s1.executions ≡ some execution
        → TaskEnds row.attempt
            (attempt_step env registry id execution_id step_type step_exec execution s)
    unfolding attempt_step merge_step_output
    attempt-TaskEnds (err x) s1 ran found present =
        rw ran (failure-TaskEnds x row s1 found running counted)
    attempt-TaskEnds (ok output) s1 ran found present =
        let m = transition_moves env id "completed" none row s1 found (
          (validate_step_transition_iff row.status "completed").1
            (inr (inr (inl (running, refl))))) in
        let row2 : StepExecution = record (m.row') { output_data = some output } in
        rw (ran, m.made, m.stored, ap (get execution_id) m.kept, present)
          (row2, get-put_self id row2 m.s'.step_executions, inl (output, refl, m.status, refl))

  -- Run on a queued step of a known type, with executors that leave the step's row and that of its
  -- execution alone, the task either returns the output, with the step completed and the output
  -- stored, or raises, with the step failed and its attempt counted.
  pub execute_step-TaskEnds :
      (step_type : StepType) (step_exec : StepExecution) (execution : Execution) (s : Session)
      → ((config : Fields) → KeepsRows (λ d i. registry step_type config i) id execution_id)
      → get id s.step_executions ≡ some step_exec
      → get execution_id s.executions ≡ some execution
      → step_exec.status ≡ "queued"
      → 1 ≤ step_exec.attempt
      → step_type_of step_exec.step_type ≡ ok step_type
      → TaskEnds step_exec.attempt (execute_step env registry id execution_id true s)
  unfolding execute_step
  execute_step-TaskEnds step_type step_exec execution s keeps found present queued counted typed =
      let m =
        transition_moves env id "running" none step_exec s found (
          (validate_step_transition_iff step_exec.status "running").1 (inr (inl (queued, refl)))) in
      let input = plain_input execution.context in
      let config = step_exec.input_data in
      let ran = registry step_type config input m.s' in
      let same : m.row'.attempt ≡ step_exec.attempt = m.attempt in
      rw (found, present, m.made, typed)
        (subst
          (λ a.
            TaskEnds a
              (attempt_step env registry id execution_id step_type step_exec execution m.s'))
          same
          (attempt-TaskEnds step_type step_exec m.row' execution m.s' m.status (omega arith) ran.0
            ran.1 refl ((keeps config).steps any_step input m.s' ∙ m.stored)
            ((keeps config).executions any_step input m.s'
              ∙ ap (get execution_id) m.kept
              ∙ present)))
