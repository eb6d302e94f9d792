-- ===== src/Engine/Orchestrator/Attempt.antt =====
-- One attempt of a step: what a transition, the start of an attempt and the `try` of
-- `_execute_step_with_retry` of src/engine/orchestrator.py leave in the rows.
use workflow_automation_engi.Engine.Session.{
  StepExecution, Env, Session, Execution, Action, Context,
}
use workflow_automation_engi.Prelude.{
  Message, get, put, get-put_self, ℕ, ◌+◌, String, ◌≡◌, refl, Option, some, arith, ok, nat_key,
  ◌==◌, Fields, ap, ◌∙◌, ◌⊎◌, inl, inr, true, ◌||◌, none, string_key, Exception, Result, err,
  get-put, ◌≢◌,
}
use workflow_automation_engi.Engine.State.{validate_step_transition, stamp_step, transition_step}
use workflow_automation_engi.Engine.Models.{StepDefinition}
use workflow_automation_engi.Engine.Context.{StepInput, merge_step_output, get_step_input}
use workflow_automation_engi.Engine.Orchestrator.{begin_attempt, try_step}
use workflow_automation_engi.Engine.State.Diagram.{validate_step_transition_iff}

-- A legal transition of a step that is there is made, and changes only that row and the clock.
pub record Moved (env : Env) (id : ℕ) (new : String) (error : Option Message) (row : StepExecution)
    (s : Session) : Type 0 where
  pub row' : StepExecution
  pub s' : Session
  pub made : transition_step env id new error s ≡ (ok row', s')
  pub stored : get id s'.step_executions ≡ some row'
  pub status : row'.status ≡ new
  pub attempt : row'.attempt ≡ row.attempt
  pub max_attempts : row'.max_attempts ≡ row.max_attempts
  pub kept : s'.executions ≡ s.executions
  pub others : (j : ℕ) → id ≢ j → get j s'.step_executions ≡ get j s.step_executions

module _ (env : Env) (id : ℕ) (new : String) (error : Option Message) (now : ℕ)
    (row : StepExecution) where
  status-stamp_step : (stamp_step env new now error row).status ≡ new
  unfolding stamp_step
  status-stamp_step = ground arith

  attempt-stamp_step : (stamp_step env new now error row).attempt ≡ row.attempt
  unfolding stamp_step
  attempt-stamp_step = ground arith

  max_attempts-stamp_step : (stamp_step env new now error row).max_attempts ≡ row.max_attempts
  unfolding stamp_step
  max_attempts-stamp_step = ground arith

pub transition_moves :
    (env : Env) (id : ℕ) (new : String) (error : Option Message) (row : StepExecution) (s : Session)
    → get id s.step_executions ≡ some row
    → validate_step_transition row.status new ≡ ok tt
    → Moved env id new error row s
unfolding transition_step
transition_moves env id new error row s found valid =
    let now = env.time_at s.clock_reads in
    let row1 : StepExecution = stamp_step env new now error row in
    record {
      row' = row1;
      s' = record s {
        step_executions = put id row1 s.step_executions;
        clock_reads = s.clock_reads + 1;
      };
      made = rw (found, valid);
      stored = get-put_self id row1 s.step_executions;
      status = status-stamp_step env id new error now row;
      attempt = attempt-stamp_step env id new error now row;
      max_attempts = max_attempts-stamp_step env id new error now row;
      kept = refl;
      others = λ j apart. ground (arith, get-put id j row1 s.step_executions);
    }

-- The step's row after a part of an attempt, with its status.
pub record After (id execution_id : ℕ) (row : StepExecution) (attempt : ℕ) (status : String)
    (s' : Session) : Type 0 where
  pub row' : StepExecution
  pub execution : Execution
  pub stored : get id s'.step_executions ≡ some row'
  pub same_status : row'.status ≡ status
  pub same_attempt : row'.attempt ≡ attempt
  pub same_max : row'.max_attempts ≡ row.max_attempts
  pub present : get execution_id s'.executions ≡ some execution

abbrev pub Startable : StepExecution → Type 0
Startable row = (row.status ≡ "pending") ⊎ (row.status ≡ "failed")

pub queued_valid :
    (row : StepExecution) → Startable row → validate_step_transition row.status "queued" ≡ ok tt
queued_valid row (inl h) = (validate_step_transition_iff row.status "queued").1 (inl (h, refl))
queued_valid row (inr h) =
    (validate_step_transition_iff row.status "queued").1 (inr (inr (inr (inr (inl (h, refl))))))

pub begins-Startable :
    (row : StepExecution)
    → Startable row
    → (row.status == "pending" || row.status == "failed") ≡ true
begins-Startable row (inl h) = rw h
begins-Startable row (inr h) = rw h

module _ (env : Env) (run_step : StepDefinition → StepInput → Action Fields) (execution_id : ℕ)
    (step_def : StepDefinition) (id : ℕ) where
  pub begin_runs :
      (row : StepExecution) (execution : Execution) (a : ℕ) (s : Session)
      → get id s.step_executions ≡ some row
      → get execution_id s.executions ≡ some execution
      → Startable row
      → (s' : Session) × (begin_attempt env run_step execution_id step_def id a s ≡ (ok tt, s'))
        × After id execution_id row a "running" s'
  unfolding begin_attempt
  begin_runs row execution a s found present startable =
      let row0 : StepExecution = record row { attempt = a } in
      let s0 : Session = record s { step_executions = put id row0 s.step_executions } in
      let m1 =
        transition_moves env id "queued" none row0 s0 (get-put_self id row0 s.step_executions)
          (queued_valid row0 startable) in
      let m2 =
        transition_moves env id "running" none m1.row' m1.s' m1.stored (
          (validate_step_transition_iff m1.row'.status "running").1
            (inr (inl (m1.status, refl)))) in
      (
        m2.s',
        rw (found, begins-Startable row startable, m1.made, m2.made),
        record {
          row' = m2.row';
          execution = execution;
          stored = m2.stored;
          same_status = m2.status;
          same_attempt = m2.attempt ∙ m1.attempt;
          same_max = m2.max_attempts ∙ m1.max_attempts;
          present = ap (get execution_id) (m2.kept ∙ m1.kept) ∙ present;
        },
      )

-- An executor writes neither the row of the step that it runs for nor that of its execution.
pub record KeepsRows (run_step : StepDefinition → StepInput → Action Fields) (id execution_id : ℕ)
    : Type 0 where
  pub steps :
      (d : StepDefinition) (i : StepInput) (s : Session)
      → get id (run_step d i s).1.step_executions ≡ get id s.step_executions
  pub executions :
      (d : StepDefinition) (i : StepInput) (s : Session)
      → get execution_id (run_step d i s).1.executions ≡ get execution_id s.executions

module _ (env : Env) (run_step : StepDefinition → StepInput → Action Fields) (execution_id : ℕ)
    (step_def : StepDefinition) (id : ℕ) where
  abbrev pub Tried : StepExecution → Session → Type 0
  Tried row s =
      (s' : Session) × ((try_step env run_step execution_id step_def id s ≡ (ok tt, s'))
          × After id execution_id row row.attempt "completed" s'
        ⊎ ((x : Exception) × (try_step env run_step execution_id step_def id s ≡ (err x, s'))
            × After id execution_id row row.attempt "running" s'))

  module _ (row : StepExecution) (execution : Execution) (s : Session)
      (present : get execution_id s.executions ≡ some execution)
      (running : row.status ≡ "running") where
    try_with :
        (r : Result Fields) (s1 : Session)
        → run_step step_def (get_step_input execution.context) s ≡ (r, s1)
        → get id s1.step_executions ≡ some row
        → get execution_id s1.executions ≡ some execution
        → Tried row s
    unfolding try_step merge_step_output
    try_with (err x) s1 ran found still = (
      s1,
      inr (
        x,
        rw (present, ran),
        record {
          row' = row;
          execution = execution;
          stored = found;
          same_status = running;
          same_attempt = refl;
          same_max = refl;
          present = still;
        },
      ),
    )
    try_with (ok output) s1 ran found still =
        let m = transition_moves env id "completed" none row s1 found (
          (validate_step_transition_iff row.status "completed").1
            (inr (inr (inl (running, refl))))) in
        let row2 : StepExecution = record (m.row') { output_data = some output } in
        let ctx = execution.context in
        let merged : Context = record ctx { steps = put step_def.id output ctx.steps } in
        let execution2 : Execution = record execution { context = merged } in
        (
          record (m.s') {
            step_executions = put id row2 m.s'.step_executions;
            executions = put execution_id execution2 m.s'.executions;
          },
          inl (
            rw (present, ran, m.made, m.stored, ap (get execution_id) m.kept, still),
            record {
              row' = row2;
              execution = execution2;
              stored = get-put_self id row2 m.s'.step_executions;
              same_status = m.status;
              same_attempt = m.attempt;
              same_max = m.max_attempts;
              present = get-put_self execution_id execution2 m.s'.executions;
            },
          ),
        )

  module _ (keeps : KeepsRows run_step id execution_id) where
    pub try_runs :
        (row : StepExecution) (execution : Execution) (s : Session)
        → get id s.step_executions ≡ some row
        → get execution_id s.executions ≡ some execution
        → row.status ≡ "running"
        → Tried row s
    try_runs row execution s found present running =
        let i = get_step_input execution.context in
        try_with row execution s present running (run_step step_def i s).0 (run_step step_def i s).1
          refl (keeps.steps step_def i s ∙ found) (keeps.executions step_def i s ∙ present)
