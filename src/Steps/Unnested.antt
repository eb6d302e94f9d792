-- ===== src/Steps/Unnested.antt =====
-- How a sub-workflow step of an execution of src/engine/orchestrator.py ends whose context names no
-- tenant, as that of every execution that `start_execution` creates.
use workflow_automation_engi.Db.{Workflow}
use workflow_automation_engi.Steps.{Jinja}
use workflow_automation_engi.Steps.Http.{HttpEnv}
use workflow_automation_engi.Steps.Registry.{run_step, step_registry}
use workflow_automation_engi.Steps.SubWorkflow.{UuidText, NestedStarter, MappingJinja}
use workflow_automation_engi.Steps.Tenantless.{
  run_any, blind, blind_agrees, blind-KeepsRows, blind-Preserves, sub_workflow_tenantless,
}
use workflow_automation_engi.Prelude.{
  Fields, Exception, Result, Dict, get, leb, str_exc, if◌then◌else◌, ℕ, zero, suc, ◌+◌, ◌≤◌, ◌≡◌,
  ◌≢◌, refl, ap, ◌∙◌, inl, inr, Bool, true, false, none, some, ok, err, Option-cases, nat_key,
}
use workflow_automation_engi.Engine.Models.{StepDefinition, sub_workflow}
use workflow_automation_engi.Engine.Context.{StepInput, get_step_input}
use workflow_automation_engi.Engine.Session.{
  Env, Session, Action, Execution, StepExecution, pure, ◌>>=◌, continue, handle, load_step,
}
use workflow_automation_engi.Engine.Orchestrator.{
  begin_attempt, try_step, attempt_loop, execute_step_with_retry,
}
use workflow_automation_engi.Engine.Orchestrator.Attempt.{Startable}
use workflow_automation_engi.Engine.Orchestrator.Retry.{execute_step_with_retry-RetryEnds}
use workflow_automation_engi.Engine.Start.Agree.{execute_step_with_retry-Alike}
use workflow_automation_engi.Engine.Start.Alike.{tenant_of}
use workflow_automation_engi.Engine.State.{transition_step}

-- The action never returns True.
record Denies (m : Action Bool) : Type 0 where
  pub at : (s : Session) → (m s).0 ≢ ok true

Denies-false : Denies (pure false)
Denies-false = record { at = λ s h. cc }

Denies-if : (b : Bool) (m n : Action Bool) → Denies m → Denies n → Denies (if b then m else n)
Denies-if true m n dm dn = dm
Denies-if false m n dm dn = dn

module _ {A : Type 0} where
  continue-denied :
      (r : Result A) (g : A → Action Bool) (s : Session)
      → ((a : A) → Denies (g a))
      → (continue r g s).0 ≢ ok true
  continue-denied (ok a) g s dg = (dg a).at s
  continue-denied (err x) g s dg = λ h. cc

  Denies-bind : (m : Action A) (g : A → Action Bool) → ((a : A) → Denies (g a)) → Denies (m >>= g)
  Denies-bind m g dg = record { at = λ s. continue-denied (m s).0 g (m s).1 dg }

  handle-denied :
      (r : Result A) (g : A → Action Bool) (k : Exception → Action Bool) (s : Session)
      → ((a : A) → r ≢ ok a)
      → ((x : Exception) → Denies (k x))
      → (handle r g k s).0 ≢ ok true
  handle-denied (ok a) g k s fails dk = absurd (fails a refl)
  handle-denied (err x) g k s fails dk = (dk x).at s

  Denies-handle :
      (m : Action A) (g : A → Action Bool) (k : Exception → Action Bool)
      → ((s : Session) (a : A) → (m s).0 ≢ ok a)
      → ((x : Exception) → Denies (k x))
      → Denies (λ s. let (r, s') = m s in handle r g k s')
  Denies-handle m g k fails dk = record { at = λ s. handle-denied (m s).0 g k (m s).1 (fails s) dk }

module _ (env : Env) (r : StepDefinition → StepInput → Action Fields) (execution_id : ℕ)
    (step_def : StepDefinition) (id : ℕ)
    (fails : (i : StepInput)
      → (x : Exception) × ((s : Session) → r step_def i s ≡ (err x, s))) where
  try_step_fails :
      (s : Session) (a : Unit {0}) → (try_step env r execution_id step_def id s).0 ≢ ok a
  unfolding try_step
  try_step_fails s a = elim (Option-cases (get execution_id s.executions)) [
    | inl gone ↦ λ h. cc (rw gone at h)
    | inr (execution, found) ↦
        let (x, refused) = fails (get_step_input execution.context) in
        λ h. cc (rw (found, refused s) at h)
  ]

  -- Where the executor raises, the retries never return True.
  attempt_loop-Denies :
      (max_attempts left attempt : ℕ)
      → Denies (attempt_loop env r execution_id step_def id max_attempts left attempt)
  unfolding attempt_loop
  attempt_loop-Denies max_attempts zero attempt = Denies-false
  attempt_loop-Denies max_attempts (suc left) attempt =
      Denies-bind (begin_attempt env r execution_id step_def id (attempt + 1)) _ (λ _.
        Denies-handle (try_step env r execution_id step_def id) _ _ try_step_fails (λ exc.
          Denies-bind (transition_step env id "failed" (some (str_exc exc))) _ (λ _.
            Denies-if (leb max_attempts (attempt + 1)) _ _ Denies-false
              (attempt_loop-Denies max_attempts left (attempt + 1)))))

  execute_step_with_retry-Denies : Denies (execute_step_with_retry env r execution_id step_def id)
  unfolding execute_step_with_retry
  execute_step_with_retry-Denies =
      Denies-bind (load_step id) _
        (λ (row : StepExecution). attempt_loop-Denies row.max_attempts row.max_attempts 0)

module _ (env : Env) (http_env : HttpEnv) (jinja : Jinja) (max_sub_workflow_depth : ℕ)
    (uuids : UuidText) (mapping : MappingJinja) (workflows : Dict ℕ Workflow)
    (start : NestedStarter) where
  abbrev any_run : StepDefinition → StepInput → Action Fields
  any_run = run_any http_env jinja max_sub_workflow_depth uuids mapping workflows start

  abbrev blind_run : StepDefinition → StepInput → Action Fields
  blind_run = blind http_env jinja max_sub_workflow_depth uuids mapping workflows start

  blind_run_fails :
      (d : StepDefinition)
      → d.type ≡ sub_workflow
      → (i : StepInput) → (x : Exception) × ((s : Session) → blind_run d i s ≡ (err x, s))
  unfolding run_step step_registry
  blind_run_fails d typed i =
      let (x, refused) =
        sub_workflow_tenantless http_env jinja max_sub_workflow_depth uuids mapping workflows
          d.config (record i { tenant_id = none }) refl in
      (x, λ s. rw (typed, refused start s))

  -- A sub-workflow step that can be started, with at least one attempt, in an execution whose
  -- context names no tenant: the retries return False, with the step failed in attempt max_attempts.
  pub sub_workflow_fails :
      (execution_id id : ℕ) (step_def : StepDefinition) (row : StepExecution)
      (execution : Execution) (s : Session)
      → step_def.type ≡ sub_workflow
      → get id s.step_executions ≡ some row
      → get execution_id s.executions ≡ some execution
      → execution.context.tenant_id ≡ none
      → Startable row
      → 1 ≤ row.max_attempts
      → ((execute_step_with_retry env any_run execution_id step_def id s).0 ≡ ok false)
        × ((row' : StepExecution) × (get id
                (execute_step_with_retry env any_run execution_id step_def id s).1.step_executions
              ≡ some row')
            × (row'.status ≡ "failed")
            × (row'.attempt ≡ row.max_attempts))
  sub_workflow_fails execution_id id step_def row execution s typed found present tenantless
        startable some_attempt =
      let same =
        (execute_step_with_retry-Alike env any_run blind_run execution_id
            (blind_agrees http_env jinja max_sub_workflow_depth uuids mapping workflows start)
            (blind-Preserves http_env jinja max_sub_workflow_depth uuids mapping workflows start
              execution_id)
            step_def id).at
          s (ap tenant_of present ∙ tenantless) in
      let keeps =
        blind-KeepsRows http_env jinja max_sub_workflow_depth uuids mapping workflows start id
          execution_id in
      let denied =
        (execute_step_with_retry-Denies env blind_run execution_id step_def id
            (blind_run_fails step_def typed)).at
          s in
      let (row', stored, outcome) =
        execute_step_with_retry-RetryEnds env blind_run execution_id step_def id keeps row execution
          s found present startable some_attempt in
      rw same (elim outcome [
        | inl (returned, _, _, _) ↦ absurd (denied returned)
        | inr (returned, failed, attempt) ↦ (returned, (row', stored, failed, attempt))
      ])
