-- ===== src/Engine/Start/Run.antt =====
-- What `start_execution` of src/engine/orchestrator.py returns for a workflow that is accepted.
use workflow_automation_engi.Engine.Session.{
  Env, StepExecution, Session, Action, Execution, continue, load_execution,
}
use mathlib.Core.List.{foldl}
use workflow_automation_engi.Prelude.{
  str_eq, Bool-cases, Fields, All, contains, count, Dict, get, put, get-put, ℕ, ◌+◌, ◌≤◌, String,
  ◌≡◌, sym, ap, ◌∙◌, ◌≢◌, inl, inr, true, false, some, List, [], ◌∷◌, arith, eq_iff, string_key,
  nat_key, Option-cases, Exception, Result, refl, ◌⊎◌, Option, ok, err,
}
use workflow_automation_engi.Engine.Models.{StepDefinition, WorkflowDefinition}
use workflow_automation_engi.Engine.Context.{StepInput}
use workflow_automation_engi.Engine.Orchestrator.{step_defs_of, execute_dag}
use workflow_automation_engi.Engine.Start.{attempts_of, start_execution}
use workflow_automation_engi.Engine.Orchestrator.Attempt.{KeepsRows}
use workflow_automation_engi.Engine.Orchestrator.Ends.{
  Finished, Ready, Raised, Failed, DagEnds, execute_dag-DagEnds,
}
use workflow_automation_engi.Engine.Graph.Relax.{contains-count}
use workflow_automation_engi.Engine.Parser.Checks.{AreUnique, parse_workflow_definition-IsSound}
use workflow_automation_engi.Engine.Parser.Ordered.{ids, parse-topological_sort}
use workflow_automation_engi.Engine.Start.Rows.{
  index, index-injective, step_map_of, rows_of, get-step_map_of, rows_of-IsNew,
}
use workflow_automation_engi.Db.{Workflow}
use workflow_automation_engi.Engine.Start.Launch.{raw_of, new_step_map, start_execution-Launched}
use workflow_automation_engi.Engine.Graph.{topological_sort}
use workflow_automation_engi.Engine.Parser.{ParserEnv, parse_workflow_definition}
use workflow_automation_engi.Engine.Orchestrator.Frame.{execution_status}

abbrev enter : Dict String StepDefinition → StepDefinition → Dict String StepDefinition
enter d s = put s.id s d

entered :
    (k : String) (steps : List StepDefinition) (acc : Dict String StepDefinition)
    (step_def : StepDefinition)
    → get k acc ≡ some step_def
    → (found : StepDefinition) × (get k (foldl enter acc steps) ≡ some found)
entered k [] acc step_def h = (step_def, h)
entered k (s ∷ steps) acc step_def h = elim (Bool-cases (str_eq s.id k)) [
  | inl same ↦ entered k steps (put s.id s acc) s (ground (arith, get-put s.id k s acc))
  | inr differ ↦ entered k steps (put s.id s acc) step_def (ground (arith, get-put s.id k s acc))
]

-- Every step has a definition.
get-step_defs_of :
    (k : String) (steps : List StepDefinition) (acc : Dict String StepDefinition)
    → contains k (ids steps) ≡ true
    → (found : StepDefinition) × (get k (foldl enter acc steps) ≡ some found)
get-step_defs_of k [] acc h = absurd (cc h)
get-step_defs_of k (s ∷ steps) acc h = elim (Bool-cases (str_eq s.id k)) [
  | inl same ↦ entered k steps (put s.id s acc) s (ground (arith, get-put s.id k s acc))
  | inr differ ↦ get-step_defs_of k steps (put s.id s acc) (rw differ at h)
]

module _ (env : Env) (run_step : StepDefinition → StepInput → Action Fields)
    (tenant_id execution_id : ℕ) (steps : List StepDefinition) (unique : AreUnique [] steps)
    (attempts : All (λ (s : StepDefinition). 1 ≤ attempts_of s.retry) steps)
    (distinct : (m n : ℕ) → env.uuid_at m ≡ env.uuid_at n → m ≡ n)
    (keeps : (id : ℕ) → KeepsRows run_step id execution_id) (u : ℕ)
    (rows : Dict ℕ StepExecution) where
  abbrev map' : Dict String ℕ
  map' = step_map_of env tenant_id execution_id u steps []

  mapped :
      (k : String)
      → contains k (ids steps) ≡ true
      → get k map' ≡ some (env.uuid_at (u + index k steps))
  mapped k there = ground (arith, get-step_map_of env tenant_id execution_id k u [] steps [] unique)

  apart-All :
      (k : String) (l : List String)
      → contains k (ids steps) ≡ true
      → contains k l ≡ false
      → ((y : String) → contains y l ≡ true → contains y (ids steps) ≡ true)
      → All (λ y. get y map' ≢ some (env.uuid_at (u + index k steps))) l
  apart-All k [] there absent known = tt
  apart-All k (y ∷ l) there absent known =
      let y_there = known y (ground (arith, eq_iff y y)) in
      (
        λ same.
            let e : some (env.uuid_at (u + index y steps))
                ≡ some (env.uuid_at (u + index k steps)) =
              sym (mapped y y_there) ∙ same in
            let ids_equal : env.uuid_at (u + index y steps) ≡ env.uuid_at (u + index k steps) =
              cc in
            let places = distinct (u + index y steps) (u + index k steps) ids_equal in
            let equal : y ≡ k = index-injective y k steps y_there there (omega arith) in
            absurd (ground (arith, eq_iff y k)),
        apart-All k l there (ground arith) (λ z h. known z (ground arith)),
      )

  order-Ready :
      (s : Session)
      → s.step_executions ≡ rows_of env tenant_id execution_id u steps rows
      → (order : List String)
      → ((y : String) → contains y order ≡ true → contains y (ids steps) ≡ true)
      → ((y : String) → count y order ≤ 1)
      → Ready env run_step execution_id (step_defs_of steps) map' order s
  order-Ready s created [] known once = tt
  order-Ready s created (k ∷ order) known once =
      let there = known k (ground (arith, eq_iff k k)) in
      let (step_def, defined) = get-step_defs_of k steps [] there in
      let (row, found, status, some_attempt) =
        rows_of-IsNew env tenant_id execution_id distinct k u steps rows attempts there in
      let absent : contains k order ≡ false =
        ground (arith, once k, eq_iff k k, contains-count k order) in
      (
        env.uuid_at (u + index k steps),
        step_def,
        mapped k there,
        defined,
        keeps (env.uuid_at (u + index k steps)),
        (row, ap (get (env.uuid_at (u + index k steps))) created ∙ found, status, some_attempt),
        apart-All k order there absent (λ y h. known y (ground arith)),
        order-Ready s created order (λ y h. known y (ground arith)) (λ y. omega (arith, once y)),
      )

status-row :
    (id : ℕ) (status : String) (s : Session)
    → execution_status id s ≡ some status
    → (row : Execution) × (get id s.executions ≡ some row) × (row.status ≡ status)
status-row id status s h = elim (Option-cases (get id s.executions)) [
  | inl gone ↦ absurd (cc (rw gone at h))
  | inr (row, found) ↦ (row, found, let e = rw found at h in cc)
]

module _ (env : Env) (run_step : StepDefinition → StepInput → Action Fields)
    (steps : List StepDefinition) (id : ℕ) where
  -- How a new execution can end, with the rows of its steps found through `step_map`.
  abbrev pub EndsWith : Dict String ℕ → Result Execution × Session → Type 0
  EndsWith step_map out =
      ((execution : Execution) × (out.0 ≡ ok execution)
        × (get id out.1.executions ≡ some execution)
        × ((execution.status ≡ "completed")
              × Finished env run_step id (step_defs_of steps) step_map (topological_sort steps)
                  out.1
            ⊎ (execution.status ≡ "failed")
              × Failed env run_step id (step_defs_of steps) step_map (topological_sort steps)
                  out.1))
      ⊎ ((x : Exception) × (out.0 ≡ err x)
          × Raised env run_step id (step_defs_of steps) step_map (topological_sort steps) x)

  finish-EndsWith :
      (step_map : Dict String ℕ) (out : Result (Unit {0}) × Session)
      → DagEnds env run_step id (step_defs_of steps) step_map (topological_sort steps) out
      → EndsWith step_map (continue out.0 (λ _. load_execution id) out.1)
  unfolding load_execution
  finish-EndsWith step_map out (inl (returned, completed, finished)) =
      let (row, found, status) = status-row id "completed" out.1 completed in
      rw (returned, found) (inl (row, refl, refl, inl (status, finished)))
  finish-EndsWith step_map out (inr (inl (returned, failed, step))) =
      let (row, found, status) = status-row id "failed" out.1 failed in
      rw (returned, found) (inl (row, refl, refl, inr (status, step)))
  finish-EndsWith step_map out (inr (inr (x, raised, because))) = rw raised (inr (x, refl, because))

module _ (env : Env) (parser : ParserEnv)
    (run_step : StepDefinition → StepInput → Action Fields) where
  -- The run of a new execution ends, if the executors leave its row and those of its steps alone.
  pub start_execution-EndsWith :
      (workflow : Workflow) (wf : WorkflowDefinition) (trigger_data : Fields) (tenant_id : ℕ)
      (replayed_from : Option ℕ) (depth : ℕ) (s : Session)
      → parse_workflow_definition parser (raw_of workflow) ≡ ok wf
      → All (λ (step : StepDefinition). 1 ≤ attempts_of step.retry) wf.steps
      → ((m n : ℕ) → env.uuid_at m ≡ env.uuid_at n → m ≡ n)
      → ((id : ℕ) → KeepsRows run_step id (env.uuid_at s.uuids))
      → EndsWith env run_step wf.steps
          (env.uuid_at s.uuids)
          (new_step_map env parser workflow wf trigger_data tenant_id replayed_from depth s)
          (start_execution env parser run_step workflow trigger_data tenant_id replayed_from depth
            s)
  start_execution-EndsWith workflow wf trigger_data tenant_id replayed_from depth s accepted
        attempts distinct keeps =
      let id = env.uuid_at s.uuids in
      let step_map =
        new_step_map env parser workflow wf trigger_data tenant_id replayed_from depth s in
      let launched =
        start_execution-Launched env parser workflow wf trigger_data tenant_id replayed_from depth s
          accepted in
      let order = parse-topological_sort parser (raw_of workflow) wf accepted in
      let sound = parse_workflow_definition-IsSound parser (raw_of workflow) wf accepted in
      let ready =
        order-Ready env run_step tenant_id id wf.steps sound.unique attempts distinct keeps
          (s.uuids + 1) s.step_executions launched.session launched.rows (topological_sort wf.steps)
          (λ y h. ground (arith, order.0 y, contains-count y (topological_sort wf.steps)))
          (λ y. ground (arith, order.0 y)) in
      let ends =
        execute_dag-DagEnds env run_step id wf.steps step_map launched.session launched.running
          ready in
      rw (launched.runs run_step) (
        finish-EndsWith env run_step wf.steps id step_map
          (execute_dag env run_step id wf.steps step_map launched.session) ends)
