-- ===== src/Engine/Start/Launch.antt =====
-- `start_execution` of src/engine/orchestrator.py up to `_execute_dag`: the session in which the
-- steps of a workflow that is accepted are run.
use workflow_automation_engi.Engine.Session.{
  Env, Session, Action, Execution, continue, load_execution,
}
use workflow_automation_engi.Prelude.{
  Fields, Dict, String, get, put, ℕ, ◌+◌, ◌≡◌, refl, ap, ◌∙◌, inl, Option, none, some, [], ok,
  nat_key, get-put_self,
}
use workflow_automation_engi.Db.{Workflow}
use workflow_automation_engi.Engine.Models.{StepDefinition, WorkflowDefinition}
use workflow_automation_engi.Engine.Context.{StepInput}
use workflow_automation_engi.Engine.Orchestrator.{execute_dag}
use workflow_automation_engi.Engine.Orchestrator.Frame.{status_of, execution_status}
use workflow_automation_engi.Engine.Parser.{ParserEnv, RawWorkflow, parse_workflow_definition}
use workflow_automation_engi.Engine.Start.{start_execution}
use workflow_automation_engi.Engine.Start.Alike.{tenant_of, context_tenant}
use workflow_automation_engi.Engine.Start.Rows.{step_map_of, rows_of, create_steps-Created}
use workflow_automation_engi.Engine.State.{stamp_execution}
use workflow_automation_engi.Engine.State.Diagram.{validate_execution_transition_iff}
use workflow_automation_engi.Engine.State.Effects.{transition_done}

abbrev pub raw_of : Workflow → RawWorkflow
raw_of workflow = record {
  name = workflow.name;
  trigger_type = workflow.trigger_type;
  steps = workflow.steps;
}

module _ (env : Env) (parser : ParserEnv) (workflow : Workflow) (wf : WorkflowDefinition)
    (trigger_data : Fields) (tenant_id : ℕ) (replayed_from : Option ℕ) (depth : ℕ)
    (s : Session) where
  abbrev pub new_id : ℕ
  new_id = env.uuid_at s.uuids

  abbrev pub new_step_map : Dict String ℕ
  new_step_map = step_map_of env tenant_id new_id (s.uuids + 1) wf.steps []

  -- The steps are run, whatever executes them, in a session with the execution running, its
  -- context without a tenant, and a new row for each step.
  pub record Launched : Type 0 where
    pub session : Session
    pub runs :
        (run_step : StepDefinition → StepInput → Action Fields)
        → start_execution env parser run_step workflow trigger_data tenant_id replayed_from depth s
          ≡ (let (r, s') = execute_dag env run_step new_id wf.steps new_step_map session in
              continue r (λ _. load_execution new_id) s')
    pub running : execution_status new_id session ≡ some "running"
    pub bare : context_tenant new_id session ≡ none
    pub rows :
        session.step_executions
        ≡ rows_of env tenant_id new_id (s.uuids + 1) wf.steps s.step_executions

  pub start_execution-Launched :
      parse_workflow_definition parser (raw_of workflow) ≡ ok wf → Launched
  unfolding start_execution stamp_execution
  start_execution-Launched accepted =
      let ex1 : Execution = record {
        id = new_id;
        tenant_id = tenant_id;
        workflow_id = workflow.id;
        status = "pending";
        trigger_data = trigger_data;
        context = record { trigger = trigger_data; steps = []; depth = none; tenant_id = none };
        replayed_from = replayed_from;
        started_at = none;
        completed_at = none;
        error = none;
        duration_ms = none;
      } in
      let s1 : Session = record s {
        executions = put new_id ex1 s.executions;
        uuids = s.uuids + 1;
      } in
      let ex2 : Execution = stamp_execution env "running" (env.time_at s.clock_reads) ex1 in
      let s2 : Session = record s1 {
        executions = put new_id ex2 s1.executions;
        clock_reads = s.clock_reads + 1;
      } in
      let made =
        transition_done env new_id "running" s1 (get-put_self new_id ex1 s.executions)
          ((validate_execution_transition_iff "pending" "running").1 (inl (refl, refl))) in
      let created = create_steps-Created env tenant_id new_id wf.steps [] s2 in
      let found = ap (get new_id) created.kept ∙ get-put_self new_id ex2 s1.executions in
      record {
        session = record (created.s') { executions = put new_id ex2 created.s'.executions };
        runs = λ run_step. rw (accepted, made, created.made, found);
        running = ap status_of (get-put_self new_id ex2 created.s'.executions);
        bare = ap tenant_of (get-put_self new_id ex2 created.s'.executions);
        rows = created.rows;
      }
