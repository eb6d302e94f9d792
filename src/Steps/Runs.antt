-- ===== src/Steps/Runs.antt =====
-- How an execution of src/engine/orchestrator.py ends with the executors of src/steps. The context
-- that `start_execution` writes has neither "_depth" nor "_tenant_id", so no sub-workflow is started.
use workflow_automation_engi.Db.{Workflow}
use workflow_automation_engi.Steps.{Jinja}
use workflow_automation_engi.Steps.Http.{HttpEnv}
use workflow_automation_engi.Steps.SubWorkflow.{UuidText, NestedStarter, MappingJinja}
use workflow_automation_engi.Prelude.{
  Fields, Result, Dict, ℕ, ◌≡◌, refl, sym, ap, ◌∙◌, inl, inr, Option, Result-split, nat_key,
}
use workflow_automation_engi.Engine.Models.{StepDefinition}
use workflow_automation_engi.Engine.Context.{StepInput}
use workflow_automation_engi.Engine.Session.{Env, Session, Action, continue, load_execution}
use workflow_automation_engi.Engine.Parser.{ParserEnv, parse_workflow_definition}
use workflow_automation_engi.Engine.Start.{start_execution}
use workflow_automation_engi.Engine.Start.Agree.{execute_dag-Alike}
use workflow_automation_engi.Engine.Start.Launch.{raw_of, new_step_map, start_execution-Launched}
use workflow_automation_engi.Steps.Tenantless.{
  run_any, blind, blind-Preserves, blind_agrees, blind_same,
}

module _ (env : Env) (parser : ParserEnv) (http_env : HttpEnv) (jinja : Jinja)
    (max_sub_workflow_depth : ℕ) (uuids : UuidText) (mapping : MappingJinja)
    (workflows : Dict ℕ Workflow) where
  abbrev run_with : NestedStarter → StepDefinition → StepInput → Action Fields
  run_with = run_any http_env jinja max_sub_workflow_depth uuids mapping workflows

  abbrev blind_with : NestedStarter → StepDefinition → StepInput → Action Fields
  blind_with = blind http_env jinja max_sub_workflow_depth uuids mapping workflows

  -- In a new execution the executors are given no tenant.
  start_execution-blind :
      (start : NestedStarter) (workflow : Workflow) (trigger_data : Fields) (tenant_id : ℕ)
      (replayed_from : Option ℕ) (depth : ℕ) (s : Session)
      → start_execution env parser
          (run_with start)
          workflow
          trigger_data
          tenant_id
          replayed_from
          depth
          s
        ≡ start_execution env parser
            (blind_with start)
            workflow
            trigger_data
            tenant_id
            replayed_from
            depth
            s
  start_execution-blind start workflow trigger_data tenant_id replayed_from depth s =
      elim (Result-split (parse_workflow_definition parser (raw_of workflow))) [
        | inr (x, refused) ↦ unfold start_execution in rw refused
        | inl (wf, accepted) ↦
            let launched =
              start_execution-Launched env parser workflow wf trigger_data tenant_id replayed_from
                depth s accepted in
            let id = env.uuid_at s.uuids in
            let step_map =
              new_step_map env parser workflow wf trigger_data tenant_id replayed_from depth s in
            let same =
              (execute_dag-Alike env (run_with start) (blind_with start) id
                  (blind_agrees http_env jinja max_sub_workflow_depth uuids mapping workflows start)
                  (blind-Preserves http_env jinja max_sub_workflow_depth uuids mapping workflows
                    start id)
                  wf.steps step_map).at
                launched.session launched.bare in
            launched.runs (run_with start)
            ∙ ap
                (λ (out : Result (Unit {0}) × Session).
                  continue out.0 (λ _. load_execution id) out.1)
                same
            ∙ sym (launched.runs (blind_with start))
      ]

  depth_ignored :
      (r : StepDefinition → StepInput → Action Fields) (workflow : Workflow) (trigger_data : Fields)
      (tenant_id : ℕ) (replayed_from : Option ℕ) (depth depth' : ℕ) (s : Session)
      → start_execution env parser r workflow trigger_data tenant_id replayed_from depth s
        ≡ start_execution env parser r workflow trigger_data tenant_id replayed_from depth' s
  unfolding start_execution
  depth_ignored r workflow trigger_data tenant_id replayed_from depth depth' s = refl

  -- What would start nested executions, and the depth that is passed on, make no difference to an
  -- execution: no sub-workflow step of it ever starts one.
  pub start_execution_unnested :
      (start start' : NestedStarter) (workflow : Workflow) (trigger_data : Fields) (tenant_id : ℕ)
      (replayed_from : Option ℕ) (depth depth' : ℕ) (s : Session)
      → start_execution env parser
          (run_with start)
          workflow
          trigger_data
          tenant_id
          replayed_from
          depth
          s
        ≡ start_execution env parser
            (run_with start')
            workflow
            trigger_data
            tenant_id
            replayed_from
            depth'
            s
  start_execution_unnested start start' workflow trigger_data tenant_id replayed_from depth depth'
        s =
      start_execution-blind start workflow trigger_data tenant_id replayed_from depth s
      ∙ ap (λ r. start_execution env parser r workflow trigger_data tenant_id replayed_from depth s)
          (blind_same http_env jinja max_sub_workflow_depth uuids mapping workflows start start')
      ∙ depth_ignored (blind_with start') workflow trigger_data tenant_id replayed_from depth depth'
          s
      ∙ sym (start_execution-blind start' workflow trigger_data tenant_id replayed_from depth' s)
