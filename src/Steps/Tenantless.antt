-- ===== src/Steps/Tenantless.antt =====
-- What the executors of src/steps do with an input that names no tenant: none of them writes to
-- the session, since the sub-workflow executor raises before it starts an execution.
use workflow_automation_engi.Db.{Workflow}
use workflow_automation_engi.Steps.{Jinja}
use workflow_automation_engi.Steps.Http.{HttpEnv}
use workflow_automation_engi.Steps.Registry.{run_step, step_registry}
use workflow_automation_engi.Steps.SubWorkflow.{
  UuidText, NestedStarter, MappingJinja, prepare, execute_sub_workflow,
}
use workflow_automation_engi.Steps.Nesting.{prepare-IsNested}
use workflow_automation_engi.Prelude.{
  Fields, Exception, Dict, ℕ, ◌≡◌, refl, ap, inl, inr, none, some, err, Result-split, get, nat_key,
}
use workflow_automation_engi.Engine.Models.{
  StepType, StepDefinition, http, transform, condition, delay, sub_workflow,
}
use workflow_automation_engi.Engine.Context.{StepInput}
use workflow_automation_engi.Engine.Session.{Session, Action}
use workflow_automation_engi.Engine.Frame.{Preserves}
use workflow_automation_engi.Engine.Orchestrator.Attempt.{KeepsRows}
use workflow_automation_engi.Engine.Start.Alike.{context_tenant}

module _ (http_env : HttpEnv) (jinja : Jinja) (max_sub_workflow_depth : ℕ) (uuids : UuidText)
    (mapping : MappingJinja) (workflows : Dict ℕ Workflow) where
  -- `_run_step` over all the executors.
  abbrev pub run_any : NestedStarter → StepDefinition → StepInput → Action Fields
  run_any start =
      run_step http_env jinja
        (execute_sub_workflow max_sub_workflow_depth uuids mapping workflows start)

  prepare_tenantless :
      (config : Fields) (i : StepInput)
      → i.tenant_id ≡ none
      → (x : Exception) × (prepare max_sub_workflow_depth uuids mapping workflows config i ≡ err x)
  prepare_tenantless config i h =
      elim (Result-split (prepare max_sub_workflow_depth uuids mapping workflows config i)) [
        | inr refused ↦ refused
        | inl ((w, trigger_data, tenant_id), prepared) ↦
            let nested =
              prepare-IsNested max_sub_workflow_depth uuids mapping workflows config i
                (w, trigger_data, tenant_id) prepared in
            let tenant : i.tenant_id ≡ some tenant_id = nested.1 in absurd (cc)
      ]

  -- Without a tenant, a sub-workflow step raises whatever would start the execution.
  pub sub_workflow_tenantless :
      (config : Fields) (i : StepInput)
      → i.tenant_id ≡ none
      → (x : Exception) × ((start : NestedStarter) (s : Session)
          → execute_sub_workflow max_sub_workflow_depth uuids mapping workflows start config i s
            ≡ (err x, s))
  unfolding execute_sub_workflow
  sub_workflow_tenantless config i h =
      let (x, refused) = prepare_tenantless config i h in (x, λ start s. rw refused)

  module _ (start : NestedStarter) where
    -- The executors with an input whose tenant is taken out.
    abbrev pub blind : StepDefinition → StepInput → Action Fields
    blind d i = run_any start d (record i { tenant_id = none })

    by_type :
        (t : StepType) (d : StepDefinition) (i : StepInput) (s : Session)
        → d.type ≡ t
        → i.tenant_id ≡ none
        → (run_any start d i s).1 ≡ s
    unfolding run_step step_registry
    by_type http d i s typed h = rw typed
    by_type transform d i s typed h = rw typed
    by_type condition d i s typed h = rw typed
    by_type delay d i s typed h = rw typed
    by_type sub_workflow d i s typed h =
        let (x, refused) = sub_workflow_tenantless d.config i h in rw (typed, refused start s)

    -- Without a tenant, every executor leaves the session as it was.
    blind-keeps : (d : StepDefinition) (i : StepInput) (s : Session) → (blind d i s).1 ≡ s
    blind-keeps d i s = by_type d.type d (record i { tenant_id = none }) s refl refl

    pub blind-KeepsRows : (id execution_id : ℕ) → KeepsRows blind id execution_id
    blind-KeepsRows id execution_id = record {
      steps = λ d i s. ap (λ (s' : Session). get id s'.step_executions) (blind-keeps d i s);
      executions =
          λ d i s. ap (λ (s' : Session). get execution_id s'.executions) (blind-keeps d i s);
    }

    pub blind-Preserves :
        (execution_id : ℕ) (d : StepDefinition) (i : StepInput)
        → Preserves (context_tenant execution_id) (blind d i)
    blind-Preserves execution_id d i = record {
      at = λ s. ap (context_tenant execution_id) (blind-keeps d i s);
    }

    pub blind_agrees :
        (d : StepDefinition) (i : StepInput) → i.tenant_id ≡ none → run_any start d i ≡ blind d i
    blind_agrees d i h = ap (λ t. run_any start d (record i { tenant_id = t })) h

  module _ (start start' : NestedStarter) where
    same_by_type :
        (t : StepType) (d : StepDefinition) (i : StepInput) (s : Session)
        → d.type ≡ t
        → blind start d i s ≡ blind start' d i s
    unfolding run_step step_registry
    same_by_type http d i s typed = rw typed
    same_by_type transform d i s typed = rw typed
    same_by_type condition d i s typed = rw typed
    same_by_type delay d i s typed = rw typed
    same_by_type sub_workflow d i s typed =
        let (x, refused) = sub_workflow_tenantless d.config (record i { tenant_id = none }) refl in
        rw (typed, refused start s, refused start' s)

    -- Without a tenant it makes no difference what would start a nested execution.
    pub blind_same : blind start ≡ blind start'
    blind_same = λ k d i s. same_by_type d.type d i s refl k
