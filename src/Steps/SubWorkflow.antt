-- ===== src/Steps/SubWorkflow.antt =====
-- src/steps/sub_workflow.py: a step that runs another workflow of the tenant. What starts the
-- execution is a parameter, `start_execution` with the depth of the new execution.
use workflow_automation_engi.Db.{Workflow}
use workflow_automation_engi.Steps.{Rendering, is_falsy, config_error, evaluate_expression, get_or}
use workflow_automation_engi.Prelude.{
  ◌>>◌, ltb, nat_eq, if◌then◌else◌, Value, Fields, find, update, Result, ◌>>=◌, raise, raise_f,
  guard, Dict, codes, ℕ, ◌+◌, String, Bool, false, ◌&&◌, ◌||◌, Option, none, some, List, [], ◌∷◌,
  int, str, obj, field, end, ok, err, other, part, shown, pos,
}
use workflow_automation_engi.Engine.Context.{StepInput}
use workflow_automation_engi.Engine.Session.{or_raise, Action, Context, Execution, Session}
use workflow_automation_engi.Services.{owned_workflow}

-- `uuid.UUID(v)` (none: it raises) and `str(uuid)`
pub record UuidText : Type 0 where
  pub parse : Value → Option ℕ
  pub text : ℕ → String

-- Workflow, trigger data, tenant, depth.
abbrev pub NestedStarter : Type 0
NestedStarter = Workflow → Fields → ℕ → ℕ → Action Execution

-- How a template is rendered with "steps" and "trigger" only.
abbrev pub MappingJinja : Type 0
MappingJinja = Value → Dict String Fields → Fields → Rendering

-- `execution.context` as a document
output_documents : Dict String Fields → Fields
output_documents [] = end
output_documents ((step_id, output) ∷ steps) =
    field step_id (obj (field "output" (obj output) end)) (output_documents steps)

optional_field : {A : Type 0} → String → (A → Value) → Option A → Fields
optional_field name value none = end
optional_field name value (some a) = field name (value a) end

metadata : UuidText → Context → Fields
unfolding optional_field
metadata uuids context =
    update (optional_field "_depth" (λ d. int (pos d)) context.depth)
      (optional_field "_tenant_id" (λ t. str (uuids.text t)) context.tenant_id)

unfoldable pub context_document : UuidText → Context → Fields
unfolding output_documents metadata update
context_document uuids context =
    field "trigger" (obj context.trigger)
      (field "steps" (obj (output_documents context.steps)) (metadata uuids context))

with_field : String → Value → Result Fields → Result Fields
with_field key value (ok rest) = ok (field key value rest)
with_field key value (err x) = err x

-- `isinstance(expression, str) and "{{" in expression`
opens_expression : List ℕ → Bool
opens_expression (a ∷ b ∷ cs) = nat_eq a b'{' && nat_eq b b'{' || opens_expression (b ∷ cs)
opens_expression _ = false

mapped_value : MappingJinja → StepInput → Value → Result Value
unfolding opens_expression
mapped_value jinja context (str s) =
    if opens_expression (codes s)
    then (evaluate_expression (λ template ctx. jinja template ctx.steps ctx.trigger) (str s) context
        >>= λ result. ok (str result))
    else ok (str s)
mapped_value jinja context v = ok v

mapped_data : MappingJinja → StepInput → Fields → Result Fields
unfolding mapped_value with_field
mapped_data jinja context end = ok end
mapped_data jinja context (field key expression mapping) =
    mapped_value jinja context expression >>= λ value.
    with_field key value (mapped_data jinja context mapping)

abbrev pub trigger_document : Fields → Fields
trigger_document mapped = field "source" (str "sub_workflow") (field "data" (obj mapped) end)

items_of : Value → Result Fields
items_of (obj d) = ok d
items_of _ = err (other (part "object has no attribute 'items'" ∷ []))

unfoldable pub build_trigger_data : MappingJinja → Fields → StepInput → Result Fields
unfolding mapped_data items_of is_falsy
build_trigger_data jinja config context =
    let input_mapping = get_or (find "input_mapping" config) (obj end) in
    if is_falsy input_mapping
    then ok (trigger_document end)
    else (items_of input_mapping >>= λ mapping.
        mapped_data jinja context mapping >>= λ mapped. ok (trigger_document mapped))

unfoldable pub nested_output : UuidText → Result Execution × Session → Result Fields × Session
unfolding context_document
nested_output uuids (ok execution, s) = (
  ok (
      field "status" (str execution.status)
        (field "context" (obj (context_document uuids execution.context)) end)),
  s,
)
nested_output uuids (err x, s) = (err x, s)

module _ (max_sub_workflow_depth : ℕ) (uuids : UuidText) (jinja : MappingJinja)
    (workflows : Dict ℕ Workflow) where
  unfoldable pub nested_workflow : ℕ → ℕ → Result Workflow
  nested_workflow workflow_id tenant_id =
      or_raise (owned_workflow workflow_id tenant_id workflows) (
        raise_f "NOT_FOUND"
          (part "Sub-workflow " ∷ part (uuids.text workflow_id) ∷ part " not found." ∷ []) 404)
      >>= λ w.
          if w.is_active then ok w else raise "WORKFLOW_INACTIVE" "Sub-workflow is not active." 400

  unfoldable pub load_nested : Fields → StepInput → ℕ → ℕ → Result (Workflow × Fields × ℕ)
  unfolding nested_workflow build_trigger_data
  load_nested config context workflow_id tenant_id = do
    workflow ← nested_workflow workflow_id tenant_id
    trigger_data ← build_trigger_data jinja config context
    ok (workflow, trigger_data, tenant_id)

  -- The checks before the execution is started: the workflow, its trigger data and the tenant.
  unfoldable pub prepare : Fields → StepInput → Result (Workflow × Fields × ℕ)
  unfolding load_nested
  prepare config context = do
    given ←
        or_raise (find "workflow_id" config)
          (config_error "Sub_workflow step requires 'workflow_id' in config.")
    guard (ltb context.depth max_sub_workflow_depth) (
        raise_f "MAX_DEPTH_EXCEEDED"
          (part "Sub-workflow depth "
            ∷ shown (context.depth + 1)
            ∷ part " exceeds maximum of "
            ∷ shown max_sub_workflow_depth
            ∷ part "."
            ∷ [])
          400)
    workflow_id ← or_raise (uuids.parse given) (err (other (part "badly formed UUID" ∷ [])))
    tenant_id ← or_raise context.tenant_id (err (other (part "badly formed UUID" ∷ [])))
    load_nested config context workflow_id tenant_id

  module _ (start : NestedStarter) where
    start_prepared : StepInput → Result (Workflow × Fields × ℕ) → Action Fields
    unfolding nested_output
    start_prepared context (err x) s = (err x, s)
    start_prepared context (ok (workflow, trigger_data, tenant_id)) s =
        nested_output uuids (start workflow trigger_data tenant_id (context.depth + 1) s)

    -- `SubWorkflowExecutor.execute`
    unfoldable pub execute_sub_workflow : Fields → StepInput → Action Fields
    unfolding start_prepared prepare
    execute_sub_workflow config context = start_prepared context (prepare config context)
