-- ===== src/Services.antt =====
-- src/triggers/manual.py, src/replay/service.py, and the handlers of src/api/executions.py that
-- change an execution, over the workflows of the database and the engine's session.
pub mod Tenancy
pub mod Overrides
pub mod Logs
pub mod Detail
pub mod Cancel
mod Tests
use workflow_automation_engi.Engine.Session.{
  ◌>>=◌, ◌>>◌, Execution, StepExecution, Session, Action, pure, lift, gets, or_raise, Env, handle,
}
use workflow_automation_engi.Engine.State.{transition_execution, transition_step}
use mathlib.Core.Option.{get_or}
use workflow_automation_engi.Db.{Workflow}
use workflow_automation_engi.Prelude.{
  if◌then◌else◌, ◌==◌, Value, Values, item, Fields, find, assign, update, contains, Result, raise,
  Dict, get, ℕ, String, Bool, true, not, Option, none, some, List, [], ◌∷◌, str, arr, obj, field,
  end, none_left, ok, err, other, part, nat_key, string_key,
}

-- What `start_execution` is to a handler: workflow, trigger data, tenant, replayed execution.
abbrev pub Starter : Type 0
Starter = Workflow → Fields → ℕ → Option ℕ → Action Execution

abbrev pub own_workflow : ℕ → Option Workflow → Option Workflow
own_workflow tenant_id none = none
own_workflow tenant_id (some w) = if w.tenant_id == tenant_id then some w else none

abbrev pub own_execution : ℕ → Option Execution → Option Execution
own_execution tenant_id none = none
own_execution tenant_id (some ex) = if ex.tenant_id == tenant_id then some ex else none

-- select(Workflow).where(id == workflow_id and tenant_id == tenant_id)
abbrev pub owned_workflow : ℕ → ℕ → Dict ℕ Workflow → Option Workflow
owned_workflow workflow_id tenant_id workflows = own_workflow tenant_id (get workflow_id workflows)

abbrev pub owned_execution : ℕ → ℕ → Dict ℕ Execution → Option Execution
owned_execution execution_id tenant_id executions =
    own_execution tenant_id (get execution_id executions)

unfoldable pub get_tenant_workflow : Dict ℕ Workflow → ℕ → ℕ → Result Workflow
get_tenant_workflow workflows workflow_id tenant_id =
    or_raise (owned_workflow workflow_id tenant_id workflows)
      (raise "NOT_FOUND" "Workflow not found." 404)

unfoldable pub validate_workflow_active : Workflow → Result (Unit {0})
validate_workflow_active workflow =
    if workflow.is_active then ok tt else raise "WORKFLOW_INACTIVE" "Workflow is not active." 400

-- `manual_execute` of src/api/executions.py
unfoldable pub manual_execute : Starter → Dict ℕ Workflow → ℕ → ℕ → Fields → Action ℕ
unfolding get_tenant_workflow validate_workflow_active
manual_execute start workflows workflow_id tenant_id trigger_data = do
  workflow ← lift (get_tenant_workflow workflows workflow_id tenant_id)
  lift (validate_workflow_active workflow)
  execution ←
      start workflow (field "source" (str "manual") (field "data" (obj trigger_data) end)) tenant_id
        none
  pure execution.id

-- What `dict` reads as a pair of a text and a value
pair_of : Value → Option (String × Value)
pair_of (arr (item (str k) (item v none_left))) = some (k, v)
pair_of (obj (field k v (field k' v' end))) = some (k, str k')
pair_of (str (String.◌∷◌ a (String.◌∷◌ b String.[]))) =
    some (String.◌∷◌ a String.[], str (String.◌∷◌ b String.[]))
pair_of _ = none

dict_of_pairs : Fields → Values → Result Fields
unfolding pair_of
dict_of_pairs d none_left = ok d
dict_of_pairs d (item v vs) = elim (pair_of v) [
  | none ↦ err (other (part "cannot convert to a dictionary" ∷ []))
  | some (key, value) ↦ dict_of_pairs (assign key value d) vs
]

-- `dict(v)` of a JSON value; a pair whose key is a number is refused here.
as_dict : Option Value → Result Fields
unfolding dict_of_pairs
as_dict none = ok end
as_dict (some (obj d)) = ok d
as_dict (some (arr vs)) = dict_of_pairs end vs
as_dict (some (str String.[])) = ok end
as_dict (some _) = err (other (part "cannot convert to a dictionary" ∷ []))

with_overrides : Fields → Fields → Result Fields → Result Fields
with_overrides trigger_data overrides (ok data_section) =
    ok (assign "data" (obj (update data_section overrides)) trigger_data)
with_overrides trigger_data overrides (err x) = err x

-- The trigger data of a replay: `data` updated by the overrides, if any are given.
unfoldable pub merge_overrides : Fields → Fields → Result Fields
unfolding as_dict with_overrides
merge_overrides trigger_data end = ok trigger_data
merge_overrides trigger_data (field k v overrides) =
    with_overrides trigger_data (field k v overrides) (as_dict (find "data" trigger_data))

unfoldable pub replay_execution : Starter → Dict ℕ Workflow → ℕ → ℕ → Fields → Action Execution
replay_execution start workflows execution_id tenant_id override_data = do
  found ← gets (λ s. owned_execution execution_id tenant_id s.executions)
  original ← lift (or_raise found (raise "NOT_FOUND" "Execution not found." 404))
  workflow ← lift (
      or_raise (owned_workflow original.workflow_id tenant_id workflows)
        (raise "NOT_FOUND" "Workflow not found." 404))
  lift (
      if workflow.is_active then ok tt else raise "WORKFLOW_INACTIVE" "Workflow is not active." 400)
  trigger_data ← lift (merge_overrides original.trigger_data override_data)
  start workflow trigger_data tenant_id (some execution_id)

-- `replay_execution_endpoint` of src/api/executions.py
unfoldable pub replay_endpoint : Bool → Starter → Dict ℕ Workflow → ℕ → ℕ → Fields → Action ℕ
replay_endpoint enabled start workflows execution_id tenant_id override_data = do
  lift (if enabled then ok tt else raise "REPLAY_DISABLED" "Execution replay is disabled." 403)
  execution ← replay_execution start workflows execution_id tenant_id override_data
  pure execution.id

-- The rows of `execution.step_executions`, in the order of the table.
unfoldable pub steps_of : ℕ → Dict ℕ StepExecution → List ℕ
steps_of execution_id [] = []
steps_of execution_id ((id, se) ∷ rest) =
    let others = steps_of execution_id rest in
    if se.execution_id == execution_id then id ∷ others else others

-- The loop of `cancel_execution`: each row's status is read when its turn comes.
unfoldable pub skip_open_steps : Env → List ℕ → Action (Unit {0})
skip_open_steps env [] = pure tt
skip_open_steps env (id ∷ ids) = do
  found ← gets (λ s. get id s.step_executions)
  se ← lift (or_raise found (err (other (part "Could not refresh instance" ∷ []))))
  if contains se.status ("pending" ∷ "queued" ∷ "running" ∷ [])
      then (transition_step env id "skipped" none >> pure tt)
      else pure tt
  skip_open_steps env ids

-- `cancel_execution` of src/api/executions.py
unfoldable pub cancel_execution : Env → ℕ → ℕ → Action Bool
unfolding steps_of skip_open_steps
cancel_execution env execution_id tenant_id = do
  found ← gets (λ s. owned_execution execution_id tenant_id s.executions)
  execution ← lift (or_raise found (raise "NOT_FOUND" "Execution not found." 404))
  ids ← gets (λ s. steps_of execution_id s.step_executions)
  transition_execution env execution_id "cancelled"
  skip_open_steps env ids
  pure true
