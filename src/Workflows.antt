-- ===== src/Workflows.antt =====
-- src/api/workflows.py: creating, reading, changing and deleting a workflow, over the table of
-- workflows and the cache of src/lib/cache.py.
pub mod Coherence
mod Tests
use Prim.Native.String.{◌++◌ as text_append}
use workflow_automation_engi.Db.{Workflow}
use workflow_automation_engi.Cache.{WorkflowCache, given, invalidate}
use workflow_automation_engi.Services.{owned_workflow}
use workflow_automation_engi.Engine.Session.{or_raise}
use workflow_automation_engi.Engine.Parser.{ParserEnv, parse_workflow_definition}
use workflow_automation_engi.Prelude.{
  ◌>>=◌, ◌>>◌, Dict, put, remove, ℕ, ◌+◌, String, Bool, Option, none, some, List, Value, Fields,
  Result, ok, err, raise, if◌then◌else◌, ◌==◌, string_key, nat_key, not, other,
}

-- The parser's environment, the clock of the database, its identifiers, and the first 24
-- hexadecimal digits of the n-th UUID.
pub record ApiEnv : Type 0 where
  pub parser : ParserEnv
  pub now_at : ℕ → ℕ
  pub id_at : ℕ → ℕ
  pub slug_at : ℕ → String

-- `generated` says which identifier and which path are drawn next.
pub record Store : Type 0 where
  pub workflows : Dict ℕ Workflow
  pub cache : WorkflowCache
  pub generated : ℕ

pub record CreateRequest : Type 0 where
  pub name : String
  pub description : Option String
  pub trigger_type : String
  pub trigger_config : Fields
  pub steps : List Value
  pub is_active : Bool
  pub webhook_secret : Option String

-- All fields are optional.
pub record UpdateRequest : Type 0 where
  pub name : Option String
  pub description : Option String
  pub trigger_type : Option String
  pub trigger_config : Option Fields
  pub steps : Option (List Value)
  pub is_active : Option Bool
  pub webhook_secret : Option String

-- `if value is not None: field = value`
abbrev pub or_old {ℓ} : {A : Type ℓ} → Option A → A → A
or_old none old = old
or_old (some value) old = value

-- The same, for a field that may be None.
abbrev pub or_old_option {ℓ} : {A : Type ℓ} → Option A → Option A → Option A
or_old_option none old = old
or_old_option (some value) old = some value

-- `body.trigger_type or workflow.trigger_type`
abbrev pub or_else_text : Option String → String → String
or_else_text value old = or_old (given value) old

module _ (env : ApiEnv) where
  unfoldable pub generate_webhook_path : ℕ → String
  generate_webhook_path n = text_append "wh_" (env.slug_at n)

  -- The steps are parsed only to reject what the parser rejects.
  abbrev checked : String → String → List Value → Result (Unit {0})
  checked name trigger_type steps =
      parse_workflow_definition env.parser
        (record { name = name; trigger_type = trigger_type; steps = steps })
      >>= λ _. ok tt

  abbrev pub created : ℕ → CreateRequest → ℕ → Workflow
  created tenant_id body n = record {
    id = env.id_at n;
    tenant_id = tenant_id;
    name = body.name;
    description = body.description;
    trigger_type = body.trigger_type;
    trigger_config = body.trigger_config;
    steps = body.steps;
    is_active = body.is_active;
    webhook_path =
        if body.trigger_type == "webhook" then some (generate_webhook_path (n + 1)) else none;
    webhook_secret = body.webhook_secret;
    created_at = env.now_at n;
    updated_at = env.now_at n;
  }

  stored : Result (Unit {0}) → Workflow → Store → Result Workflow × Store
  stored (err x) w store = (err x, store)
  stored (ok _) w store = (
    ok w,
    record store { workflows = put w.id w store.workflows; generated = store.generated + 2 },
  )

  unfoldable pub create_workflow : ℕ → CreateRequest → Store → Result Workflow × Store
  unfolding stored generate_webhook_path
  create_workflow tenant_id body store =
      stored (checked body.name body.trigger_type body.steps)
        (created tenant_id body store.generated) store

  -- `_get_tenant_workflow`
  unfoldable pub find_workflow : ℕ → ℕ → Store → Result Workflow
  find_workflow workflow_id tenant_id store =
      or_raise (owned_workflow workflow_id tenant_id store.workflows)
        (raise "NOT_FOUND" "Workflow not found." 404)

  unfoldable pub get_workflow : ℕ → ℕ → Store → Result Workflow
  unfolding find_workflow
  get_workflow workflow_id tenant_id store = find_workflow workflow_id tenant_id store

  -- The new path: one is drawn for a webhook without a path, and dropped for another trigger.
  new_path : Option String → Option String → ℕ → Option String
  unfolding generate_webhook_path
  new_path none old n = old
  new_path (some trigger_type) old n =
      if trigger_type == "webhook"
      then elim (given old) [ none ↦ some (generate_webhook_path n) | some path ↦ old ]
      else none

  check_steps : Option (List Value) → String → String → Result (Unit {0})
  check_steps none name trigger_type = ok tt
  check_steps (some steps) name trigger_type = checked name trigger_type steps

  -- The row with the fields of the request; the exception of the parser leaves it unwritten.
  unfoldable pub apply_update : UpdateRequest → ℕ → Workflow → Result Workflow
  unfolding new_path check_steps
  apply_update body n workflow = do
    check_steps body.steps (or_old body.name workflow.name)
        (or_else_text body.trigger_type workflow.trigger_type)
    ok (record workflow {
      name = or_old body.name workflow.name;
      description = or_old_option body.description workflow.description;
      trigger_config = or_old body.trigger_config workflow.trigger_config;
      is_active = or_old body.is_active workflow.is_active;
      steps = or_old body.steps workflow.steps;
      webhook_secret = or_old_option body.webhook_secret workflow.webhook_secret;
      trigger_type = or_old body.trigger_type workflow.trigger_type;
      webhook_path = new_path body.trigger_type workflow.webhook_path n;
    })

  -- commit, refresh, and `workflow_cache.invalidate(workflow.id)`
  committed : ℕ → Result Workflow → Store → Result Workflow × Store
  committed workflow_id (err x) store = (err x, store)
  committed workflow_id (ok w) store = (
    ok w,
    record store {
      workflows = put workflow_id w store.workflows;
      cache = invalidate workflow_id store.cache;
      generated = store.generated + 1;
    },
  )

  unfoldable pub update_workflow : ℕ → ℕ → UpdateRequest → Store → Result Workflow × Store
  unfolding committed find_workflow apply_update
  update_workflow workflow_id tenant_id body store =
      committed workflow_id
        (find_workflow workflow_id tenant_id store >>= apply_update body store.generated) store

  deleted : ℕ → Result Workflow → Store → Result (Unit {0}) × Store
  deleted workflow_id (err x) store = (err x, store)
  deleted workflow_id (ok w) store = (
    ok tt,
    record store {
      workflows = remove workflow_id store.workflows;
      cache = invalidate workflow_id store.cache;
    },
  )

  unfoldable pub delete_workflow : ℕ → ℕ → Store → Result (Unit {0}) × Store
  unfolding deleted find_workflow
  delete_workflow workflow_id tenant_id store =
      deleted workflow_id (find_workflow workflow_id tenant_id store) store
