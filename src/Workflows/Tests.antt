-- ===== src/Workflows/Tests.antt =====
-- Examples for src/api/workflows.py: one cached workflow, and a parser that knows no step.
use workflow_automation_engi.Db.{Workflow}
use workflow_automation_engi.Engine.Parser.{type_error}
use workflow_automation_engi.Workflows.{
  ApiEnv, Store, UpdateRequest, CreateRequest, update_workflow, delete_workflow, create_workflow,
}
use workflow_automation_engi.Workflows.Coherence.{
  IsCoherent, changes-IsCoherent, create_workflow-IsCoherent,
}
use workflow_automation_engi.Prelude.{
  ◌+◌, get, ◌≡◌, refl, none, some, true, false, [], ◌∷◌, end, nat_key, arith, nat_eq_iff,
}

abbrev test_env : ApiEnv
test_env = record {
  parser = record {
    construct = λ v. type_error "no mapping";
    text_of = λ v. "";
    parse_error = λ s. none;
    max_steps_per_workflow = 50;
  };
  now_at = λ n. n;
  id_at = λ n. 100 + n;
  slug_at = λ n. "0123456789abcdef01234567";
}

abbrev test_workflow : Workflow
test_workflow = record {
  id = 3;
  tenant_id = 1;
  name = "orders";
  description = none;
  trigger_type = "manual";
  trigger_config = end;
  steps = [];
  is_active = true;
  webhook_path = none;
  webhook_secret = none;
  created_at = 0;
  updated_at = 0;
}

abbrev test_store : Store
test_store = record {
  workflows = (3, test_workflow) ∷ [];
  cache = record {
    max_size = 256;
    ttl = 300;
    entries = (3, record { workflow = test_workflow; expires_at = 300 }) ∷ [];
    path_index = [];
  };
  generated = 1;
}

store_IsCoherent : IsCoherent test_store
unfolding get
store_IsCoherent id e h = ground (arith, nat_eq_iff 3 id)

abbrev deactivate : UpdateRequest
deactivate = record {
  name = none;
  description = none;
  trigger_type = none;
  trigger_config = none;
  steps = none;
  is_active = some false;
  webhook_secret = none;
}

changes-IsCoherent_example :
    IsCoherent (update_workflow test_env 3 1 deactivate test_store).1
    × IsCoherent (delete_workflow test_env 3 1 test_store).1
changes-IsCoherent_example = changes-IsCoherent test_env 3 1 test_store store_IsCoherent deactivate

abbrev new_workflow : CreateRequest
new_workflow = record {
  name = "refunds";
  description = none;
  trigger_type = "webhook";
  trigger_config = end;
  steps = [];
  is_active = true;
  webhook_secret = none;
}

id_fresh : get (test_env.id_at test_store.generated) test_store.workflows ≡ none
unfolding get
id_fresh = refl

create_workflow-IsCoherent_example :
    IsCoherent (create_workflow test_env 1 new_workflow test_store).1
create_workflow-IsCoherent_example =
    create_workflow-IsCoherent test_env 1 new_workflow test_store store_IsCoherent id_fresh
