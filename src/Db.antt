-- ===== src/Db.antt =====
-- The rows of src/db/models that the services read, with their columns.
use workflow_automation_engi.Prelude.{Fields, ℕ, String, Bool, Option, Value, List}

pub record Workflow : Type 0 where
  pub id : ℕ
  pub tenant_id : ℕ
  pub name : String
  pub description : Option String
  pub trigger_type : String
  pub trigger_config : Fields
  pub steps : List Value
  pub is_active : Bool
  pub webhook_path : Option String
  pub webhook_secret : Option String
  pub created_at : ℕ
  pub updated_at : ℕ
