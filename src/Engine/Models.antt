-- ===== src/Engine/Models.antt =====
-- src/engine/models.py: the models that the parser returns.
use workflow_automation_engi.Prelude.{Fields, Dict, ℕ, String, Bool, true, false, Option, List}

pub data StepType : Type 0 where
  http transform condition delay sub_workflow : StepType

pub record RetryConfig : Type 0 where
  pub max_attempts : ℕ
  pub delay_seconds : ℕ

pub record StepDefinition : Type 0 where
  pub id : String
  pub type : StepType
  pub config : Fields
  pub depends_on : List String
  pub retry : Option RetryConfig

pub record WorkflowDefinition : Type 0 where
  pub name : String
  pub trigger_type : String
  pub steps : List StepDefinition
  pub dependency_graph : Dict String (List String)

-- `StepType.value`
abbrev pub type_value : StepType → String
type_value http = "http"
type_value transform = "transform"
type_value condition = "condition"
type_value delay = "delay"
type_value sub_workflow = "sub_workflow"

-- `step_def.type == StepType.CONDITION`
abbrev pub is_condition : StepType → Bool
is_condition condition = true
is_condition _ = false
