-- ===== src/Services/Detail.antt =====
-- What src/api/executions.py shows of a single execution: `get_execution`, the event stream, and
-- the answers of src/api/execution_models.py. The column created_at of a row, which the database
-- fills in and the engine does not read, is given by the row's id.
use workflow_automation_engi.Engine.Session.{Session, Execution, StepExecution, or_raise}
use workflow_automation_engi.Services.{owned_execution}
use workflow_automation_engi.Services.Logs.{ExecutionLog, get_execution_logs}
use workflow_automation_engi.Prelude.{
  ◌>>=◌, ℕ, String, Option, none, some, Fields, Message, ℤ, Result, Dict, List, [], ◌∷◌, raise,
  Bool, ok, if◌then◌else◌, ◌==◌, map, nat_key, string_key,
}

pub record ExecutionResponse : Type 0 where
  pub id : ℕ
  pub workflow_id : ℕ
  pub status : String
  pub trigger_data : Fields
  pub error : Option Message
  pub started_at : Option ℕ
  pub completed_at : Option ℕ
  pub duration_ms : Option ℤ
  pub created_at : ℕ

pub record StepExecutionResponse : Type 0 where
  pub id : ℕ
  pub step_id : String
  pub step_type : String
  pub status : String
  pub input_data : Fields
  pub output_data : Option Fields
  pub error : Option Message
  pub attempt : ℕ
  pub max_attempts : ℕ
  pub started_at : Option ℕ
  pub completed_at : Option ℕ
  pub duration_ms : Option ℤ
  pub created_at : ℕ

pub record ExecutionLogResponse : Type 0 where
  pub id : ℕ
  pub step_id : Option String
  pub level : String
  pub message : String
  pub data_payload : Fields
  pub created_at : ℕ

pub record ExecutionDetailResponse : Type 0 where
  pub execution : ExecutionResponse
  pub steps : List StepExecutionResponse

unfoldable pub execution_to_response : ℕ → Execution → ExecutionResponse
execution_to_response created_at ex = record {
  id = ex.id;
  workflow_id = ex.workflow_id;
  status = ex.status;
  trigger_data = ex.trigger_data;
  error = ex.error;
  started_at = ex.started_at;
  completed_at = ex.completed_at;
  duration_ms = ex.duration_ms;
  created_at = created_at;
}

unfoldable pub step_execution_to_response : ℕ → StepExecution → StepExecutionResponse
step_execution_to_response created_at se = record {
  id = se.id;
  step_id = se.step_id;
  step_type = se.step_type;
  status = se.status;
  input_data = se.input_data;
  output_data = se.output_data;
  error = se.error;
  attempt = se.attempt;
  max_attempts = se.max_attempts;
  started_at = se.started_at;
  completed_at = se.completed_at;
  duration_ms = se.duration_ms;
  created_at = created_at;
}

unfoldable pub execution_log_to_response : ExecutionLog → ExecutionLogResponse
execution_log_to_response log = record {
  id = log.id;
  step_id = log.step_id;
  level = log.level;
  message = log.message;
  data_payload = log.data_payload;
  created_at = log.created_at;
}

-- The answer of the request for the logs
unfoldable pub logs_response :
    ℕ → ℕ → Option String → Session → List ExecutionLog → Result (List ExecutionLogResponse)
unfolding execution_log_to_response
logs_response execution_id tenant_id step_id s logs = do
  found ← get_execution_logs execution_id tenant_id step_id s logs
  ok (map execution_log_to_response found)

module _ (execution_created_at step_created_at : ℕ → ℕ) where
  -- [step_execution_to_response(se) for se in execution.step_executions]
  unfoldable pub step_responses : ℕ → Dict ℕ StepExecution → List StepExecutionResponse
  unfolding step_execution_to_response
  step_responses execution_id [] = []
  step_responses execution_id ((id, se) ∷ rows) =
      let rest = step_responses execution_id rows in
      if se.execution_id == execution_id
      then step_execution_to_response (step_created_at se.id) se ∷ rest
      else rest

  unfoldable pub get_execution : ℕ → ℕ → Session → Result ExecutionDetailResponse
  unfolding execution_to_response step_responses
  get_execution execution_id tenant_id s = do
    execution ←
        or_raise (owned_execution execution_id tenant_id s.executions)
          (raise "NOT_FOUND" "Execution not found." 404)
    ok (record {
      execution = execution_to_response (execution_created_at execution.id) execution;
      steps = step_responses execution_id s.step_executions;
    })

-- A message of the Redis channel
pub record ChannelMessage : Type 0 where
  pub type : String
  pub payload : String

-- A round of the stream: what `get_message` gives, and whether the client is gone.
pub record Poll : Type 0 where
  pub msg : Option ChannelMessage
  pub disconnected : Bool

-- An event that is sent: {"type": "connected", "execution_id", "status"}, or a message's data.
pub data Event : Type 0 where
  connected : ℕ → String → Event
  forwarded : String → Event

-- if msg and msg["type"] == "message": yield
unfoldable pub forward : Option ChannelMessage → List Event → List Event
forward none rest = rest
forward (some msg) rest = if msg.type == "message" then forwarded msg.payload ∷ rest else rest

-- The `while True` loop through the rounds that are given
unfoldable pub stream_events : List Poll → List Event
unfolding forward
stream_events [] = []
stream_events (poll ∷ polls) =
    let rest = stream_events polls in forward poll.msg (if poll.disconnected then [] else rest)

-- `event_generator` sends what is subscribed to after the request found the execution.
unfoldable pub stream_execution : ℕ → ℕ → List Poll → Session → Result (List Event)
unfolding stream_events
stream_execution execution_id tenant_id polls s = do
  execution ←
      or_raise (owned_execution execution_id tenant_id s.executions)
        (raise "NOT_FOUND" "Execution not found." 404)
  ok (connected execution_id execution.status ∷ stream_events polls)
