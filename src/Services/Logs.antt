-- ===== src/Services/Logs.antt =====
-- The log of an execution: `record_execution_log` of src/engine/logging.py, and what
-- src/api/executions.py reads of an execution.
pub mod Recorded
use workflow_automation_engi.Engine.Session.{Session, or_raise}
use workflow_automation_engi.Services.{owned_execution, get_or}
use workflow_automation_engi.Prelude.{
  if◌then◌else◌, ◌==◌, Fields, select, contains, Result, ◌>>=◌, raise, ℕ, String, Bool, true, ◌&&◌,
  Option, none, some, List, [], ◌∷◌, ◌++◌, end, ok, err, other, part, nat_key, string_key, ltb,
  false,
}

-- A row of src/db/models/execution_log.py; `data_payload` is its column `data`.
pub record ExecutionLog : Type 0 where
  pub id : ℕ
  pub tenant_id : ℕ
  pub execution_id : ℕ
  pub step_id : Option String
  pub level : String
  pub message : String
  pub data_payload : Fields
  pub created_at : ℕ

abbrev pub valid_levels : List String
valid_levels = "info" ∷ "warn" ∷ "error" ∷ "debug" ∷ []

abbrev pub new_log : ℕ → ℕ → ℕ → ℕ → String → String → Option String → Option Fields → ExecutionLog
new_log id now tenant_id execution_id level message step_id payload = record {
  id = id;
  tenant_id = tenant_id;
  execution_id = execution_id;
  step_id = step_id;
  level = level;
  message = message;
  data_payload = get_or payload end;
  created_at = now;
}

-- Python's `repr` of a text, and that of the set VALID_LEVELS, whose order it leaves open.
pub record ReprText : Type 0 where
  pub repr : String → String
  pub levels : String

-- The generated id is given, and the time, which is that of the transaction. A refused level writes
-- nothing.
unfoldable pub record_execution_log :
    ReprText
    → ℕ
    → ℕ
    → ℕ
    → ℕ
    → String
    → String
    → Option String
    → Option Fields
    → List ExecutionLog
    → Result ExecutionLog × List ExecutionLog
record_execution_log text id now tenant_id execution_id level message step_id payload logs =
    let entry = new_log id now tenant_id execution_id level message step_id payload in
    if contains level valid_levels then (ok entry, logs ++ entry ∷ []) else (
      err (
          other (
            part "Invalid log level: "
            ∷ part (text.repr level)
            ∷ part ". Must be one of "
            ∷ part text.levels
            ∷ [])),
      logs,
    )

unfoldable pub matches_step : Option String → Option String → Bool
matches_step none step_id = true
matches_step (some wanted) none = false
matches_step (some wanted) (some step_id) = step_id == wanted

-- The rows of the query.
abbrev pub is_log_of : ℕ → ℕ → Option String → ExecutionLog → Bool
unfolding matches_step
is_log_of execution_id tenant_id step_id log =
    log.execution_id == execution_id
    && log.tenant_id == tenant_id
    && matches_step step_id log.step_id

-- ORDER BY created_at. Rows of the same time, whose order the database leaves open, stand as in the
-- table.
unfoldable pub insert_by_time : ExecutionLog → List ExecutionLog → List ExecutionLog
insert_by_time log [] = log ∷ []
insert_by_time log (first ∷ logs) =
    if ltb log.created_at first.created_at
    then log ∷ first ∷ logs
    else first ∷ insert_by_time log logs

unfoldable pub order_by_time : List ExecutionLog → List ExecutionLog → List ExecutionLog
unfolding insert_by_time
order_by_time ordered [] = ordered
order_by_time ordered (log ∷ logs) = order_by_time (insert_by_time log ordered) logs

unfoldable pub get_execution_logs :
    ℕ → ℕ → Option String → Session → List ExecutionLog → Result (List ExecutionLog)
unfolding matches_step order_by_time is_log_of
get_execution_logs execution_id tenant_id step_id s logs =
    or_raise (owned_execution execution_id tenant_id s.executions)
      (raise "NOT_FOUND" "Execution not found." 404)
    >>= λ execution. ok (order_by_time [] (select (is_log_of execution_id tenant_id step_id) logs))
