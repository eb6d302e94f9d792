-- ===== src/Engine/State.antt =====
-- src/engine/state.py: which changes of status are legal, and how they are stored.
pub mod Diagram
pub mod Effects
pub mod Timed
pub mod Lifecycle
use workflow_automation_engi.Prelude.{
  ℕ, String, ◌==◌, if◌then◌else◌, ◌||◌, not, Option, none, some, List, [], ◌∷◌, Dict, get, contains,
  Message, part, Result, ok, raise, raise_f, guard, ℤ, Bool, string_key, false, nat_key,
}
use workflow_automation_engi.Engine.Session.{
  Env, Execution, StepExecution, Action, pure, lift, gets, ◌>>=◌, ◌>>◌, or_raise, save_execution,
  save_step, utc_now,
}

abbrev pub allowed_execution_transitions : Dict String (List String)
allowed_execution_transitions =
    ("pending", "running" ∷ "cancelled" ∷ [])
    ∷ ("running", "completed" ∷ "failed" ∷ "cancelled" ∷ [])
    ∷ ("completed", [])
    ∷ ("failed", [])
    ∷ ("cancelled", [])
    ∷ []

abbrev pub allowed_step_transitions : Dict String (List String)
allowed_step_transitions =
    ("pending", "queued" ∷ "skipped" ∷ [])
    ∷ ("queued", "running" ∷ "skipped" ∷ [])
    ∷ ("running", "completed" ∷ "failed" ∷ "skipped" ∷ [])
    ∷ ("completed", [])
    ∷ ("failed", "queued" ∷ [])
    ∷ ("skipped", [])
    ∷ []

-- `allowed is None or new_status not in allowed`
permits : Option (List String) → String → Bool
permits none new_status = false
permits (some allowed) new_status = contains new_status allowed

unfoldable pub validate_execution_transition : String → String → Result (Unit {0})
unfolding permits get
validate_execution_transition current_status new_status =
    guard (permits (get current_status allowed_execution_transitions) new_status) (
      raise_f "INVALID_TRANSITION"
        (part "Invalid execution transition: '"
          ∷ part current_status
          ∷ part "' -> '"
          ∷ part new_status
          ∷ part "'"
          ∷ [])
        409)

unfoldable pub validate_step_transition : String → String → Result (Unit {0})
unfolding permits get
validate_step_transition current_status new_status =
    guard (permits (get current_status allowed_step_transitions) new_status) (
      raise_f "INVALID_TRANSITION"
        (part "Invalid step transition: '"
          ∷ part current_status
          ∷ part "' -> '"
          ∷ part new_status
          ∷ part "'"
          ∷ [])
        409)

-- `if started_at: duration_ms = ...`
timed : Env → Option ℕ → ℕ → Option ℤ → Option ℤ
timed env none now duration_ms = duration_ms
timed env (some started) now duration_ms = some (env.elapsed_ms started now)

-- The row after the new status and its times are set.
unfoldable pub stamp_execution : Env → String → ℕ → Execution → Execution
unfolding timed
stamp_execution env new_status now ex =
    if new_status == "running"
    then record ex { status = new_status; started_at = some now }
    else if contains new_status ("completed" ∷ "failed" ∷ "cancelled" ∷ [])
    then record ex {
      status = new_status;
      completed_at = some now;
      duration_ms = timed env ex.started_at now ex.duration_ms;
    }
    else record ex { status = new_status }

-- `if error is not None: step_exec.error = error`
or_keep : Option Message → Option Message → Option Message
or_keep none old = old
or_keep (some message) old = some message

unfoldable pub stamp_step : Env → String → ℕ → Option Message → StepExecution → StepExecution
unfolding timed or_keep
stamp_step env new_status now error se =
    if new_status == "running"
    then record se { status = new_status; started_at = some now; error = or_keep error se.error }
    else if contains new_status ("completed" ∷ "failed" ∷ [])
    then record se {
      status = new_status;
      completed_at = some now;
      duration_ms = timed env se.started_at now se.duration_ms;
      error = or_keep error se.error;
    }
    else record se { status = new_status; error = or_keep error se.error }

abbrev pub execution_not_found : {A : Type 0} → Result A
execution_not_found = raise "NOT_FOUND" "Execution not found." 404

abbrev pub step_not_found : {A : Type 0} → Result A
step_not_found = raise "NOT_FOUND" "Step execution not found." 404

module _ (env : Env) where
  unfoldable pub transition_execution : ℕ → String → Action Execution
  unfolding save_execution utc_now
  transition_execution execution_id new_status = do
    found ← gets (λ s. get execution_id s.executions)
    execution ← lift (or_raise found execution_not_found)
    lift (validate_execution_transition execution.status new_status)
    now ← utc_now env
    let updated = stamp_execution env new_status now execution
    save_execution execution_id updated
    pure updated

  unfoldable pub transition_step : ℕ → String → Option Message → Action StepExecution
  unfolding save_step utc_now
  transition_step step_execution_id new_status error = do
    found ← gets (λ s. get step_execution_id s.step_executions)
    step_exec ← lift (or_raise found step_not_found)
    lift (validate_step_transition step_exec.status new_status)
    now ← utc_now env
    let updated = stamp_step env new_status now error step_exec
    save_step step_execution_id updated
    pure updated
