-- ===== src/Handlers/Ended.antt =====
-- What cancelling an ended execution, in src/api/executions.py, is answered with.
use workflow_automation_engi.Handlers.{handle_exception}
use workflow_automation_engi.Engine.Session.{Env, Session, Execution}
use workflow_automation_engi.Engine.State.{validate_execution_transition}
use workflow_automation_engi.Engine.State.Effects.{transition_refused}
use workflow_automation_engi.Services.{cancel_execution}
use workflow_automation_engi.Prelude.{
  ℕ, String, nat_eq_iff, ◌==◌, AppError, Exception, get, ◌≡◌, refl, ◌⊎◌, inl, inr, true, some, [],
  ◌∷◌, err, app_error, part, nat_key,
}

-- The statuses without a way out
abbrev pub HasEnded : String → Type 0
HasEnded status = (status ≡ "completed") ⊎ (status ≡ "failed") ⊎ (status ≡ "cancelled")

-- The refusal
abbrev refusal : String → AppError
refusal status = record {
  code = "INVALID_TRANSITION";
  message =
      part "Invalid execution transition: '"
      ∷ part status
      ∷ part "' -> '"
      ∷ part "cancelled"
      ∷ part "'"
      ∷ [];
  status_code = 409;
}

ended-refused :
    (status : String)
    → HasEnded status
    → validate_execution_transition status "cancelled" ≡ err (app_error (refusal status))
unfolding validate_execution_transition get
ended-refused status (inl h) = rw h refl
ended-refused status (inr (inl h)) = rw h refl
ended-refused status (inr (inr h)) = rw h refl

-- Cancelling an execution of the tenant that has ended raises an error and changes nothing; the
-- client is answered with the status 409 and the code INVALID_TRANSITION.
pub cancel_execution_ended :
    (env : Env) (execution_id tenant_id : ℕ) (execution : Execution) (s : Session)
    → get execution_id s.executions ≡ some execution
    → execution.tenant_id ≡ tenant_id
    → HasEnded execution.status
    → (exc : Exception) × (cancel_execution env execution_id tenant_id s ≡ (err exc, s))
      × ((handle_exception exc).status_code ≡ 409)
      × ((handle_exception exc).error.code ≡ "INVALID_TRANSITION")
unfolding cancel_execution handle_exception
cancel_execution_ended env execution_id tenant_id execution s found own ended =
    let ours : (execution.tenant_id == tenant_id) ≡ true =
      (nat_eq_iff execution.tenant_id tenant_id).1 own in
    let refused =
      transition_refused env execution_id "cancelled" s found
        (ended-refused execution.status ended) in
    (app_error (refusal execution.status), rw (found, ours, refused) refl, refl, refl)
