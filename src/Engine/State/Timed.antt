-- ===== src/Engine/State/Timed.antt =====
-- How the times of an execution go with its status, where `transition_execution` of
-- src/engine/state.py is what changes them.
use workflow_automation_engi.Prelude.{
  Option, Bool, ◌≡◌, ℕ, false, String, get, ◌⊎◌, some, true, Option-cases, nat_key, if◌then◌else◌,
  ◌==◌, Result-cases, ◌<◌, inl, inr, none, arith, eq_iff, string_key, str_eq, refl, ◌↔◌, Everywhere,
  Everywhere-put,
}
use workflow_automation_engi.Engine.Session.{Execution, Env, Session}
use workflow_automation_engi.Engine.State.{
  stamp_execution, transition_execution, validate_execution_transition,
}
use workflow_automation_engi.Engine.State.Diagram.{ExecutionEdge, validate_execution_transition_iff}
use workflow_automation_engi.Engine.State.Effects.{
  transition_missing, transition_done, transition_refused,
}

-- How far an execution has come.
abbrev pub progress : String → ℕ
progress status = if status == "pending" then 0 else if status == "running" then 1 else 2

abbrev pub is_some {ℓ} : {A : Type ℓ} → Option A → Bool
is_some none = false
is_some (some a) = true

-- What the three times of a row hold in each status.
abbrev pub IsTimed : Execution → Type 0
IsTimed row =
    (row.status ≡ "pending")
      × (is_some row.started_at ≡ false)
      × (is_some row.completed_at ≡ false)
      × (is_some row.duration_ms ≡ false)
    ⊎ (row.status ≡ "running")
      × (is_some row.started_at ≡ true)
      × (is_some row.completed_at ≡ false)
      × (is_some row.duration_ms ≡ false)
    ⊎ (progress row.status ≡ 2)
      × (is_some row.completed_at ≡ true)
      × (is_some row.duration_ms ≡ is_some row.started_at)

status_facts :
    (s : String)
    → ((str_eq s "pending" ≡ true) ↔ (s ≡ "pending"))
      × ((str_eq s "running" ≡ true) ↔ (s ≡ "running"))
      × (str_eq "running" "pending" ≡ false)
      × (str_eq "pending" "running" ≡ false)
status_facts s = (eq_iff s "pending", eq_iff s "running", refl, refl)

module _ (env : Env) (now : ℕ) (new : String) (row : Execution) where
  stamp-IsTimed :
      IsTimed row → ExecutionEdge row.status new → IsTimed (stamp_execution env new now row)
  unfolding stamp_execution
  stamp-IsTimed t (inl (a, b)) = rw b (ground (arith, status_facts row.status))
  stamp-IsTimed t (inr (inl (a, b))) = rw b (ground (arith, status_facts row.status))
  stamp-IsTimed t (inr (inr (inl (a, b)))) = rw b (ground (arith, status_facts row.status))
  stamp-IsTimed t (inr (inr (inr (inl (a, b))))) = rw b (ground (arith, status_facts row.status))
  stamp-IsTimed t (inr (inr (inr (inr (a, b))))) = rw b (ground (arith, status_facts row.status))

  pub progress-stamp :
      ExecutionEdge row.status new
      → progress row.status < progress (stamp_execution env new now row).status
  unfolding stamp_execution
  progress-stamp (inl (a, b)) = rw (a, b) (omega arith)
  progress-stamp (inr (inl (a, b))) = rw (a, b) (omega arith)
  progress-stamp (inr (inr (inl (a, b)))) = rw (a, b) (omega arith)
  progress-stamp (inr (inr (inr (inl (a, b))))) = rw (a, b) (omega arith)
  progress-stamp (inr (inr (inr (inr (a, b))))) = rw (a, b) (omega arith)

-- Every execution of the session is timed.
abbrev pub AllTimed : Session → Type 0
AllTimed s = Everywhere IsTimed s.executions

module _ (env : Env) (id : ℕ) (new : String) (s : Session) where
  -- A transition, successful or refused, leaves every execution of the session timed.
  pub transition_execution-IsTimed : AllTimed s → AllTimed (transition_execution env id new s).1
  transition_execution-IsTimed all = elim (Option-cases (get id s.executions)) [
    | inl missing ↦ rw (transition_missing env id new s missing) all
    | inr (row, found) ↦ elim (Result-cases (validate_execution_transition row.status new)) [
      | inl valid ↦ rw (transition_done env id new s found valid) (
          Everywhere-put IsTimed id _ s.executions all (
            stamp-IsTimed env _ new row (all id row found)
              ((validate_execution_transition_iff row.status new).0 valid)))
      | inr (x, refused) ↦ rw (transition_refused env id new s found refused) all
    ]
  ]
