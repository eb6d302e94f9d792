-- ===== src/Engine/Tests/States.antt =====
-- Examples for src/engine/state.py.
use workflow_automation_engi.Prelude.{
  String, ◌≡◌, refl, ◌↔◌, ◌+◌, ◌≤◌, inl, ok, [], ◌∷◌, get, put, nat_key, length, Everywhere-put,
  Everywhere, some, ℕ,
}
use workflow_automation_engi.Engine.State.{
  validate_execution_transition, validate_step_transition, transition_execution, stamp_execution,
}
use workflow_automation_engi.Engine.State.Diagram.{
  ExecutionEdge, StepEdge, validate_transitions_iff,
}
use workflow_automation_engi.Engine.State.Timed.{
  AllTimed, IsTimed, transition_execution-IsTimed, progress,
}
use workflow_automation_engi.Engine.State.Lifecycle.{Accepts, transitions_le_two}
use workflow_automation_engi.Engine.Tests.{test_env, test_execution, test_session}

validate_transitions_iff_example :
    ((validate_execution_transition "failed" "queued" ≡ ok tt) ↔ ExecutionEdge "failed" "queued")
    × ((validate_step_transition "failed" "queued" ≡ ok tt) ↔ StepEdge "failed" "queued")
validate_transitions_iff_example = validate_transitions_iff "failed" "queued"

nothing_there : Everywhere {K = ℕ} IsTimed []
unfolding get
nothing_there j v h = absurd (cc h)

pending_IsTimed : AllTimed test_session
unfolding put
pending_IsTimed =
    Everywhere-put IsTimed 7 (test_execution "pending") [] nothing_there
      (inl (refl, refl, refl, refl))

transition_execution-IsTimed_example :
    AllTimed (transition_execution test_env 7 "running" test_session).1
transition_execution-IsTimed_example =
    transition_execution-IsTimed test_env 7 "running" test_session pending_IsTimed

accepted : Accepts test_env 7 ("running" ∷ "completed" ∷ []) test_session
unfolding transition_execution validate_execution_transition stamp_execution get put
accepted = (refl, (refl, tt))

found : get 7 test_session.executions ≡ some (test_execution "pending")
unfolding get
found = refl

transitions_le_two_example :
    length {A = String} ("running" ∷ "completed" ∷ []) + progress "pending" ≤ 2
transitions_le_two_example =
    transitions_le_two test_env 7 ("running" ∷ "completed" ∷ []) test_session
      (test_execution "pending") found accepted
