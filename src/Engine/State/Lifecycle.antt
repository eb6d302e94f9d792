-- ===== src/Engine/State/Lifecycle.antt =====
-- How many transitions of src/engine/state.py an execution can make.
use workflow_automation_engi.Engine.State.Effects.{transition_refused, transition_done}
use workflow_automation_engi.Engine.State.Timed.{progress, progress-stamp}
use workflow_automation_engi.Prelude.{
  length, Result-cases, is_ok, get, ℕ, ◌+◌, ◌≤◌, String, ◌≡◌, inl, inr, true, some, List, [], ◌∷◌,
  arith, nat_key, get-put_self,
}
use workflow_automation_engi.Engine.Session.{Env, Session, Execution}
use workflow_automation_engi.Engine.State.{
  transition_execution, validate_execution_transition, stamp_execution,
}
use workflow_automation_engi.Engine.State.Diagram.{validate_execution_transition_iff}

module _ (env : Env) (id : ℕ) where
  -- Each of the statuses is asked for in turn, and none is refused.
  abbrev pub Accepts : List String → Session → Type 0
  Accepts [] s = Unit
  Accepts (new ∷ rest) s =
      (is_ok (transition_execution env id new s).0 ≡ true)
      × Accepts rest (transition_execution env id new s).1

  progress_le : (status : String) → progress status ≤ 2
  progress_le status = ground arith

  -- An execution makes at most two transitions, one if it is running, and none once it has ended.
  pub transitions_le_two :
      (news : List String) (s : Session) (row : Execution)
      → get id s.executions ≡ some row
      → Accepts news s
      → length news + progress row.status ≤ 2
  transitions_le_two [] s row found accepted = omega (arith, progress_le row.status)
  transitions_le_two (new ∷ rest) s row found accepted =
      elim (Result-cases (validate_execution_transition row.status new)) [
        | inl valid ↦
            let now = env.time_at s.clock_reads in
            let later =
              transitions_le_two rest _ (stamp_execution env new now row)
                (get-put_self id (stamp_execution env new now row) s.executions)
                (rw (transition_done env id new s found valid) at accepted.1) in
            omega (
              arith,
              later,
              progress-stamp env now new row
                  ((validate_execution_transition_iff row.status new).0 valid),
            )
        | inr (x, refused) ↦ cc (rw (transition_refused env id new s found refused) at accepted.0)
      ]
