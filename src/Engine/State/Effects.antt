-- ===== src/Engine/State/Effects.antt =====
-- What `transition_execution` and `transition_step` of src/engine/state.py do to the session.
use workflow_automation_engi.Prelude.{
  ℕ, get, String, ◌≡◌, none, some, Exception, err, nat_key, ok, put, ◌+◌, get, ℕ,
}
use workflow_automation_engi.Engine.Session.{Env, Session, Execution}
use workflow_automation_engi.Engine.State.{
  transition_execution, none, some, execution_not_found, validate_execution_transition, ok,
  stamp_execution,
}

module _ (env : Env) (id : ℕ) (new : String) (s : Session) where
  pub transition_missing :
      get id s.executions ≡ none → transition_execution env id new s ≡ (execution_not_found, s)
  unfolding transition_execution
  transition_missing h = rw h

  module _ {row : Execution} (found : get id s.executions ≡ some row) where
    pub transition_refused :
        {x : Exception}
        → validate_execution_transition row.status new ≡ err x
        → transition_execution env id new s ≡ (err x, s)
    unfolding transition_execution
    transition_refused h = rw (found, h)

    pub transition_done :
        validate_execution_transition row.status new ≡ ok tt
        → transition_execution env id new s ≡ (
          ok (stamp_execution env new (env.time_at s.clock_reads) row),
          record s {
            executions =
                put id (stamp_execution env new (env.time_at s.clock_reads) row) s.executions;
            clock_reads = s.clock_reads + 1;
          },
        )
    unfolding transition_execution
    transition_done h = rw (found, h)
