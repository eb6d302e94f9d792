-- ===== src/Engine/Orchestrator/Ends.antt =====
-- How `_execute_dag` of src/engine/orchestrator.py ends: what the statuses of the execution and
-- of its steps are when it returns.
use workflow_automation_engi.Engine.Orchestrator.Frame.{step_row, execution_status, status_of}
use workflow_automation_engi.Prelude.{
  Fields, All, contains, Exception, Result, Dict, get, ℕ, String, ◌≡◌, sym, ap, ◌∙◌, ◌≢◌, ◌⊎◌, inl,
  inr, true, none, some, List, [], ◌∷◌, ok, err, nat_key, string_key, Bool-cases, get-put_self,
  refl, arith, eq_iff,
}
use workflow_automation_engi.Engine.Models.{StepDefinition}
use workflow_automation_engi.Engine.Context.{StepInput}
use workflow_automation_engi.Engine.Session.{◌>>=◌, Env, Session, Action, pure}
use workflow_automation_engi.Engine.Orchestrator.{visit_step, walk, step_defs_of, execute_dag}
use workflow_automation_engi.Engine.Orchestrator.Attempt.{KeepsRows, transition_moves}
use workflow_automation_engi.Engine.State.Diagram.{
  validate_step_transition_iff, validate_execution_transition_iff,
}
use workflow_automation_engi.Engine.Orchestrator.Rounds.{visit_step-step, walk-step}
use workflow_automation_engi.Engine.State.{stamp_execution, transition_execution}
use workflow_automation_engi.Engine.State.Effects.{transition_done}
use workflow_automation_engi.Engine.Orchestrator.Visit.{
  HasStatus, Settled, Pending, Settled-later, Unresolved, running-row, VisitEnds, run-VisitEnds,
}
use workflow_automation_engi.Engine.Graph.{topological_sort}

contains_first :
    (step_id : String) (order : List String) → contains step_id (step_id ∷ order) ≡ true
contains_first step_id order = ground (arith, eq_iff step_id step_id)

contains_rest :
    (next_id step_id : String) (order : List String)
    → contains next_id order ≡ true
    → contains next_id (step_id ∷ order) ≡ true
contains_rest next_id step_id order h = ground arith

module _ (env : Env) (run_step : StepDefinition → StepInput → Action Fields) (execution_id : ℕ)
    (step_defs : Dict String StepDefinition) (step_map : Dict String ℕ) where
  -- The steps ahead are pending rows of their own, which an executor leaves alone.
  abbrev pub Ready : List String → Session → Type 0
  Ready [] s = Unit
  Ready (step_id ∷ order) s =
      (id : ℕ) × (step_def : StepDefinition) × (get step_id step_map ≡ some id)
      × (get step_id step_defs ≡ some step_def)
      × KeepsRows run_step id execution_id
      × Pending id s
      × All (λ next_id. get next_id step_map ≢ some id) order
      × Ready order s

  abbrev pub Raised : List String → Exception → Type 0
  Raised order x =
      (step_id : String) × (step_def : StepDefinition) × (contains step_id order ≡ true)
      × (get step_id step_defs ≡ some step_def)
      × Unresolved env run_step execution_id step_def x

  abbrev pub Failed : List String → Session → Type 0
  Failed order s =
      (step_id : String) × (id : ℕ) × (contains step_id order ≡ true)
      × (get step_id step_map ≡ some id)
      × HasStatus id "failed" s

  abbrev pub Finished : List String → Session → Type 0
  Finished [] s = Unit
  Finished (step_id ∷ order) s =
      ((id : ℕ) × (get step_id step_map ≡ some id) × Settled id s) × Finished order s

  abbrev pub DagEnds : List String → Result (Unit {0}) × Session → Type 0
  DagEnds order out =
      (out.0 ≡ ok tt)
        × (execution_status execution_id out.1 ≡ some "completed")
        × Finished order out.1
      ⊎ (out.0 ≡ ok tt) × (execution_status execution_id out.1 ≡ some "failed") × Failed order out.1
      ⊎ ((x : Exception) × (out.0 ≡ err x) × Raised order x)

  Ready-later :
      (id : ℕ) (order : List String) (s s' : Session)
      → ((j : ℕ) → id ≢ j → KeepsRows run_step j execution_id → step_row j s' ≡ step_row j s)
      → All (λ next_id. get next_id step_map ≢ some id) order
      → Ready order s
      → Ready order s'
  Ready-later id [] s s' same apart ready = tt
  Ready-later id (step_id ∷ order) s s' same apart
        (j, step_def, mapped, defined, keeps, (row, found, status, attempts), alone, ready) =
      let differ : id ≢ j = λ eq. apart.0 (mapped ∙ ap some (sym eq)) in
      (
        j,
        step_def,
        mapped,
        defined,
        keeps,
        (row, same j differ keeps ∙ found, status, attempts),
        alone,
        Ready-later id order s s' same apart.1 ready,
      )

  visit-VisitEnds :
      (step_def : StepDefinition) (id : ℕ)
      → KeepsRows run_step id execution_id
      → (skipped : List String) (s : Session) → execution_status execution_id s ≡ some "running"
      → Pending id s
      → (step_id : String) → get step_id step_defs ≡ some step_def
      → get step_id step_map ≡ some id
      → VisitEnds env run_step execution_id step_def id
          (visit_step env run_step execution_id step_defs step_map skipped step_id s)
  unfolding visit_step
  visit-VisitEnds step_def id keeps skipped s running pending step_id defined mapped =
      elim (Bool-cases (contains step_id skipped)) [
        | inl skip ↦
            let (row, found, status, _) = pending in
            let m = transition_moves env id "skipped" none row s found (
              (validate_step_transition_iff row.status "skipped").1
                (inr (inr (inr (inr (inr (inl (status, refl)))))))) in
            rw (defined, mapped, skip, m.made)
              (inl (
                skipped,
                refl,
                ap (λ rows. status_of (get execution_id rows)) m.kept ∙ running,
                inr (m.row', m.stored, m.status),
              ))
        | inr run ↦
            rw (defined, mapped, run)
              (run-VisitEnds env run_step execution_id step_def id keeps skipped s running pending)
      ]

  -- A settled step before the rest of the order.
  DagEnds-cons :
      (step_id : String) (id : ℕ) (order : List String) (out : Result (Unit {0}) × Session)
      → get step_id step_map ≡ some id
      → Settled id out.1
      → DagEnds order out
      → DagEnds (step_id ∷ order) out
  DagEnds-cons step_id id order out mapped settled (inl (returned, completed, finished)) =
      inl (returned, completed, ((id, mapped, settled), finished))
  DagEnds-cons step_id id order out mapped settled
        (inr (inl (returned, failed, (next_id, j, there, mapped', row)))) =
      inr (
        inl
          (returned, failed, (next_id, j, contains_rest next_id step_id order there, mapped', row)))
  DagEnds-cons step_id id order out mapped settled
        (inr (inr (x, raised, (next_id, step_def, there, defined, unresolved)))) =
      inr (
        inr (
          x,
          raised,
          (next_id, step_def, contains_rest next_id step_id order there, defined, unresolved),
        ))

  complete-DagEnds :
      (s : Session)
      → execution_status execution_id s ≡ some "running"
      → DagEnds [] ((transition_execution env execution_id "completed" >>= λ _. pure tt) s)
  unfolding stamp_execution
  complete-DagEnds s running =
      let (row, found, status) = running-row env run_step execution_id s running in
      let done = transition_done env execution_id "completed" s found (
        (validate_execution_transition_iff row.status "completed").1
          (inr (inr (inl (status, refl))))) in
      rw done (inl (refl, ap status_of (get-put_self execution_id _ s.executions), tt))

  pub walk-DagEnds :
      (order skipped : List String) (s : Session)
      → execution_status execution_id s ≡ some "running"
      → Ready order s
      → DagEnds order (walk env run_step execution_id step_defs step_map order skipped s)
  unfolding walk
  walk-DagEnds [] skipped s running ready = complete-DagEnds s running
  walk-DagEnds (step_id ∷ order) skipped s running
        (id, step_def, mapped, defined, keeps, pending, alone, ready) =
      let out = visit_step env run_step execution_id step_defs step_map skipped step_id s in
      let ready' : Ready order out.1 =
        Ready-later id order s out.1
          (λ j apart keeps'.
            (visit_step-step env run_step execution_id j keeps' step_defs step_map skipped step_id
                (λ same. apart (let e : some id ≡ some j = sym mapped ∙ same in cc))).at
              s)
          alone ready in
      elim (visit-VisitEnds step_def id keeps skipped s running pending step_id defined mapped) [
        | inl (skipped', went, running', settled) ↦ rw went (
            DagEnds-cons step_id id order
              (walk env run_step execution_id step_defs step_map order skipped' out.1) mapped
              (Settled-later id out.1
                (walk env run_step execution_id step_defs step_map order skipped' out.1).1
                ((walk-step env run_step execution_id id keeps step_defs step_map order skipped'
                    alone).at
                  out.1)
                settled)
              (walk-DagEnds order skipped' out.1 running' ready'))
        | inr (inl (went, failed, row)) ↦
            rw went
              (inr (inl (refl, failed, (step_id, id, contains_first step_id order, mapped, row))))
        | inr (inr (x, went, unresolved)) ↦ rw went (
            inr (
              inr
                (x, refl, (step_id, step_def, contains_first step_id order, defined, unresolved))))
      ]

-- Run on a running execution whose steps stand ahead in pending rows of their own, with at least
-- one attempt each and executors that leave those rows and that of the execution alone, the whole
-- run ends in one of three ways. It returns with the execution completed and every step completed
-- or skipped; or it returns with the execution failed and a step of the order failed; or it raises
-- what the branches of a condition of the workflow raise when they are read.
pub execute_dag-DagEnds :
    (env : Env) (run_step : StepDefinition → StepInput → Action Fields) (execution_id : ℕ)
    (steps : List StepDefinition) (step_map : Dict String ℕ) (s : Session)
    → execution_status execution_id s ≡ some "running"
    → Ready env run_step execution_id (step_defs_of steps) step_map (topological_sort steps) s
    → DagEnds env run_step execution_id
        (step_defs_of steps)
        step_map
        (topological_sort steps)
        (execute_dag env run_step execution_id steps step_map s)
unfolding execute_dag
execute_dag-DagEnds env run_step execution_id steps step_map s running ready =
    walk-DagEnds env run_step execution_id (step_defs_of steps) step_map (topological_sort steps) []
      s running ready
