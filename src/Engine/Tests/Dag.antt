-- ===== src/Engine/Tests/Dag.antt =====
-- An example for the loop of src/engine/orchestrator.py: a workflow of one step that succeeds.
use workflow_automation_engi.Engine.Tests.{test_env, test_execution, test_step}
use workflow_automation_engi.Prelude.{
  Fields, Dict, get, put, ℕ, String, ◌≡◌, refl, none, some, [], ◌∷◌, arith, end, ok,
}
use workflow_automation_engi.Engine.Graph.{topological_sort}
use workflow_automation_engi.Engine.Models.{StepDefinition, http}
use workflow_automation_engi.Engine.Context.{StepInput}
use workflow_automation_engi.Engine.Session.{Session, Action}
use workflow_automation_engi.Engine.Orchestrator.{step_defs_of, execute_dag}
use workflow_automation_engi.Engine.Orchestrator.Frame.{execution_status}
use workflow_automation_engi.Engine.Orchestrator.Attempt.{KeepsRows}
use workflow_automation_engi.Engine.Orchestrator.Ends.{Ready, DagEnds, execute_dag-DagEnds}

abbrev answers : StepDefinition → StepInput → Action Fields
answers step_def context s = (ok end, s)

abbrev fetch : StepDefinition
fetch = record { id = "fetch"; type = http; config = end; depends_on = []; retry = none }

abbrev one_step : Session
one_step = record {
  executions = (7, test_execution "running") ∷ [];
  step_executions = (9, test_step) ∷ [];
  clock_reads = 0;
  uuids = 10;
}

abbrev fetch_map : Dict String ℕ
fetch_map = ("fetch", 9) ∷ []

keeps : KeepsRows answers 9 7
keeps = record { steps = λ d i s. refl; executions = λ d i s. refl }

is_running : execution_status 7 one_step ≡ some "running"
unfolding get
is_running = refl

fetch-Ready :
    Ready test_env answers 7
      (step_defs_of (fetch ∷ []))
      fetch_map
      (topological_sort (fetch ∷ []))
      one_step
unfolding topological_sort get put
fetch-Ready = (9, fetch, refl, refl, keeps, (test_step, refl, refl, omega arith), tt, tt)

execute_dag-DagEnds_example :
    DagEnds test_env answers 7
      (step_defs_of (fetch ∷ []))
      fetch_map
      (topological_sort (fetch ∷ []))
      (execute_dag test_env answers 7 (fetch ∷ []) fetch_map one_step)
execute_dag-DagEnds_example =
    execute_dag-DagEnds test_env answers 7 (fetch ∷ []) fetch_map one_step is_running fetch-Ready
