-- ===== src/Engine/Tests/Cycles.antt =====
-- An example for `detect_cycles` of src/engine/graph.py.
use workflow_automation_engi.Engine.Cycles.{detect_cycles}
use workflow_automation_engi.Engine.Cycles.Decides.{detect_cycles_iff}
use workflow_automation_engi.Engine.Graph.Order.{graph_of, IsRank}
use workflow_automation_engi.Engine.Graph.{get_list}
use workflow_automation_engi.Engine.Graph.Linked.{is_node}
use workflow_automation_engi.Engine.Tests.Parsing.{test_workflow, test_IsKeyed}
use workflow_automation_engi.Prelude.{
  String, ℕ, ◌≡◌, contains, true, ok, arith, eq_iff, get, string_key, ◌↔◌,
}

known :
    (c d : String)
    → contains d (get_list c (graph_of test_workflow.steps)) ≡ true
    → is_node d (graph_of test_workflow.steps) ≡ true
unfolding get
known c d h = ground (arith, eq_iff "load" c, eq_iff "save" c, eq_iff "load" d, eq_iff "save" d)

detect_cycles_iff_example :
    (detect_cycles (graph_of test_workflow.steps) ≡ ok tt)
    ↔ ((rank : String → ℕ) × IsRank (graph_of test_workflow.steps) rank)
detect_cycles_iff_example = detect_cycles_iff (graph_of test_workflow.steps) test_IsKeyed known
