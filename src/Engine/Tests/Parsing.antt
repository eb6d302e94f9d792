-- ===== src/Engine/Tests/Parsing.antt =====
-- Examples for src/engine/parser.py, with a construction that reads a text as the id of a step
-- and a one-entry object as an id and its dependency.
use workflow_automation_engi.Prelude.{
  String, List, Value, str, obj, field, end, ◌≡◌, refl, ok, none, [], ◌∷◌, keys, get, put,
  if◌then◌else◌, contains, count, ◌++◌, string_key, ◌==◌, IsKeyed, ℕ, arith, eq_iff,
}
use workflow_automation_engi.Engine.Models.{StepDefinition, WorkflowDefinition, transform}
use workflow_automation_engi.Engine.Parser.{
  ParserEnv, RawWorkflow, Construction, constructed, type_error, parse_workflow_definition,
  validate_step_count, parse_steps, validate_unique_ids, validate_step_types, validate_dependencies,
  validate_config_expressions, validate_jinja2_expressions,
}
use workflow_automation_engi.Engine.Parser.Checks.{IsSound, parse_workflow_definition-IsSound}
use workflow_automation_engi.Engine.Graph.{
  build_dependency_graph, link_deps, link_all, zero_degrees, get_list, relax, kahn_loop,
  topological_sort,
}
use workflow_automation_engi.Engine.Cycles.{
  children_of, dfs_children, dfs, dfs_all, detect_cycles, deepen, depth_loop, validate_max_depth,
}
use workflow_automation_engi.Engine.Graph.Order.{AllIn, graph_of, IsRank, topological_sort_complete}
use workflow_automation_engi.Engine.Parser.Ordered.{ids, parse-topological_sort}
use workflow_automation_engi.Engine.Graph.Linked.{is_node}

abbrev pub test_def : String → List String → StepDefinition
test_def id deps = record {
  id = id;
  type = transform;
  config = end;
  depends_on = deps;
  retry = none;
}

abbrev pub test_construct : Value → Construction
test_construct (str id) = constructed (test_def id [])
test_construct (obj (field id (str dep) d)) = constructed (test_def id (dep ∷ []))
test_construct _ = type_error "not a mapping"

abbrev pub test_parser : ParserEnv
test_parser = record {
  construct = test_construct;
  text_of = λ v. "";
  parse_error = λ s. none;
  max_steps_per_workflow = 50;
}

abbrev pub test_raw : RawWorkflow
test_raw = record {
  name = "two steps";
  trigger_type = "manual";
  steps = str "load" ∷ obj (field "save" (str "load") end) ∷ [];
}

abbrev pub test_workflow : WorkflowDefinition
test_workflow = record {
  name = "two steps";
  trigger_type = "manual";
  steps = test_def "load" [] ∷ test_def "save" ("load" ∷ []) ∷ [];
  dependency_graph = ("load", []) ∷ ("save", "load" ∷ []) ∷ [];
}

pub parsed : parse_workflow_definition test_parser test_raw ≡ ok test_workflow
unfolding parse_workflow_definition validate_step_count parse_steps validate_unique_ids
    validate_step_types validate_dependencies validate_jinja2_expressions
    validate_config_expressions build_dependency_graph detect_cycles validate_max_depth dfs dfs_all
    dfs_children children_of link_all link_deps zero_degrees depth_loop deepen keys get put
parsed = refl

parse_workflow_definition-IsSound_example :
    IsSound test_parser test_workflow.steps test_workflow.dependency_graph
parse_workflow_definition-IsSound_example =
    parse_workflow_definition-IsSound test_parser test_raw test_workflow parsed

parse-topological_sort_example :
    ((id : String)
      → count id (topological_sort test_workflow.steps)
        ≡ (if contains id (ids test_workflow.steps) then 1 else 0))
    × ((before after : List String) (id : String)
        → topological_sort test_workflow.steps ≡ before ++ id ∷ after
        → AllIn before (get_list id test_workflow.dependency_graph))
parse-topological_sort_example = parse-topological_sort test_parser test_raw test_workflow parsed

topological_sort-save : topological_sort test_workflow.steps ≡ "load" ∷ "save" ∷ []
unfolding topological_sort link_all link_deps zero_degrees kahn_loop relax get put
topological_sort-save = refl

abbrev test_rank : String → ℕ
test_rank id = if id == "load" then 0 else 1

pub test_IsKeyed : IsKeyed (graph_of test_workflow.steps)
unfolding get
test_IsKeyed = (refl, (refl, tt))

test_IsRank : IsRank (graph_of test_workflow.steps) test_rank
unfolding get
test_IsRank id node = ground (arith, eq_iff "load" id, eq_iff id "load", eq_iff "save" id)

topological_sort_complete_example :
    count "save" (topological_sort test_workflow.steps)
    ≡ (if is_node "save" (graph_of test_workflow.steps) then 1 else 0)
topological_sort_complete_example =
    topological_sort_complete test_workflow.steps test_rank test_IsKeyed test_IsRank "save"
