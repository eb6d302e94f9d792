-- ===== src/Engine/Parser/Ordered.antt =====
-- In which order src/engine/orchestrator.py runs the steps of a workflow that src/engine/parser.py
-- accepted.
use mathlib.Core.List.{append_assoc, append-nil}
use workflow_automation_engi.Prelude.{
  get, put, String, ◌≡◌, refl, ok, sym, ◌∙◌, List, [], ◌∷◌, ◌++◌, arith, map, All, contains, count,
  true, false, none, eq_iff, IsKeyed, if◌then◌else◌, string_key, ◌==◌, get-put, ap, ◌||◌,
}
use workflow_automation_engi.Engine.Models.{StepDefinition, WorkflowDefinition}
use workflow_automation_engi.Engine.Parser.{ParserEnv, RawWorkflow, parse_workflow_definition}
use workflow_automation_engi.Engine.Parser.Checks.{
  AreUnique, AreKnown, parse_workflow_definition-IsSound,
}
use workflow_automation_engi.Engine.Graph.{
  Graph, get_list, build_dependency_graph, topological_sort,
}
use workflow_automation_engi.Engine.Graph.Linked.{is_node}
use workflow_automation_engi.Engine.Graph.Order.{
  AllIn, graph_of, topological_sort_order, topological_sort_complete,
}
use workflow_automation_engi.Engine.Cycles.{detect_cycles}
use workflow_automation_engi.Engine.Cycles.Rank.{detect_cycles-IsRank}

abbrev pub ids : List StepDefinition → List String
ids steps = map (λ s. s.id) steps

get-graph_of_seen :
    (k : String) (seen : List String) (steps : List StepDefinition)
    → AreUnique seen steps
    → contains k seen ≡ true
    → get k (graph_of steps) ≡ none
unfolding get
get-graph_of_seen k seen [] unique h = refl
get-graph_of_seen k seen (s ∷ steps) unique h =
    ground (arith, eq_iff s.id k, unique.0, get-graph_of_seen k (s.id ∷ seen) steps unique.1)

IsKeyed-graph_of :
    (seen : List String) (steps : List StepDefinition)
    → AreUnique seen steps
    → IsKeyed (graph_of steps)
IsKeyed-graph_of seen [] unique = tt
IsKeyed-graph_of seen (s ∷ steps) unique = (
  get-graph_of_seen s.id (s.id ∷ seen) steps unique.1 (ground (arith, eq_iff s.id s.id)),
  IsKeyed-graph_of (s.id ∷ seen) steps unique.1,
)

put-new : (k : String) (v : List String) (d : Graph) → get k d ≡ none → put k v d ≡ d ++ (k, v) ∷ []
unfolding put get
put-new k v [] h = refl
put-new k v ((j, w) ∷ d) h = ground (arith, put-new k v d)

-- With different ids the dictionary of the parser is the list of the steps' dependencies.
build-graph_of :
    (seen : List String) (steps : List StepDefinition) (graph : Graph)
    → AreUnique seen steps
    → ((k : String) → contains k seen ≡ false → get k graph ≡ none)
    → build_dependency_graph steps graph ≡ graph ++ graph_of steps
unfolding build_dependency_graph
build-graph_of seen [] graph unique fresh = sym (append-nil graph)
build-graph_of seen (s ∷ steps) graph unique fresh =
    let added = put-new s.id s.depends_on graph (fresh s.id unique.0) in
    build-graph_of (s.id ∷ seen) steps (put s.id s.depends_on graph) unique.1
      (λ k h. ground (arith, fresh k, get-put s.id k s.depends_on graph))
    ∙ rw (added, append_assoc) refl

is_node-graph_of :
    (k : String) (steps : List StepDefinition) → is_node k (graph_of steps) ≡ contains k (ids steps)
is_node-graph_of k [] = refl
is_node-graph_of k (s ∷ steps) = ap (λ b. s.id == k || b) (is_node-graph_of k steps)

contains-All :
    (d : String) (all_ids deps : List String)
    → All (λ x. contains x all_ids ≡ true) deps
    → contains d deps ≡ true
    → contains d all_ids ≡ true
contains-All d all_ids [] all h = absurd (cc h)
contains-All d all_ids (x ∷ deps) all h =
    ground (arith, eq_iff x d, all.0, contains-All d all_ids deps all.1)

known-graph_of :
    (all_ids : List String) (steps : List StepDefinition) (c d : String)
    → AreKnown all_ids steps
    → contains d (get_list c (graph_of steps)) ≡ true
    → contains d all_ids ≡ true
unfolding get
known-graph_of all_ids [] c d known h = absurd (cc h)
known-graph_of all_ids (s ∷ steps) c d known h =
    ground
      (arith, contains-All d all_ids s.depends_on known.0, known-graph_of all_ids steps c d known.1)

-- The steps of an accepted workflow are run in an order that holds each of them exactly once and
-- nothing else, each behind all its dependencies.
pub parse-topological_sort :
    (env : ParserEnv) (raw : RawWorkflow) (wf : WorkflowDefinition)
    → parse_workflow_definition env raw ≡ ok wf
    → ((id : String)
        → count id (topological_sort wf.steps) ≡ (if contains id (ids wf.steps) then 1 else 0))
      × ((before after : List String) (id : String)
          → topological_sort wf.steps ≡ before ++ id ∷ after
          → AllIn before (get_list id wf.dependency_graph))
unfolding get
parse-topological_sort env raw wf accepted =
    let sound = parse_workflow_definition-IsSound env raw wf accepted in
    let steps = wf.steps in
    let keyed = IsKeyed-graph_of [] steps sound.unique in
    let built : build_dependency_graph steps [] ≡ graph_of steps =
      build-graph_of [] steps [] sound.unique (λ k h. refl) in
    let same : wf.dependency_graph ≡ graph_of steps = sound.graph_of_steps ∙ built in
    let searched : detect_cycles (graph_of steps) ≡ ok tt = rw same at sound.searched in
    let (rank, ranked) =
      detect_cycles-IsRank (graph_of steps) keyed
        (λ c d h. is_node-graph_of d steps ∙ known-graph_of (ids steps) steps c d sound.known h)
        searched in
    (
      λ id. rw (← is_node-graph_of id steps) (topological_sort_complete steps rank keyed ranked id),
      λ before after id split.
          rw same ((topological_sort_order steps keyed).1 before after id split),
    )
