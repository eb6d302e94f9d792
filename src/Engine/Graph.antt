-- ===== src/Engine/Graph.antt =====
-- src/engine/graph.py, and `_topological_sort` of src/engine/orchestrator.py.
pub mod Degrees
pub mod Linked
pub mod Relax
pub mod Rounds
pub mod Order
use mathlib.Core.Option.{get_or}
use workflow_automation_engi.Prelude.{
  if◌then◌else◌, ◌==◌, length, Dict, get, put, ℕ, zero, suc, ◌+◌, ◌-◌, String, List, [], ◌∷◌, ◌++◌,
  nat_key, string_key, map,
}
use workflow_automation_engi.Engine.Models.{StepDefinition}

abbrev pub Graph : Type 0
Graph = Dict String (List String)

unfoldable pub build_dependency_graph : List StepDefinition → Graph → Graph
build_dependency_graph [] graph = graph
build_dependency_graph (step ∷ steps) graph =
    build_dependency_graph steps (put step.id step.depends_on graph)

-- `d.get(k, [])`, also what a `defaultdict(list)` gives
abbrev pub get_list : String → Graph → List String
get_list k d = get_or (get k d) []

-- `d[k].append(v)` on a `defaultdict(list)`
abbrev pub append_to : String → String → Graph → Graph
append_to k v d = put k (get_list k d ++ v ∷ []) d

abbrev pub degree : String → Dict String ℕ → ℕ
degree k d = get_or (get k d) 0

-- `if k not in d: d[k] = 0`
abbrev pub set_default : String → Dict String ℕ → Dict String ℕ
set_default k d = put k (degree k d) d

-- The adjacency lists and the in-degrees that Kahn's algorithm starts from.
pub record Links : Type 0 where
  pub forward : Graph
  pub in_degree : Dict String ℕ

-- for dep in deps: forward[dep].append(node); in_degree[node] += 1
unfoldable pub link_deps : String → List String → Links → Links
link_deps node [] l = l
link_deps node (dep ∷ deps) l = link_deps node deps (record {
  forward = append_to dep node l.forward;
  in_degree = put node (degree node l.in_degree + 1) l.in_degree;
})

unfoldable pub link_all : Graph → Links → Links
unfolding link_deps
link_all [] l = l
link_all ((node, deps) ∷ graph) l =
    link_all graph (link_deps node deps (record l { in_degree = set_default node l.in_degree }))

unfoldable pub zero_degrees : Dict String ℕ → List String
zero_degrees [] = []
zero_degrees ((node, d) ∷ rest) =
    let others = zero_degrees rest in if d == 0 then node ∷ others else others

-- The loop's variables: `queue`, `in_degree` and what it has taken out of the queue.
pub record Kahn : Type 0 where
  pub queue : List String
  pub in_degree : Dict String ℕ
  pub result : List String

-- for child in forward.get(node, []): in_degree[child] -= 1; queue it at 0
unfoldable pub relax : List String → List String → Dict String ℕ → List String × Dict String ℕ
relax [] queue in_degree = (queue, in_degree)
relax (child ∷ children) queue in_degree =
    let left = degree child in_degree - 1 in
    relax children (if left == 0 then queue ++ child ∷ [] else queue) (put child left in_degree)

unfoldable pub kahn_loop : ℕ → Graph → Kahn → Kahn
unfolding relax
kahn_loop zero forward k = k
kahn_loop (suc fuel) forward k = elim k.queue [
  | [] ↦ k
  | node ∷ queue ↦
      let (queue', in_degree') = relax (get_list node forward) queue k.in_degree in
      kahn_loop fuel forward
        (record { queue = queue'; in_degree = in_degree'; result = k.result ++ node ∷ [] })
]

abbrev pub no_links : Links
no_links = record { forward = []; in_degree = [] }

unfoldable pub topological_sort : List StepDefinition → List String
unfolding link_all zero_degrees kahn_loop
topological_sort steps =
    let links = link_all (map (λ s. (s.id, s.depends_on)) steps) no_links in
    (kahn_loop (length steps) links.forward (record {
      queue = zero_degrees links.in_degree;
      in_degree = links.in_degree;
      result = [];
    })).result
