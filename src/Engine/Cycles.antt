-- ===== src/Engine/Cycles.antt =====
-- src/engine/graph.py: the depth-first search for a cycle, and the limit on the depth.
pub mod Sweep
pub mod Acyclic
pub mod Rank
pub mod Ranked
pub mod Decides
use Prim.Native.Nat.{max}
use mathlib.Core.Option.{get_or}
use mathlib.Core.List.{reverse}
use workflow_automation_engi.Prelude.{
  leb, if◌then◌else◌, ◌==◌, length, Message, Result, raise_f, Dict, keys, get, put, ℕ, zero, suc,
  ◌+◌, ◌-◌, String, Option, none, some, List, [], ◌∷◌, ◌++◌, map, ok, err, other, part, shown,
  nat_key, string_key,
}
use workflow_automation_engi.Engine.Graph.{
  Graph, get_list, degree, link_deps, link_all, zero_degrees, no_links,
}

pub data Color : Type 0 where
  white gray black : Color

-- `color` and `parent`, which the calls of `dfs` share.
pub record Search : Type 0 where
  pub color : Dict String Color
  pub parent : Dict String (Option String)

-- How a search ends; `out_of_fuel` stands for a nesting deeper than there are nodes.
pub data Found : Type 0 where
  clean : Found
  cycle : List String → Found
  out_of_fuel : Found

abbrev pub color_of : String → Search → Color
color_of node s = get_or (get node s.color) black

-- children[dep].append(node), for every dependency of every node
unfoldable pub children_of : Graph → Graph
unfolding link_all link_deps
children_of graph = (link_all graph no_links).forward

-- The `while current != to_node` loop; `path` is built back to front.
climb : ℕ → Dict String (Option String) → String → String → List String → List String
climb zero parent to_node current path = path
climb (suc fuel) parent to_node current path =
    if current == to_node then path else elim (get_or (get current parent) (some to_node)) [
      | none ↦ path ++ current ∷ []
      | some next ↦ climb fuel parent to_node next (path ++ current ∷ [])
    ]

unfoldable pub reconstruct_cycle : Dict String (Option String) → String → String → List String
unfolding climb
reconstruct_cycle parent from_node to_node =
    reverse (climb (length parent + 1) parent to_node from_node (to_node ∷ []) ++ to_node ∷ [])

abbrev paint : String → Color → Search → Search
paint node c s = record s { color = put node c s.color }

-- `if color[child] == white: parent[child] = node; cycle = dfs(child)`, else go on
unfoldable pub dfs_children :
    (String → Search → Found × Search) → String → List String → Search → Found × Search
dfs_children visit node [] s = (clean, s)
dfs_children visit node (child ∷ children) s = elim (color_of child s) [
  | gray ↦ (cycle (reconstruct_cycle s.parent node child), s)
  | black ↦ dfs_children visit node children s
  | white ↦
      let (found, s') = visit child (record s { parent = put child (some node) s.parent }) in
      elim found [ clean ↦ dfs_children visit node children s' | ended ↦ (ended, s') ]
]

finish_node : String → Found × Search → Found × Search
finish_node node (clean, s) = (clean, paint node black s)
finish_node node (cycle path, s) = (cycle path, s)
finish_node node (out_of_fuel, s) = (out_of_fuel, s)

unfoldable pub dfs : Graph → ℕ → String → Search → Found × Search
unfolding dfs_children finish_node
dfs children zero node s = (out_of_fuel, s)
dfs children (suc fuel) node s =
    finish_node node
      (dfs_children (dfs children fuel) node (get_list node children) (paint node gray s))

unfoldable pub dfs_all : Graph → ℕ → List String → Search → Found
unfolding dfs
dfs_all children fuel [] s = clean
dfs_all children fuel (node ∷ nodes) s = elim (color_of node s) [
  | white ↦
      let (found, s') = dfs children fuel node s in
      elim found [ clean ↦ dfs_all children fuel nodes s' | ended ↦ ended ]
  | _ ↦ dfs_all children fuel nodes s
]

cycle_message : List String → Message
cycle_message [] = []
cycle_message (node ∷ []) = part node ∷ []
cycle_message (node ∷ more ∷ path) = part node ∷ part " -> " ∷ cycle_message (more ∷ path)

report : Found → Result (Unit {0})
unfolding cycle_message
report clean = ok tt
report (cycle path) =
    raise_f "CYCLE_DETECTED" (part "Cycle detected in workflow: " ∷ cycle_message path) 400
report out_of_fuel = err (other (part "maximum recursion depth exceeded" ∷ []))

unfoldable pub detect_cycles : Graph → Result (Unit {0})
unfolding children_of dfs_all report keys
detect_cycles graph = report (
    dfs_all (children_of graph) (length graph + 1) (keys graph)
      (record { color = map (λ p. (p.0, white)) graph; parent = map (λ p. (p.0, none)) graph }))

abbrev pub max_depth : ℕ
max_depth = 20

-- The loop of `validate_max_depth`: `depth` grows as nodes leave the queue.
pub record Levels : Type 0 where
  pub queue : List String
  pub in_degree : Dict String ℕ
  pub depth : Dict String ℕ

unfoldable pub deepen : ℕ → List String → Levels → Levels
deepen new_depth [] l = l
deepen new_depth (child ∷ children) l =
    let left = degree child l.in_degree - 1 in
    deepen new_depth children (record {
      queue = if left == 0 then l.queue ++ child ∷ [] else l.queue;
      in_degree = put child left l.in_degree;
      depth = put child (max (degree child l.depth) new_depth) l.depth;
    })

unfoldable pub depth_loop : ℕ → Graph → Levels → Levels
unfolding deepen
depth_loop zero forward l = l
depth_loop (suc fuel) forward l = elim l.queue [
  | [] ↦ l
  | current ∷ queue ↦
      depth_loop fuel forward (
        deepen (degree current l.depth + 1) (get_list current forward) (record l { queue = queue }))
]

max_value : Dict String ℕ → ℕ
max_value [] = 0
max_value ((k, d) ∷ rest) = max d (max_value rest)

unfoldable pub validate_max_depth : Graph → Result (Unit {0})
unfolding link_all zero_degrees depth_loop max_value
validate_max_depth graph =
    let links = link_all graph no_links in
    let queue = zero_degrees links.in_degree in
    let levels =
      depth_loop (length graph) links.forward
        (record { queue = queue; in_degree = links.in_degree; depth = map (λ n. (n, 0)) queue }) in
    let max_found = max_value levels.depth in
    if leb max_depth max_found
    then raise_f "MAX_DEPTH_EXCEEDED"
        (part "Workflow depth is "
          ∷ shown (max_found + 1)
          ∷ part ", exceeding the maximum of "
          ∷ shown max_depth
          ∷ part "."
          ∷ [])
        400
    else ok tt
