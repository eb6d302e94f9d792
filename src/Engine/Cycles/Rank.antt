-- ===== src/Engine/Cycles/Rank.antt =====
-- Numbers that show that a graph accepted by `detect_cycles` of src/engine/graph.py has no cycle.
use workflow_automation_engi.Prelude.{
  get, keys, ℕ, suc, ◌+◌, ◌<◌, String, ◌≡◌, refl, ok, List, [], ◌∷◌, arith, map, All, contains,
  true, none, eq_iff, Bool-cases, inl, inr, IsKeyed, length, if◌then◌else◌, string_key,
}
use workflow_automation_engi.Engine.Graph.{Graph, get_list, link_all, no_links}
use workflow_automation_engi.Engine.Graph.Linked.{is_node, forward-link_all}
use workflow_automation_engi.Engine.Graph.Relax.{contains-count}
use workflow_automation_engi.Engine.Graph.Rounds.{count-not_node}
use workflow_automation_engi.Engine.Graph.Order.{AllIn, IsRank}
use workflow_automation_engi.Engine.Cycles.{
  Search, Found, clean, cycle, out_of_fuel, white, black, color_of, detect_cycles, children_of,
  report,
}
use workflow_automation_engi.Engine.Cycles.Sweep.{AreNodes, IsClosed}
use workflow_automation_engi.Engine.Cycles.Acyclic.{dfs_all-Closing}

-- How many nodes of the list stand before the last occurrence of a node.
abbrev pub later : String → List String → ℕ
later n [] = 0
later n (x ∷ done) = if contains n done then suc (later n done) else 0

contains-of-AllIn :
    (c : String) (done nodes : List String)
    → AllIn done nodes
    → contains c nodes ≡ true
    → contains c done ≡ true
contains-of-AllIn c done [] all h = absurd (cc h)
contains-of-AllIn c done (n ∷ nodes) all h =
    ground (arith, eq_iff n c, all.0, contains-of-AllIn c done nodes all.1)

-- A child stands later than its parent.
later-child :
    (children : Graph) (n c : String) (done : List String)
    → IsClosed children done
    → contains n done ≡ true
    → contains c (get_list n children) ≡ true
    → (contains c done ≡ true) × (later n done < later c done)
later-child children n c [] closed there child = absurd (cc there)
later-child children n c (x ∷ done) closed there child = elim (Bool-cases (contains n done)) [
  | inl inside ↦
      let (c_inside, less) = later-child children n c done closed.1 inside child in
      rw (inside, c_inside) (ground arith, omega (arith, less))
  | inr outside ↦
      let same : x ≡ n = ground (arith, eq_iff x n) in
      let c_inside = contains-of-AllIn c done (get_list n children) (rw same at closed.0) child in
      rw (outside, c_inside) (ground arith, omega arith)
]

pub All-contains :
    (P : String → Type 0) (l : List String) → ((d : String) → contains d l ≡ true → P d) → All P l
All-contains P [] h = tt
All-contains P (x ∷ l) h =
    (h x (ground (arith, eq_iff x x)), All-contains P l (λ d k. h d (ground (arith, k))))

module _ (graph : Graph) (keyed : IsKeyed graph) where
  -- `c` is a child of `d` where `d` is a dependency of `c`.
  pub child_iff :
      (c d : String) → contains c (get_list d (children_of graph)) ≡ contains d (get_list c graph)
  unfolding children_of get
  child_iff c d = ground (
    arith,
    forward-link_all c d graph no_links keyed,
    contains-count c (get_list d (link_all graph no_links).forward),
    contains-count d (get_list c graph),
  )

  pub children-AreNodes :
      (n : String) → AreNodes graph (children_of graph) (get_list n (children_of graph))
  children-AreNodes n =
      All-contains (λ c. is_node c graph ≡ true) (get_list n (children_of graph))
        (λ c h.
          ground (
            arith,
            child_iff c n,
            h,
            count-not_node n c graph,
            contains-count n (get_list c graph),
          ))

abbrev pub first_search : Graph → Search
first_search graph = record {
  color = map (λ p. (p.0, white)) graph;
  parent = map (λ p. (p.0, none)) graph;
}

pub color_of-first :
    (n : String) (graph : Graph)
    → color_of n (first_search graph) ≡ (if is_node n graph then white else black)
unfolding get
color_of-first n [] = refl
color_of-first n ((k, deps) ∷ graph) = ground (arith, color_of-first n graph)

pub is_node-keys : (c : String) (graph : Graph) → contains c (keys graph) ≡ is_node c graph
unfolding keys
is_node-keys c [] = refl
is_node-keys c ((k, deps) ∷ graph) = ground (arith, is_node-keys c graph)

report-clean : (r : Found) → report r ≡ ok tt → r ≡ clean
unfolding report
report-clean clean h = refl
report-clean (cycle path) h = absurd (cc h)
report-clean out_of_fuel h = absurd (cc h)

-- If no cycle is found and every dependency is a node, the dependencies have a rank.
pub detect_cycles-IsRank :
    (graph : Graph)
    → IsKeyed graph
    → ((c d : String) → contains d (get_list c graph) ≡ true → is_node d graph ≡ true)
    → detect_cycles graph ≡ ok tt
    → (rank : String → ℕ) × IsRank graph rank
unfolding detect_cycles
detect_cycles-IsRank graph keyed known accepted =
    let children = children_of graph in
    let searched = report-clean _ accepted in
    let (done, closed, kept, all) =
      dfs_all-Closing graph children (children-AreNodes graph keyed) (length graph + 1) (keys graph)
        (first_search graph) []
        (All-contains (λ c. is_node c graph ≡ true) (keys graph)
          (λ c h. ground (arith, is_node-keys c graph, h)))
        (λ n is h. absurd (let e = color_of-first n graph in cc (rw is at e))) tt
        (λ n h. let e = color_of-first n graph in ground (arith, e, h)) searched in
    (
      λ n. later n done,
      λ c is.
          All-contains (λ d. (is_node d graph ≡ true) × (later d done < later c done))
            (get_list c graph)
            (λ d h.
              let d_done =
                contains-of-AllIn d done (keys graph) all
                  (ground (arith, is_node-keys d graph, known c d h)) in
              (
                known c d h,
                (later-child children d c done closed d_done
                    (ground (arith, child_iff graph keyed c d, h))).1,
              )),
    )
