-- ===== src/Engine/Cycles/Decides.antt =====
-- The graphs that `detect_cycles` of src/engine/graph.py accepts are those that have a rank.
use workflow_automation_engi.Prelude.{
  ◌≤◌, contains, ℕ, ◌<◌, String, ◌≡◌, true, List, [], ◌∷◌, arith, eq_iff, string_key, All, keys,
  ◌+◌, refl, inl, inr, str_eq, Bool-cases, length, IsKeyed, ◌↔◌, ok, subst,
}
use workflow_automation_engi.Engine.Graph.{Graph, get_list}
use workflow_automation_engi.Engine.Cycles.{Search, children_of, detect_cycles, report}
use workflow_automation_engi.Engine.Graph.Linked.{is_node}
use workflow_automation_engi.Engine.Cycles.Rank.{
  is_node-keys, All-contains, child_iff, children-AreNodes, first_search, color_of-first,
  detect_cycles-IsRank,
}
use workflow_automation_engi.Engine.Graph.Order.{IsRank}
use workflow_automation_engi.Engine.Cycles.Ranked.{whites, dfs_all-Passes}

whites-length : (ns : List String) (s : Search) → whites ns s ≤ length ns
unfolding whites
whites-length [] s = omega arith
whites-length (n ∷ ns) s = ground (arith, whites-length ns s)

length-keys : (graph : Graph) → length (keys graph) ≡ length graph
unfolding keys
length-keys [] = refl
length-keys ((k, deps) ∷ graph) = ground (arith, length-keys graph)

member : (P : String → Type 0) (c : String) (l : List String) → All P l → contains c l ≡ true → P c
member P c [] all h = absurd (cc h)
member P c (x ∷ l) all h = elim (Bool-cases (str_eq x c)) [
  | inl same ↦ let e : x ≡ c = ground (arith, eq_iff x c) in subst P e all.0
  | inr differ ↦ member P c l all.1 (ground arith)
]

-- The search accepts a graph whose dependencies have a rank.
detect_cycles-ranked :
    (graph : Graph)
    → IsKeyed graph
    → (rank : String → ℕ) → IsRank graph rank
    → detect_cycles graph ≡ ok tt
unfolding detect_cycles report
detect_cycles-ranked graph keyed rank ranks =
    let children = children_of graph in
    let s = first_search graph in
    rw
      (dfs_all-Passes graph children rank
        (λ n is.
          All-contains (λ c. (is_node c graph ≡ true) × (rank n + 1 ≤ rank c)) (get_list n children)
            (λ c h.
              let is_c =
                member (λ x. is_node x graph ≡ true) c (get_list n children)
                  (children-AreNodes graph keyed n) h in
              let below =
                member (λ d. (is_node d graph ≡ true) × (rank d < rank c)) n (get_list c graph)
                  (ranks c is_c) (ground (arith, child_iff graph keyed c n, h)) in
              (is_c, omega (arith, below.1))))
        (length graph + 1) (keys graph) s
        (All-contains (λ c. is_node c graph ≡ true) (keys graph)
          (λ c h. ground (arith, is_node-keys c graph, h)))
        (λ n h. ground (arith, color_of-first n graph))
        (omega (arith, whites-length (keys graph) s, length-keys graph)))
      refl

-- Of a graph with distinct nodes whose dependencies are nodes, the search finds no cycle exactly if
-- the dependencies have a rank, which grows from each dependency to the nodes that depend on it.
pub detect_cycles_iff :
    (graph : Graph)
    → IsKeyed graph
    → ((c d : String) → contains d (get_list c graph) ≡ true → is_node d graph ≡ true)
    → (detect_cycles graph ≡ ok tt) ↔ ((rank : String → ℕ) × IsRank graph rank)
detect_cycles_iff graph keyed known =
    (detect_cycles-IsRank graph keyed known, λ p. detect_cycles-ranked graph keyed p.0 p.1)
