-- ===== src/Engine/Graph/Rounds.antt =====
-- What holds after each round of the loop of `_topological_sort` of src/engine/orchestrator.py.
use mathlib.Core.List.{append_assoc, append-nil}
use workflow_automation_engi.Prelude.{
  Dict, ℕ, suc, ◌+◌, String, ◌≡◌, refl, sym, ◌∙◌, false, List, [], ◌∷◌, ◌++◌, arith, if◌then◌else◌,
  ◌==◌, eq_iff, count, count-append, contains, ◌&&◌, string_key, nat_key, get,
}
use workflow_automation_engi.Engine.Graph.{Graph, Kahn, get_list, degree, relax}
use workflow_automation_engi.Engine.Graph.Linked.{is_node}
use workflow_automation_engi.Engine.Graph.Relax.{
  missing, missing-append_one, contains-count, degree-relax, count-relax,
}

-- Each node of the list stands behind its dependencies, or those are among the ones seen.
abbrev pub IsOrdered : Graph → List String → List String → Type 0
IsOrdered graph seen [] = Unit
IsOrdered graph seen (node ∷ nodes) =
    (missing seen (get_list node graph) ≡ 0) × IsOrdered graph (seen ++ node ∷ []) nodes

IsOrdered-append_one :
    (graph : Graph) (node : String) (seen nodes : List String)
    → IsOrdered graph seen nodes
    → missing (seen ++ nodes) (get_list node graph) ≡ 0
    → IsOrdered graph seen (nodes ++ node ∷ [])
IsOrdered-append_one graph node seen [] ordered ready = (rw append-nil at ready, tt)
IsOrdered-append_one graph node seen (x ∷ nodes) ordered ready = (
  ordered.0,
  IsOrdered-append_one graph node (seen ++ x ∷ []) nodes ordered.1 (rw append_assoc ready),
)

pub record Inv (graph : Graph) (k : Kahn) : Type 0 where
  -- A degree counts the dependencies that are not in the result.
  pub deg : (c : String) → degree c k.in_degree ≡ missing k.result (get_list c graph)
  -- A node without missing dependencies is in the result or in the queue, once; no other is.
  pub once :
      (c : String)
      → count c k.result + count c k.queue
        ≡ (if is_node c graph && degree c k.in_degree == 0 then 1 else 0)
  pub ordered : IsOrdered graph [] k.result

-- The adjacency lists hold each node as often as its dependencies hold the key.
abbrev pub Forward : Graph → Graph → Type 0
Forward graph forward =
    (dep c : String) → count c (get_list dep forward) ≡ count dep (get_list c graph)

pub count-not_node :
    (dep c : String) (graph : Graph) → is_node c graph ≡ false → count dep (get_list c graph) ≡ 0
unfolding get
count-not_node dep c [] h = refl
count-not_node dep c ((j, deps) ∷ graph) h = ground (arith, count-not_node dep c graph)

module _ (graph forward : Graph) (linked : Forward graph forward) where
  pub round-Inv :
      (node : String) (queue result : List String) (in_degree : Dict String ℕ)
      → Inv graph (record { queue = node ∷ queue; in_degree = in_degree; result = result })
      → Inv graph (record {
        queue = (relax (get_list node forward) queue in_degree).0;
        in_degree = (relax (get_list node forward) queue in_degree).1;
        result = result ++ node ∷ [];
      })
  round-Inv node queue result in_degree inv =
      let first : count node (node ∷ queue) ≡ suc (count node queue) =
        ground (arith, eq_iff node node) in
      let zero_degree : degree node in_degree ≡ 0 = ground (arith, inv.once node) in
      let fresh : contains node result ≡ false =
        ground (arith, inv.once node, contains-count node result) in
      let children = get_list node forward in
      record {
        deg = λ c. ground (
          arith,
          degree-relax c children queue in_degree,
          linked node c,
          inv.deg c,
          missing-append_one node result (get_list c graph) fresh,
        );
        once = λ c. ground (
          arith,
          degree-relax c children queue in_degree,
          linked node c,
          inv.deg c,
          inv.once c,
          eq_iff node c,
          missing-append_one node result (get_list c graph) fresh,
          count-append c result (node ∷ []),
          count-relax c children queue in_degree,
          count-not_node node c graph,
        );
        ordered =
            IsOrdered-append_one graph node [] result inv.ordered
              (sym (inv.deg node) ∙ zero_degree);
      }
