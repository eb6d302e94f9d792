-- ===== src/Engine/Graph/Linked.antt =====
-- The adjacency lists and in-degrees that `_topological_sort` of src/engine/orchestrator.py and
-- `validate_max_depth` of src/engine/graph.py build from the dependencies.
use workflow_automation_engi.Prelude.{
  Dict, get, put, ℕ, ◌+◌, String, Bool, ◌≡◌, refl, sym, true, ◌∙◌, false, ◌||◌, none, List, [], ◌∷◌,
  arith, string_key, if◌then◌else◌, ◌==◌, str_eq, eq_iff, count, count-append, length, Bool-cases,
  inl, inr, IsKeyed, ◌&&◌, nat_key,
}
use workflow_automation_engi.Engine.Graph.{
  Graph, Links, get_list, append_to, degree, set_default, link_deps, link_all, zero_degrees,
}
use workflow_automation_engi.Engine.Graph.Degrees.{
  degree-put, get_list-append_to, has, has-put, IsKeyed-put,
}

-- The nodes of a graph.
abbrev pub is_node : String → Graph → Bool
is_node k [] = false
is_node k ((j, deps) ∷ graph) = j == k || is_node k graph

module _ (node c : String) where
  degree-link_deps :
      (deps : List String) (l : Links)
      → degree c (link_deps node deps l).in_degree
        ≡ degree c l.in_degree + (if node == c then length deps else 0)
  unfolding link_deps
  degree-link_deps [] l = ground arith
  degree-link_deps (dep ∷ deps) l = ground (
    arith,
    eq_iff node c,
    degree-put node c (degree node l.in_degree + 1) l.in_degree,
    degree-link_deps deps (record {
      forward = append_to dep node l.forward;
      in_degree = put node (degree node l.in_degree + 1) l.in_degree;
    }),
  )

  forward-link_deps :
      (dep : String) (deps : List String) (l : Links)
      → count c (get_list dep (link_deps node deps l).forward)
        ≡ count c (get_list dep l.forward) + (if node == c then count dep deps else 0)
  unfolding link_deps
  forward-link_deps dep [] l = ground arith
  forward-link_deps dep (d ∷ deps) l = ground (
    arith,
    eq_iff node c,
    eq_iff d dep,
    get_list-append_to d dep node l.forward,
    count-append c (get_list dep l.forward) (node ∷ []),
    forward-link_deps dep deps (record {
      forward = append_to d node l.forward;
      in_degree = put node (degree node l.in_degree + 1) l.in_degree;
    }),
  )

  has-link_deps :
      (deps : List String) (l : Links)
      → has node l.in_degree ≡ true
      → has c (link_deps node deps l).in_degree ≡ has c l.in_degree
  unfolding link_deps
  has-link_deps [] l there = refl
  has-link_deps (d ∷ deps) l there =
      let l1 : Links = record {
        forward = append_to d node l.forward;
        in_degree = put node (degree node l.in_degree + 1) l.in_degree;
      } in
      let still : has node l1.in_degree ≡ true =
        ground
          (arith, eq_iff node node, has-put node node (degree node l.in_degree + 1) l.in_degree) in
      has-link_deps deps l1 still ∙ elim (Bool-cases (str_eq node c)) [
        | inl same ↦
            let e : node ≡ c = (eq_iff node c).0 same in
            has-put node c (degree node l.in_degree + 1) l.in_degree ∙ rw same (sym (rw e at there))
        | inr differ ↦ has-put node c (degree node l.in_degree + 1) l.in_degree ∙ rw differ
      ]

keyed-link_deps :
    (node : String) (deps : List String) (l : Links)
    → IsKeyed l.in_degree
    → IsKeyed (link_deps node deps l).in_degree
unfolding link_deps
keyed-link_deps node [] l keyed = keyed
keyed-link_deps node (d ∷ deps) l keyed =
    keyed-link_deps node deps _ (IsKeyed-put node (degree node l.in_degree + 1) l.in_degree keyed)

get_list-not_node : (c : String) (graph : Graph) → get c graph ≡ none → get_list c graph ≡ []
get_list-not_node c graph h = rw h

module _ (c : String) where
  pub degree-link_all :
      (graph : Graph) (l : Links)
      → IsKeyed graph
      → degree c (link_all graph l).in_degree ≡ degree c l.in_degree + length (get_list c graph)
  unfolding link_all get
  degree-link_all [] l keyed = ground arith
  degree-link_all ((node, deps) ∷ graph) l keyed =
      let l0 : Links = record l { in_degree = set_default node l.in_degree } in
      ground (
        arith,
        eq_iff node c,
        degree-link_all graph (link_deps node deps l0) keyed.1,
        degree-link_deps node c deps l0,
        degree-put node c (degree node l.in_degree) l.in_degree,
        keyed.0,
      )

  pub forward-link_all :
      (dep : String) (graph : Graph) (l : Links)
      → IsKeyed graph
      → count c (get_list dep (link_all graph l).forward)
        ≡ count c (get_list dep l.forward) + count dep (get_list c graph)
  unfolding link_all get
  forward-link_all dep [] l keyed = ground arith
  forward-link_all dep ((node, deps) ∷ graph) l keyed =
      let l0 : Links = record l { in_degree = set_default node l.in_degree } in
      ground (
        arith,
        eq_iff node c,
        forward-link_all dep graph (link_deps node deps l0) keyed.1,
        forward-link_deps node c dep deps l0,
        keyed.0,
      )

  pub has-link_all :
      (graph : Graph) (l : Links)
      → has c (link_all graph l).in_degree ≡ (has c l.in_degree || is_node c graph)
  unfolding link_all
  has-link_all [] l = ground arith
  has-link_all ((node, deps) ∷ graph) l =
      let l0 : Links = record l { in_degree = set_default node l.in_degree } in
      let put0 = has-put node node (degree node l.in_degree) l.in_degree in
      let there : has node l0.in_degree ≡ true = ground (arith, eq_iff node node, put0) in
      has-link_all graph (link_deps node deps l0)
      ∙ rw
          (has-link_deps node c deps l0 there, has-put node c (degree node l.in_degree) l.in_degree)
          (ground arith)

pub keyed-link_all :
    (graph : Graph) (l : Links) → IsKeyed l.in_degree → IsKeyed (link_all graph l).in_degree
unfolding link_all
keyed-link_all [] l keyed = keyed
keyed-link_all ((node, deps) ∷ graph) l keyed =
    keyed-link_all graph _
      (keyed-link_deps node deps _ (IsKeyed-put node (degree node l.in_degree) l.in_degree keyed))

-- The queue of Kahn's algorithm starts with each key of degree 0, once.
pub count-zero_degrees :
    (c : String) (d : Dict String ℕ)
    → IsKeyed d
    → count c (zero_degrees d) ≡ (if has c d && degree c d == 0 then 1 else 0)
unfolding zero_degrees get
count-zero_degrees c [] keyed = refl
count-zero_degrees c ((node, n) ∷ d) keyed =
    ground (arith, eq_iff node c, count-zero_degrees c d keyed.1, keyed.0)
