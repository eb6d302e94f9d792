-- ===== src/Engine/Graph/Order.antt =====
-- What `_topological_sort` of src/engine/orchestrator.py returns.
use workflow_automation_engi.Prelude.{
  Dict, get, IsKeyed, ℕ, zero, suc, ◌+◌, ◌≤◌, ◌<◌, String, ◌≡◌, refl, true, List, [], ◌∷◌, ◌++◌,
  arith, if◌then◌else◌, ◌==◌, eq_iff, count, count-append, length, length-append, contains,
  Bool-cases, inl, inr, ◌&&◌, string_key, All, map, nat_key,
}
use mathlib.Core.List.{append_assoc, append-nil}
use workflow_automation_engi.Engine.Models.{StepDefinition}
use workflow_automation_engi.Engine.Graph.{
  Graph, Kahn, get_list, degree, relax, kahn_loop, topological_sort, link_all, zero_degrees,
  no_links,
}
use workflow_automation_engi.Engine.Graph.Linked.{
  is_node, degree-link_all, forward-link_all, has-link_all, keyed-link_all, count-zero_degrees,
}
use workflow_automation_engi.Engine.Graph.Relax.{missing, missing-nil, contains-count}
use workflow_automation_engi.Engine.Graph.Rounds.{Inv, Forward, IsOrdered, round-Inv}

-- A list without a key, and how much shorter it is.
without : String → List String → List String
without k [] = []
without k (x ∷ l) = if x == k then without k l else x ∷ without k l

count-without :
    (c k : String) (l : List String) → count c (without k l) ≡ (if k == c then 0 else count c l)
unfolding without
count-without c k [] = ground arith
count-without c k (x ∷ l) = ground (arith, eq_iff x k, eq_iff x c, eq_iff k c, count-without c k l)

length-without : (k : String) (l : List String) → length l ≡ length (without k l) + count k l
unfolding without
length-without k [] = refl
length-without k (x ∷ l) = ground (arith, length-without k l)

-- A list without repetitions is no longer than a list that has all its elements.
length-le-nodes :
    (graph : Graph) (l : List String)
    → ((c : String) → count c l ≤ (if is_node c graph then 1 else 0))
    → length l ≤ length graph
length-le-nodes [] [] bound = omega arith
length-le-nodes [] (x ∷ l) bound = absurd (ground (arith, bound x, eq_iff x x))
length-le-nodes ((k, deps) ∷ graph) l bound =
    let rest =
      length-le-nodes graph (without k l)
        (λ c. ground (arith, bound c, count-without c k l, eq_iff k c)) in
    ground (arith, rest, length-without k l, bound k)

-- The fuel is enough: the loop ends with an empty queue.
pub record Finished (graph : Graph) (k : Kahn) : Type 0 where
  pub inv : Inv graph k
  pub empty : k.queue ≡ []

module _ (graph forward : Graph) (linked : Forward graph forward) where
  length-Inv : (k : Kahn) → Inv graph k → length k.result + length k.queue ≤ length graph
  length-Inv k inv =
      let bound =
        length-le-nodes graph (k.result ++ k.queue)
          (λ c. ground (arith, inv.once c, count-append c k.result k.queue)) in
      omega (arith, bound, length-append k.result k.queue)

  kahn_loop-Finished :
      (fuel : ℕ) (queue result : List String) (d : Dict String ℕ)
      → Inv graph (record { queue = queue; in_degree = d; result = result })
      → length graph ≤ length result + fuel
      → Finished graph
          (kahn_loop fuel forward (record { queue = queue; in_degree = d; result = result }))
  unfolding kahn_loop
  kahn_loop-Finished zero [] result d inv enough = record { inv = inv; empty = refl }
  kahn_loop-Finished zero (node ∷ queue) result d inv enough =
      absurd (omega (arith, length-Inv _ inv))
  kahn_loop-Finished (suc fuel) [] result d inv enough = record { inv = inv; empty = refl }
  kahn_loop-Finished (suc fuel) (node ∷ queue) result d inv enough =
      kahn_loop-Finished fuel (relax (get_list node forward) queue d).0 (result ++ node ∷ [])
        (relax (get_list node forward) queue d).1
        (round-Inv graph forward linked node queue result d inv)
        (omega (arith, length-append result (node ∷ [])))

abbrev pub graph_of : List StepDefinition → Graph
graph_of steps = map (λ s. (s.id, s.depends_on)) steps

length-graph_of : (steps : List StepDefinition) → length (graph_of steps) ≡ length steps
length-graph_of [] = refl
length-graph_of (s ∷ steps) = omega (arith, length-graph_of steps)

abbrev start : Graph → Kahn
start graph = record {
  queue = zero_degrees (link_all graph no_links).in_degree;
  in_degree = (link_all graph no_links).in_degree;
  result = [];
}

start-Inv : (graph : Graph) → IsKeyed graph → Inv graph (start graph)
unfolding get
start-Inv graph keyed = record {
  deg = λ c. ground (arith, degree-link_all c graph no_links keyed, missing-nil (get_list c graph));
  once = λ c. ground (
    arith,
    count-zero_degrees c (link_all graph no_links).in_degree (keyed-link_all graph no_links tt),
    has-link_all c graph no_links,
  );
  ordered = tt;
}

start-Forward : (graph : Graph) → IsKeyed graph → Forward graph (link_all graph no_links).forward
unfolding get
start-Forward graph keyed dep c = ground (arith, forward-link_all c dep graph no_links keyed)

abbrev final : List StepDefinition → Kahn
final steps =
    kahn_loop (length steps) (link_all (graph_of steps) no_links).forward (start (graph_of steps))

finished :
    (steps : List StepDefinition)
    → IsKeyed (graph_of steps)
    → Finished (graph_of steps) (final steps)
finished steps keyed =
    let graph = graph_of steps in
    kahn_loop-Finished graph (link_all graph no_links).forward (start-Forward graph keyed)
      (length steps) (zero_degrees (link_all graph no_links).in_degree) []
      (link_all graph no_links).in_degree (start-Inv graph keyed)
      (omega (arith, length-graph_of steps))

-- Which nodes a finished loop has placed.
count-Finished :
    (graph : Graph) (k : Kahn) (c : String)
    → Finished graph k
    → count c k.result ≡ (if is_node c graph && degree c k.in_degree == 0 then 1 else 0)
count-Finished graph k c done = ground (arith, done.inv.once c, rw done.empty at (done.inv.once c))

-- All the dependencies are there.
abbrev pub AllIn : List String → List String → Type 0
AllIn done deps = All (λ d. contains d done ≡ true) deps

AllIn-missing : (done deps : List String) → missing done deps ≡ 0 → AllIn done deps
AllIn-missing done [] h = tt
AllIn-missing done (d ∷ deps) h = (ground arith, AllIn-missing done deps (ground arith))

missing-AllIn : (done deps : List String) → AllIn done deps → missing done deps ≡ 0
missing-AllIn done [] h = refl
missing-AllIn done (d ∷ deps) h = ground (arith, missing-AllIn done deps h.1, h.0)

-- Each node stands behind its dependencies.
split-IsOrdered :
    (graph : Graph) (seen before after : List String) (node : String)
    → IsOrdered graph seen (before ++ node ∷ after)
    → missing (seen ++ before) (get_list node graph) ≡ 0
split-IsOrdered graph seen [] after node ordered = rw append-nil ordered.0
split-IsOrdered graph seen (x ∷ before) after node ordered =
    rw append_assoc at (split-IsOrdered graph (seen ++ x ∷ []) before after node ordered.1)

-- Of steps with different ids the order holds each at most once and nothing else, and each stands
-- behind all its dependencies.
pub topological_sort_order :
    (steps : List StepDefinition)
    → IsKeyed (graph_of steps)
    → ((id : String)
        → count id (topological_sort steps) ≤ (if is_node id (graph_of steps) then 1 else 0))
      × ((before after : List String) (id : String)
          → topological_sort steps ≡ before ++ id ∷ after
          → AllIn before (get_list id (graph_of steps)))
unfolding topological_sort
topological_sort_order steps keyed =
    let done = finished steps keyed in
    (
      λ id. ground (arith, count-Finished (graph_of steps) (final steps) id done),
      λ before after id split.
          AllIn-missing before _
            (split-IsOrdered (graph_of steps) [] before after id (rw split at done.inv.ordered)),
    )

-- Numbers that fall along every dependency of a node.
abbrev pub IsRank : Graph → (String → ℕ) → Type 0
IsRank graph rank =
    (id : String)
    → is_node id graph ≡ true
    → All (λ d. (is_node d graph ≡ true) × (rank d < rank id)) (get_list id graph)

AllIn-ranked :
    (graph : Graph) (rank : String → ℕ) (done : List String) (bound : ℕ) (deps : List String)
    → ((d : String) → is_node d graph ≡ true → rank d < bound → contains d done ≡ true)
    → All (λ d. (is_node d graph ≡ true) × (rank d < bound)) deps
    → AllIn done deps
AllIn-ranked graph rank done bound [] below all = tt
AllIn-ranked graph rank done bound (d ∷ deps) below all =
    (below d all.0.0 all.0.1, AllIn-ranked graph rank done bound deps below all.1)

All-lt :
    (graph : Graph) (rank : String → ℕ) (m bound : ℕ) (deps : List String)
    → m ≤ bound
    → All (λ d. (is_node d graph ≡ true) × (rank d < m)) deps
    → All (λ d. (is_node d graph ≡ true) × (rank d < bound)) deps
All-lt graph rank m bound [] le all = tt
All-lt graph rank m bound (d ∷ deps) le all =
    ((all.0.0, omega arith), All-lt graph rank m bound deps le all.1)

module _ (graph : Graph) (rank : String → ℕ) (ranked : IsRank graph rank) (k : Kahn)
    (done : Finished graph k) where
  reached :
      (bound : ℕ) (id : String)
      → is_node id graph ≡ true
      → rank id < bound
      → contains id k.result ≡ true
  reached zero id node below = absurd (omega arith)
  reached (suc bound) id node below =
      let deps = get_list id graph in
      let all = All-lt graph rank (rank id) bound deps (omega arith) (ranked id node) in
      let none_missing =
        missing-AllIn k.result deps
          (AllIn-ranked graph rank k.result bound deps (reached bound) all) in
      ground (
        arith,
        count-Finished graph k id done,
        done.inv.deg id,
        contains-count id k.result,
        none_missing,
        node,
      )

-- Of steps with different ids whose dependencies are steps and have no cycle, as a rank shows, the
-- order holds each exactly once and nothing else: the rounds of the loop are enough.
pub topological_sort_complete :
    (steps : List StepDefinition) (rank : String → ℕ)
    → IsKeyed (graph_of steps)
    → IsRank (graph_of steps) rank
    → (id : String)
    → count id (topological_sort steps) ≡ (if is_node id (graph_of steps) then 1 else 0)
unfolding topological_sort
topological_sort_complete steps rank keyed ranked id =
    let done = finished steps keyed in
    elim (Bool-cases (is_node id (graph_of steps))) [
      | inl node ↦
          let there =
            reached (graph_of steps) rank ranked (final steps) done (suc (rank id)) id node
              (omega arith) in
          ground (
            arith,
            count-Finished (graph_of steps) (final steps) id done,
            contains-count id (final steps).result,
          )
      | inr not_node ↦ ground (arith, count-Finished (graph_of steps) (final steps) id done)
    ]
