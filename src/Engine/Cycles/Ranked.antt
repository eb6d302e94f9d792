-- ===== src/Engine/Cycles/Ranked.antt =====
-- The search of `detect_cycles` of src/engine/graph.py in a graph whose dependencies have a rank.
use workflow_automation_engi.Prelude.{
  ◌≢◌, ◌≤◌, contains, ℕ, suc, ◌<◌, String, ◌≡◌, true, List, [], ◌∷◌, arith, eq_iff, string_key, All,
  keys, put, ◌+◌, refl, inl, inr, some, zero,
}
use workflow_automation_engi.Engine.Graph.{Graph, get_list}
use workflow_automation_engi.Engine.Cycles.{
  out_of_fuel, dfs_all, dfs, dfs_children, cycle, finish_node, paint, Search, color_of, white, gray,
  Found, clean, black,
}
use workflow_automation_engi.Engine.Cycles.Sweep.{
  dfs_children_white, dfs_children_black, Color-cases, color_of-paint,
}
use workflow_automation_engi.Engine.Graph.Linked.{is_node}
use workflow_automation_engi.Engine.Cycles.Rank.{is_node-keys}
use workflow_automation_engi.Engine.Cycles.Acyclic.{dfs_all_white, dfs_all_black, NoGray}

-- How many of the nodes have not been visited.
unfoldable pub whites : List String → Search → ℕ
whites [] s = 0
whites (n ∷ ns) s = elim (color_of n s) [ white ↦ suc (whites ns s) | _ ↦ whites ns s ]

-- No node becomes white or gray.
abbrev Fades : Search → Search → Type 0
Fades s s' =
    (n : String)
    → (color_of n s' ≡ white → color_of n s ≡ white) × (color_of n s' ≡ gray → color_of n s ≡ gray)

whites-le :
    (ns : List String) (s s' : Search)
    → ((n : String) → color_of n s' ≡ white → color_of n s ≡ white)
    → whites ns s' ≤ whites ns s
unfolding whites
whites-le [] s s' h = omega arith
whites-le (n ∷ ns) s s' h = ground (arith, h n, whites-le ns s s' h)

whites-less :
    (node : String) (ns : List String) (s s' : Search)
    → ((n : String) → color_of n s' ≡ white → color_of n s ≡ white)
    → contains node ns ≡ true
    → color_of node s ≡ white
    → color_of node s' ≢ white
    → whites ns s' < whites ns s
unfolding whites
whites-less node [] s s' h there before after = absurd (cc there)
whites-less node (n ∷ ns) s s' h there before after =
    ground (arith, eq_iff n node, h n, whites-le ns s s' h, whites-less node ns s s' h)

-- A search that found no cycle and left no new node white or gray.
abbrev Passes : Search → Found × Search → Type 0
Passes s r = (r.0 ≡ clean) × Fades s r.1

pair-clean : (r : Found × Search) → r.0 ≡ clean → r ≡ (clean, r.1)
pair-clean (found, s) h = rw h refl

module _ (graph children : Graph) (rank : String → ℕ) where
  -- Every gray node is ranked below.
  abbrev GraysBelow : ℕ → Search → Type 0
  GraysBelow bound s = (n : String) → color_of n s ≡ gray → rank n < bound

  -- The given nodes are nodes of the graph, of at least the given rank.
  abbrev RankedFrom : ℕ → List String → Type 0
  RankedFrom bound nodes = All (λ c. (is_node c graph ≡ true) × (bound ≤ rank c)) nodes

  -- A search from a white node passes if its fuel covers the white nodes.
  abbrev PassesFrom : (String → Search → Found × Search) → ℕ → Type 0
  PassesFrom visit fuel =
      (n : String) (s : Search)
      → is_node n graph ≡ true
      → color_of n s ≡ white
      → GraysBelow (rank n) s
      → whites (keys graph) s ≤ fuel
      → Passes s (visit n s)

  dfs_children-Passes :
      (visit : String → Search → Found × Search) (fuel : ℕ)
      → PassesFrom visit fuel
      → (node : String) (bound : ℕ) (nodes : List String) (s : Search) → RankedFrom bound nodes
      → GraysBelow bound s
      → whites (keys graph) s ≤ fuel
      → Passes s (dfs_children visit node nodes s)
  unfolding dfs_children
  dfs_children-Passes visit fuel passes node bound [] s ranked below enough =
      (refl, λ n. ((λ h. h), λ h. h))
  dfs_children-Passes visit fuel passes node bound (c ∷ cs) s ranked below enough =
      elim (Color-cases (color_of c s)) [
        | inr (inl is_gray) ↦ absurd (omega (arith, below c is_gray, ranked.0.1))
        | inr (inr is_black) ↦
            rw (dfs_children_black graph children visit node c cs s is_black)
              (dfs_children-Passes visit fuel passes node bound cs s ranked.1 below enough)
        | inl is_white ↦
            let s0 : Search = record s { parent = put c (some node) s.parent } in
            let (found, fades) =
              passes c s0 ranked.0.0 is_white (λ n h. omega (arith, below n h, ranked.0.1))
                (omega (arith, enough, whites-le (keys graph) s s0 (λ n h. h))) in
            let s1 = (visit c s0).1 in
            let (found', fades') =
              dfs_children-Passes visit fuel passes node bound cs s1 ranked.1
                (λ n h. below n ((fades n).1 h))
                (omega (arith, enough, whites-le (keys graph) s s1 (λ n. (fades n).0))) in
            rw
              (
                dfs_children_white graph children visit node c cs s is_white,
                pair-clean (visit c s0) found,
              )
              (
                found',
                λ n. ((λ h. (fades n).0 ((fades' n).0 h)), λ h. (fades n).1 ((fades' n).1 h)),
              )
      ]

  -- A node that turns gray was white.
  painted-Fades :
      (node : String) (s : Search)
      → color_of node s ≡ white
      → (n : String) → color_of n (paint node gray s) ≡ white
      → color_of n s ≡ white
  painted-Fades node s is_white n h = ground (arith, color_of-paint node n gray s)

  painted-less :
      (node : String) (s : Search)
      → is_node node graph ≡ true
      → color_of node s ≡ white
      → whites (keys graph) (paint node gray s) < whites (keys graph) s
  painted-less node s is is_white =
      whites-less node (keys graph) s (paint node gray s) (painted-Fades node s is_white)
        (ground (arith, is_node-keys node graph)) is_white
        (λ h. ground (arith, eq_iff node node, color_of-paint node node gray s))

  -- A node is finished: it was gray within the search alone.
  finished-Passes :
      (node : String) (s : Search) (r : Found × Search)
      → Passes (paint node gray s) r
      → Passes s (finish_node node r)
  unfolding finish_node
  finished-Passes node s (clean, s1) (found, fades) = (
    refl,
    λ n. (
      (λ h. ground (
        arith,
        eq_iff node n,
        color_of-paint node n black s1,
        color_of-paint node n gray s,
        (fades n).0,
      )),
      λ h. ground (
        arith,
        eq_iff node n,
        color_of-paint node n black s1,
        color_of-paint node n gray s,
        (fades n).1,
      ),
    ),
  )
  finished-Passes node s (cycle path, s1) (found, fades) = absurd (cc found)
  finished-Passes node s (out_of_fuel, s1) (found, fades) = absurd (cc found)

  module _
      (ranked : (n : String)
        → is_node n graph ≡ true
        → RankedFrom (rank n + 1) (get_list n children)) where
    dfs-Passes : (fuel : ℕ) → PassesFrom (dfs children fuel) fuel
    unfolding dfs
    dfs-Passes zero node s is is_white below enough =
        absurd (omega (arith, painted-less node s is is_white, enough))
    dfs-Passes (suc fuel) node s is is_white below enough = finished-Passes node s _ (
        dfs_children-Passes (dfs children fuel) fuel (dfs-Passes fuel) node (rank node + 1)
          (get_list node children) (paint node gray s) (ranked node is)
          (λ n h. ground (arith, eq_iff node n, color_of-paint node n gray s, below n))
          (omega (arith, painted-less node s is is_white, enough)))

    pub dfs_all-Passes :
        (fuel : ℕ) (nodes : List String) (s : Search)
        → All (λ n. is_node n graph ≡ true) nodes
        → NoGray s
        → whites (keys graph) s ≤ fuel
        → dfs_all children fuel nodes s ≡ clean
    unfolding dfs_all
    dfs_all-Passes fuel [] s nodes calm enough = refl
    dfs_all-Passes fuel (n ∷ ns) s nodes calm enough = elim (Color-cases (color_of n s)) [
      | inr (inl is_gray) ↦ absurd (calm n is_gray)
      | inr (inr is_black) ↦
          rw (dfs_all_black children fuel n ns s is_black)
            (dfs_all-Passes fuel ns s nodes.1 calm enough)
      | inl is_white ↦
          let s1 = (dfs children fuel n s).1 in
          let (found, fades) =
            dfs-Passes fuel n s nodes.0 is_white (λ m h. absurd (calm m h)) enough in
          rw (dfs_all_white children fuel n ns s is_white, pair-clean (dfs children fuel n s) found)
            (dfs_all-Passes fuel ns s1 nodes.1 (λ m h. calm m ((fades m).1 h))
              (omega (arith, enough, whites-le (keys graph) s s1 (λ m. (fades m).0))))
    ]
