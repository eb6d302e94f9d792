-- ===== src/Engine/Cycles/Sweep.antt =====
-- The search of `detect_cycles` of src/engine/graph.py, when it finds no cycle.
use mathlib.Core.Option.{get_or}
use workflow_automation_engi.Prelude.{
  Dict, get, subst, sym, ◌∙◌, ◌≢◌, put, get-put, ℕ, zero, suc, String, ◌≡◌, refl, ap, true, List,
  [], ◌∷◌, arith, ◌==◌, eq_iff, contains, inl, inr, ◌⊎◌, All, some, string_key, if◌then◌else◌,
}
use workflow_automation_engi.Engine.Graph.{Graph, get_list}
use workflow_automation_engi.Engine.Graph.Linked.{is_node}
use workflow_automation_engi.Engine.Graph.Order.{AllIn}
use workflow_automation_engi.Engine.Cycles.{
  Color, white, gray, black, Search, Found, clean, cycle, out_of_fuel, color_of, dfs, dfs_children,
  paint, finish_node,
}

-- The children of each node stand behind it: the list is in the reverse order of finishing.
abbrev pub IsClosed : Graph → List String → Type 0
IsClosed children [] = Unit
IsClosed children (node ∷ done) = AllIn done (get_list node children) × IsClosed children done

abbrev pub Within : List String → List String → Type 0
Within l r = (n : String) → contains n l ≡ true → contains n r ≡ true

AllIn-Within : (l r nodes : List String) → Within l r → AllIn l nodes → AllIn r nodes
AllIn-Within l r [] w all = tt
AllIn-Within l r (n ∷ nodes) w all = (w n all.0, AllIn-Within l r nodes w all.1)

pub Color-cases : (c : Color) → (c ≡ white) ⊎ (c ≡ gray) ⊎ (c ≡ black)
Color-cases white = inl refl
Color-cases gray = inr (inl refl)
Color-cases black = inr (inr refl)

pub color_of-paint :
    (node n : String) (c : Color) (s : Search)
    → color_of n (paint node c s) ≡ (if node == n then c else color_of n s)
color_of-paint node n c s = ground (arith, get-put node n c s.color)

module _ (graph children : Graph) where
  abbrev pub AreNodes : List String → Type 0
  AreNodes l = All (λ c. is_node c graph ≡ true) l

  -- The black nodes are done.
  abbrev pub Blacks : Search → List String → Type 0
  Blacks s done =
      (n : String) → is_node n graph ≡ true → color_of n s ≡ black → contains n done ≡ true

  -- What a search that found no cycle leaves: more nodes are done, and the given ones are.
  pub record Swept (colors : Dict String Color) (before nodes : List String) (s' : Search)
      : Type 0 where
    pub done : List String
    pub blacks : Blacks s' done
    pub closed : IsClosed children done
    pub kept : Within before done
    pub all : AllIn done nodes
    pub grays : (n : String) → color_of n s' ≡ gray → get_or (get n colors) black ≡ gray

  abbrev pub Sweeps : (String → Search → Found × Search) → Type 0
  Sweeps visit =
      (n : String) (s s' : Search) (done : List String)
      → is_node n graph ≡ true
      → Blacks s done
      → IsClosed children done
      → visit n s ≡ (clean, s')
      → Swept s.color done (n ∷ []) s'

  extend :
      (child : String) (nodes before : List String) (s s1 s' : Search)
      → (first : Swept s.color before (child ∷ []) s1) → Swept s1.color first.done nodes s'
      → Swept s.color before (child ∷ nodes) s'
  extend child nodes before s s1 s' first rest = record {
    done = rest.done;
    blacks = rest.blacks;
    closed = rest.closed;
    kept = λ n h. rest.kept n (first.kept n h);
    all = (rest.kept child first.all.0, rest.all);
    grays = λ n h. first.grays n (rest.grays n h);
  }

  abbrev continued :
      (String → Search → Found × Search) → String → List String → Found × Search → Found × Search
  continued visit node cs r = elim r.0 [
    | clean ↦ dfs_children visit node cs r.1
    | ended ↦ (ended, r.1)
  ]

  pub dfs_children_white :
      (visit : String → Search → Found × Search) (node c : String) (cs : List String) (s : Search)
      → color_of c s ≡ white
      → dfs_children visit node (c ∷ cs) s
        ≡ continued visit node cs (visit c (record s { parent = put c (some node) s.parent }))
  unfolding dfs_children
  dfs_children_white visit node c cs s h = rw (h, dfs_children)

  pub dfs_children_black :
      (visit : String → Search → Found × Search) (node c : String) (cs : List String) (s : Search)
      → color_of c s ≡ black
      → dfs_children visit node (c ∷ cs) s ≡ dfs_children visit node cs s
  unfolding dfs_children
  dfs_children_black visit node c cs s h = rw (h, dfs_children)

  dfs_children_gray :
      (visit : String → Search → Found × Search) (node c : String) (cs : List String) (s : Search)
      → color_of c s ≡ gray
      → (dfs_children visit node (c ∷ cs) s).0 ≢ clean
  unfolding dfs_children
  dfs_children_gray visit node c cs s h = rw (h, dfs_children) (λ e. cc)

  -- A white child was visited: the search went on only if it came back clean.
  visited :
      (visit : String → Search → Found × Search) (node child : String) (cs : List String)
      (s s' : Search) (done : List String)
      → AreNodes (child ∷ cs)
      → (r : Found × Search) → (r ≡ (clean, r.1) → Swept s.color done (child ∷ []) r.1)
      → ((s1 : Search) (before : List String)
          → Blacks s1 before
          → IsClosed children before
          → dfs_children visit node cs s1 ≡ (clean, s')
          → Swept s1.color before cs s')
      → continued visit node cs r ≡ (clean, s')
      → Swept s.color done (child ∷ cs) s'
  visited visit node child cs s s' done nodes (clean, s1) sweep rest h =
      let first = sweep refl in
      extend child cs done s s1 s' first (rest s1 first.done first.blacks first.closed h)
  visited visit node child cs s s' done nodes (cycle path, s1) sweep rest h = absurd (cc h)
  visited visit node child cs s s' done nodes (out_of_fuel, s1) sweep rest h = absurd (cc h)

  children-Swept :
      (visit : String → Search → Found × Search)
      → Sweeps visit
      → (node : String) (nodes : List String) (s s' : Search) (done : List String) → AreNodes nodes
      → Blacks s done
      → IsClosed children done
      → dfs_children visit node nodes s ≡ (clean, s')
      → Swept s.color done nodes s'
  unfolding dfs_children
  children-Swept visit sweeps node [] s s' done nodes blacks closed h =
      let e : s ≡ s' = ap (λ p. p.1) h in
      let unchanged : Swept s.color done [] s = record {
        done = done;
        blacks = blacks;
        closed = closed;
        kept = λ n k. k;
        all = tt;
        grays = λ n k. k;
      } in
      subst (λ x. Swept s.color done [] x) e unchanged
  children-Swept visit sweeps node (c ∷ cs) s s' done nodes blacks closed h =
      elim (Color-cases (color_of c s)) [
        | inr (inl is_gray) ↦ absurd (dfs_children_gray visit node c cs s is_gray (ap (λ p. p.0) h))
        | inr (inr is_black) ↦
            let there = blacks c nodes.0 is_black in
            extend c cs done s s s'
              (record {
                done = done;
                blacks = blacks;
                closed = closed;
                kept = λ n k. k;
                all = (there, tt);
                grays = λ n k. k;
              })
              (children-Swept visit sweeps node cs s s' done nodes.1 blacks closed
                (sym (dfs_children_black visit node c cs s is_black) ∙ h))
        | inl is_white ↦
            let s0 : Search = record s { parent = put c (some node) s.parent } in
            visited visit node c cs s s' done nodes (visit c s0)
              (sweeps c s0 (visit c s0).1 done nodes.0 blacks closed)
              (λ s1 before. children-Swept visit sweeps node cs s1 s' before nodes.1)
              (sym (dfs_children_white visit node c cs s is_white) ∙ h)
      ]

  module _ (linked : (n : String) → AreNodes (get_list n children)) where
    -- A node is finished: its children are done before it.
    finished :
        (node : String) (r : Found × Search) (s s' : Search) (before : List String)
        → (r ≡ (clean, r.1) → Swept (paint node gray s).color before (get_list node children) r.1)
        → finish_node node r ≡ (clean, s')
        → Swept s.color before (node ∷ []) s'
    unfolding finish_node
    finished node (clean, s1) s s' before sweep h =
        let first = sweep refl in
        let e : paint node black s1 ≡ s' = ap (λ p. p.1) h in
        let painted : Swept s.color before (node ∷ []) (paint node black s1) = record {
          done = node ∷ first.done;
          blacks = λ n is h'.
              ground (arith, eq_iff node n, color_of-paint node n black s1, first.blacks n is);
          closed = (first.all, first.closed);
          kept = λ n k. ground (arith, first.kept n k);
          all = (ground (arith, eq_iff node node), tt);
          grays = λ n h'. ground (
            arith,
            eq_iff node n,
            color_of-paint node n black s1,
            color_of-paint node n gray s,
            first.grays n,
          );
        } in
        rw e at painted
    finished node (cycle path, s1) s s' before sweep h = absurd (cc h)
    finished node (out_of_fuel, s1) s s' before sweep h = absurd (cc h)

    pub dfs-Sweeps : (fuel : ℕ) → Sweeps (dfs children fuel)
    unfolding dfs
    dfs-Sweeps zero node s s' done is blacks closed h = absurd (cc h)
    dfs-Sweeps (suc fuel) node s s' done is blacks closed h =
        let s0 = paint node gray s in
        finished node (dfs_children (dfs children fuel) node (get_list node children) s0) s s' done
          (children-Swept (dfs children fuel) (dfs-Sweeps fuel) node (get_list node children) s0 _
            done (linked node)
            (λ n is h'. ground (arith, color_of-paint node n gray s, blacks n is)) closed)
          h
