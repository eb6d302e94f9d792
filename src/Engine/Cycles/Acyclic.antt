-- ===== src/Engine/Cycles/Acyclic.antt =====
-- The graphs that `detect_cycles` of src/engine/graph.py accepts.
use workflow_automation_engi.Prelude.{◌≢◌, String, ◌≡◌, sym, ◌∙◌, refl, List, [], ◌∷◌, ℕ, inl, inr}
use workflow_automation_engi.Engine.Graph.{Graph, get_list}
use workflow_automation_engi.Engine.Graph.Order.{AllIn}
use workflow_automation_engi.Engine.Cycles.{
  Search, Found, clean, cycle, out_of_fuel, color_of, dfs, dfs_all, gray, white, black,
}
use workflow_automation_engi.Engine.Cycles.Sweep.{
  AreNodes, Blacks, Swept, IsClosed, Within, Color-cases, dfs-Sweeps,
}

module _ (children : Graph) (fuel : ℕ) (n : String) (ns : List String) where
  abbrev continued : Found × Search → Found
  continued r = elim r.0 [ clean ↦ dfs_all children fuel ns r.1 | ended ↦ ended ]

  pub dfs_all_white :
      (s : Search)
      → color_of n s ≡ white
      → dfs_all children fuel (n ∷ ns) s ≡ continued (dfs children fuel n s)
  unfolding dfs_all
  dfs_all_white s h = rw (h, dfs_all)

  pub dfs_all_black :
      (s : Search)
      → color_of n s ≡ black
      → dfs_all children fuel (n ∷ ns) s ≡ dfs_all children fuel ns s
  unfolding dfs_all
  dfs_all_black s h = rw (h, dfs_all)

-- Between two searches no node is gray.
abbrev pub NoGray : Search → Type 0
NoGray s = (n : String) → color_of n s ≢ gray

module _ (graph children : Graph)
    (linked : (n : String) → AreNodes graph children (get_list n children)) where
  abbrev Closing : List String → List String → Type 0
  Closing before nodes =
      (final : List String) × IsClosed children final × Within before final × AllIn final nodes

  closing :
      (fuel : ℕ) (n : String) (ns : List String) (s : Search) (before : List String)
      (r : Found × Search)
      → NoGray s
      → (r ≡ (clean, r.1) → Swept graph children s.color before (n ∷ []) r.1)
      → ((s1 : Search) (done : List String)
          → Blacks graph children s1 done
          → IsClosed children done
          → NoGray s1
          → dfs_all children fuel ns s1 ≡ clean
          → Closing done ns)
      → continued children fuel n ns r ≡ clean
      → Closing before (n ∷ ns)
  closing fuel n ns s before (clean, s1) calm sweep rest h =
      let first = sweep refl in
      let (final, shut, kept, all) =
        rest s1 first.done first.blacks first.closed (λ m is_gray. calm m (first.grays m is_gray))
          h in
      (final, shut, (λ m k. kept m (first.kept m k)), (kept n first.all.0, all))
  closing fuel n ns s before (cycle path, s1) calm sweep rest h = absurd (cc h)
  closing fuel n ns s before (out_of_fuel, s1) calm sweep rest h = absurd (cc h)

  pub dfs_all-Closing :
      (fuel : ℕ) (nodes : List String) (s : Search) (done : List String)
      → AreNodes graph children nodes
      → Blacks graph children s done
      → IsClosed children done
      → NoGray s
      → dfs_all children fuel nodes s ≡ clean
      → Closing done nodes
  unfolding dfs_all
  dfs_all-Closing fuel [] s done nodes blacks closed calm h = (done, closed, (λ n k. k), tt)
  dfs_all-Closing fuel (n ∷ ns) s done nodes blacks closed calm h =
      elim (Color-cases (color_of n s)) [
        | inr (inl is_gray) ↦ absurd (calm n is_gray)
        | inr (inr is_black) ↦
            let (final, shut, kept, all) =
              dfs_all-Closing fuel ns s done nodes.1 blacks closed calm
                (sym (dfs_all_black children fuel n ns s is_black) ∙ h) in
            (final, shut, kept, (kept n (blacks n nodes.0 is_black), all))
        | inl is_white ↦
            closing fuel n ns s done (dfs children fuel n s) calm
              (dfs-Sweeps graph children linked fuel n s (dfs children fuel n s).1 done nodes.0
                blacks closed)
              (λ s1 before. dfs_all-Closing fuel ns s1 before nodes.1)
              (sym (dfs_all_white children fuel n ns s is_white) ∙ h)
      ]
