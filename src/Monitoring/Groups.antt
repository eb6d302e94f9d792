-- ===== src/Monitoring/Groups.antt =====
-- GROUP BY of src/api/metrics.py: its groups are what selections by their keys give.
use mathlib.Core.Option.{get_or}
use workflow_automation_engi.Monitoring.{group_by, counts, sum_counts}
use workflow_automation_engi.Prelude.{
  Eq, ◌==◌, length, select, Dict, get, put, get-put, ◌+◌, ◌≡◌, refl, ap, ◌∙◌, List, [], ◌∷◌, arith,
  Bool-cases, All, ◌≤◌, inl, inr, nat_key, string_key,
}

module _ {A K : Type 0} ⦃e : Eq K⦄ where
  abbrev rows_of : K → Dict K (List A) → List A
  rows_of k groups = get_or (get k groups) []

  sum_counts-put :
      (k : K) (rows : List A) (groups : Dict K (List A))
      → sum_counts (counts (put k rows groups)) + length (rows_of k groups)
        ≡ sum_counts (counts groups) + length rows
  unfolding counts sum_counts get put
  sum_counts-put k rows [] = ground arith
  sum_counts-put k rows ((j, before) ∷ groups) =
      ground (arith, e.beq_iff j k, sum_counts-put k rows groups)

  -- The groups have as many rows as the table.
  pub sum_counts-group_by :
      (key : A → K) (xs : List A) → sum_counts (counts (group_by key xs)) ≡ length xs
  unfolding group_by counts sum_counts
  sum_counts-group_by key [] = refl
  sum_counts-group_by key (x ∷ xs) =
      let groups = group_by key xs in
      omega (
        arith,
        sum_counts-put (key x) (x ∷ rows_of (key x) groups) groups,
        sum_counts-group_by key xs,
      )

  -- A group is what a selection by its key gives.
  rows_of-group_by :
      (key : A → K) (k : K) (xs : List A)
      → rows_of k (group_by key xs) ≡ select (λ x. key x == k) xs
  unfolding group_by get
  rows_of-group_by key k [] = refl
  rows_of-group_by key k (x ∷ xs) =
      let groups = group_by key xs in
      ground (
        arith,
        e.beq_iff (key x) k,
        get-put (key x) k (x ∷ rows_of (key x) groups) groups,
        rows_of-group_by key k xs,
      )

  get-counts :
      (k : K) (groups : Dict K (List A))
      → get_or (get k (counts groups)) 0 ≡ length (rows_of k groups)
  unfolding counts get
  get-counts k [] = refl
  get-counts k ((j, rows) ∷ groups) = ground (arith, get-counts k groups)

  pub get-counts-group_by :
      (key : A → K) (k : K) (xs : List A)
      → get_or (get k (counts (group_by key xs))) 0 ≡ length (select (λ x. key x == k) xs)
  get-counts-group_by key k xs =
      get-counts k (group_by key xs) ∙ ap length (rows_of-group_by key k xs)

  -- No group is empty.
  abbrev pub AreFilled : Dict K (List A) → Type 0
  AreFilled groups = All (λ p. 1 ≤ length p.1) groups

  AreFilled-put :
      (k : K) (x : A) (xs : List A) (groups : Dict K (List A))
      → AreFilled groups
      → AreFilled (put k (x ∷ xs) groups)
  unfolding put
  AreFilled-put k x xs [] filled = (omega arith, tt)
  AreFilled-put k x xs ((j, rows) ∷ groups) filled = elim (Bool-cases (j == k)) [
    | inl same ↦ rw same (omega arith, filled.1)
    | inr differ ↦ rw differ (filled.0, AreFilled-put k x xs groups filled.1)
  ]

  pub group_by-AreFilled : (key : A → K) (xs : List A) → AreFilled (group_by key xs)
  unfolding group_by
  group_by-AreFilled key [] = tt
  group_by-AreFilled key (x ∷ xs) =
      let groups = group_by key xs in
      AreFilled-put (key x) x (rows_of (key x) groups) groups (group_by-AreFilled key xs)
