-- ===== src/Engine/Graph/Relax.antt =====
-- One round of the loop of `_topological_sort` of src/engine/orchestrator.py.
use workflow_automation_engi.Prelude.{
  Dict, put, ℕ, ◌+◌, ◌-◌, ◌≤◌, String, ◌≡◌, refl, false, ◌||◌, List, [], ◌∷◌, ◌++◌, arith,
  string_key, if◌then◌else◌, ◌==◌, eq_iff, count, count-append, length, contains, ltb, nat_key,
}
use workflow_automation_engi.Engine.Graph.{degree, relax}
use workflow_automation_engi.Engine.Graph.Degrees.{degree-put}

-- How many of the dependencies are not done, each as often as it stands.
abbrev pub missing : List String → List String → ℕ
missing done [] = 0
missing done (dep ∷ deps) = (if contains dep done then 0 else 1) + missing done deps

pub missing-nil : (deps : List String) → missing [] deps ≡ length deps
missing-nil [] = refl
missing-nil (d ∷ deps) = omega (arith, missing-nil deps)

pub contains-append_one :
    (d node : String) (done : List String)
    → contains d (done ++ node ∷ []) ≡ (contains d done || node == d)
contains-append_one d node [] = ground arith
contains-append_one d node (x ∷ done) = ground (arith, contains-append_one d node done)

-- Each dependency on a node that is newly done counts no longer.
pub missing-append_one :
    (node : String) (done deps : List String)
    → contains node done ≡ false
    → missing done deps ≡ missing (done ++ node ∷ []) deps + count node deps
missing-append_one node done [] fresh = refl
missing-append_one node done (d ∷ deps) fresh = ground (
  arith,
  eq_iff node d,
  eq_iff d node,
  contains-append_one d node done,
  missing-append_one node done deps fresh,
)

pub contains-count : (a : String) (l : List String) → contains a l ≡ ltb 0 (count a l)
contains-count a [] = refl
contains-count a (x ∷ l) = ground (arith, contains-count a l)

module _ (c : String) where
  pub degree-relax :
      (children queue : List String) (d : Dict String ℕ)
      → degree c (relax children queue d).1 ≡ degree c d - count c children
  unfolding relax
  degree-relax [] queue d = ground arith
  degree-relax (child ∷ children) queue d =
      let left = degree child d - 1 in
      ground (
        arith,
        eq_iff child c,
        degree-put child c left d,
        degree-relax children (if left == 0 then queue ++ child ∷ [] else queue) (put child left d),
      )

  -- A child enters the queue when its last dependency is done.
  pub count-relax :
      (children queue : List String) (d : Dict String ℕ)
      → count c children ≤ degree c d
      → count c (relax children queue d).0
        ≡ count c queue
          + (if count c children == 0 then 0 else if degree c d == count c children then 1 else 0)
  unfolding relax
  count-relax [] queue d bound = ground arith
  count-relax (child ∷ children) queue d bound =
      let left = degree child d - 1 in
      ground (
        arith,
        eq_iff child c,
        degree-put child c left d,
        count-append c queue (child ∷ []),
        count-relax children (if left == 0 then queue ++ child ∷ [] else queue) (put child left d),
      )
