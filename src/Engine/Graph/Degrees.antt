-- ===== src/Engine/Graph/Degrees.antt =====
-- What the dictionaries of src/engine/graph.py and of `_topological_sort` hold after each update.
use workflow_automation_engi.Prelude.{
  Dict, get, put, get-put, ℕ, String, Bool, ◌≡◌, refl, false, ◌||◌, none, some, [], ◌∷◌, ◌++◌,
  arith, string_key, if◌then◌else◌, ◌==◌, str_eq, eq_iff, Bool-cases, inl, inr, IsKeyed, true,
}
use workflow_automation_engi.Engine.Graph.{Graph, get_list, append_to, degree}

pub degree-put :
    (k j : String) (v : ℕ) (d : Dict String ℕ)
    → degree j (put k v d) ≡ (if k == j then v else degree j d)
degree-put k j v d = ground (arith, get-put k j v d)

pub get_list-append_to :
    (k j v : String) (d : Graph)
    → get_list j (append_to k v d) ≡ (if k == j then get_list j d ++ v ∷ [] else get_list j d)
get_list-append_to k j v d = ground (arith, eq_iff k j, get-put k j (get_list k d ++ v ∷ []) d)

-- Whether a key is there.
abbrev pub has : String → Dict String ℕ → Bool
has k d = elim (get k d) [ none ↦ false | some v ↦ true ]

pub has-put : (k j : String) (v : ℕ) (d : Dict String ℕ) → has j (put k v d) ≡ (k == j || has j d)
has-put k j v d = ground (arith, get-put k j v d)

pub IsKeyed-put : (k : String) (v : ℕ) (d : Dict String ℕ) → IsKeyed d → IsKeyed (put k v d)
unfolding put get
IsKeyed-put k v [] keyed = (refl, tt)
IsKeyed-put k v ((j, w) ∷ d) keyed = elim (Bool-cases (str_eq j k)) [
  | inl same ↦ rw same (keyed.0, keyed.1)
  | inr differ ↦
      rw differ (ground (arith, get-put k j v d, eq_iff j k, eq_iff k j), IsKeyed-put k v d keyed.1)
]
