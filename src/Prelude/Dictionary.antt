-- ===== src/Prelude/Dictionary.antt =====
-- Python's `dict`: an association list in insertion order, with at most one entry for a key.
use mathlib.Core.Path.{◌≡◌, refl, subst}
use mathlib.Core.Logic.{inl, inr}
use mathlib.Core.Bool.{Bool, false}
use mathlib.Core.Option.{Option, none, some}
use workflow_automation_engi.Prelude.Lists.{contains}
use mathlib.Core.List.{List, [], ◌∷◌, map}
use native.Mathlib.Omega.{arith}
use workflow_automation_engi.Prelude.Tests.{Eq, Bool-cases, ◌==◌, if◌then◌else◌}

abbrev pub Dict : Type 0 → Type 0 → Type 0
Dict K V = List (K × V)

unfoldable pub keys : {K V : Type 0} → Dict K V → List K
keys d = map (λ p. p.0) d

module _ {K V : Type 0} ⦃e : Eq K⦄ where
  -- d.get(k)
  unfoldable pub get : K → Dict K V → Option V
  get k [] = none
  get k ((j, v) ∷ d) = if j == k then some v else get k d

  -- d[k] = v: in place, or at the end
  unfoldable pub put : K → V → Dict K V → Dict K V
  put k v [] = (k, v) ∷ []
  put k v ((j, w) ∷ d) = if j == k then (j, v) ∷ d else (j, w) ∷ put k v d

  -- d.pop(k, None)
  unfoldable pub remove : K → Dict K V → Dict K V
  remove k [] = []
  remove k ((j, w) ∷ d) = let rest = remove k d in if j == k then rest else (j, w) ∷ rest

  pub get-put :
      (k j : K) (v : V) (d : Dict K V) → get j (put k v d) ≡ (if k == j then some v else get j d)
  unfolding get put
  get-put k j v [] = refl
  get-put k j v ((i, w) ∷ d) =
      ground (arith, e.beq_iff k j, e.beq_iff i k, e.beq_iff i j, get-put k j v d)

  pub get-remove :
      (k j : K) (d : Dict K V) → get j (remove k d) ≡ (if k == j then none else get j d)
  unfolding get remove
  get-remove k j [] = ground arith
  get-remove k j ((i, w) ∷ d) =
      ground (arith, e.beq_iff k j, e.beq_iff i k, e.beq_iff i j, get-remove k j d)

pub ruleset dict_laws = (get-put, get-remove)

module _ {K V : Type 0} ⦃e : Eq K⦄ (P : V → Type 0) where
  -- Every value of the dictionary meets the predicate.
  abbrev pub Everywhere : Dict K V → Type 0
  Everywhere d = (j : K) (v : V) → get j d ≡ some v → P v

  pub Everywhere-put : (k : K) (v : V) (d : Dict K V) → Everywhere d → P v → Everywhere (put k v d)
  Everywhere-put k v d all p j w h = elim (Bool-cases (k == j)) [
    | inl same ↦ let vw : v ≡ w = ground (arith, get-put k j v d) in subst P vw p
    | inr differ ↦ all j w (ground (arith, get-put k j v d))
  ]

module _ {K V : Type 0} ⦃e : Eq K⦄ where
  pub get-put_self : (k : K) (v : V) (d : Dict K V) → get k (put k v d) ≡ some v
  get-put_self k v d = ground (arith, get-put k k v d, e.beq_iff k k)

module _ {K V : Type 0} ⦃e : Eq K⦄ where
  -- No key stands twice.
  abbrev pub IsKeyed : Dict K V → Type 0
  IsKeyed [] = Unit
  IsKeyed ((k, v) ∷ d) = (get k d ≡ none) × IsKeyed d

  -- UPDATE: each value anew, from its key and the old value.
  unfoldable pub map_entries : (K → V → V) → Dict K V → Dict K V
  map_entries f [] = []
  map_entries f ((k, v) ∷ d) = (k, f k v) ∷ map_entries f d

  pub get-map_entries :
      (f : K → V → V) (j : K) (v : V) (d : Dict K V)
      → get j d ≡ some v
      → get j (map_entries f d) ≡ some (f j v)
  unfolding get map_entries
  get-map_entries f j v [] h = ground arith
  get-map_entries f j v ((k, w) ∷ d) h = ground (arith, e.beq_iff k j, get-map_entries f j v d)

  -- SELECT of the keys whose value passes a test.
  unfoldable pub keys_where : (V → Bool) → Dict K V → List K
  keys_where p [] = []
  keys_where p ((k, v) ∷ d) = let rest = keys_where p d in if p v then k ∷ rest else rest

  pub contains-keys_where-none :
      (p : V → Bool) (j : K) (d : Dict K V) → get j d ≡ none → contains j (keys_where p d) ≡ false
  unfolding get keys_where
  contains-keys_where-none p j [] h = refl
  contains-keys_where-none p j ((k, w) ∷ d) h =
      ground (arith, e.beq_iff k j, contains-keys_where-none p j d)

  pub contains-keys_where :
      (p : V → Bool) (j : K) (v : V) (d : Dict K V)
      → IsKeyed d
      → get j d ≡ some v
      → contains j (keys_where p d) ≡ p v
  unfolding get keys_where
  contains-keys_where p j v [] keyed h = ground arith
  contains-keys_where p j v ((k, w) ∷ d) keyed h =
      ground
        (arith, e.beq_iff k j, contains-keys_where-none p j d, contains-keys_where p j v d, keyed.1)
