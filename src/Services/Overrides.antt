-- ===== src/Services/Overrides.antt =====
-- The trigger data of a replay in src/replay/service.py.
use workflow_automation_engi.Prelude.{
  String, Value, obj, Fields, field, end, find, assign, update, find-assign, Option, none, some, ok,
  ◌≡◌, ◌≢◌, refl, ◌∙◌, inl, inr, Bool-cases, arith, eq_iff, str_eq,
}
use workflow_automation_engi.Services.{merge_overrides}

-- No key of an object stands twice.
abbrev pub AreDistinct : Fields → Type 0
AreDistinct end = Unit
AreDistinct (field k v d) = (find k d ≡ none) × AreDistinct d

-- The first of two answers, if there is one.
abbrev pub or_else : Option Value → Option Value → Option Value
or_else none second = second
or_else (some v) second = some v

find-update :
    (j : String) (overrides d : Fields)
    → AreDistinct overrides
    → find j (update d overrides) ≡ or_else (find j overrides) (find j d)
unfolding find update
find-update j end d distinct = refl
find-update j (field k v overrides) d distinct = elim (Bool-cases (str_eq k j)) [
  | inl same ↦
      find-update j overrides (assign k v d) distinct.1
      ∙ ground (arith, eq_iff k j, find-assign k j v d, distinct.0)
  | inr differ ↦
      find-update j overrides (assign k v d) distinct.1
      ∙ rw (differ, find-assign k j v d, differ) refl
]

-- What a replay with distinct overrides starts with, where the data of the original execution is
-- an object: each key of the data is looked up in the overrides first and then in the data of the
-- original execution, and all else of the trigger data is as it was.
pub merge_overrides-find :
    (trigger_data overrides section : Fields) (k : String) (v : Value)
    → AreDistinct (field k v overrides)
    → find "data" trigger_data ≡ some (obj section)
    → (merged after : Fields) × (merge_overrides trigger_data (field k v overrides) ≡ ok merged)
      × (find "data" merged ≡ some (obj after))
      × ((j : String) → find j after ≡ or_else (find j (field k v overrides)) (find j section))
      × ((j : String) → j ≢ "data" → find j merged ≡ find j trigger_data)
unfolding merge_overrides
merge_overrides-find trigger_data overrides section k v distinct found =
    let after = update section (field k v overrides) in
    (
      assign "data" (obj after) trigger_data,
      after,
      rw found refl,
      ground (arith, find-assign "data" "data" (obj after) trigger_data, eq_iff "data" "data"),
      λ j. find-update j (field k v overrides) section distinct,
      λ j differ. ground (arith, find-assign "data" j (obj after) trigger_data, eq_iff "data" j),
    )
