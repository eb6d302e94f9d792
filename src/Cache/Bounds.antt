-- ===== src/Cache/Bounds.antt =====
-- The size of the cache of src/lib/cache.py.
use mathlib.Core.Option
use workflow_automation_engi.Db.{Workflow}
use workflow_automation_engi.Cache.{
  CacheEntry, WorkflowCache, remove_path_index, evict, insert_entry, set, evict_loop, remove_entry,
  holds,
}
use workflow_automation_engi.Prelude.{
  leb, Bool-cases, length, length-append, Dict, remove, ℕ, ◌+◌, ◌≤◌, ◌<◌, ◌≡◌, inl, inr, some, List,
  [], ◌∷◌, ◌++◌, arith, nat_key, if◌then◌else◌, refl, ap,
}

length-append_one {ℓ} : {A : Type ℓ} (l : List A) (a : A) → length (l ++ a ∷ []) ≡ length l + 1
length-append_one l a = length-append l (a ∷ [])

length-remove-le : (id : ℕ) (d : Dict ℕ CacheEntry) → length (remove id d) ≤ length d
unfolding remove
length-remove-le id [] = omega arith
length-remove-le id ((j, e) ∷ d) = ground (arith, length-remove-le id d)

module _ (max_size : ℕ) (positive : 1 ≤ max_size) where
  evict_loop-lt :
      (entries : Dict ℕ CacheEntry) (c : WorkflowCache)
      → c.max_size ≡ max_size
      → (c' : WorkflowCache) × (evict_loop entries c ≡ some c')
        × (length c'.entries < max_size)
        × (c'.max_size ≡ max_size)
  unfolding evict_loop
  evict_loop-lt [] c same = (record c { entries = [] }, ground arith, omega arith, same)
  evict_loop-lt ((id, e) ∷ rest) c same = elim (Bool-cases (leb c.max_size (length rest + 1))) [
    | inl full ↦
        rw full (evict_loop-lt rest (remove_path_index id (record c { entries = rest })) same)
    | inr room ↦ (record c { entries = (id, e) ∷ rest }, rw room, ground arith, same)
  ]

-- The cache that `set` makes room in.
start : Workflow → WorkflowCache → WorkflowCache
start w c = if holds w.id c then remove_entry w.id c else c

start_keeps :
    (w : Workflow) (c : WorkflowCache)
    → ((start w c).max_size ≡ c.max_size) × ((start w c).ttl ≡ c.ttl)
unfolding start remove_entry
start_keeps w c = elim (Bool-cases (holds w.id c)) [
  | inl h ↦ rw h (refl, refl)
  | inr h ↦ rw h (refl, refl)
]

-- Into a cache with room for at least one entry a workflow is always set, and the cache is then
-- within its capacity, however many entries it held before.
pub set-within :
    (now : ℕ) (w : Workflow) (c : WorkflowCache)
    → 1 ≤ c.max_size
    → (c' : WorkflowCache) × (set now w c ≡ some c')
      × (length c'.entries ≤ c'.max_size)
      × (c'.max_size ≡ c.max_size)
unfolding set evict insert_entry start
set-within now w c positive =
    let (c1, made, room, same) =
      evict_loop-lt c.max_size positive (start w c).entries (start w c) (start_keeps w c).0 in
    (
      insert_entry now w c1,
      ap (Option.map (insert_entry now w)) made,
      omega (
        arith,
        length-remove-le w.id c1.entries,
        length-append_one (remove w.id c1.entries)
            (w.id, record { workflow = w; expires_at = now + c1.ttl }),
      ),
      same,
    )
