-- ===== src/Cache/Paths.antt =====
-- What the cache of src/lib/cache.py answers after `set` and `invalidate`, and its index by webhook path.
use workflow_automation_engi.Db.{Workflow}
use workflow_automation_engi.Cache.{
  CacheEntry, WorkflowCache, remove_path_index, remove_entry, get_by_id, insert_entry, holds,
  invalidate, evict_loop, drop_entry_path,
}
use workflow_automation_engi.Prelude.{
  leb, if◌then◌else◌, nat_eq_iff, Bool-cases, length, contains, Dict, get, remove, get-remove, ℕ,
  ◌+◌, ◌≡◌, refl, ◌∙◌, inl, inr, false, none, some, [], ◌∷◌, ◌++◌, map, arith, nat_key, IsKeyed,
}

get-append_last :
    (id : ℕ) (e : CacheEntry) (d : Dict ℕ CacheEntry)
    → get id d ≡ none
    → get id (d ++ (id, e) ∷ []) ≡ some e
unfolding get
get-append_last id e [] h = ground (arith, nat_eq_iff id id)
get-append_last id e ((j, f) ∷ d) h = ground (arith, get-append_last id e d)

get-remove_self : (id : ℕ) (d : Dict ℕ CacheEntry) → get id (remove id d) ≡ none
get-remove_self id d = ground (arith, get-remove id id d, nat_eq_iff id id)

pub get-of_not_held :
    (id : ℕ) (d : Dict ℕ CacheEntry) → contains id (map (λ p. p.0) d) ≡ false → get id d ≡ none
unfolding get
get-of_not_held id [] h = refl
get-of_not_held id ((j, e) ∷ d) h = ground (arith, get-of_not_held id d)

-- After `invalidate` the workflow is not served by its id at any time.
pub get_by_id-invalidate :
    (now id : ℕ) (c : WorkflowCache) → (get_by_id now id (invalidate id c)).0 ≡ none
unfolding get_by_id invalidate remove_entry
get_by_id-invalidate now id c = elim (Bool-cases (holds id c)) [
  | inl h ↦ rw h (rw (get-remove_self id c.entries))
  | inr h ↦ rw h (rw (get-of_not_held id c.entries h))
]

-- What `insert_entry` puts in is served until its time to live is over, and not from then on.
pub get_by_id-insert_entry :
    (now later : ℕ) (w : Workflow) (c : WorkflowCache)
    → (get_by_id later w.id (insert_entry now w c)).0
      ≡ (if leb (now + c.ttl) later then none else some w)
unfolding get_by_id insert_entry
get_by_id-insert_entry now later w c =
    rw
      (get-append_last w.id (record { workflow = w; expires_at = now + c.ttl })
        (remove w.id c.entries) (get-remove_self w.id c.entries))
      (ground arith)

-- Eviction never changes the index by webhook path: the evicted entry is gone from the entries
-- when its path is looked up, so its path stays in the index.
pub path_index-evict_loop :
    (entries : Dict ℕ CacheEntry) (c c' : WorkflowCache)
    → IsKeyed entries
    → evict_loop entries c ≡ some c'
    → c'.path_index ≡ c.path_index
unfolding evict_loop
path_index-evict_loop [] c c' keyed h = ground arith
path_index-evict_loop ((id, e) ∷ rest) c c' keyed h =
    elim (Bool-cases (leb c.max_size (length rest + 1))) [
      | inl full ↦
          path_index-evict_loop rest (remove_path_index id (record c { entries = rest })) c' keyed.1
            (rw full at h)
          ∙ kept
      | inr room ↦ ground arith
    ]
  where
    kept : (remove_path_index id (record c { entries = rest })).path_index ≡ c.path_index
    kept = unfold remove_path_index drop_entry_path in rw keyed.0
