-- ===== src/Cache/Tests.antt =====
-- Examples for src/lib/cache.py: a full cache of one entry.
use workflow_automation_engi.Db.{Workflow}
use workflow_automation_engi.Cache.{
  CacheEntry, WorkflowCache, set, get_by_id, insert_entry, invalidate, evict_loop,
  remove_path_index,
}
use workflow_automation_engi.Cache.Bounds.{set-within}
use workflow_automation_engi.Cache.Paths.{
  get_by_id-insert_entry, get_by_id-invalidate, path_index-evict_loop,
}
use workflow_automation_engi.Prelude.{
  ℕ, String, Dict, ◌≡◌, refl, none, some, true, [], ◌∷◌, end, length, ◌≤◌, leb, if◌then◌else◌,
  arith, IsKeyed, get, nat_key,
}

abbrev test_workflow : ℕ → String → Workflow
test_workflow id path = record {
  id = id;
  tenant_id = 1;
  name = "orders";
  description = none;
  trigger_type = "webhook";
  trigger_config = end;
  steps = [];
  is_active = true;
  webhook_path = some path;
  webhook_secret = none;
  created_at = 0;
  updated_at = 0;
}

abbrev test_entries : Dict ℕ CacheEntry
test_entries = (3, record { workflow = test_workflow 3 "orders"; expires_at = 500 }) ∷ []

abbrev full_cache : WorkflowCache
full_cache = record {
  max_size = 1;
  ttl = 300;
  entries = test_entries;
  path_index = ("orders", 3) ∷ [];
}

set-within_example :
    (c' : WorkflowCache) × (set 200 (test_workflow 4 "users") full_cache ≡ some c')
    × (length c'.entries ≤ c'.max_size)
    × (c'.max_size ≡ 1)
set-within_example = set-within 200 (test_workflow 4 "users") full_cache (omega arith)

get_by_id-insert_entry_example :
    (get_by_id 400 4 (insert_entry 200 (test_workflow 4 "users") full_cache)).0
    ≡ (if leb 500 400 then none else some (test_workflow 4 "users"))
get_by_id-insert_entry_example = get_by_id-insert_entry 200 400 (test_workflow 4 "users") full_cache

get_by_id-invalidate_example : (get_by_id 400 3 (invalidate 3 full_cache)).0 ≡ none
get_by_id-invalidate_example = get_by_id-invalidate 400 3 full_cache

entries_IsKeyed : IsKeyed test_entries
unfolding get
entries_IsKeyed = (refl, tt)

abbrev emptied : WorkflowCache
emptied = record { max_size = 1; ttl = 300; entries = []; path_index = ("orders", 3) ∷ [] }

evicted : evict_loop test_entries full_cache ≡ some emptied
unfolding evict_loop remove_path_index get
evicted = refl

path_index-evict_loop_example : emptied.path_index ≡ full_cache.path_index
path_index-evict_loop_example =
    path_index-evict_loop test_entries full_cache emptied entries_IsKeyed evicted
