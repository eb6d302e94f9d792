-- ===== src/Cache.antt =====
-- src/lib/cache.py: the LRU cache of workflows with an index by webhook path.
-- A reading of `time.monotonic()` is an argument, in ticks, as is the time to live.
pub mod Bounds
use mathlib.Core.Option
pub mod Paths
mod Tests
use workflow_automation_engi.Db.{Workflow}
use workflow_automation_engi.Prelude.{
  leb, if◌then◌else◌, ◌==◌, length, contains, Dict, get, put, remove, ℕ, ◌+◌, String, Bool, Option,
  none, some, [], ◌∷◌, ◌++◌, map, nat_key, string_key,
}

pub record CacheEntry : Type 0 where
  pub workflow : Workflow
  pub expires_at : ℕ

-- `entries` is the OrderedDict, the least recently used first.
pub record WorkflowCache : Type 0 where
  pub max_size : ℕ
  pub ttl : ℕ
  pub entries : Dict ℕ CacheEntry
  pub path_index : Dict String ℕ

-- `if path:` of an optional text
abbrev pub given : Option String → Option String
given none = none
given (some path) = if path == "" then none else some path

drop_path : Option String → Dict String ℕ → Dict String ℕ
drop_path none index = index
drop_path (some path) index = remove path index

-- `entry = entries.get(id); if entry and entry.workflow.webhook_path: ...`
drop_entry_path : Option CacheEntry → Dict String ℕ → Dict String ℕ
unfolding drop_path
drop_entry_path none index = index
drop_entry_path (some entry) index = drop_path (given entry.workflow.webhook_path) index

unfoldable pub remove_path_index : ℕ → WorkflowCache → WorkflowCache
unfolding drop_entry_path
remove_path_index id c = record c { path_index = drop_entry_path (get id c.entries) c.path_index }

-- `_remove`
unfoldable pub remove_entry : ℕ → WorkflowCache → WorkflowCache
unfolding remove_path_index
remove_entry id c = let c' = remove_path_index id c in record c' { entries = remove id c'.entries }

hit : ℕ → ℕ → WorkflowCache → Option CacheEntry → Option Workflow × WorkflowCache
unfolding remove_entry
hit now id c none = (none, c)
hit now id c (some entry) =
    if leb entry.expires_at now
    then (none, remove_entry id c)
    else (some entry.workflow, record c { entries = remove id c.entries ++ (id, entry) ∷ [] })

unfoldable pub get_by_id : ℕ → ℕ → WorkflowCache → Option Workflow × WorkflowCache
unfolding hit
get_by_id now id c = hit now id c (get id c.entries)

by_path : ℕ → WorkflowCache → Option ℕ → Option Workflow × WorkflowCache
unfolding get_by_id
by_path now c none = (none, c)
by_path now c (some id) = get_by_id now id c

unfoldable pub get_by_webhook_path : ℕ → String → WorkflowCache → Option Workflow × WorkflowCache
unfolding by_path
get_by_webhook_path now path c = by_path now c (get path c.path_index)

-- The loop `while len(entries) >= max_size`; none is the KeyError of `popitem` at no entry.
unfoldable pub evict_loop : Dict ℕ CacheEntry → WorkflowCache → Option WorkflowCache
unfolding remove_path_index
evict_loop [] c = if leb c.max_size 0 then none else some (record c { entries = [] })
evict_loop ((oldest_id, entry) ∷ rest) c =
    let go_on = evict_loop rest (remove_path_index oldest_id (record c { entries = rest })) in
    if leb c.max_size (length rest + 1)
    then go_on
    else some (record c { entries = (oldest_id, entry) ∷ rest })

unfoldable pub evict : WorkflowCache → Option WorkflowCache
unfolding evict_loop
evict c = evict_loop c.entries c

index_path : Option String → ℕ → Dict String ℕ → Dict String ℕ
index_path none id index = index
index_path (some path) id index = put path id index

-- `entries[id] = entry; move_to_end(id)`, and the path's index
unfoldable pub insert_entry : ℕ → Workflow → WorkflowCache → WorkflowCache
unfolding index_path
insert_entry now w c = record c {
  entries = remove w.id c.entries ++ (w.id, record { workflow = w; expires_at = now + c.ttl }) ∷ [];
  path_index = index_path (given w.webhook_path) w.id c.path_index;
}

abbrev pub holds : ℕ → WorkflowCache → Bool
holds id c = contains id (map (λ p. p.0) c.entries)

unfoldable pub set : ℕ → Workflow → WorkflowCache → Option WorkflowCache
unfolding remove_entry evict insert_entry
set now w c =
    Option.map (insert_entry now w) (evict (if holds w.id c then remove_entry w.id c else c))

unfoldable pub invalidate : ℕ → WorkflowCache → WorkflowCache
unfolding remove_entry
invalidate id c = if holds id c then remove_entry id c else c

unfoldable pub clear : WorkflowCache → WorkflowCache
clear c = record c { entries = []; path_index = [] }

unfoldable pub stats : WorkflowCache → ℕ × ℕ
stats c = (length c.entries, c.max_size)
