-- ===== src/Workflows/Coherence.antt =====
-- What the cache of src/lib/cache.py serves while src/api/workflows.py changes the workflows.
use workflow_automation_engi.Cache.{CacheEntry, WorkflowCache, invalidate, holds, remove_entry}
use workflow_automation_engi.Workflows.{
  Store, ApiEnv, CreateRequest, UpdateRequest, created, create_workflow, update_workflow,
  delete_workflow, committed, deleted, stored, checked,
}
use workflow_automation_engi.Cache.Paths.{get-of_not_held}
use workflow_automation_engi.Prelude.{
  ℕ, get, get-remove, ◌≡◌, some, false, Bool-cases, inl, inr, arith, nat_key, nat_eq_iff, nat_eq,
  Result, get-put, none, ok, err,
}
use workflow_automation_engi.Db.{Workflow}

-- Every cached workflow is the row of the table.
abbrev pub IsCoherent : Store → Type 0
IsCoherent store =
    (id : ℕ) (e : CacheEntry)
    → get id store.cache.entries ≡ some e
    → get id store.workflows ≡ some e.workflow

get-invalidate :
    (id j : ℕ) (c : WorkflowCache) (e : CacheEntry)
    → get j (invalidate id c).entries ≡ some e
    → (nat_eq id j ≡ false) × (get j c.entries ≡ some e)
unfolding invalidate remove_entry
get-invalidate id j c e h = elim (Bool-cases (holds id c)) [
  | inl there ↦
      let r = rw there at h in
      (ground (arith, r, get-remove id j c.entries), ground (arith, r, get-remove id j c.entries))
  | inr gone ↦
      let r = rw gone at h in
      let missing = get-of_not_held id c.entries gone in
      (ground (arith, r, missing, nat_eq_iff id j), r)
]

module _ (env : ApiEnv) (id tenant_id : ℕ) (store : Store) (coherent : IsCoherent store) where
  committed-IsCoherent : (r : Result Workflow) → IsCoherent (committed env id r store).1
  unfolding committed
  committed-IsCoherent (err x) j e h = coherent j e h
  committed-IsCoherent (ok w) j e h =
      let (differ, cached) = get-invalidate id j store.cache e h in
      ground (arith, get-put id j w store.workflows, coherent j e cached)

  deleted-IsCoherent : (r : Result Workflow) → IsCoherent (deleted env id r store).1
  unfolding deleted
  deleted-IsCoherent (err x) j e h = coherent j e h
  deleted-IsCoherent (ok w) j e h =
      let (differ, cached) = get-invalidate id j store.cache e h in
      ground (arith, get-remove id j store.workflows, coherent j e cached)

  -- A change of a workflow and its deletion, whether they succeed or are refused, leave no workflow
  -- in the cache that differs from its row or has none, if there was none before.
  pub changes-IsCoherent :
      (body : UpdateRequest)
      → IsCoherent (update_workflow env id tenant_id body store).1
        × IsCoherent (delete_workflow env id tenant_id store).1
  unfolding update_workflow delete_workflow
  changes-IsCoherent body = (committed-IsCoherent _, deleted-IsCoherent _)

-- A new workflow, whose identifier no row has, leaves no workflow in the cache that differs from
-- its row or has none, if there was none before.
pub create_workflow-IsCoherent :
    (env : ApiEnv) (tenant_id : ℕ) (body : CreateRequest) (store : Store)
    → IsCoherent store
    → get (env.id_at store.generated) store.workflows ≡ none
    → IsCoherent (create_workflow env tenant_id body store).1
unfolding create_workflow
create_workflow-IsCoherent env tenant_id body store coherent fresh =
    stored-IsCoherent (checked env body.name body.trigger_type body.steps)
  where
    stored-IsCoherent :
        (r : Result (Unit {0}))
        → IsCoherent (stored env r (created env tenant_id body store.generated) store).1
    stored-IsCoherent (err x) j e h = coherent j e h
    stored-IsCoherent (ok u) j e h =
        unfold stored in
        ground (
          arith,
          get-put (env.id_at store.generated) j (created env tenant_id body store.generated)
              store.workflows,
          coherent j e h,
          nat_eq_iff (env.id_at store.generated) j,
          fresh,
        )
