-- ===== src/Jobs/Stale.antt =====
-- What the clean-up of src/queue/jobs.py changes.
use workflow_automation_engi.Jobs.{
  stale_threshold, is_stale, fail_stale, fail_all_stale, cleanup_stale_executions, Env,
}
use workflow_automation_engi.Prelude.{
  if◌then◌else◌, get, get-map_entries, keys_where, ℕ, ◌+◌, ◌-◌, ◌≡◌, some, List, [], ◌∷◌, IsKeyed,
  Bool-cases, contains, contains-keys_where, refl, inl, inr, nat_key,
}
use workflow_automation_engi.Engine.Session.{Env, Session, Execution}

module _ (env : Env) (s : Session) (keyed : IsKeyed s.executions) where
  -- The time before which a running execution is stale, and the time that is set.
  abbrev pub cutoff : ℕ
  cutoff = env.time_at s.clock_reads - stale_threshold

  abbrev pub set_at : ℕ
  set_at = env.time_at (s.clock_reads + 1)

  ids : List ℕ
  ids = keys_where (is_stale cutoff) s.executions

  fail_all_executions :
      (stale_ids : List ℕ) (now id : ℕ) (t : Session) (row : Execution)
      → get id t.executions ≡ some row
      → get id (fail_all_stale now stale_ids t).1.executions
        ≡ some (fail_stale now stale_ids id row)
  unfolding fail_all_stale
  fail_all_executions [] now id t row h = h
  fail_all_executions (i ∷ l) now id t row h =
      get-map_entries (fail_stale now (i ∷ l)) id row t.executions h

  -- An execution is failed by the clean-up, at the time of its run, exactly if it was running since
  -- before the cutoff; any other execution is left as it is.
  pub cleanup_executions :
      (id : ℕ) (row : Execution)
      → get id s.executions ≡ some row
      → (row' : Execution) × (get id (cleanup_stale_executions env s).1.executions ≡ some row')
        × (if is_stale cutoff row
            then (row'.status ≡ "failed") × (row'.completed_at ≡ some set_at)
            else (row' ≡ row))
  unfolding cleanup_stale_executions fail_stale ids
  cleanup_executions id row h =
      let listed : contains id ids ≡ is_stale cutoff row =
        contains-keys_where (is_stale cutoff) id row s.executions keyed h in
      (
        fail_stale set_at ids id row,
        fail_all_executions ids set_at id _ row h,
        elim (Bool-cases (is_stale cutoff row)) [
          | inl stale ↦ rw (listed, stale) (refl, refl)
          | inr fresh ↦ rw (listed, fresh) refl
        ],
      )
