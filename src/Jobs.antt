-- ===== src/Jobs.antt =====
-- src/queue/jobs.py: the periodic jobs. Times are in microseconds, as a `timedelta` counts them.
pub mod Stale
mod Tests
use workflow_automation_engi.Engine.Session.{
  Env, Execution, StepExecution, Session, Action, ◌>>=◌, utc_now,
}
use workflow_automation_engi.Prelude.{
  ltb, if◌then◌else◌, ◌==◌, length, select, contains, map_entries, keys_where, ℕ, ◌-◌, ◌*◌, Bool,
  false, not, ◌&&◌, Option, none, some, List, [], ◌∷◌, ok, part, nat_key, string_key,
}

abbrev pub stale_threshold : ℕ
stale_threshold = 3_600_000_000

abbrev pub log_retention : ℕ
log_retention = 30 * 86_400_000_000

abbrev pub webhook_retention : ℕ
webhook_retention = 7 * 86_400_000_000

-- SQL's `started_at < cutoff`, which a NULL does not meet
abbrev pub before : Option ℕ → ℕ → Bool
before none cutoff = false
before (some t) cutoff = ltb t cutoff

abbrev pub is_stale : ℕ → Execution → Bool
is_stale cutoff ex = ex.status == "running" && before ex.started_at cutoff

unfoldable pub fail_stale : ℕ → List ℕ → ℕ → Execution → Execution
fail_stale now stale_ids id ex =
    if contains id stale_ids
    then record ex {
      status = "failed";
      error = some (part "Execution timed out (stale)" ∷ []);
      completed_at = some now;
    }
    else ex

unfoldable pub fail_stale_step : ℕ → List ℕ → ℕ → StepExecution → StepExecution
fail_stale_step now stale_ids id se =
    if contains se.execution_id stale_ids
      && contains se.status ("pending" ∷ "running" ∷ "queued" ∷ [])
    then record se {
      status = "failed";
      error = some (part "Parent execution timed out (stale)" ∷ []);
      completed_at = some now;
    }
    else se

-- The two UPDATE statements, or none of them where no execution is stale.
unfoldable pub fail_all_stale : ℕ → List ℕ → Action ℕ
unfolding fail_stale fail_stale_step
fail_all_stale now [] s = (ok 0, s)
fail_all_stale now (id ∷ ids) s = (
  ok (length (id ∷ ids)),
  record s {
    executions = map_entries (fail_stale now (id ∷ ids)) s.executions;
    step_executions = map_entries (fail_stale_step now (id ∷ ids)) s.step_executions;
  },
)

unfoldable pub cleanup_stale_executions : Env → Action ℕ
unfolding fail_all_stale utc_now
cleanup_stale_executions env = do
  first ← utc_now env
  now ← utc_now env
  λ s. fail_all_stale now (keys_where (is_stale (first - stale_threshold)) s.executions) s

-- A row of execution_logs or of webhook_deliveries, as the pruning reads it.
pub record Dated : Type 0 where
  pub id : ℕ
  pub created_at : ℕ

-- DELETE FROM ... WHERE created_at < now - retention, and its row count
unfoldable pub prune : ℕ → ℕ → List Dated → ℕ × List Dated
prune now retention rows =
    let kept = select (λ row. not (ltb row.created_at (now - retention))) rows in
    (length rows - length kept, kept)

unfoldable pub prune_execution_logs : ℕ → List Dated → ℕ × List Dated
unfolding prune
prune_execution_logs now rows = prune now log_retention rows

unfoldable pub prune_webhook_deliveries : ℕ → List Dated → ℕ × List Dated
unfolding prune
prune_webhook_deliveries now rows = prune now webhook_retention rows
