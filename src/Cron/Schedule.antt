-- ===== src/Cron/Schedule.antt =====
-- What the scheduler of src/triggers/cron.py does, against a plain table of jobs.
use workflow_automation_engi.Cron.{
  CronEnv, Job, JobStore, job_of, load_cron_workflows, schedule_all, start_scheduler,
  stop_scheduler, add_cron_job, remove_cron_job, put_job, remove_found,
}
use workflow_automation_engi.Db.{Workflow}
use workflow_automation_engi.Prelude.{
  if◌then◌else◌, ◌==◌, Result, ◌>>=◌, ℕ, ◌≡◌, refl, ap, ◌∙◌, Option, none, some, List, [], ◌∷◌,
  arith, ok, err, nat_key, nat_eq_iff,
}

-- The abstract table: the job of each workflow.
abbrev pub Table : Type 0
Table = ℕ → Option Job

abbrev pub set_job : ℕ → Job → Table → Table
set_job id job table j = if id == j then some job else table j

abbrev pub clear_job : ℕ → Table → Table
clear_job id table j = if id == j then none else table j

-- What can happen to the scheduler.
pub data CronEvent : Type 0 where
  started : List Workflow → CronEvent
  added : Workflow → CronEvent
  removed : ℕ → CronEvent
  stopped : CronEvent

-- A call that raises leaves the scheduler as it was.
abbrev pub or_old : {A : Type 0} → A → Result A → A
or_old old (ok new) = new
or_old old (err exc) = old

module _ (env : CronEnv) where
  put_entry : ℕ → Table → Result (Option Job) → Result Table
  put_entry id table (ok none) = ok table
  put_entry id table (ok (some job)) = ok (set_job id job table)
  put_entry id table (err exc) = err exc

  enter_all : List Workflow → Table → Result Table
  unfolding put_entry
  enter_all [] table = ok table
  enter_all (w ∷ rows) table =
      put_entry w.id table (job_of env w) >>= λ table'. enter_all rows table'

  -- The same events on a table; there is none while no scheduler is started.
  pub table_after : CronEvent → Option Table → Option Table
  unfolding enter_all put_entry
  table_after (started rows) table =
      or_old table
        (enter_all (load_cron_workflows env rows) (λ j. none) >>= λ table'. ok (some table'))
  table_after (added w) none = none
  table_after (added w) (some table) =
      or_old (some table) (put_entry w.id table (job_of env w) >>= λ table'. ok (some table'))
  table_after (removed id) none = none
  table_after (removed id) (some table) = some (clear_job id table)
  table_after stopped table = none

  pub replay : List CronEvent → Option Table → Option Table
  replay [] table = table
  replay (event ∷ events) table = replay events (table_after event table)

  module _ (store : JobStore) where
    open store use {Jobs, get_job}

    pub scheduler_after : CronEvent → Option Jobs → Option Jobs
    scheduler_after (started rows) scheduler = or_old scheduler (start_scheduler env store rows)
    scheduler_after (added w) scheduler = or_old scheduler (add_cron_job env store w scheduler)
    scheduler_after (removed id) scheduler = remove_cron_job env store id scheduler
    scheduler_after stopped scheduler = stop_scheduler env store scheduler

    pub run : List CronEvent → Option Jobs → Option Jobs
    run [] scheduler = scheduler
    run (event ∷ events) scheduler = run events (scheduler_after event scheduler)

    abbrev Reads : Jobs → Table → Type 0
    Reads jobs table = (j : ℕ) → get_job j jobs ≡ table j

    -- Both are there, and the jobs are those of the table, or neither is.
    abbrev pub Refines : Option Jobs → Option Table → Type 0
    Refines none none = Unit
    Refines (some jobs) (some table) = (j : ℕ) → get_job j jobs ≡ table j
    Refines none (some table) = ⊥
    Refines (some jobs) none = ⊥

    abbrev Agree : Result Jobs → Result Table → Type 0
    Agree (ok jobs) (ok table) = Reads jobs table
    Agree (err x) (err y) = x ≡ y
    Agree (ok jobs) (err y) = ⊥
    Agree (err x) (ok table) = ⊥

    Agree-bind :
        (a : Result Jobs) (b : Result Table) (f : Jobs → Result Jobs) (g : Table → Result Table)
        → Agree a b
        → ((jobs : Jobs) (table : Table) → Reads jobs table → Agree (f jobs) (g table))
        → Agree (a >>= f) (b >>= g)
    Agree-bind (ok jobs) (ok table) f g h k = k jobs table h
    Agree-bind (err x) (err y) f g h k = h
    Agree-bind (ok jobs) (err y) f g h k = absurd h
    Agree-bind (err x) (ok table) f g h k = absurd h

    put-Agree :
        (id : ℕ) (jobs : Jobs) (table : Table) (r : Result (Option Job))
        → Reads jobs table
        → Agree (put_job env store id jobs r) (put_entry id table r)
    unfolding put_job put_entry
    put-Agree id jobs table (ok none) h = h
    put-Agree id jobs table (ok (some job)) h =
        λ j. store.get_job-add_job id j job jobs ∙ ap (λ o. if id == j then some job else o) (h j)
    put-Agree id jobs table (err exc) h = refl

    all-Agree :
        (rows : List Workflow) (jobs : Jobs) (table : Table)
        → Reads jobs table
        → Agree (schedule_all env store rows jobs) (enter_all rows table)
    unfolding schedule_all enter_all
    all-Agree [] jobs table h = h
    all-Agree (w ∷ rows) jobs table h =
        Agree-bind (put_job env store w.id jobs (job_of env w))
          (put_entry w.id table (job_of env w)) _ _ (put-Agree w.id jobs table (job_of env w) h)
          (λ jobs' table' h'. all-Agree rows jobs' table' h')

    Refines-or_old :
        (scheduler : Option Jobs) (table : Option Table) (a : Result Jobs) (b : Result Table)
        → Refines scheduler table
        → Agree a b
        → Refines
            (or_old scheduler (a >>= λ jobs. ok (some jobs)))
            (or_old table (b >>= λ table'. ok (some table')))
    Refines-or_old scheduler table (ok jobs) (ok table') h k = k
    Refines-or_old scheduler table (err x) (err y) h k = h
    Refines-or_old scheduler table (ok jobs) (err y) h k = absurd k
    Refines-or_old scheduler table (err x) (ok table') h k = absurd k

    removed-Reads :
        (id : ℕ) (jobs : Jobs) (table : Table) (o : Option Job)
        → get_job id jobs ≡ o
        → Reads jobs table
        → Reads (remove_found env store id jobs o) (clear_job id table)
    unfolding remove_found
    removed-Reads id jobs table none gone h j = ground (arith, h j, h id, gone, nat_eq_iff id j)
    removed-Reads id jobs table (some job) found h j =
        store.get_job-remove_job id j jobs ∙ ap (λ o. if id == j then none else o) (h j)

    event-Refines :
        (event : CronEvent) (scheduler : Option Jobs) (table : Option Table)
        → Refines scheduler table
        → Refines (scheduler_after event scheduler) (table_after event table)
    unfolding scheduler_after table_after start_scheduler add_cron_job remove_cron_job
        stop_scheduler
    event-Refines (started rows) scheduler table h =
        Refines-or_old scheduler table _ _ h
          (all-Agree (load_cron_workflows env rows) store.empty (λ j. none) store.get_job-empty)
    event-Refines (added w) none none h = tt
    event-Refines (added w) (some jobs) (some table) h =
        Refines-or_old (some jobs) (some table) _ _ h (put-Agree w.id jobs table (job_of env w) h)
    event-Refines (added w) none (some table) h = absurd h
    event-Refines (added w) (some jobs) none h = absurd h
    event-Refines (removed id) none none h = tt
    event-Refines (removed id) (some jobs) (some table) h =
        removed-Reads id jobs table (get_job id jobs) refl h
    event-Refines (removed id) none (some table) h = absurd h
    event-Refines (removed id) (some jobs) none h = absurd h
    event-Refines stopped scheduler table h = tt

    -- Through any sequence of starts, stops, additions and removals, those that raise included, the
    -- jobs of the scheduler are those of a plain table on which the same events happen.
    pub run-Refines :
        (events : List CronEvent) (scheduler : Option Jobs) (table : Option Table)
        → Refines scheduler table
        → Refines (run events scheduler) (replay events table)
    unfolding run replay
    run-Refines [] scheduler table h = h
    run-Refines (event ∷ events) scheduler table h =
        run-Refines events (scheduler_after event scheduler) (table_after event table)
          (event-Refines event scheduler table h)
