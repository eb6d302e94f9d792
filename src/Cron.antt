-- ===== src/Cron.antt =====
-- src/triggers/cron.py: the scheduler of cron workflows. What keeps the jobs is APScheduler, a
-- parameter with the laws of its job store; so is what `CronTrigger` accepts.
pub mod Schedule
mod Tests
use mathlib.Core.Option.{get_or}
use workflow_automation_engi.Prelude.{
  Result, ok, if◌then◌else◌, ◌==◌, Value, Fields, find, take, select, Message, Exception, ◌>>=◌,
  Dict, get, codes, is_space, strip, ℕ, String, ◌≡◌, Bool, true, false, ◌&&◌, Option, none, some,
  List, [], ◌∷◌, ◌++◌, str, field, end, err, other, part, nat_key, string_key,
}
use workflow_automation_engi.Db.{Workflow}
use workflow_automation_engi.Services.{Starter}
use workflow_automation_engi.Engine.Session.{Session, Execution}
use workflow_automation_engi.Steps.{is_falsy}

-- The five fields of an expression, as code points.
pub record CronFields : Type 0 where
  pub minute : List ℕ
  pub hour : List ℕ
  pub day : List ℕ
  pub month : List ℕ
  pub day_of_week : List ℕ

-- What `_execute_cron_workflow` is called with, and when.
pub record Job : Type 0 where
  pub workflow_id : ℕ
  pub tenant_id : ℕ
  pub fields : CronFields

-- The ValueError of `CronTrigger(...)`, without and with the timezone; the limit of the settings.
pub record CronEnv : Type 0 where
  pub trigger_error : Bool → CronFields → Option Message
  pub max_cron_workflows : ℕ

-- The jobs of a scheduler, by the workflow in `id=f"cron_{wf.id}"`, with `replace_existing=True`.
pub record JobStore : Type 1 where
  pub Jobs : Type 0
  pub empty : Jobs
  pub add_job : ℕ → Job → Jobs → Jobs
  pub get_job : ℕ → Jobs → Option Job
  pub remove_job : ℕ → Jobs → Jobs
  pub get_job-empty : (j : ℕ) → get_job j empty ≡ none
  pub get_job-add_job :
      (k j : ℕ) (job : Job) (s : Jobs)
      → get_job j (add_job k job s) ≡ (if k == j then some job else get_job j s)
  pub get_job-remove_job :
      (k j : ℕ) (s : Jobs) → get_job j (remove_job k s) ≡ (if k == j then none else get_job j s)

-- A ValueError is caught by the callers; another exception is not.
pub data Parsed : Type 0 where
  parsed : CronFields → Parsed
  value_error : Message → Parsed
  raised : Exception → Parsed

word_before : List ℕ → List (List ℕ) → List (List ℕ)
word_before [] words = words
word_before (c ∷ cs) words = (c ∷ cs) ∷ words

-- `str.split()`, where `word` is what stands since the last space
split_words : List ℕ → List ℕ → List (List ℕ)
unfolding word_before
split_words word [] = word_before word []
split_words word (c ∷ cs) =
    let ended = word_before word (split_words [] cs) in
    let going = split_words (word ++ c ∷ []) cs in if is_space c then ended else going

module _ (env : CronEnv) where
  checked_fields : Message → CronFields → Option Message → Parsed
  checked_fields start fields none = parsed fields
  checked_fields start fields (some exc) = value_error (start ++ exc)

  fields_of : String → List (List ℕ) → Parsed
  unfolding checked_fields
  fields_of expression (minute ∷ hour ∷ day ∷ month ∷ day_of_week ∷ []) =
      let fields : CronFields = record {
        minute = minute;
        hour = hour;
        day = day;
        month = month;
        day_of_week = day_of_week;
      } in
      checked_fields (part "Invalid cron expression: " ∷ part expression ∷ part ". " ∷ []) fields
        (env.trigger_error false fields)
  fields_of expression parts = value_error (
      part "Invalid cron expression: "
      ∷ part expression
      ∷ part ". Expected 5 fields: minute hour day month day_of_week"
      ∷ [])

  unfoldable pub parse_cron_expression : Value → Parsed
  unfolding fields_of split_words
  parse_cron_expression (str expression) =
      fields_of expression (split_words [] (strip (codes expression)))
  parse_cron_expression _ = raised (other (part "object has no attribute 'strip'" ∷ []))

  job_from : Workflow → Parsed → Result (Option Job)
  job_from w (parsed fields) = elim (env.trigger_error true fields) [
    | none ↦ ok (some (record { workflow_id = w.id; tenant_id = w.tenant_id; fields = fields }))
    | some exc ↦ ok none
  ]
  job_from w (value_error exc) = ok none
  job_from w (raised exc) = err exc

  -- The job that a workflow gets, if any: it has an expression that is valid.
  unfoldable pub job_of : Workflow → Result (Option Job)
  unfolding job_from parse_cron_expression
  job_of w =
      let cron_expr = get_or (find "cron_expression" w.trigger_config) (str "") in
      if is_falsy cron_expr then ok none else job_from w (parse_cron_expression cron_expr)

  unfoldable pub load_cron_workflows : List Workflow → List Workflow
  load_cron_workflows rows =
      take env.max_cron_workflows (select (λ w. w.trigger_type == "cron" && w.is_active) rows)

  module _ (store : JobStore) where
    open store use {Jobs, empty, add_job, get_job, remove_job}

    put_job : ℕ → Jobs → Result (Option Job) → Result Jobs
    put_job id jobs (ok none) = ok jobs
    put_job id jobs (ok (some job)) = ok (add_job id job jobs)
    put_job id jobs (err exc) = err exc

    -- One round of the loop of `start_scheduler`, and the body of `add_cron_job`.
    unfoldable pub schedule : Workflow → Jobs → Result Jobs
    unfolding put_job
    schedule w jobs = put_job w.id jobs (job_of w)

    unfoldable pub schedule_all : List Workflow → Jobs → Result Jobs
    unfolding schedule
    schedule_all [] jobs = ok jobs
    schedule_all (w ∷ rows) jobs = schedule w jobs >>= λ jobs'. schedule_all rows jobs'

    -- The new value of `_scheduler`.
    unfoldable pub start_scheduler : List Workflow → Result (Option Jobs)
    unfolding schedule_all load_cron_workflows
    start_scheduler rows = schedule_all (load_cron_workflows rows) empty >>= λ jobs. ok (some jobs)

    unfoldable pub stop_scheduler : Option Jobs → Option Jobs
    stop_scheduler scheduler = none

    unfoldable pub add_cron_job : Workflow → Option Jobs → Result (Option Jobs)
    unfolding schedule
    add_cron_job w none = ok none
    add_cron_job w (some jobs) = schedule w jobs >>= λ jobs'. ok (some jobs')

    remove_found : ℕ → Jobs → Option Job → Jobs
    remove_found workflow_id jobs none = jobs
    remove_found workflow_id jobs (some job) = remove_job workflow_id jobs

    unfoldable pub remove_cron_job : ℕ → Option Jobs → Option Jobs
    unfolding remove_found
    remove_cron_job workflow_id none = none
    remove_cron_job workflow_id (some jobs) =
        some (remove_found workflow_id jobs (get_job workflow_id jobs))

abbrev pub cron_trigger_data : String → Fields
cron_trigger_data scheduled_time =
    field "triggered_by" (str "cron") (field "scheduled_time" (str scheduled_time) end)

-- The session is committed, or closed by an exception, which rolls back the rows that it wrote.
after_run : Session → Result Execution × Session → Session
after_run s (ok execution, s') = s'
after_run s (err x, s') = record s' {
  executions = s.executions;
  step_executions = s.step_executions;
}

-- `_execute_cron_workflow`: every exception ends here.
unfoldable pub execute_cron_workflow :
    Starter → Dict ℕ Workflow → String → ℕ → ℕ → Session → Session
unfolding after_run
execute_cron_workflow start workflows scheduled_time workflow_id tenant_id s =
    elim (get workflow_id workflows) [
      | none ↦ s
      | some w ↦
          if w.is_active
          then after_run s (start w (cron_trigger_data scheduled_time) tenant_id none s)
          else s
    ]
