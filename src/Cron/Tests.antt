-- ===== src/Cron/Tests.antt =====
-- Examples for the scheduler: a dictionary as the job store, and a workflow of every minute.
use workflow_automation_engi.Cron.Schedule.{
  Refines, run, replay, started, added, removed, run-Refines, CronEvent,
}
use workflow_automation_engi.Db.{Workflow}
use workflow_automation_engi.Cron.{Job, CronEnv, JobStore, parse_cron_expression, parsed}
use workflow_automation_engi.Prelude.{
  Dict, get, put, remove, get-put, get-remove, is_space, strip_left, ℕ, ◌≡◌, refl, true, none, List,
  [], ◌∷◌, str, field, end, nat_key, codes, strip,
}

get-empty : (j : ℕ) → get j (let d : Dict ℕ Job = [] in d) ≡ none
unfolding get
get-empty j = refl

abbrev dict_store : JobStore
dict_store = record {
  Jobs = Dict ℕ Job;
  empty = [];
  add_job = put;
  get_job = get;
  remove_job = remove;
  get_job-empty = get-empty;
  get_job-add_job = λ k j job s. get-put k j job s;
  get_job-remove_job = λ k j s. get-remove k j s;
}

abbrev accepts : CronEnv
accepts = record { trigger_error = λ zoned fields. none; max_cron_workflows = 10 }

abbrev every_minute : Workflow
every_minute = record {
  id = 3;
  tenant_id = 1;
  name = "report";
  description = none;
  trigger_type = "cron";
  trigger_config = field "cron_expression" (str "* * * * *") end;
  steps = [];
  is_active = true;
  webhook_path = none;
  webhook_secret = none;
  created_at = 0;
  updated_at = 0;
}

abbrev test_events : List CronEvent
test_events = started [] ∷ added every_minute ∷ removed 4 ∷ []

run-Refines_example :
    Refines accepts dict_store
      (run accepts dict_store test_events none)
      (replay accepts test_events none)
run-Refines_example = run-Refines accepts dict_store test_events none none tt

-- Five fields between spaces are parsed, in order.
expression_parsed :
    parse_cron_expression accepts (str " 5 4 * *  1")
    ≡ parsed (record {
      minute = codes "5";
      hour = codes "4";
      day = codes "*";
      month = codes "*";
      day_of_week = codes "1";
    })
unfolding parse_cron_expression is_space strip strip_left
expression_parsed = refl
