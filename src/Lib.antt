-- ===== src/Lib.antt =====
-- A model of the workflow automation engine: a service that stores workflows (graphs of steps),
-- starts executions of them by hand, by webhook, on a schedule or by replay, and runs the steps
-- in topological order with retries.
--
-- The parts, the files that model them and the source:
--   Prelude     Python's dict, JSON values, texts, and `AppError` of src/lib/utils.py
--   Db          the rows of src/db/models/workflow.py
--   Engine      src/engine. Session: the rows of executions and steps and what an action does to
--               them; State: state.py; Models, Context: models.py, context.py; Graph, Cycles:
--               graph.py and `_topological_sort`; Parser: parser.py; Orchestrator:
--               `_execute_dag` and what it calls; Start: `start_execution`
--   Steps       src/steps with src/lib/expressions.py: transform.py, condition.py and delay.py;
--               Http, SubWorkflow: http.py, sub_workflow.py; Registry: the dispatch over them;
--               Tenantless, Runs, Unnested: `start_execution` with all of them
--   Queue       `execute_step` of src/queue/tasks.py
--   Cron        src/triggers/cron.py
--   Cache       src/lib/cache.py
--   Jobs        src/queue/jobs.py
--   Access      the rate limit of src/api/middleware/rate_limit.py, the keys of
--               src/api/middleware/auth.py and the tenants of src/tenants/service.py
--   Services    src/triggers/manual.py, src/replay/service.py, and of src/api/executions.py
--               `manual_execute`, `replay_execution_endpoint` and `cancel_execution`; Logs: its
--               `get_execution_logs` and src/engine/logging.py; Detail: its `get_execution`
--               and `stream_execution`, and the answers of src/api/execution_models.py
--   Workflows   the changes of src/api/workflows.py and src/api/workflow_models.py
--   Listing     the lists of src/api/workflows.py and src/api/executions.py with their cursors
--   Webhooks    src/api/webhooks.py and src/triggers/webhook.py
--   Handlers    src/api/middleware/errors.py, as src/main.py registers it
--   Seed        src/tenants/seed.py
--   Monitoring  src/api/health.py and src/api/metrics.py
-- A module Tests in a folder holds examples. A definition has the name of the function that it
-- translates, without a leading underscore (`_remove` of the cache is `remove_entry`).
--
-- State: an `Action` takes the session and gives a result, or the exception raised, with the
-- session after it; what was written before an exception stays written, as in the source, where
-- the orchestrator catches exceptions of a step and goes on in the same database session. An ORM
-- object is its row: reading an attribute reads the row, and an attribute that is assigned is
-- written. A JSON column has a new value only where another document is assigned: putting keys
-- into the document of `execution.context` writes nothing. Logging and commits change nothing
-- that is modelled, and the `details` of an AppError are left out. Identifiers are natural
-- numbers, times are counted in the clock's ticks.
--
-- Parameters, for code that is not part of the repository or is not modelled: `Env`, the clock,
-- the duration between two times and the generated UUIDs; `ParserEnv`, Pydantic's construction of
-- a StepDefinition, Python's text of a value, Jinja2's parser and the limit of the settings;
-- `Jinja`, how the rendering of a template ends; the executor `run_step` of the orchestrator,
-- which dispatches over the executors; `Starter`, what starts an execution for a handler;
-- `Redis`, the commands of the rate limit; `Secrets`, bcrypt and the random part of a key;
-- `Codec`, the text of a cursor; `ApiEnv`, what the database and the UUIDs generate;
-- `WebhookEnv`, JSON, the HMAC's digest and the limit of the settings; `HttpEnv`, the HTTP
-- client; `UuidText`, the texts of UUIDs; `CronEnv` and `JobStore`, APScheduler's triggers and
-- jobs; `int_avg` and `rounded_ratio`, the database's average and Python's rounding;
-- `SeedSettings`, the settings of the seed; `ReprText`, Python's repr. A table that is listed,
-- but for the logs, stands in the order that the database sorts it in.
--
-- Loops: the retries run on the attempts that are left, which is the loop's own bound. The loop
-- of `_topological_sort` and that of `validate_max_depth` have one round for each step, since a
-- step enters the queue at most once, when its in-degree becomes 0. The search for a cycle nests
-- at most as deep as there are nodes, since it only enters white nodes and makes them gray; its
-- fuel is one more. The climb along the parents that builds the message is bounded by their
-- number.
--
-- Not modelled, since they have no logic of their own: the HTTP layer itself, the settings and
-- the logger, the connections and migrations of the database, its constraints and the rollbacks
-- of a request that fails, and arq with the worker's settings.
pub mod Prelude
pub mod Db
pub mod Engine
pub mod Cache
pub mod Steps
pub mod Queue
pub mod Cron
pub mod Jobs
pub mod Services
pub mod Access
pub mod Listing
pub mod Workflows
pub mod Webhooks
pub mod Monitoring
pub mod Handlers
pub mod Seed
