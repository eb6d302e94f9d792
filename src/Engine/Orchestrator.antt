-- ===== src/Engine/Orchestrator.antt =====
-- src/engine/orchestrator.py: a workflow's steps in topological order, each with its retries.
-- What executes a step is a parameter: the dispatch of `_run_step` over the executors.
pub mod Attempt
pub mod Retry
pub mod Failure
pub mod Frame
pub mod Rounds
pub mod Visit
pub mod Ends
use workflow_automation_engi.Engine.Session.{
  ◌>>=◌, ◌>>◌, StepExecution, Env, Action, pure, lift, handle, or_raise, save_execution, save_step,
  load_execution, load_step,
}
use mathlib.Core.Option.{get_or}
use mathlib.Core.List.{foldl}
use workflow_automation_engi.Prelude.{
  leb, if◌then◌else◌, ◌==◌, Value, Values, Fields, find, contains, Result, str_exc, Dict, get, put,
  codes, lower, one_of_words, ℕ, zero, suc, ◌+◌, String, Bool, true, false, not, ◌||◌, Option, none,
  some, List, [], ◌∷◌, ◌++◌, map, null, bool, int, str, arr, obj, field, end, item, none_left, ok,
  err, other, part, pos, string_key,
}
use workflow_automation_engi.Engine.Graph.{topological_sort}
use workflow_automation_engi.Engine.Models.{StepDefinition, is_condition}
use workflow_automation_engi.Engine.Context.{StepInput, merge_step_output, get_step_input}
use workflow_automation_engi.Engine.State.{transition_execution, transition_step}

-- Python's `set(v)` of texts: what is no text is equal to no step's id.
cons_item : String → Result (List String) → Result (List String)
cons_item s (ok l) = ok (s ∷ l)
cons_item s (err x) = err x

set_items : Values → Result (List String)
set_items none_left = ok []
set_items (item (str s) vs) = cons_item s (set_items vs)
set_items (item (arr _) vs) = err (other (part "unhashable type: 'list'" ∷ []))
set_items (item (obj _) vs) = err (other (part "unhashable type: 'dict'" ∷ []))
set_items (item _ vs) = set_items vs

letters : String → List String
letters String.[] = []
letters (String.◌∷◌ c s) = String.◌∷◌ c String.[] ∷ letters s

field_names : Fields → List String
field_names end = []
field_names (field k v d) = k ∷ field_names d

unfoldable pub id_set : Value → Result (List String)
unfolding cons_item set_items letters field_names
id_set (arr vs) = set_items vs
id_set (str s) = ok (letters s)
id_set (obj d) = ok (field_names d)
id_set _ = err (other (part "object is not iterable" ∷ []))

-- `str(result_value)` is one of the false words; `bool(result_str)` rules out the empty text too.
unfoldable pub is_truthy : Value → Bool
unfolding one_of_words lower
is_truthy (bool b) = b
is_truthy (str s) = not (one_of_words (map lower (codes s)) ("false" ∷ "0" ∷ "none" ∷ "" ∷ []))
is_truthy null = false
is_truthy (int (pos zero)) = false
is_truthy _ = true

unfoldable pub resolve_condition_branches : StepDefinition → StepExecution → Result (List String)
unfolding find is_truthy
resolve_condition_branches step_def step_exec =
    let output = get_or step_exec.output_data end in
    if is_truthy (get_or (find "result" output) (bool false))
    then id_set (get_or (find "false_branch" step_def.config) (arr none_left))
    else id_set (get_or (find "true_branch" step_def.config) (arr none_left))

-- `step_defs = {s.id: s for s in steps}`
abbrev pub step_defs_of : List StepDefinition → Dict String StepDefinition
step_defs_of steps = foldl (λ d s. put s.id s d) [] steps

module _ (env : Env) (run_step : StepDefinition → StepInput → Action Fields)
    (execution_id : ℕ) where
  module _ (step_def : StepDefinition) (step_exec_id : ℕ) where
    -- Lines 178 to 186: the attempt is counted, and the step is queued and started.
    unfoldable pub begin_attempt : ℕ → Action (Unit {0})
    unfolding save_step load_step
    begin_attempt attempt = do
      step_exec ← load_step step_exec_id
      save_step step_exec_id (record step_exec { attempt = attempt })
      if step_exec.status == "pending" || step_exec.status == "failed"
          then (transition_step env step_exec_id "queued" none >>= λ _. pure tt)
          else pure tt
      transition_step env step_exec_id "running" none
      pure tt

    -- Lines 190 to 209: the body of the `try`.
    unfoldable pub try_step : Action (Unit {0})
    unfolding save_step load_step load_execution
    try_step = do
      execution ← load_execution execution_id
      output ← run_step step_def (get_step_input execution.context)
      transition_step env step_exec_id "completed" none
      step_exec ← load_step step_exec_id
      save_step step_exec_id (record step_exec { output_data = some output })
      merge_step_output execution_id step_def.id output

    -- The `while` loop, by the attempts that are left.
    unfoldable pub attempt_loop : ℕ → ℕ → ℕ → Action Bool
    attempt_loop max_attempts zero attempt = pure false
    attempt_loop max_attempts (suc left) attempt =
        let rest = attempt_loop max_attempts left (attempt + 1) in
        do
          begin_attempt (attempt + 1)
          λ s.
              let (r, s') = try_step s in
              handle r (λ _. pure true)
                (λ exc. do
                  transition_step env step_exec_id "failed" (some (str_exc exc))
                  if leb max_attempts (attempt + 1) then pure false else rest)
                s'

    unfoldable pub execute_step_with_retry : Action Bool
    unfolding attempt_loop load_step
    execute_step_with_retry = do
      step_exec ← load_step step_exec_id
      attempt_loop step_exec.max_attempts step_exec.max_attempts 0

  unfoldable pub fail_execution : String → Action (Unit {0})
  unfolding load_execution save_execution
  fail_execution step_id = do
    execution ← load_execution execution_id
    save_execution execution_id (record execution {
      status = "failed";
      error = some (part "Step '" ∷ part step_id ∷ part "' failed after exhausting retries." ∷ []);
    })

  -- `if step_def.type == StepType.CONDITION`
  unfoldable pub skip_branches : StepDefinition → ℕ → List String → Action (Option (List String))
  unfolding load_step
  skip_branches step_def step_exec_id skipped =
      if is_condition step_def.type
      then (load_step step_exec_id >>= λ step_exec.
          lift (resolve_condition_branches step_def step_exec) >>= λ newly_skipped.
          pure (some (skipped ++ newly_skipped)))
      else pure (some skipped)

  unfoldable pub run_unskipped : StepDefinition → ℕ → List String → Action (Option (List String))
  run_unskipped step_def step_exec_id skipped = do
    success ← execute_step_with_retry step_def step_exec_id
    if success
        then skip_branches step_def step_exec_id skipped
        else (fail_execution step_def.id >> pure none)

  -- One round of the loop over `order`: the skipped steps after it, or none where it returns.
  unfoldable pub visit_step :
      Dict String StepDefinition
      → Dict String ℕ
      → List String
      → String
      → Action (Option (List String))
  visit_step step_defs step_map skipped step_id = do
    step_def ← lift (or_raise (get step_id step_defs) (err (other (part step_id ∷ []))))
    step_exec_id ← lift (or_raise (get step_id step_map) (err (other (part step_id ∷ []))))
    if contains step_id skipped
        then (transition_step env step_exec_id "skipped" none >> pure (some skipped))
        else run_unskipped step_def step_exec_id skipped

  unfoldable pub walk :
      Dict String StepDefinition → Dict String ℕ → List String → List String → Action (Unit {0})
  walk step_defs step_map [] skipped =
      transition_execution env execution_id "completed" >>= λ _. pure tt
  walk step_defs step_map (step_id ∷ order) skipped = do
    next ← visit_step step_defs step_map skipped step_id
    elim next [ none ↦ pure tt | some skipped' ↦ walk step_defs step_map order skipped' ]

  unfoldable pub execute_dag : List StepDefinition → Dict String ℕ → Action (Unit {0})
  unfolding walk topological_sort
  execute_dag steps step_map = walk (step_defs_of steps) step_map (topological_sort steps) []
