-- ===== src/Steps.antt =====
-- src/steps and src/lib/expressions.py: the executors of the step types that need no session.
-- Jinja2 is a parameter: what the sandboxed environment answers for a template and a context.
pub mod Delay
pub mod Condition
pub mod SubWorkflow
pub mod Http
pub mod Answers
pub mod Empty
pub mod Registry
pub mod Nesting
pub mod Tenantless
pub mod Runs
pub mod Unnested
mod Tests
mod Samples
mod Trials
use mathlib.Core.Option.{get_or}
use workflow_automation_engi.Engine.Session.{or_raise}
use workflow_automation_engi.Prelude.{
  ◌>>=◌, ◌>>◌, if◌then◌else◌, ◌==◌, Value, Fields, find, ℤ, exceeds, Result, raise, raise_f, codes,
  lower, strip, one_of_words, ℕ, zero, ◌*◌, ◌^◌, String, Bool, true, false, not, Option, none, some,
  [], ◌∷◌, map, null, bool, int, float, str, arr, obj, field, end, none_left, ok, err, other, part,
  shown, pos, string_key,
}
use workflow_automation_engi.Engine.Context.{StepInput}

-- How `_env.from_string(template).render(**context)` ends.
pub data Rendering : Type 0 where
  rendered : String → Rendering
  syntax_error undefined_error security_error failed : String → Rendering

abbrev pub Jinja : Type 0
Jinja = Value → StepInput → Rendering

-- `not value`
unfoldable pub is_falsy : Value → Bool
is_falsy null = true
is_falsy (bool b) = not b
is_falsy (int (pos zero)) = true
is_falsy (float (pos zero) k) = true
is_falsy (str String.[]) = true
is_falsy (arr none_left) = true
is_falsy (obj end) = true
is_falsy _ = false

expression_error : {A : Type 0} → String → String → Result A
expression_error start exc = raise_f "EXPRESSION_ERROR" (part start ∷ part exc ∷ []) 400

from_rendering : Rendering → Result String
unfolding expression_error
from_rendering (rendered s) = ok s
from_rendering (syntax_error exc) = expression_error "Template syntax error: " exc
from_rendering (undefined_error exc) = expression_error "Undefined variable in expression: " exc
from_rendering (security_error exc) = expression_error "Unsafe expression blocked: " exc
from_rendering (failed exc) = expression_error "Expression evaluation failed: " exc

abbrev pub config_error : {A : Type 0} → String → Result A
config_error message = raise "STEP_CONFIG_ERROR" message 400

-- `_evaluate_truthiness` of src/steps/condition.py
unfoldable pub evaluate_truthiness : String → Bool
unfolding strip lower one_of_words
evaluate_truthiness value =
    if value == ""
    then false
    else not (
        one_of_words (map lower (strip (codes value)))
          ("" ∷ "false" ∷ "0" ∷ "none" ∷ "False" ∷ "None" ∷ []))

module _ (jinja : Jinja) where
  unfoldable pub evaluate_expression : Value → StepInput → Result String
  unfolding is_falsy from_rendering
  evaluate_expression template context =
      if is_falsy template then ok "" else from_rendering (jinja template context)

  -- `expression[:100] if expression else ""`, for the log: what is no text and no list raises.
  unfoldable pub log_prefix : Value → Result (Unit {0})
  unfolding is_falsy
  log_prefix (str s) = ok tt
  log_prefix (arr vs) = ok tt
  log_prefix v = if is_falsy v then ok tt else err (other (part "object is not subscriptable" ∷ []))

  -- `TransformExecutor.execute`
  unfoldable pub execute_transform : Fields → StepInput → Result Fields
  unfolding log_prefix evaluate_expression
  execute_transform config context = do
    expression ←
        or_raise (find "expression" config)
          (config_error "Transform step requires 'expression' in config.")
    log_prefix expression
    result ← evaluate_expression expression context
    ok (field "result" (str result) end)

  -- `ConditionExecutor.execute`
  unfoldable pub execute_condition : Fields → StepInput → Result Fields
  unfolding log_prefix evaluate_expression evaluate_truthiness
  execute_condition config context = do
    expression ←
        or_raise (find "expression" config)
          (config_error "Condition step requires 'expression' in config.")
    let true_branch = get_or (find "true_branch" config) (arr none_left)
    let false_branch = get_or (find "false_branch" config) (arr none_left)
    log_prefix expression
    result_str ← evaluate_expression expression context
    ok (
        if evaluate_truthiness result_str
        then field "result" (bool true)
            (field "branch" (str "true") (field "branch_steps" true_branch end))
        else field "result" (bool false)
            (field "branch" (str "false") (field "branch_steps" false_branch end)))

abbrev pub max_delay_seconds : ℕ
max_delay_seconds = 3600

-- An `int` or a `float` as numerator and denominator; a bool is an int.
abbrev pub as_number : Value → Option (ℤ × ℕ)
as_number (bool true) = some (pos 1, 1)
as_number (bool false) = some (pos 0, 1)
as_number (int z) = some (z, 1)
as_number (float m k) = some (m, 2 ^ k)
as_number _ = none

check_delay : Value → Option (ℤ × ℕ) → Result Fields
check_delay seconds none = config_error "Delay step 'seconds' must be a number."
check_delay seconds (some (m, d)) =
    if not (exceeds m 0)
    then config_error "Delay step 'seconds' must be positive."
    else if exceeds m (max_delay_seconds * d)
    then raise_f "STEP_CONFIG_ERROR"
        (part "Delay step 'seconds' must not exceed " ∷ shown max_delay_seconds ∷ part "." ∷ []) 400
    else ok (field "delayed_seconds" seconds end)

-- `DelayExecutor.execute`; the sleep itself changes nothing that is modelled.
unfoldable pub execute_delay : Fields → Result Fields
unfolding check_delay
execute_delay config = do
  seconds ←
      or_raise (find "seconds" config) (config_error "Delay step requires 'seconds' in config.")
  check_delay seconds (as_number seconds)
