-- ===== src/Engine/Parser.antt =====
-- src/engine/parser.py: the checks of a raw workflow definition, in the order of the source.
-- Pydantic's construction of a StepDefinition, Python's text of a value, and Jinja2's parser are
-- parameters.
pub mod Checks
pub mod Ordered
use workflow_automation_engi.Prelude.{
  ◌>>=◌, ◌>>◌, ltb, nat_eq, if◌then◌else◌, ◌==◌, Value, Values, Fields, find, length, contains,
  Result, raise, raise_f, codes, ℕ, zero, ◌+◌, String, Bool, false, not, ◌&&◌, ◌||◌, Option, none,
  some, List, [], ◌∷◌, map, null, bool, int, float, str, arr, obj, field, end, item, none_left, ok,
  err, other, part, shown, pos, string_key,
}
use mathlib.Core.Option.{get_or}
use workflow_automation_engi.Engine.Graph.{build_dependency_graph}
use workflow_automation_engi.Engine.Models.{StepDefinition, WorkflowDefinition, type_value}
use workflow_automation_engi.Engine.Cycles.{detect_cycles, validate_max_depth}
use workflow_automation_engi.Engine.Graph.Degrees.{has}

-- How `StepDefinition(**raw_step)` ends.
pub data Construction : Type 0 where
  constructed : StepDefinition → Construction
  validation_error type_error : String → Construction

pub record ParserEnv : Type 0 where
  pub construct : Value → Construction
  pub text_of : Value → String
  -- none if `env.parse` succeeds, else the text of its exception
  pub parse_error : String → Option String
  pub max_steps_per_workflow : ℕ

pub record RawWorkflow : Type 0 where
  pub name : String
  pub trigger_type : String
  pub steps : List Value

abbrev pub valid_step_types : List String
valid_step_types = "http" ∷ "transform" ∷ "condition" ∷ "delay" ∷ "sub_workflow" ∷ []

-- `"{{" in value or "{%" in value`
unfoldable pub has_jinja2 : List ℕ → Bool
has_jinja2 (a ∷ b ∷ cs) = nat_eq a b'{' && (nat_eq b b'{' || nat_eq b b'%') || has_jinja2 (b ∷ cs)
has_jinja2 _ = false

abbrev pub invalid_step : {A : Type 0} → ℕ → String → Result A
invalid_step i exc =
    raise_f "VALIDATION_ERROR" (part "Invalid step at index " ∷ shown i ∷ part ": " ∷ part exc ∷ [])
      400

abbrev pub unknown_type : {A : Type 0} → ℕ → String → Result A
unknown_type i name =
    raise_f "UNKNOWN_STEP_TYPE"
      (part "Unknown step type '"
        ∷ part name
        ∷ part "' on step at index "
        ∷ shown i
        ∷ part "."
        ∷ [])
      400

module _ (env : ParserEnv) where
  unfoldable pub validate_step_count : List Value → Result (Unit {0})
  validate_step_count [] = raise "NO_STEPS" "Workflow must contain at least one step." 400
  validate_step_count (v ∷ vs) =
      if ltb env.max_steps_per_workflow (length (v ∷ vs))
      then raise_f "TOO_MANY_STEPS"
          (part "Workflow has "
            ∷ shown (length (v ∷ vs))
            ∷ part " steps, exceeding the maximum of "
            ∷ shown env.max_steps_per_workflow
            ∷ part "."
            ∷ [])
          400
      else ok tt

  -- `raw_step.get("type", "")` of a dict, and the test on it
  rejected_type : ℕ → String → Option Value → Result StepDefinition
  rejected_type i exc none = invalid_step i exc
  rejected_type i exc (some (str s)) =
      if s == "" || contains s valid_step_types then invalid_step i exc else unknown_type i s
  rejected_type i exc (some null) = invalid_step i exc
  rejected_type i exc (some (bool false)) = invalid_step i exc
  rejected_type i exc (some (int (pos zero))) = invalid_step i exc
  rejected_type i exc (some (float (pos zero) k)) = invalid_step i exc
  rejected_type i exc (some (arr none_left)) = invalid_step i exc
  rejected_type i exc (some (obj end)) = invalid_step i exc
  rejected_type i exc (some (arr (item v vs))) = err (other (part "unhashable type: 'list'" ∷ []))
  rejected_type i exc (some (obj (field k v d))) = err (other (part "unhashable type: 'dict'" ∷ []))
  rejected_type i exc (some v) = unknown_type i (env.text_of v)

  rejected : ℕ → Value → Construction → Result StepDefinition
  unfolding rejected_type
  rejected i raw_step (constructed step) = ok step
  rejected i (obj d) (validation_error exc) = rejected_type i exc (find "type" d)
  rejected i raw_step (validation_error exc) = invalid_step i exc
  rejected i raw_step (type_error exc) = invalid_step i exc

  unfoldable pub parse_steps : ℕ → List Value → Result (List StepDefinition)
  unfolding rejected
  parse_steps i [] = ok []
  parse_steps i (raw_step ∷ raw_steps) = do
    step ← rejected i raw_step (env.construct raw_step)
    steps ← parse_steps (i + 1) raw_steps
    ok (step ∷ steps)

  unfoldable pub validate_unique_ids : List String → List StepDefinition → Result (Unit {0})
  validate_unique_ids seen [] = ok tt
  validate_unique_ids seen (step ∷ steps) =
      let rest = validate_unique_ids (step.id ∷ seen) steps in
      if contains step.id seen
      then raise_f "DUPLICATE_STEP_ID" (part "Duplicate step ID: '" ∷ part step.id ∷ part "'." ∷ [])
          400
      else rest

  unfoldable pub validate_step_types : List StepDefinition → Result (Unit {0})
  validate_step_types [] = ok tt
  validate_step_types (step ∷ steps) =
      let rest = validate_step_types steps in
      if contains (type_value step.type) valid_step_types
      then rest
      else raise_f "UNKNOWN_STEP_TYPE"
          (part "Unknown step type '"
            ∷ part (type_value step.type)
            ∷ part "' on step '"
            ∷ part step.id
            ∷ part "'."
            ∷ [])
          400

  unfoldable pub check_deps : List String → String → List String → Result (Unit {0})
  check_deps step_ids id [] = ok tt
  check_deps step_ids id (dep ∷ deps) =
      let rest = check_deps step_ids id deps in
      if contains dep step_ids
      then rest
      else raise_f "INVALID_DEPENDENCY"
          (part "Step '"
            ∷ part id
            ∷ part "' depends on '"
            ∷ part dep
            ∷ part "', which does not exist."
            ∷ [])
          400

  unfoldable pub validate_dependencies : List String → List StepDefinition → Result (Unit {0})
  unfolding check_deps
  validate_dependencies step_ids [] = ok tt
  validate_dependencies step_ids (step ∷ steps) = do
    check_deps step_ids step.id step.depends_on
    validate_dependencies step_ids steps

  -- `_parse_expression`
  unfoldable pub parse_expression : String → String → String → Option String → Result (Unit {0})
  parse_expression step_id key value none = ok tt
  parse_expression step_id key value (some exc) =
      raise_f "EXPRESSION_ERROR"
        (part "Invalid Jinja2 expression in step '"
          ∷ part step_id
          ∷ part "' config key '"
          ∷ part key
          ∷ part "': "
          ∷ part exc
          ∷ [])
        400

  unfoldable pub check_text : String → String → String → Result (Unit {0})
  unfolding has_jinja2 parse_expression
  check_text step_id key value =
      if has_jinja2 (codes value)
      then parse_expression step_id key value (env.parse_error value)
      else ok tt

  -- The texts directly in a list; what else it holds is not looked into.
  unfoldable pub check_items : String → String → Values → Result (Unit {0})
  unfolding check_text
  check_items step_id key none_left = ok tt
  check_items step_id key (item (str s) vs) =
      let rest = check_items step_id key vs in check_text step_id key s >> rest
  check_items step_id key (item _ vs) = check_items step_id key vs

  unfoldable mutual
    pub validate_config_expressions : String → Fields → Result (Unit {0})
    validate_config_expressions step_id end = ok tt
    validate_config_expressions step_id (field key value d) =
        let rest = validate_config_expressions step_id d in check_value step_id key value >> rest

    pub check_value : String → String → Value → Result (Unit {0})
    check_value step_id key (str s) = check_text step_id key s
    check_value step_id key (obj d) = validate_config_expressions step_id d
    check_value step_id key (arr vs) = check_items step_id key vs
    check_value step_id key _ = ok tt

  unfoldable pub validate_jinja2_expressions : List StepDefinition → Result (Unit {0})
  validate_jinja2_expressions [] = ok tt
  validate_jinja2_expressions (step ∷ steps) = do
    validate_config_expressions step.id step.config
    validate_jinja2_expressions steps

  -- Lines 50 to 64 of the source: the checks on the steps that were built.
  unfoldable pub checks_after : RawWorkflow → List StepDefinition → Result WorkflowDefinition
  checks_after raw steps = do
    validate_unique_ids [] steps
    validate_step_types steps
    validate_dependencies (map (λ s. s.id) steps) steps
    let graph = build_dependency_graph steps []
    detect_cycles graph
    validate_max_depth graph
    validate_jinja2_expressions steps
    ok (record {
      name = raw.name;
      trigger_type = raw.trigger_type;
      steps = steps;
      dependency_graph = graph;
    })

  unfoldable pub parse_workflow_definition : RawWorkflow → Result WorkflowDefinition
  unfolding checks_after
  parse_workflow_definition raw = do
    validate_step_count raw.steps
    steps ← parse_steps 0 raw.steps
    checks_after raw steps
