-- ===== src/Engine/Parser/Checks.antt =====
-- What a workflow definition that src/engine/parser.py accepts guarantees.
use workflow_automation_engi.Prelude.{
  Bool-cases, All, contains, Result-cases, String, ◌≡◌, inl, inr, true, false, List, [], ◌∷◌, ok,
  string_key, Value, length, Result-split, ℕ, suc, ◌+◌, ◌≤◌, refl, ap, map, arith,
}
use workflow_automation_engi.Engine.Models.{StepDefinition, WorkflowDefinition}
use workflow_automation_engi.Engine.Parser.{
  ParserEnv, validate_unique_ids, check_deps, validate_dependencies, RawWorkflow,
  validate_step_count, parse_steps, validate_step_types, validate_jinja2_expressions,
  parse_workflow_definition, rejected, checks_after,
}
use workflow_automation_engi.Engine.Graph.{Graph, build_dependency_graph}
use workflow_automation_engi.Engine.Cycles.{detect_cycles, validate_max_depth}

-- No id is in `seen` or stands twice.
abbrev pub AreUnique : List String → List StepDefinition → Type 0
AreUnique seen [] = Unit
AreUnique seen (step ∷ steps) = (contains step.id seen ≡ false) × AreUnique (step.id ∷ seen) steps

-- Every dependency of every step is one of the ids.
abbrev pub AreKnown : List String → List StepDefinition → Type 0
AreKnown ids [] = Unit
AreKnown ids (step ∷ steps) = All (λ d. contains d ids ≡ true) step.depends_on × AreKnown ids steps

module _ (env : ParserEnv) where
  unique_of_ok :
      (seen : List String) (steps : List StepDefinition)
      → validate_unique_ids env seen steps ≡ ok tt
      → AreUnique seen steps
  unfolding validate_unique_ids
  unique_of_ok seen [] h = tt
  unique_of_ok seen (step ∷ steps) h = elim (Bool-cases (contains step.id seen)) [
    | inl dup ↦ absurd (cc (rw dup at h))
    | inr new ↦ (new, unique_of_ok (step.id ∷ seen) steps (rw new at h))
  ]

  deps_of_ok :
      (ids : List String) (id : String) (deps : List String)
      → check_deps env ids id deps ≡ ok tt
      → All (λ d. contains d ids ≡ true) deps
  unfolding check_deps
  deps_of_ok ids id [] h = tt
  deps_of_ok ids id (dep ∷ deps) h = elim (Bool-cases (contains dep ids)) [
    | inl there ↦ (there, deps_of_ok ids id deps (rw there at h))
    | inr missing ↦ absurd (cc (rw missing at h))
  ]

  known_of_ok :
      (ids : List String) (steps : List StepDefinition)
      → validate_dependencies env ids steps ≡ ok tt
      → AreKnown ids steps
  unfolding validate_dependencies
  known_of_ok ids [] h = tt
  known_of_ok ids (step ∷ steps) h =
      elim (Result-cases (check_deps env ids step.id step.depends_on)) [
        | inl good ↦
            (deps_of_ok ids step.id step.depends_on good, known_of_ok ids steps (rw good at h))
        | inr (x, bad) ↦ absurd (cc (rw bad at h))
      ]

  length_of_ok :
      (i : ℕ) (raw : List Value) (steps : List StepDefinition)
      → parse_steps env i raw ≡ ok steps
      → length steps ≡ length raw
  unfolding parse_steps
  length_of_ok i [] steps h = ground arith
  length_of_ok i (v ∷ vs) steps h = elim (Result-split (rejected env i v (env.construct v))) [
    | inr (x, bad) ↦ absurd (cc (rw bad at h))
    | inl (step, good) ↦ elim (Result-split (parse_steps env (i + 1) vs)) [
      | inr (x, bad) ↦ absurd (cc (rw (good, bad) at h))
      | inl (rest, parsed) ↦
          let e : step ∷ rest ≡ steps = ground (arith, rw (good, parsed) at h) in
          rw (← e) (ap suc (length_of_ok (i + 1) vs rest parsed))
    ]
  ]

  count_of_ok :
      (raw : List Value)
      → validate_step_count env raw ≡ ok tt
      → (1 ≤ length raw) × (length raw ≤ env.max_steps_per_workflow)
  unfolding validate_step_count
  count_of_ok [] h = absurd (cc h)
  count_of_ok (v ∷ vs) h = ground arith

  -- What the later stages rely on.
  pub record IsSound (steps : List StepDefinition) (graph : Graph) : Type 0 where
    pub some_step : 1 ≤ length steps
    pub within : length steps ≤ env.max_steps_per_workflow
    pub unique : AreUnique [] steps
    pub known : AreKnown (map (λ s. s.id) steps) steps
    pub graph_of_steps : graph ≡ build_dependency_graph steps []
    pub searched : detect_cycles graph ≡ ok tt
    pub shallow : validate_max_depth graph ≡ ok tt

  later :
      (raw : RawWorkflow) (wf : WorkflowDefinition) (steps : List StepDefinition)
      → validate_step_count env raw.steps ≡ ok tt
      → parse_steps env 0 raw.steps ≡ ok steps
      → checks_after env raw steps ≡ ok wf
      → IsSound wf.steps wf.dependency_graph
  unfolding checks_after
  later raw wf steps counted parsed h = elim (Result-cases (validate_unique_ids env [] steps)) [
    | inr (x, bad) ↦ absurd (cc (rw bad at h))
    | inl unique ↦ elim (Result-cases (validate_step_types env steps)) [
      | inr (x, bad) ↦ absurd (cc (rw (unique, bad) at h))
      | inl typed ↦ elim (Result-cases (validate_dependencies env (map (λ s. s.id) steps) steps)) [
        | inr (x, bad) ↦ absurd (cc (rw (unique, typed, bad) at h))
        | inl known ↦ elim (Result-cases (detect_cycles (build_dependency_graph steps []))) [
          | inr (x, bad) ↦ absurd (cc (rw (unique, typed, known, bad) at h))
          | inl searched ↦
              elim (Result-cases (validate_max_depth (build_dependency_graph steps []))) [
                | inr (x, bad) ↦ absurd (cc (rw (unique, typed, known, searched, bad) at h))
                | inl shallow ↦ elim (Result-cases (validate_jinja2_expressions env steps)) [
                  | inr (x, bad) ↦
                      absurd (cc (rw (unique, typed, known, searched, shallow, bad) at h))
                  | inl rendered ↦
                      let done = rw (unique, typed, known, searched, shallow, rendered) at h in
                      let same : steps ≡ wf.steps = ground (arith, done) in
                      let graph : build_dependency_graph steps [] ≡ wf.dependency_graph =
                        ground (arith, done) in
                      rw (← same, ← graph)
                        (record {
                          some_step = omega (
                            arith,
                            count_of_ok raw.steps counted,
                            length_of_ok 0 raw.steps steps parsed,
                          );
                          within = omega (
                            arith,
                            count_of_ok raw.steps counted,
                            length_of_ok 0 raw.steps steps parsed,
                          );
                          unique = unique_of_ok [] steps unique;
                          known = known_of_ok (map (λ s. s.id) steps) steps known;
                          graph_of_steps = refl;
                          searched = searched;
                          shallow = shallow;
                        })
                ]
              ]
        ]
      ]
    ]
  ]

  -- An accepted definition has from one to the allowed number of steps, with different ids and
  -- with dependencies that are steps, and its graph passed the search for cycles and the limit on
  -- the depth.
  pub parse_workflow_definition-IsSound :
      (raw : RawWorkflow) (wf : WorkflowDefinition)
      → parse_workflow_definition env raw ≡ ok wf
      → IsSound wf.steps wf.dependency_graph
  unfolding parse_workflow_definition checks_after
  parse_workflow_definition-IsSound raw wf h =
      elim (Result-cases (validate_step_count env raw.steps)) [
        | inr (x, bad) ↦ absurd (cc (rw bad at h))
        | inl counted ↦ elim (Result-split (parse_steps env 0 raw.steps)) [
          | inr (x, bad) ↦ absurd (cc (rw (counted, bad) at h))
          | inl (steps, parsed) ↦ later raw wf steps counted parsed (rw (counted, parsed) at h)
        ]
      ]
