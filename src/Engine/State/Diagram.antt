-- ===== src/Engine/State/Diagram.antt =====
-- The diagrams of the statuses, apart from the tables that src/engine/state.py reads them from.
use workflow_automation_engi.Prelude.{
  String, ◌≡◌, ◌↔◌, ◌⊎◌, inl, inr, ok, eq_iff, arith, false, str_eq, Bool-cases, sym,
}
use workflow_automation_engi.Engine.State.{validate_execution_transition, validate_step_transition}

-- pending -> running -> completed | failed, and cancelled from both of the first two.
abbrev pub ExecutionEdge : String → String → Type 0
ExecutionEdge current new =
    (current ≡ "pending") × (new ≡ "running")
    ⊎ (current ≡ "pending") × (new ≡ "cancelled")
    ⊎ (current ≡ "running") × (new ≡ "completed")
    ⊎ (current ≡ "running") × (new ≡ "failed")
    ⊎ (current ≡ "running") × (new ≡ "cancelled")

-- pending -> queued -> running -> completed | failed, failed -> queued for a retry, and skipped
-- from each status in which the step has not ended.
abbrev pub StepEdge : String → String → Type 0
StepEdge current new =
    (current ≡ "pending") × (new ≡ "queued")
    ⊎ (current ≡ "queued") × (new ≡ "running")
    ⊎ (current ≡ "running") × (new ≡ "completed")
    ⊎ (current ≡ "running") × (new ≡ "failed")
    ⊎ (current ≡ "failed") × (new ≡ "queued")
    ⊎ (current ≡ "pending") × (new ≡ "skipped")
    ⊎ (current ≡ "queued") × (new ≡ "skipped")
    ⊎ (current ≡ "running") × (new ≡ "skipped")

-- Which of five texts a text is.
data OneOf (a b c d e s : String) : Type 0 where
  first : s ≡ a → OneOf a b c d e s
  second : s ≡ b → OneOf a b c d e s
  third : s ≡ c → OneOf a b c d e s
  fourth : s ≡ d → OneOf a b c d e s
  fifth : s ≡ e → OneOf a b c d e s
  neither :
      str_eq a s ≡ false
      → str_eq b s ≡ false
      → str_eq c s ≡ false
      → str_eq d s ≡ false
      → str_eq e s ≡ false
      → OneOf a b c d e s

one_of : (a b c d e s : String) → OneOf a b c d e s
one_of a b c d e s = elim (Bool-cases (str_eq a s)) [
  | inl h ↦ first (sym ((eq_iff a s).0 h))
  | inr na ↦ elim (Bool-cases (str_eq b s)) [
    | inl h ↦ second (sym ((eq_iff b s).0 h))
    | inr nb ↦ elim (Bool-cases (str_eq c s)) [
      | inl h ↦ third (sym ((eq_iff c s).0 h))
      | inr nc ↦ elim (Bool-cases (str_eq d s)) [
        | inl h ↦ fourth (sym ((eq_iff d s).0 h))
        | inr nd ↦ elim (Bool-cases (str_eq e s)) [
          | inl h ↦ fifth (sym ((eq_iff e s).0 h))
          | inr ne ↦ neither na nb nc nd ne
        ]
      ]
    ]
  ]
]

module _ (current new : String) where
  execution_edge :
      OneOf "pending" "running" "completed" "failed" "cancelled" current
      → (validate_execution_transition current new ≡ ok tt) ↔ ExecutionEdge current new
  unfolding validate_execution_transition
  execution_edge (first h) =
      rw h
        (ground (arith, eq_iff "running" new, eq_iff "cancelled" new, eq_iff "pending" "running"))
  execution_edge (second h) = rw h (
      ground (
        arith,
        eq_iff "completed" new,
        eq_iff "failed" new,
        eq_iff "cancelled" new,
        eq_iff "running" "pending",
      ))
  execution_edge (third h) =
      rw h (ground (arith, eq_iff "completed" "pending", eq_iff "completed" "running"))
  execution_edge (fourth h) =
      rw h (ground (arith, eq_iff "failed" "pending", eq_iff "failed" "running"))
  execution_edge (fifth h) =
      rw h (ground (arith, eq_iff "cancelled" "pending", eq_iff "cancelled" "running"))
  execution_edge (neither a b c d e) =
      rw (a, b, c, d, e) (ground (arith, eq_iff "pending" current, eq_iff "running" current))

  pub validate_execution_transition_iff :
      (validate_execution_transition current new ≡ ok tt) ↔ ExecutionEdge current new
  validate_execution_transition_iff = execution_edge (one_of _ _ _ _ _ current)

  step_edge :
      OneOf "pending" "queued" "running" "failed" "completed" current
      → (validate_step_transition current new ≡ ok tt) ↔ StepEdge current new
  unfolding validate_step_transition
  step_edge (first h) = rw h (
      ground (
        arith,
        eq_iff "queued" new,
        eq_iff "skipped" new,
        eq_iff "pending" "queued",
        eq_iff "pending" "running",
        eq_iff "pending" "failed",
      ))
  step_edge (second h) = rw h (
      ground (
        arith,
        eq_iff "running" new,
        eq_iff "skipped" new,
        eq_iff "queued" "pending",
        eq_iff "queued" "running",
        eq_iff "queued" "failed",
      ))
  step_edge (third h) = rw h (
      ground (
        arith,
        eq_iff "completed" new,
        eq_iff "failed" new,
        eq_iff "skipped" new,
        eq_iff "running" "pending",
        eq_iff "running" "queued",
        eq_iff "running" "failed",
      ))
  step_edge (fourth h) = rw h (
      ground (
        arith,
        eq_iff "queued" new,
        eq_iff "failed" "pending",
        eq_iff "failed" "queued",
        eq_iff "failed" "running",
      ))
  step_edge (fifth h) = rw h (
      ground (
        arith,
        eq_iff "completed" "pending",
        eq_iff "completed" "queued",
        eq_iff "completed" "running",
        eq_iff "completed" "failed",
      ))
  step_edge (neither a b c d e) =
      rw (a, b, c, d, e)
        (ground (
          arith,
          eq_iff "pending" current,
          eq_iff "queued" current,
          eq_iff "running" current,
          eq_iff "failed" current,
        ))

  pub validate_step_transition_iff :
      (validate_step_transition current new ≡ ok tt) ↔ StepEdge current new
  validate_step_transition_iff = step_edge (one_of _ _ _ _ _ current)

  -- The tables admit exactly the edges of the diagrams. An execution goes from pending to running or
  -- cancelled, and from running to completed, failed or cancelled. A step goes from pending to
  -- queued, from there to running, and then to completed or failed, from failed back to queued, and
  -- to skipped from the first three.
  pub validate_transitions_iff :
      ((validate_execution_transition current new ≡ ok tt) ↔ ExecutionEdge current new)
      × ((validate_step_transition current new ≡ ok tt) ↔ StepEdge current new)
  validate_transitions_iff = (validate_execution_transition_iff, validate_step_transition_iff)
