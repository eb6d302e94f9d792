-- ===== src/Engine/Start/Rows.antt =====
-- The rows that `start_execution` of src/engine/orchestrator.py creates for the steps: one for
-- each, with an id of its own, pending.
use workflow_automation_engi.Engine.Session.{Env, StepExecution, Session}
use workflow_automation_engi.Engine.Models.{StepDefinition, type_value}
use workflow_automation_engi.Prelude.{
  if◌then◌else◌, ◌==◌, contains, Dict, get, put, get-put, ℕ, suc, ◌+◌, String, ◌≡◌, refl, true,
  none, some, List, [], ◌∷◌, arith, eq_iff, end, ok, nat_key, string_key, str_eq, Bool-cases, All,
  get-put_self, ◌≤◌, ◌<◌, ◌∙◌, ◌≢◌, inl, inr, Option, false,
}
use workflow_automation_engi.Engine.Start.{attempts_of, create_steps}
use workflow_automation_engi.Engine.Parser.Checks.{AreUnique}
use workflow_automation_engi.Engine.Parser.Ordered.{ids}

-- The row of a new step.
abbrev pub new_row : ℕ → ℕ → ℕ → StepDefinition → StepExecution
new_row id tenant_id execution_id step_def = record {
  id = id;
  tenant_id = tenant_id;
  execution_id = execution_id;
  step_id = step_def.id;
  step_type = type_value step_def.type;
  status = "pending";
  input_data = end;
  output_data = none;
  error = none;
  attempt = 1;
  max_attempts = attempts_of step_def.retry;
  started_at = none;
  completed_at = none;
  duration_ms = none;
}

-- Where a step stands in the definition.
pub index : String → List StepDefinition → ℕ
index k [] = 0
index k (s ∷ steps) = if s.id == k then 0 else suc (index k steps)

pub index-injective :
    (j k : String) (steps : List StepDefinition)
    → contains j (ids steps) ≡ true
    → contains k (ids steps) ≡ true
    → index j steps ≡ index k steps
    → j ≡ k
unfolding index
index-injective j k [] hj hk same = absurd (cc hj)
index-injective j k (s ∷ steps) hj hk same =
    ground (arith, eq_iff s.id j, eq_iff s.id k, index-injective j k steps)

-- What has been seen stands nowhere in the rest.
seen_elsewhere :
    (k : String) (seen : List String) (steps : List StepDefinition)
    → AreUnique seen steps
    → contains k seen ≡ true
    → contains k (ids steps) ≡ false
seen_elsewhere k seen [] unique h = refl
seen_elsewhere k seen (s ∷ steps) unique h =
    ground (arith, eq_iff s.id k, unique.0, seen_elsewhere k (s.id ∷ seen) steps unique.1)

module _ (env : Env) (tenant_id execution_id : ℕ) where
  pub step_map_of : ℕ → List StepDefinition → Dict String ℕ → Dict String ℕ
  step_map_of u [] m = m
  step_map_of u (s ∷ steps) m = step_map_of (u + 1) steps (put s.id (env.uuid_at u) m)

  pub rows_of : ℕ → List StepDefinition → Dict ℕ StepExecution → Dict ℕ StepExecution
  rows_of u [] d = d
  rows_of u (s ∷ steps) d =
      rows_of (u + 1) steps
        (put (env.uuid_at u) (new_row (env.uuid_at u) tenant_id execution_id s) d)

  -- What the loop over the parsed steps leaves.
  pub record Created (steps : List StepDefinition) (m : Dict String ℕ) (s : Session) : Type 0 where
    pub s' : Session
    pub made :
        create_steps env tenant_id execution_id steps m s ≡ (ok (step_map_of s.uuids steps m), s')
    pub rows : s'.step_executions ≡ rows_of s.uuids steps s.step_executions
    pub kept : s'.executions ≡ s.executions

  pub create_steps-Created :
      (steps : List StepDefinition) (m : Dict String ℕ) (s : Session) → Created steps m s
  unfolding create_steps step_map_of rows_of
  create_steps-Created [] m s = record { s' = s; made = refl; rows = refl; kept = refl }
  create_steps-Created (step ∷ steps) m s =
      let row = new_row (env.uuid_at s.uuids) tenant_id execution_id step in
      let s1 : Session = record s {
        step_executions = put (env.uuid_at s.uuids) row s.step_executions;
        uuids = s.uuids + 1;
      } in
      let later = create_steps-Created steps (put step.id (env.uuid_at s.uuids) m) s1 in
      record { s' = later.s'; made = later.made; rows = later.rows; kept = later.kept }

  pub get-step_map_of :
      (k : String) (u : ℕ) (seen : List String) (steps : List StepDefinition) (m : Dict String ℕ)
      → AreUnique seen steps
      → get k (step_map_of u steps m)
        ≡ (if contains k (ids steps) then some (env.uuid_at (u + index k steps)) else get k m)
  unfolding step_map_of index
  get-step_map_of k u seen [] m unique = refl
  get-step_map_of k u seen (s ∷ steps) m unique = ground (
    arith,
    eq_iff s.id k,
    get-put s.id k (env.uuid_at u) m,
    seen_elsewhere k (s.id ∷ seen) steps unique.1,
    get-step_map_of k (u + 1) (s.id ∷ seen) steps (put s.id (env.uuid_at u) m) unique.1,
  )

  -- A new step's row, with at least one attempt.
  abbrev pub IsNew : Option StepExecution → Type 0
  IsNew found =
      (row : StepExecution) × (found ≡ some row) × (row.status ≡ "pending") × (1 ≤ row.max_attempts)

  module _ (distinct : (m n : ℕ) → env.uuid_at m ≡ env.uuid_at n → m ≡ n) where
    get-rows_of_earlier :
        (n u : ℕ) (steps : List StepDefinition) (d : Dict ℕ StepExecution)
        → n < u
        → get (env.uuid_at n) (rows_of u steps d) ≡ get (env.uuid_at n) d
    unfolding rows_of
    get-rows_of_earlier n u [] d before = refl
    get-rows_of_earlier n u (s ∷ steps) d before =
        let apart : env.uuid_at u ≢ env.uuid_at n =
          λ same. absurd (let e = distinct u n same in omega arith) in
        get-rows_of_earlier n (u + 1) steps _ (omega arith)
        ∙ ground (
          arith,
          get-put (env.uuid_at u) (env.uuid_at n) (new_row (env.uuid_at u) tenant_id execution_id s)
              d,
        )

    pub rows_of-IsNew :
        (k : String) (u : ℕ) (steps : List StepDefinition) (d : Dict ℕ StepExecution)
        → All (λ (s : StepDefinition). 1 ≤ attempts_of s.retry) steps
        → contains k (ids steps) ≡ true
        → IsNew (get (env.uuid_at (u + index k steps)) (rows_of u steps d))
    unfolding rows_of index
    rows_of-IsNew k u [] d attempts there = absurd (cc there)
    rows_of-IsNew k u (s ∷ steps) d attempts there = elim (Bool-cases (str_eq s.id k)) [
      | inl here ↦
          let row = new_row (env.uuid_at u) tenant_id execution_id s in
          let e : u + 0 ≡ u = omega arith in
          rw (here, e)
            (
              row,
              get-rows_of_earlier u (u + 1) steps (put (env.uuid_at u) row d) (omega arith)
                  ∙ get-put_self (env.uuid_at u) row d,
              refl,
              attempts.0,
            )
      | inr there' ↦
          let e : u + suc (index k steps) ≡ u + 1 + index k steps = omega arith in
          rw (there', e) (rows_of-IsNew k (u + 1) steps _ attempts.1 (rw there' at there))
    ]
