-- ===== src/Services/Cancel.antt =====
-- What cancelling an execution by src/api/executions.py leaves of its steps.
use workflow_automation_engi.Engine.Session.{StepExecution, Session, Env, Execution}
use workflow_automation_engi.Services.{skip_open_steps, steps_of, cancel_execution}
use workflow_automation_engi.Prelude.{
  str_eq, Bool-cases, contains, get, ℕ, String, ◌≡◌, refl, sym, ◌≢◌, inl, inr, true, false, none,
  some, List, [], ◌∷◌, eq_iff, ok, nat_key, string_key, nat_eq, nat_eq_iff, All, ap, ◌∙◌, ◌⊎◌, ◌==◌,
  put, get-put_self, ◌+◌,
}
use workflow_automation_engi.Engine.State.{validate_step_transition, stamp_execution}
use workflow_automation_engi.Engine.State.Diagram.{
  validate_step_transition_iff, ExecutionEdge, validate_execution_transition_iff,
}
use workflow_automation_engi.Engine.Orchestrator.Attempt.{transition_moves}
use workflow_automation_engi.Engine.Orchestrator.Frame.{execution_status, status_of}
use workflow_automation_engi.Engine.State.Effects.{transition_done}

abbrev pub open_statuses : List String
open_statuses = "pending" ∷ "queued" ∷ "running" ∷ []

-- The row of a step, which is in none of the open statuses.
abbrev pub IsClosed : ℕ → Session → Type 0
IsClosed id s =
    (row : StepExecution) × (get id s.step_executions ≡ some row)
    × (contains row.status open_statuses ≡ false)

abbrev pub IsPresent : ℕ → Session → Type 0
IsPresent id s = (row : StepExecution) × (get id s.step_executions ≡ some row)

open-valid :
    (status : String)
    → contains status open_statuses ≡ true
    → validate_step_transition status "skipped" ≡ ok tt
open-valid status h = elim (Bool-cases (str_eq "pending" status)) [
  | inl e ↦
      (validate_step_transition_iff status "skipped").1
        (inr (inr (inr (inr (inr (inl (sym ((eq_iff "pending" status).0 e), refl)))))))
  | inr n ↦ elim (Bool-cases (str_eq "queued" status)) [
    | inl e ↦
        (validate_step_transition_iff status "skipped").1
          (inr (inr (inr (inr (inr (inr (inl (sym ((eq_iff "queued" status).0 e), refl))))))))
    | inr m ↦ elim (Bool-cases (str_eq "running" status)) [
      | inl e ↦
          (validate_step_transition_iff status "skipped").1
            (inr (inr (inr (inr (inr (inr (inr (sym ((eq_iff "running" status).0 e), refl))))))))
      | inr k ↦ absurd (cc (rw (n, m, k) at h))
    ]
  ]
]

cancellable :
    (status : String)
    → (status ≡ "pending") ⊎ (status ≡ "running")
    → ExecutionEdge status "cancelled"
cancellable status (inl h) = inr (inl (h, refl))
cancellable status (inr h) = inr (inr (inr (inr (h, refl))))

module _ (env : Env) where
  skip_none : (s : Session) → skip_open_steps env [] s ≡ (ok tt, s)
  unfolding skip_open_steps
  skip_none s = refl

  -- One round of the loop.
  abbrev Skipped : ℕ → Session → Session → Type 0
  Skipped id s s' =
      IsClosed id s'
      × ((j : ℕ) → id ≢ j → get j s'.step_executions ≡ get j s.step_executions)
      × (s'.executions ≡ s.executions)

  round-Skipped :
      (id : ℕ) (ids : List ℕ) (s : Session)
      → IsPresent id s
      → (s' : Session) × Skipped id s s'
        × (skip_open_steps env (id ∷ ids) s ≡ skip_open_steps env ids s')
  unfolding skip_open_steps
  round-Skipped id ids s (row, found) = elim (Bool-cases (contains row.status open_statuses)) [
    | inl open' ↦
        let m = transition_moves env id "skipped" none row s found (open-valid row.status open') in
        (
          m.s',
          ((m.row', m.stored, rw (m.status) refl), m.others, m.kept),
          rw (found, open', m.made),
        )
    | inr closed ↦ (s, ((row, found, closed), λ j apart. refl, refl), rw (found, closed))
  ]

  -- What holds of the row of a visited step and is kept for the rows of others is kept for all.
  row-later :
      (id : ℕ) (s s' : Session)
      → Skipped id s s'
      → (j : ℕ) → (IsPresent j s → IsPresent j s') × (IsClosed j s → IsClosed j s')
  row-later id s s' ((row, found, closed), others, kept) j = elim (Bool-cases (nat_eq id j)) [
    | inl same ↦
        let e : id ≡ j = (nat_eq_iff id j).0 same in
        (
          λ _. (row, ap (λ k. get k s'.step_executions) (sym e) ∙ found),
          λ _. (row, ap (λ k. get k s'.step_executions) (sym e) ∙ found, closed),
        )
    | inr differ ↦
        let apart : id ≢ j = λ e. absurd (let h = (nat_eq_iff id j).1 e in cc) in
        (λ h. (h.0, others j apart ∙ h.1), λ h. (h.0, others j apart ∙ h.1, h.2))
  ]

  IsPresent-later :
      (id : ℕ) (s s' : Session)
      → Skipped id s s'
      → (ids : List ℕ) → All (λ j. IsPresent j s) ids
      → All (λ j. IsPresent j s') ids
  IsPresent-later id s s' skipped [] all = tt
  IsPresent-later id s s' skipped (j ∷ ids) (here, all) =
      ((row-later id s s' skipped j).0 here, IsPresent-later id s s' skipped ids all)

  -- The loop returns, and leaves each of the rows closed.
  skip_open_steps-IsClosed :
      (ids : List ℕ) (s : Session)
      → All (λ j. IsPresent j s) ids
      → (s' : Session) × (skip_open_steps env ids s ≡ (ok tt, s'))
        × All (λ j. IsClosed j s') ids
        × ((j : ℕ) → IsClosed j s → IsClosed j s')
        × (s'.executions ≡ s.executions)
  skip_open_steps-IsClosed [] s all = (s, skip_none s, tt, λ j h. h, refl)
  skip_open_steps-IsClosed (id ∷ ids) s (present, all) =
      let (s1, skipped, went) = round-Skipped id ids s present in
      let (s2, rest, closed, keeps, same) =
        skip_open_steps-IsClosed ids s1 (IsPresent-later id s s1 skipped ids all) in
      (
        s2,
        went ∙ rest,
        (keeps id skipped.0, closed),
        λ j h. keeps j ((row-later id s s1 skipped j).1 h),
        same ∙ skipped.2,
      )

  -- Cancelling an execution of the tenant that is pending or running succeeds: the execution is
  -- then cancelled, and none of its steps, whose rows are there, is pending, queued or running.
  pub cancel_execution-IsClosed :
      (execution_id tenant_id : ℕ) (execution : Execution) (s : Session)
      → get execution_id s.executions ≡ some execution
      → execution.tenant_id ≡ tenant_id
      → (execution.status ≡ "pending") ⊎ (execution.status ≡ "running")
      → All (λ j. IsPresent j s) (steps_of execution_id s.step_executions)
      → ((cancel_execution env execution_id tenant_id s).0 ≡ ok true)
        × (execution_status execution_id (cancel_execution env execution_id tenant_id s).1
            ≡ some "cancelled")
        × All
            (λ j. IsClosed j (cancel_execution env execution_id tenant_id s).1)
            (steps_of execution_id s.step_executions)
  unfolding cancel_execution stamp_execution
  cancel_execution-IsClosed execution_id tenant_id execution s found own unfinished present =
      let done = transition_done env execution_id "cancelled" s found (
        (validate_execution_transition_iff execution.status "cancelled").1
          (cancellable execution.status unfinished)) in
      let cancelled = stamp_execution env "cancelled" (env.time_at s.clock_reads) execution in
      let s1 : Session = record s {
        executions = put execution_id cancelled s.executions;
        clock_reads = s.clock_reads + 1;
      } in
      let (s2, went, closed, _, same) =
        skip_open_steps-IsClosed (steps_of execution_id s.step_executions) s1 present in
      let ours : (execution.tenant_id == tenant_id) ≡ true =
        (nat_eq_iff execution.tenant_id tenant_id).1 own in
      rw (found, ours, done, went)
        (
          refl,
          ap (λ rows. status_of (get execution_id rows)) same
              ∙ ap status_of (get-put_self execution_id cancelled s.executions),
          closed,
        )
