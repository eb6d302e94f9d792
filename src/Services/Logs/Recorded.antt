-- ===== src/Services/Logs/Recorded.antt =====
-- Where an entry that `record_execution_log` of src/engine/logging.py wrote stands in the log that
-- src/api/executions.py reads.
use workflow_automation_engi.Engine.Session.{Session}
use workflow_automation_engi.Services.{owned_execution}
use workflow_automation_engi.Services.Logs.{
  ExecutionLog, ReprText, valid_levels, new_log, record_execution_log, matches_step, is_log_of,
  insert_by_time, order_by_time, get_execution_logs,
}
use workflow_automation_engi.Prelude.{
  Fields, select, contains, ℕ, ◌≤◌, String, ◌≡◌, refl, ap, ◌∙◌, Bool, true, Option, List, [], ◌∷◌,
  ◌++◌, All, arith, ok, nat_key, string_key, nat_eq_iff, Bool-cases, Option-cases, inl, inr, ltb,
  ltb→lt,
}

-- No entry is of a later time than one behind it.
abbrev pub IsOrdered : List ExecutionLog → Type 0
IsOrdered [] = Unit
IsOrdered (log ∷ logs) =
    All (λ (l : ExecutionLog). log.created_at ≤ l.created_at) logs × IsOrdered logs

-- The entry stands in `after` behind what is not later, and before what is not earlier; all else
-- is as it was in `before`.
pub record IsInserted (entry : ExecutionLog) (before after : List ExecutionLog) : Type 0 where
  pub first : List ExecutionLog
  pub later : List ExecutionLog
  pub old : before ≡ first ++ later
  pub new : after ≡ first ++ entry ∷ later
  pub not_later : All (λ (l : ExecutionLog). l.created_at ≤ entry.created_at) first
  pub not_earlier : All (λ (l : ExecutionLog). entry.created_at ≤ l.created_at) later
  pub ordered : IsOrdered after

All-weaken :
    (m n : ℕ) (logs : List ExecutionLog)
    → m ≤ n
    → All (λ (l : ExecutionLog). n ≤ l.created_at) logs
    → All (λ (l : ExecutionLog). m ≤ l.created_at) logs
All-weaken m n [] h all = tt
All-weaken m n (l ∷ logs) h all = (omega (arith, all.0), All-weaken m n logs h all.1)

All-insert_by_time :
    (n : ℕ) (log : ExecutionLog) (logs : List ExecutionLog)
    → n ≤ log.created_at
    → All (λ (l : ExecutionLog). n ≤ l.created_at) logs
    → All (λ (l : ExecutionLog). n ≤ l.created_at) (insert_by_time log logs)
unfolding insert_by_time
All-insert_by_time n log [] h all = (h, tt)
All-insert_by_time n log (first ∷ logs) h all =
    elim (Bool-cases (ltb log.created_at first.created_at)) [
      | inl before ↦ rw before (h, all)
      | inr behind ↦ rw behind (all.0, All-insert_by_time n log logs h all.1)
    ]

insert_by_time-IsInserted :
    (log : ExecutionLog) (logs : List ExecutionLog)
    → IsOrdered logs
    → IsInserted log logs (insert_by_time log logs)
unfolding insert_by_time
insert_by_time-IsInserted log [] h = record {
  first = [];
  later = [];
  old = refl;
  new = refl;
  not_later = tt;
  not_earlier = tt;
  ordered = (tt, tt);
}
insert_by_time-IsInserted log (head ∷ logs) h =
    elim (Bool-cases (ltb log.created_at head.created_at)) [
      | inl before ↦
          let less = ltb→lt log.created_at head.created_at before in
          let below : All (λ (l : ExecutionLog). log.created_at ≤ l.created_at) (head ∷ logs) =
            (omega arith, All-weaken log.created_at head.created_at logs (omega arith) h.0) in
          rw before (record {
            first = [];
            later = head ∷ logs;
            old = refl;
            new = refl;
            not_later = tt;
            not_earlier = below;
            ordered = (below, h);
          })
      | inr behind ↦
          let rest = insert_by_time-IsInserted log logs h.1 in
          let at_least : head.created_at ≤ log.created_at = ground arith in
          rw behind (record {
            first = head ∷ rest.first;
            later = rest.later;
            old = ap (λ l. head ∷ l) rest.old;
            new = ap (λ l. head ∷ l) rest.new;
            not_later = (at_least, rest.not_later);
            not_earlier = rest.not_earlier;
            ordered = (All-insert_by_time head.created_at log logs at_least h.0, rest.ordered);
          })
    ]

order_by_time-IsOrdered :
    (ordered logs : List ExecutionLog) → IsOrdered ordered → IsOrdered (order_by_time ordered logs)
unfolding order_by_time
order_by_time-IsOrdered ordered [] h = h
order_by_time-IsOrdered ordered (log ∷ logs) h =
    order_by_time-IsOrdered (insert_by_time log ordered) logs
      (insert_by_time-IsInserted log ordered h).ordered

order_by_time_last :
    (ordered logs : List ExecutionLog) (entry : ExecutionLog)
    → order_by_time ordered (logs ++ entry ∷ []) ≡ insert_by_time entry (order_by_time ordered logs)
unfolding order_by_time
order_by_time_last ordered [] entry = refl
order_by_time_last ordered (log ∷ logs) entry =
    order_by_time_last (insert_by_time log ordered) logs entry

select-append :
    {A : Type 0} (p : A → Bool) (xs ys : List A) → select p (xs ++ ys) ≡ select p xs ++ select p ys
select-append p [] ys = refl
select-append p (x ∷ xs) ys = ground (arith, select-append p xs ys)

is_log_of_new :
    (id now tenant_id execution_id : ℕ) (level message : String) (step_id wanted : Option String)
    (payload : Option Fields)
    → matches_step wanted step_id ≡ true
    → is_log_of execution_id tenant_id wanted
        (new_log id now tenant_id execution_id level message step_id payload)
      ≡ true
unfolding is_log_of
is_log_of_new id now tenant_id execution_id level message step_id wanted payload matches =
    rw ((nat_eq_iff execution_id execution_id).1 refl, (nat_eq_iff tenant_id tenant_id).1 refl)
      matches

-- An entry that was recorded with a valid level stands in what the tenant of the execution then
-- reads as its log, whole or of a step that the entry is of: in the order of the times, at a place
-- of its own time, among the entries that it read before.
pub get_execution_logs-record_execution_log :
    (text : ReprText) (id now tenant_id execution_id : ℕ) (level message : String)
    (step_id wanted : Option String) (payload : Option Fields) (s : Session)
    (logs before : List ExecutionLog) (entry : ExecutionLog)
    → matches_step wanted step_id ≡ true
    → (record_execution_log text id now tenant_id execution_id level message step_id payload logs).0
      ≡ ok entry
    → get_execution_logs execution_id tenant_id wanted s logs ≡ ok before
    → (after : List ExecutionLog) × (get_execution_logs execution_id tenant_id wanted s
          (record_execution_log text id now tenant_id execution_id level message step_id payload
            logs).1
        ≡ ok after)
      × IsInserted entry before after
unfolding record_execution_log get_execution_logs
get_execution_logs-record_execution_log text id now tenant_id execution_id level message step_id
      wanted payload s logs before entry matches recorded read =
    let log = new_log id now tenant_id execution_id level message step_id payload in
    let p = is_log_of execution_id tenant_id wanted in
    elim (Bool-cases (contains level valid_levels)) [
      | inr invalid ↦ absurd (cc (rw invalid at recorded))
      | inl valid ↦ elim (Option-cases (owned_execution execution_id tenant_id s.executions)) [
        | inl gone ↦ absurd (cc (rw gone at read))
        | inr (execution, found) ↦
            let e1 : ok log ≡ ok entry = rw valid at recorded in
            let e2 : ok (order_by_time [] (select p logs)) ≡ ok before = rw found at read in
            let same : log ≡ entry = cc in
            let old : order_by_time [] (select p logs) ≡ before = cc in
            let chosen : select p (log ∷ []) ≡ log ∷ [] =
              rw
                (is_log_of_new id now tenant_id execution_id level message step_id wanted payload
                  matches)
                refl in
            let inserted =
              insert_by_time-IsInserted log (order_by_time [] (select p logs))
                (order_by_time-IsOrdered [] (select p logs) tt) in
            (
              insert_by_time log (order_by_time [] (select p logs)),
              rw (valid, found)
                  (ap ok (
                    ap (order_by_time [])
                      (select-append p logs (log ∷ []) ∙ ap (λ l. select p logs ++ l) chosen)
                    ∙ order_by_time_last [] (select p logs) log)),
              rw (← same) (rw (← old) inserted),
            )
      ]
    ]
