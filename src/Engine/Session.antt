-- ===== src/Engine/Session.antt =====
-- What the engine reads and writes: the rows of src/db/models/execution.py and
-- src/db/models/step_execution.py in a database session, and actions over it that may raise.
-- A row is kept once: the ORM's objects are the rows of its identity map.
use workflow_automation_engi.Prelude.{
  ℕ, ◌+◌, String, Option, none, some, Dict, put, Fields, ℤ, Message, Exception, Result, ok, err,
  nat_key, get, [], ◌∷◌, other, part,
}

-- execution.context: a document {"trigger", "steps", "_depth", "_tenant_id"}, where "steps" maps a
-- step to {"output": its output}. The last two are read by `get_step_input` if a row has them.
pub record Context : Type 0 where
  pub trigger : Fields
  pub steps : Dict String Fields
  pub depth : Option ℕ
  pub tenant_id : Option ℕ

pub record Execution : Type 0 where
  pub id : ℕ
  pub tenant_id : ℕ
  pub workflow_id : ℕ
  pub status : String
  pub trigger_data : Fields
  pub context : Context
  pub replayed_from : Option ℕ
  pub started_at : Option ℕ
  pub completed_at : Option ℕ
  pub error : Option Message
  pub duration_ms : Option ℤ

pub record StepExecution : Type 0 where
  pub id : ℕ
  pub tenant_id : ℕ
  pub execution_id : ℕ
  pub step_id : String
  pub step_type : String
  pub status : String
  pub input_data : Fields
  pub output_data : Option Fields
  pub error : Option Message
  pub attempt : ℕ
  pub max_attempts : ℕ
  pub started_at : Option ℕ
  pub completed_at : Option ℕ
  pub duration_ms : Option ℤ

-- What the engine calls and does not implement: the reading of the clock that is taken n-th,
-- `int((now - started).total_seconds() * 1000)`, and the n-th generated UUID.
pub record Env : Type 0 where
  pub time_at : ℕ → ℕ
  pub elapsed_ms : ℕ → ℕ → ℤ
  pub uuid_at : ℕ → ℕ

pub record Session : Type 0 where
  pub executions : Dict ℕ Execution
  pub step_executions : Dict ℕ StepExecution
  pub clock_reads : ℕ
  pub uuids : ℕ

-- What was written before an exception stays written in the session.
abbrev pub Action : Type 0 → Type 0
Action A = Session → Result A × Session

abbrev pub pure : {A : Type 0} → A → Action A
pure a s = (ok a, s)

abbrev pub throw : {A : Type 0} → Exception → Action A
throw x s = (err x, s)

abbrev pub lift : {A : Type 0} → Result A → Action A
lift r s = (r, s)

abbrev pub gets : {A : Type 0} → (Session → A) → Action A
gets f s = (ok (f s), s)

module _ {A B : Type 0} where
  abbrev pub continue : Result A → (A → Action B) → Action B
  continue (ok a) f s = f a s
  continue (err x) f s = (err x, s)

  infixl 10 ◌>>=◌
  abbrev pub ◌>>=◌ : Action A → (A → Action B) → Action B
  ◌>>=◌ m f s = let (r, s') = m s in continue r f s'

  -- try: m, except Exception as exc: handler(exc)
  abbrev pub handle : Result A → (A → Action B) → (Exception → Action B) → Action B
  handle (ok a) f h s = f a s
  handle (err x) f h s = h x s

infixl 10 ◌>>◌
abbrev pub ◌>>◌ : {A B : Type 0} → Action A → Action B → Action B
m >> k = m >>= λ _. k

-- result.scalar_one_or_none(), and the exception raised where it is None
abbrev pub or_raise : {A : Type 0} → Option A → Result A → Result A
or_raise none failure = failure
or_raise (some a) failure = ok a

-- session.add(row); await session.flush()
unfoldable pub save_execution : ℕ → Execution → Action (Unit {0})
save_execution id row s = (ok tt, record s { executions = put id row s.executions })

unfoldable pub save_step : ℕ → StepExecution → Action (Unit {0})
save_step id row s = (ok tt, record s { step_executions = put id row s.step_executions })

-- utc_now()
unfoldable pub utc_now : Env → Action ℕ
utc_now env s = (ok (env.time_at s.clock_reads), record s { clock_reads = s.clock_reads + 1 })

-- The row behind an ORM object; a row that is gone cannot be refreshed.
unfoldable pub load_execution : ℕ → Action Execution
load_execution id s =
    (or_raise (get id s.executions) (err (other (part "Could not refresh instance" ∷ []))), s)

unfoldable pub load_step : ℕ → Action StepExecution
load_step id s =
    (or_raise (get id s.step_executions) (err (other (part "Could not refresh instance" ∷ []))), s)
