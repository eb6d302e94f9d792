-- ===== src/Listing.antt =====
-- The lists of src/api/workflows.py and src/api/executions.py, page by page with a cursor.
-- A table stands in the order of `ORDER BY created_at, id`, which the database sorts by. The text
-- of a cursor is a parameter: base64, the ISO format of a time and that of a UUID.
pub mod Pages
pub mod Walk
mod Tests
use workflow_automation_engi.Db.{Workflow}
use workflow_automation_engi.Engine.Session.{Execution}
use workflow_automation_engi.Prelude.{
  ◌>>=◌, ltb, leb, nat_eq, if◌then◌else◌, ◌==◌, ℕ, ◌+◌, String, Bool, true, false, not, ◌&&◌,
  Option, none, some, List, [], ◌∷◌, select, take, length, Result, ok, err, raise, string_key,
  nat_key, shown,
}

-- `encode_cursor` and `decode_cursor`; none is an exception of the decoding.
pub record Codec : Type 0 where
  pub encode : ℕ × ℕ → String
  pub decode : String → Option (ℕ × ℕ)

-- created_at >= t and not (created_at == t and id <= i)
abbrev pub is_after : ℕ × ℕ → ℕ × ℕ → Bool
is_after cursor key = leb cursor.0 key.0 && not (nat_eq key.0 cursor.0 && leb key.1 cursor.1)

decoded : Option (ℕ × ℕ) → Result (ℕ × ℕ)
decoded none = raise "INVALID_CURSOR" "Invalid pagination cursor." 400
decoded (some key) = ok key

-- `decode_cursor`, and `decode_execution_cursor`, which is the same
unfoldable pub decode_cursor : Codec → String → Result (ℕ × ℕ)
unfolding decoded
decode_cursor codec cursor = decoded (codec.decode cursor)

-- rows[-1] of a row and the rows behind it
abbrev pub last : {A : Type 0} → A → List A → A
last x [] = x
last x (y ∷ rows) = last y rows

module _ {A : Type 0} (codec : Codec) (key : A → ℕ × ℕ) where
  -- The rows behind the cursor, if one is given.
  unfoldable pub rows_after : Option String → List A → Result (List A)
  unfolding decode_cursor
  rows_after none rows = ok rows
  rows_after (some cursor) rows =
      if cursor == ""
      then ok rows
      else (decode_cursor codec cursor >>= λ k. ok (select (λ row. is_after k (key row)) rows))

  unfoldable pub next_cursor : Bool → List A → Option String
  next_cursor has_more [] = none
  next_cursor has_more (x ∷ rows) =
      if has_more then some (codec.encode (key (last x rows))) else none

  -- The rows of a page and the cursor of the next one: one row more than the limit is fetched.
  unfoldable pub page : ℕ → Option String → List A → Result (List A × Option String)
  unfolding rows_after next_cursor
  page limit cursor table = do
    found ← rows_after cursor table
    let rows = take (limit + 1) found
    let shown = take limit rows
    ok (shown, next_cursor (ltb limit (length rows)) shown)

-- `if filter is not None`
abbrev pub matches_text : Option String → String → Bool
matches_text none value = true
matches_text (some wanted) value = value == wanted

abbrev pub matches_bool : Option Bool → Bool → Bool
matches_bool none value = true
matches_bool (some true) value = value
matches_bool (some false) value = not value

abbrev pub matches_id : Option ℕ → ℕ → Bool
matches_id none value = true
matches_id (some wanted) value = nat_eq value wanted

abbrev pub workflow_key : Workflow → ℕ × ℕ
workflow_key w = (w.created_at, w.id)

abbrev pub is_listed : ℕ → Option String → Option Bool → Workflow → Bool
is_listed tenant_id trigger_type is_active w =
    nat_eq w.tenant_id tenant_id
    && matches_text trigger_type w.trigger_type
    && matches_bool is_active w.is_active

unfoldable pub list_workflows :
    Codec
    → ℕ
    → Option String
    → Option Bool
    → ℕ
    → Option String
    → List Workflow
    → Result (List Workflow × Option String)
unfolding page
list_workflows codec tenant_id trigger_type is_active limit cursor table =
    page codec workflow_key limit cursor (select (is_listed tenant_id trigger_type is_active) table)

-- An execution with its created_at.
pub record Listed : Type 0 where
  pub execution : Execution
  pub created_at : ℕ

abbrev pub execution_key : Listed → ℕ × ℕ
execution_key row = (row.created_at, row.execution.id)

abbrev pub at_least : Option ℕ → ℕ → Bool
at_least none value = true
at_least (some bound) value = leb bound value

abbrev pub at_most : Option ℕ → ℕ → Bool
at_most none value = true
at_most (some bound) value = leb value bound

pub record ExecutionFilter : Type 0 where
  pub status : Option String
  pub workflow_id : Option ℕ
  pub created_after : Option ℕ
  pub created_before : Option ℕ

abbrev pub is_listed_execution : ℕ → ExecutionFilter → Listed → Bool
is_listed_execution tenant_id wanted row =
    nat_eq row.execution.tenant_id tenant_id
    && matches_text wanted.status row.execution.status
    && matches_id wanted.workflow_id row.execution.workflow_id
    && at_least wanted.created_after row.created_at
    && at_most wanted.created_before row.created_at

unfoldable pub list_executions :
    Codec
    → ℕ
    → ExecutionFilter
    → ℕ
    → Option String
    → List Listed
    → Result (List Listed × Option String)
unfolding page
list_executions codec tenant_id wanted limit cursor table =
    page codec execution_key limit cursor (select (is_listed_execution tenant_id wanted) table)
