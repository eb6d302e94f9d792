-- ===== src/Listing/Walk.antt =====
-- A client that follows the cursors of src/api/workflows.py or src/api/executions.py to the end.
use mathlib.Core.List.{append_assoc}
use workflow_automation_engi.Db.{Workflow}
use workflow_automation_engi.Listing.{
  workflow_key, is_listed, list_workflows, execution_key, Listed, ExecutionFilter,
  is_listed_execution, list_executions, Codec, rows_after, page, last, next_cursor, decode_cursor,
}
use workflow_automation_engi.Listing.Pages.{
  RoundTrips, IsOrdered, drop, take-take-suc, length-take-suc, select-append, take-all,
  select-IsOrdered, take-drop, length-drop,
}
use workflow_automation_engi.Prelude.{
  ℕ, zero, suc, ◌+◌, ◌≤◌, String, ◌≡◌, refl, ap, Option, none, some, List, [], ◌∷◌, ◌++◌, take,
  length, ok, arith, if◌then◌else◌, ltb, Result, err, Bool-cases, ◌-◌, inl, inr, select, ◌∙◌, Bool,
}

module _ {A : Type 0} where
  -- What a page shows, with the rows that its cursor leads to.
  abbrev pub followed : (Option String → List A) → Result (List A × Option String) → List A
  followed go_on (err x) = []
  followed go_on (ok (rows, none)) = rows
  followed go_on (ok (rows, some cursor)) = rows ++ go_on (some cursor)

  -- The rows of all pages from a cursor on, in at most so many requests.
  pub all_pages : (Option String → Result (List A × Option String)) → ℕ → Option String → List A
  all_pages ask zero cursor = []
  all_pages ask (suc requests) cursor = followed (λ next. all_pages ask requests next) (ask cursor)

module _ {A : Type 0} (codec : Codec) (key : A → ℕ × ℕ) (limit : ℕ) where
  module _ (round_trips : RoundTrips codec) (some_row : 1 ≤ limit) where
    page_lem :
        (cursor : Option String) (table : List A) (x : A) (rows : List A) (m : ℕ)
        → limit ≡ suc m
        → rows_after codec key cursor table ≡ ok (x ∷ rows)
        → page codec key limit cursor table
          ≡ ok (
            x ∷ take m rows,
            (if ltb limit (length (x ∷ rows))
                then some (codec.encode (key (last x (take m rows))))
                else none),
          )
    unfolding page next_cursor
    page_lem cursor table x rows m e found =
        let suc_limit : limit + 1 ≡ suc (suc m) = omega arith in
        rw (found, suc_limit, e, take-take-suc key m rows, length-take-suc key (suc m) (x ∷ rows))
          refl

    rows_after-none : (table : List A) → rows_after codec key none table ≡ ok table
    unfolding rows_after
    rows_after-none table = refl

    rows_after-cursor :
        (pre : List A) (x : A) (rows : List A) (m : ℕ)
        → IsOrdered key (pre ++ x ∷ rows)
        → rows_after codec key (some (codec.encode (key (last x (take m rows))))) (pre ++ x ∷ rows)
          ≡ ok (drop key m rows)
    unfolding rows_after decode_cursor
    rows_after-cursor pre x rows m ordered =
        let k = key (last x (take m rows)) in
        rw (round_trips.given k, round_trips.decodes k)
          (ap ok (select-append key pre m x rows ordered))

    page_empty :
        (cursor : Option String) (table : List A) (m : ℕ)
        → limit ≡ suc m
        → rows_after codec key cursor table ≡ ok []
        → page codec key limit cursor table ≡ ok ([], none)
    unfolding page next_cursor
    page_empty cursor table m e found =
        let suc_limit : limit + 1 ≡ suc (suc m) = omega arith in rw (found, suc_limit, e) refl

    -- The table is the rows of the pages before and the rows that the cursor leads to.
    walk_from :
        (requests : ℕ) (table pre found : List A) (cursor : Option String)
        → table ≡ pre ++ found
        → IsOrdered key table
        → rows_after codec key cursor table ≡ ok found
        → length found ≤ requests
        → all_pages (λ c. page codec key limit c table) requests cursor ≡ found
    unfolding all_pages
    walk_from zero table pre [] cursor split ordered found short = refl
    walk_from zero table pre (x ∷ rows) cursor split ordered found short = absurd (omega arith)
    walk_from (suc requests) table pre [] cursor split ordered found short =
        rw (page_empty cursor table (limit - 1) (omega arith) found) refl
    walk_from (suc requests) table pre (x ∷ rows) cursor split ordered found short =
        let m = limit - 1 in
        let e : limit ≡ suc m = omega arith in
        let first = page_lem cursor table x rows m e found in
        elim (Bool-cases (ltb limit (length (x ∷ rows)))) [
          | inr last_page ↦
              rw (first, last_page) (ap (λ l. x ∷ l) (take-all key m rows (ground arith)))
          | inl more ↦
              let next = some (codec.encode (key (last x (take m rows)))) in
              let again : table ≡ (pre ++ x ∷ take m rows) ++ drop key m rows =
                split ∙ rw (append_assoc, take-drop key m rows) refl in
              let led : rows_after codec key next table ≡ ok (drop key m rows) =
                rw split (rows_after-cursor pre x rows m (rw split at ordered)) in
              let rest =
                walk_from requests table (pre ++ x ∷ take m rows) (drop key m rows) next again
                  ordered led (omega (arith, length-drop key m rows)) in
              rw (first, more, rest) (ap (λ l. x ∷ l) (take-drop key m rows))
        ]

    -- Followed from the start, the pages of an ordered table are its rows.
    pub all_pages-page :
        (table : List A)
        → IsOrdered key table
        → all_pages (λ c. page codec key limit c table) (length table) none ≡ table
    all_pages-page table ordered =
        walk_from (length table) table [] table none refl ordered (rows_after-none table)
          (omega arith)

-- A client that follows the cursors from the start, with any limit from 1 on, sees exactly the
-- workflows of the tenant that match the filters, each once and in order, in no more requests than
-- there are such workflows: provided that a cursor is decoded to what was encoded, and that the
-- table is in the order of created_at and id without ties.
pub all_pages-list_workflows :
    (codec : Codec) (tenant_id : ℕ) (trigger_type : Option String) (is_active : Option Bool)
    (limit : ℕ) (table : List Workflow)
    → RoundTrips codec
    → 1 ≤ limit
    → IsOrdered workflow_key table
    → all_pages
        (λ c. list_workflows codec tenant_id trigger_type is_active limit c table)
        (length (select (is_listed tenant_id trigger_type is_active) table))
        none
      ≡ select (is_listed tenant_id trigger_type is_active) table
unfolding list_workflows
all_pages-list_workflows codec tenant_id trigger_type is_active limit table round_trips some_row
      ordered =
    all_pages-page codec workflow_key limit round_trips some_row
      (select (is_listed tenant_id trigger_type is_active) table)
      (select-IsOrdered workflow_key (is_listed tenant_id trigger_type is_active) table ordered)

-- A client that follows the cursors from the start, with any limit from 1 on, sees exactly the
-- executions of the tenant that match the filters, each once and in order, in no more requests than
-- there are such executions: provided that a cursor is decoded to what was encoded, and that the
-- table is in the order of created_at and id without ties.
pub all_pages-list_executions :
    (codec : Codec) (tenant_id : ℕ) (wanted : ExecutionFilter) (limit : ℕ) (table : List Listed)
    → RoundTrips codec
    → 1 ≤ limit
    → IsOrdered execution_key table
    → all_pages
        (λ c. list_executions codec tenant_id wanted limit c table)
        (length (select (is_listed_execution tenant_id wanted) table))
        none
      ≡ select (is_listed_execution tenant_id wanted) table
unfolding list_executions
all_pages-list_executions codec tenant_id wanted limit table round_trips some_row ordered =
    all_pages-page codec execution_key limit round_trips some_row
      (select (is_listed_execution tenant_id wanted) table)
      (select-IsOrdered execution_key (is_listed_execution tenant_id wanted) table ordered)
