-- ===== src/Listing/Tests.antt =====
-- Examples for the lists: cursors written as tally marks, and three workflows of two tenants.
use Prim.Native.Char.{code}
use workflow_automation_engi.Db.{Workflow}
use workflow_automation_engi.Listing.{
  Codec, workflow_key, is_listed, list_workflows, execution_key, Listed, ExecutionFilter,
  is_listed_execution, list_executions,
}
use workflow_automation_engi.Listing.Pages.{RoundTrips, IsOrdered}
use workflow_automation_engi.Listing.Walk.{
  all_pages, all_pages-list_workflows, all_pages-list_executions,
}
use workflow_automation_engi.Prelude.{
  eq_iff, Bool-cases, ap, ℕ, zero, suc, ◌+◌, ◌≤◌, String, ◌≡◌, refl, ◌∙◌, true, none, some, Option,
  List, [], ◌∷◌, length, select, end, nat_eq, if◌then◌else◌, arith, str_eq, false, inl, inr,
}

ones : ℕ → String
ones zero = String.[]
ones (suc n) = String.◌∷◌ "b" (ones n)

size : String → ℕ
size String.[] = 0
size (String.◌∷◌ c s) = suc (size s)

encode_at : ℕ → ℕ → String
unfolding ones
encode_at zero i = String.◌∷◌ "a" (ones i)
encode_at (suc t) i = String.◌∷◌ "b" (encode_at t i)

decode_text : ℕ → String → Option (ℕ × ℕ)
unfolding size
decode_text t String.[] = none
decode_text t (String.◌∷◌ c s) =
    let rest = decode_text (suc t) s in if nat_eq (code c) b'a' then some (t, size s) else rest

size-ones : (i : ℕ) → size (ones i) ≡ i
unfolding size ones
size-ones zero = refl
size-ones (suc i) = omega (arith, size-ones i)

decode-encode_at : (n t i : ℕ) → decode_text t (encode_at n i) ≡ some (t + n, i)
unfolding decode_text encode_at
decode-encode_at zero t i = ground (arith, size-ones i)
decode-encode_at (suc n) t i = decode-encode_at n (suc t) i ∙ ground arith

size-encode_at : (n i : ℕ) → 1 ≤ size (encode_at n i)
unfolding size encode_at
size-encode_at zero i = omega arith
size-encode_at (suc n) i = omega arith

size-nothing : size "" ≡ 0
unfolding size
size-nothing = refl

encode_at-given : (n i : ℕ) → str_eq (encode_at n i) "" ≡ false
encode_at-given n i = elim (Bool-cases (str_eq (encode_at n i) "")) [
  | inl same ↦
      let e : encode_at n i ≡ "" = (eq_iff (encode_at n i) "").0 same in
      absurd (omega (arith, size-encode_at n i, ap size e, size-nothing))
  | inr differ ↦ differ
]

tally : Codec
tally = record { encode = λ k. encode_at k.0 k.1; decode = decode_text 0 }

tally_lem : RoundTrips tally
unfolding tally
tally_lem = record {
  decodes = λ k. decode-encode_at k.0 0 k.1 ∙ ground arith;
  given = λ k. encode_at-given k.0 k.1;
}

abbrev test_workflow : ℕ → ℕ → ℕ → Workflow
test_workflow id tenant_id created_at = record {
  id = id;
  tenant_id = tenant_id;
  name = "orders";
  description = none;
  trigger_type = "manual";
  trigger_config = end;
  steps = [];
  is_active = true;
  webhook_path = none;
  webhook_secret = none;
  created_at = created_at;
  updated_at = created_at;
}

abbrev test_table : List Workflow
test_table = test_workflow 5 1 10 ∷ test_workflow 9 2 10 ∷ test_workflow 3 1 20 ∷ []

table_IsOrdered : IsOrdered workflow_key test_table
table_IsOrdered =
    ((inr (refl, omega arith), (inl (omega arith), tt)), ((inl (omega arith), tt), (tt, tt)))

all_pages-list_workflows_example :
    all_pages
      (λ c. list_workflows tally 1 none (some true) 1 c test_table)
      (length (select (is_listed 1 none (some true)) test_table))
      none
    ≡ select (is_listed 1 none (some true)) test_table
all_pages-list_workflows_example =
    all_pages-list_workflows tally 1 none (some true) 1 test_table tally_lem (omega arith)
      table_IsOrdered

abbrev test_row : ℕ → String → ℕ → Listed
test_row id status created_at = record {
  execution = record {
    id = id;
    tenant_id = 1;
    workflow_id = 3;
    status = status;
    trigger_data = end;
    context = record { trigger = end; steps = []; depth = none; tenant_id = none };
    replayed_from = none;
    started_at = none;
    completed_at = none;
    error = none;
    duration_ms = none;
  };
  created_at = created_at;
}

abbrev test_rows : List Listed
test_rows = test_row 7 "failed" 10 ∷ test_row 8 "completed" 10 ∷ test_row 2 "failed" 30 ∷ []

rows_IsOrdered : IsOrdered execution_key test_rows
rows_IsOrdered =
    ((inr (refl, omega arith), (inl (omega arith), tt)), ((inl (omega arith), tt), (tt, tt)))

abbrev only_failed : ExecutionFilter
only_failed = record {
  status = some "failed";
  workflow_id = none;
  created_after = some 5;
  created_before = none;
}

all_pages-list_executions_example :
    all_pages
      (λ c. list_executions tally 1 only_failed 1 c test_rows)
      (length (select (is_listed_execution 1 only_failed) test_rows))
      none
    ≡ select (is_listed_execution 1 only_failed) test_rows
all_pages-list_executions_example =
    all_pages-list_executions tally 1 only_failed 1 test_rows tally_lem (omega arith) rows_IsOrdered
