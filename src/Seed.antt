-- ===== src/Seed.antt =====
-- src/tenants/seed.py: the first tenant and its sample workflow. What is logged or printed is left
-- out; the generated identifiers, key, path and times come as parameters.
mod Once
use mathlib.Core.Option.{get_or}
use workflow_automation_engi.Db.{Workflow}
use workflow_automation_engi.Access.{Secrets, Tenant, register_tenant}
use workflow_automation_engi.Workflows.{ApiEnv, generate_webhook_path}
use workflow_automation_engi.Prelude.{
  ℕ, String, Bool, Option, List, Value, Fields, str, obj, arr, int, field, end, item, none_left,
  bool, true, false, none, some, [], ◌∷◌, ◌++◌, pos, length, if◌then◌else◌, nat_eq, ltb, ◌==◌,
  select, ◌+◌, not, ◌||◌, nat_key,
}

-- Of `settings`
pub record SeedSettings : Type 0 where
  pub self_registration_enabled : Bool
  pub default_tenant_name : String

pub record TenantWithKey : Type 0 where
  pub id : ℕ
  pub name : String
  pub api_key : String

-- The tables, and how many values were generated for rows
pub record Tables : Type 0 where
  pub tenants : List Tenant
  pub workflows : List Workflow
  pub generated : ℕ

-- select(func.count()) > 0
abbrev pub check_tenants_exist : List Tenant → Bool
check_tenants_exist tenants = ltb 0 (length tenants)

abbrev pub step_value : String → String → Fields → Value → Value
step_value id type config depends_on = obj (
    field "id" (str id)
      (field "type" (str type) (field "config" (obj config) (field "depends_on" depends_on end))))

-- The steps of `_sample_webhook_workflow`
abbrev pub sample_steps : List Value
sample_steps =
    step_value "fetch_data" "http"
      (field "url" (str "https://httpbin.org/post") (
        field "method" (str "POST") (
          field "headers" (obj (field "Content-Type" (str "application/json") end)) (
            field "body" (str "{\"source\": \"webhook\"}")
              (field "timeout_seconds" (int (pos 10)) end)))))
      (arr none_left)
    ∷ step_value "transform_response" "transform"
        (field "expression" (str "{{ steps.fetch_data.output.status_code }}") end)
        (arr (item (str "fetch_data") none_left))
    ∷ step_value "check_status" "condition"
        (field "expression" (str "{{ steps.fetch_data.output.status_code == 200 }}")
          (field "true_branch" (arr none_left) (field "false_branch" (arr none_left) end)))
        (arr (item (str "transform_response") none_left))
    ∷ []

module _ (env : ApiEnv) (secrets : Secrets) where
  -- The row of `_sample_webhook_workflow`
  abbrev pub sample_webhook_workflow : ℕ → ℕ → Workflow
  sample_webhook_workflow tenant_id n = record {
    id = env.id_at n;
    tenant_id = tenant_id;
    name = "Sample: Webhook → HTTP → Transform → Condition";
    description =
        some
          "Demo workflow: receives a webhook, calls an external API, transforms the response, and branches based on status.";
    trigger_type = "webhook";
    trigger_config = end;
    steps = sample_steps;
    is_active = true;
    webhook_path = some (generate_webhook_path env (n + 1));
    webhook_secret = none;
    created_at = env.now_at n;
    updated_at = env.now_at n;
  }

  unfoldable pub seed_sample_workflows : ℕ → Tables → ℕ × Tables
  unfolding generate_webhook_path
  seed_sample_workflows tenant_id t =
      let found = select (λ w. w.tenant_id == tenant_id) t.workflows in
      if ltb 0 (length found) then (0, t) else (
        1,
        record t {
          workflows = t.workflows ++ sample_webhook_workflow tenant_id t.generated ∷ [];
          generated = t.generated + 2;
        },
      )

  module _ (settings : SeedSettings) where
    unfoldable pub seed_default_tenant :
        Option String → Option Bool → Tables → Option TenantWithKey × Tables
    unfolding register_tenant
    seed_default_tenant tenant_name registration_enabled t =
        let enabled = get_or registration_enabled settings.self_registration_enabled in
        let name = get_or tenant_name settings.default_tenant_name in
        let id = env.id_at t.generated in
        let (api_key, tenants) = register_tenant secrets name id t.generated t.tenants in
        if not enabled || check_tenants_exist t.tenants then (none, t) else (
          some (record { id = id; name = name; api_key = api_key }),
          record t { tenants = tenants; generated = t.generated + 1 },
        )

    with_samples : Option TenantWithKey × Tables → Option TenantWithKey × Tables
    unfolding seed_sample_workflows
    with_samples (none, t) = (none, t)
    with_samples (some created, t) = (some created, (seed_sample_workflows created.id t).1)

    -- `_main`: the tenant that is made and its key, which are printed
    unfoldable pub seed_main : Tables → Option TenantWithKey × Tables
    unfolding seed_default_tenant with_samples
    seed_main t = with_samples (seed_default_tenant none none t)
