-- ===== src/Access/Tests.antt =====
-- Examples for the middleware: a Redis that is one counter, and one tenant.
use workflow_automation_engi.Access.{
  Redis, Request, Secrets, Tenant, TenantContext, as_tenant, redis_key, get_rate_limit, starts_with,
  is_public_path, auth_dispatch, validate_api_key, register_tenant, generate_api_key, text_take,
  api_key_lookup_prefix_length,
}
use workflow_automation_engi.Access.Limits.{
  Counts, passes, limit, passes-limit, get_rate_limit-workflows,
}
use workflow_automation_engi.Access.Keys.{
  Admits, auth_dispatch-Admits, validate_api_key-register_tenant,
}
use workflow_automation_engi.Prelude.{
  ℕ, String, ◌≡◌, refl, true, false, some, [], ◌∷◌, ok, codes, ◌≤◌, length, leb, ◌-◌, ◌+◌,
  if◌then◌else◌, pos, str_eq, arith, eq_iff, string_key,
}

abbrev one_counter : Redis ℕ
one_counter = record {
  incr = λ key r. (some (r + 1), r + 1);
  expire = λ key n r. (true, r);
  ttl = λ key r. (some (pos 60), r);
}

abbrev test_request : Request
test_request = record {
  method = "POST";
  path = "/api/workflows/7/execute";
  client = some "10.0.0.1";
  api_key = some "wae_live_0123456789abcdef";
}

one_counter-Counts : Counts one_counter (redis_key test_request) (λ r. r)
one_counter-Counts = record {
  answers = λ r. refl;
  counted = λ r. refl;
  expires = λ n r. refl;
  expire_keeps = λ n r. refl;
  left = λ r. (pos 60, refl);
  ttl_keeps = λ r. refl;
}

abbrev test_limit : ℕ
test_limit = limit one_counter test_request (λ r. r) one_counter-Counts

passes-limit_example : passes one_counter test_request (1 ∷ 2 ∷ 3 ∷ []) 18 ≡ (
    if leb (length {A = ℕ} (1 ∷ 2 ∷ 3 ∷ [])) (test_limit - 18)
    then length {A = ℕ} (1 ∷ 2 ∷ 3 ∷ [])
    else test_limit - 18)
passes-limit_example =
    passes-limit one_counter test_request (λ r. r) one_counter-Counts (1 ∷ 2 ∷ 3 ∷ []) 18

below_workflows : starts_with (codes "/api/workflows/") (codes "/api/workflows/7/execute") ≡ true
unfolding starts_with
below_workflows = refl

get_rate_limit-workflows_example : get_rate_limit "POST" "/api/workflows/7/execute" ≡ 20
get_rate_limit-workflows_example =
    get_rate_limit-workflows "/api/workflows/7/execute" below_workflows

abbrev plain : Secrets
plain = record { checkpw = str_eq; hashpw = λ key salt. key; token_hex = λ n. "0123456789abcdef" }

abbrev test_tenant : Tenant
test_tenant = record {
  id = 1;
  name = "acme";
  api_key_hash = "wae_live_0123456789abcdef";
  api_key_prefix = "wae_live_01234567";
  is_active = true;
}

abbrev test_context : TenantContext
test_context = record { id = 1; name = "acme"; is_active = true }

admitted : auth_dispatch plain test_request (test_tenant ∷ []) ≡ as_tenant test_context
unfolding auth_dispatch is_public_path starts_with validate_api_key text_take
admitted = refl

auth_dispatch-Admits_example :
    (is_public_path "/api/workflows/7/execute" ≡ false)
    × ((api_key : String) × (test_request.api_key ≡ some api_key)
        × Admits plain api_key (test_tenant ∷ []) test_context)
auth_dispatch-Admits_example =
    auth_dispatch-Admits plain test_request (test_tenant ∷ []) test_context admitted

checks : (key : String) (salt : ℕ) → plain.checkpw key (plain.hashpw key salt) ≡ true
checks key salt = (eq_iff key key).1 refl

key_long : api_key_lookup_prefix_length ≤ length (codes (generate_api_key plain 5))
unfolding generate_api_key
key_long = omega arith

validate_api_key-register_tenant_example :
    validate_api_key plain
      (register_tenant plain "acme" 2 5 []).0
      (register_tenant plain "acme" 2 5 []).1
    ≡ ok (record { id = 2; name = "acme"; is_active = true })
validate_api_key-register_tenant_example =
    validate_api_key-register_tenant plain "acme" 2 5 [] checks key_long tt
