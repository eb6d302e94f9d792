-- ===== src/Seed/Once.antt =====
-- A second run of src/tenants/seed.py.
use workflow_automation_engi.Seed.{
  SeedSettings, Tables, seed_main, seed_default_tenant, seed_sample_workflows, check_tenants_exist,
}
use workflow_automation_engi.Access.{
  Secrets, Tenant, register_tenant, generate_api_key, text_take, api_key_lookup_prefix_length,
}
use workflow_automation_engi.Workflows.{ApiEnv}
use workflow_automation_engi.Prelude.{
  ltb, Bool-cases, ◌==◌, length, select, ℕ, ◌≡◌, refl, inl, inr, true, not, ◌||◌, none, List, [],
  ◌∷◌, ◌++◌, arith, nat_key, ap, ◌∙◌, false, ◌+◌, String,
}

grown : (tenants : List Tenant) (t : Tenant) → check_tenants_exist (tenants ++ t ∷ []) ≡ true
grown [] t = refl
grown (x ∷ tenants) t = ground arith

registered :
    (secrets : Secrets) (name : String) (id n : ℕ) (tenants : List Tenant)
    → check_tenants_exist (register_tenant secrets name id n tenants).1 ≡ true
unfolding register_tenant
registered secrets name id n tenants = grown tenants (record {
  id = id;
  name = name;
  api_key_hash = secrets.hashpw (generate_api_key secrets n) n;
  api_key_prefix = text_take api_key_lookup_prefix_length (generate_api_key secrets n);
  is_active = true;
})

module _ (env : ApiEnv) (secrets : Secrets) (settings : SeedSettings) where
  samples-tenants :
      (id : ℕ) (t : Tables) → (seed_sample_workflows env secrets id t).1.tenants ≡ t.tenants
  unfolding seed_sample_workflows
  samples-tenants id t =
      elim (Bool-cases (ltb 0 (length (select (λ w. w.tenant_id == id) t.workflows)))) [
        | inl there ↦ rw there refl
        | inr missing ↦ rw missing refl
      ]

  skips :
      (t : Tables)
      → (not settings.self_registration_enabled || check_tenants_exist t.tenants) ≡ true
      → seed_main env secrets settings t ≡ (none, t)
  unfolding seed_main seed_default_tenant
  skips t h = rw h refl

  made-tenants :
      (t : Tables)
      → (not settings.self_registration_enabled || check_tenants_exist t.tenants) ≡ false
      → check_tenants_exist (seed_main env secrets settings t).1.tenants ≡ true
  unfolding seed_main seed_default_tenant
  made-tenants t h =
      let name = settings.default_tenant_name in
      let id = env.id_at t.generated in
      let tenants = (register_tenant secrets name id t.generated t.tenants).1 in
      let t' : Tables = record t { tenants = tenants; generated = t.generated + 1 } in
      rw h (
        ap check_tenants_exist (samples-tenants id t')
        ∙ registered secrets name id t.generated t.tenants)

  -- A run makes a tenant, or it leaves the tables as they are.
  ran :
      (t : Tables)
      → (not settings.self_registration_enabled
          || check_tenants_exist (seed_main env secrets settings t).1.tenants)
        ≡ true
  ran t =
      elim (Bool-cases (not settings.self_registration_enabled || check_tenants_exist t.tenants)) [
        | inl skipped ↦ rw (skips t skipped) skipped
        | inr made ↦ rw (made-tenants t made) (ground arith)
      ]

  -- A second run of the seed makes no tenant and changes nothing.
  seed_main-seed_main :
      (t : Tables)
      → seed_main env secrets settings (seed_main env secrets settings t).1
        ≡ (none, (seed_main env secrets settings t).1)
  seed_main-seed_main t = skips (seed_main env secrets settings t).1 (ran t)
