-- ===== src/Access/Keys.antt =====
-- What an API key of src/tenants/service.py gives access to.
use workflow_automation_engi.Access.{
  Secrets, Tenant, TenantContext, Request, as_tenant, validate_api_key, auth_dispatch,
  register_tenant, generate_api_key, text_take, api_key_lookup_prefix_length, is_public_path,
  scalar_one_or_none, check_tenant, with_key, granted,
}
use workflow_automation_engi.Prelude.{
  ℕ, ◌≤◌, String, Bool, ◌≡◌, refl, true, false, Option, some, none, List, [], ◌∷◌, ◌++◌, length,
  codes, arith, ltb, select, ok, err, Result, Bool-cases, inl, inr, str_eq, eq_iff, app_error,
  other, string_key, ◌==◌, ◌⊎◌, ◌>>=◌,
}

-- A tenant of the table.
abbrev pub In : Tenant → List Tenant → Type 0
In t [] = ⊥
In t (u ∷ us) = (t ≡ u) ⊎ In t us

-- An active tenant of the table, with the prefix of the key and a hash that the key fits.
pub record Admits (secrets : Secrets) (api_key : String) (tenants : List Tenant)
    (ctx : TenantContext) : Type 0 where
  pub tenant : Tenant
  pub there : In tenant tenants
  pub active : tenant.is_active ≡ true
  pub fits : secrets.checkpw api_key tenant.api_key_hash ≡ true
  pub prefix : tenant.api_key_prefix ≡ text_take api_key_lookup_prefix_length api_key
  pub same_id : ctx.id ≡ tenant.id

In-select :
    (p : Tenant → Bool) (t : Tenant) (rows : List Tenant)
    → In t (select p rows)
    → In t rows × (p t ≡ true)
In-select p t [] h = absurd h
In-select p t (u ∷ us) h = elim (Bool-cases (p u)) [
  | inl yes_u ↦
      let k : In t (u ∷ select p us) = rw yes_u at h in
      elim k [
        | inl e ↦ (inl e, rw e yes_u)
        | inr later ↦ let r = In-select p t us later in (inr r.0, r.1)
      ]
  | inr no_u ↦ let r = In-select p t us (rw no_u at h) in (inr r.0, r.1)
]

module _ (secrets : Secrets) (api_key : String) where
  check_tenant-Admits :
      (tenants : List Tenant) (tenant : Tenant) (ctx : TenantContext)
      → In tenant tenants
      → tenant.api_key_prefix ≡ text_take api_key_lookup_prefix_length api_key
      → check_tenant secrets api_key (some tenant) ≡ ok ctx
      → Admits secrets api_key tenants ctx
  unfolding check_tenant
  check_tenant-Admits tenants tenant ctx there prefix h =
      elim (Bool-cases (secrets.checkpw api_key tenant.api_key_hash)) [
        | inr wrong ↦ absurd (cc (rw wrong at h))
        | inl fits ↦ elim (Bool-cases tenant.is_active) [
          | inr disabled ↦ absurd (cc (rw (fits, disabled) at h))
          | inl active ↦ record {
            tenant = tenant;
            there = there;
            active = active;
            fits = fits;
            prefix = prefix;
            same_id = ground (arith, rw (fits, active) at h);
          }
        ]
      ]

  one_row :
      (rows tenants : List Tenant) (ctx : TenantContext)
      → ((t : Tenant)
          → In t rows
          → In t tenants × (t.api_key_prefix ≡ text_take api_key_lookup_prefix_length api_key))
      → (scalar_one_or_none rows >>= check_tenant secrets api_key) ≡ ok ctx
      → Admits secrets api_key tenants ctx
  unfolding scalar_one_or_none check_tenant
  one_row [] tenants ctx from h = absurd (cc h)
  one_row (t ∷ []) tenants ctx from h =
      let f = from t (inl refl) in check_tenant-Admits tenants t ctx f.0 f.1 h
  one_row (t ∷ u ∷ rows) tenants ctx from h = absurd (cc h)

  validate_api_key-Admits :
      (tenants : List Tenant) (ctx : TenantContext)
      → validate_api_key secrets api_key tenants ≡ ok ctx
      → Admits secrets api_key tenants ctx
  unfolding validate_api_key
  validate_api_key-Admits tenants ctx h =
      elim (Bool-cases (ltb (length (codes api_key)) api_key_lookup_prefix_length)) [
        | inl short ↦ absurd (cc (rw short at h))
        | inr long ↦
            one_row
              (select (λ t. t.api_key_prefix == text_take api_key_lookup_prefix_length api_key)
                tenants)
              tenants ctx
              (λ t k.
                let r = In-select _ t tenants k in
                (
                  r.0,
                  (eq_iff t.api_key_prefix (text_take api_key_lookup_prefix_length api_key)).0 r.1,
                ))
              (rw long at h)
      ]

granted-ok :
    (secrets : Secrets) (r : Result TenantContext) (ctx : TenantContext)
    → granted secrets r ≡ as_tenant ctx
    → r ≡ ok ctx
unfolding granted
granted-ok secrets (ok c) ctx h = ground arith
granted-ok secrets (err (app_error e)) ctx h = absurd (cc h)
granted-ok secrets (err (other m)) ctx h = absurd (cc h)

with_key-Admits :
    (secrets : Secrets) (key : Option String) (tenants : List Tenant) (ctx : TenantContext)
    → with_key secrets key tenants ≡ as_tenant ctx
    → (api_key : String) × (key ≡ some api_key) × Admits secrets api_key tenants ctx
unfolding with_key
with_key-Admits secrets none tenants ctx h = absurd (cc h)
with_key-Admits secrets (some api_key) tenants ctx h = elim (Bool-cases (str_eq api_key "")) [
  | inl missing ↦ absurd (cc (rw missing at h))
  | inr given ↦ (
    api_key,
    refl,
    validate_api_key-Admits secrets api_key tenants ctx
        (granted-ok secrets (validate_api_key secrets api_key tenants) ctx (rw given at h)),
  )
]

-- A request gets the context of a tenant only on a path that is not public and with a key that
-- an active tenant of the table has the prefix and a fitting hash of.
pub auth_dispatch-Admits :
    (secrets : Secrets) (request : Request) (tenants : List Tenant) (ctx : TenantContext)
    → auth_dispatch secrets request tenants ≡ as_tenant ctx
    → (is_public_path request.path ≡ false)
      × ((api_key : String) × (request.api_key ≡ some api_key) × Admits secrets api_key tenants ctx)
unfolding auth_dispatch
auth_dispatch-Admits secrets request tenants ctx h =
    elim (Bool-cases (is_public_path request.path)) [
      | inl public ↦ absurd (cc (rw public at h))
      | inr guarded ↦
          (guarded, with_key-Admits secrets request.api_key tenants ctx (rw guarded at h))
    ]

-- No tenant of the table has the prefix.
abbrev pub IsFresh : String → List Tenant → Type 0
IsFresh prefix [] = Unit
IsFresh prefix (t ∷ tenants) = (str_eq t.api_key_prefix prefix ≡ false) × IsFresh prefix tenants

select-fresh :
    (prefix : String) (t : Tenant) (tenants : List Tenant)
    → IsFresh prefix tenants
    → t.api_key_prefix ≡ prefix
    → select (λ u. u.api_key_prefix == prefix) (tenants ++ t ∷ []) ≡ t ∷ []
select-fresh prefix t [] fresh e = ground (arith, eq_iff t.api_key_prefix prefix)
select-fresh prefix t (u ∷ tenants) fresh e = rw fresh.0 (select-fresh prefix t tenants fresh.1 e)

-- The key that a registration returns is valid from then on, and for the new tenant: provided
-- that bcrypt accepts a text against its own hash, that the key has at least 17 characters, and
-- that no tenant of the table has its prefix.
pub validate_api_key-register_tenant :
    (secrets : Secrets) (name : String) (id n : ℕ) (tenants : List Tenant)
    → ((key : String) (salt : ℕ) → secrets.checkpw key (secrets.hashpw key salt) ≡ true)
    → api_key_lookup_prefix_length ≤ length (codes (generate_api_key secrets n))
    → IsFresh (text_take api_key_lookup_prefix_length (generate_api_key secrets n)) tenants
    → validate_api_key secrets
        (register_tenant secrets name id n tenants).0
        (register_tenant secrets name id n tenants).1
      ≡ ok (record { id = id; name = name; is_active = true })
unfolding validate_api_key register_tenant check_tenant scalar_one_or_none
validate_api_key-register_tenant secrets name id n tenants checks long fresh =
    let key = generate_api_key secrets n in
    let t : Tenant = record {
      id = id;
      name = name;
      api_key_hash = secrets.hashpw key n;
      api_key_prefix = text_take api_key_lookup_prefix_length key;
      is_active = true;
    } in
    let enough : ltb (length (codes key)) api_key_lookup_prefix_length ≡ false = ground arith in
    rw (
      enough,
      select-fresh (text_take api_key_lookup_prefix_length key) t tenants fresh refl,
      checks key n,
    )
