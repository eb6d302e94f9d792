-- ===== src/Access.antt =====
-- Who may call the service: the rate limit of src/api/middleware/rate_limit.py, the API keys of
-- src/api/middleware/auth.py and the tenants of src/tenants/service.py.
-- Redis, bcrypt and the random tokens are parameters.
pub mod Limits
pub mod Keys
mod Tests
use Prim.Native.String.{◌++◌ as text_append}
use workflow_automation_engi.Prelude.{
  length, zero, suc, ◌>>=◌, ◌>>◌, ltb, leb, nat_eq, if◌then◌else◌, ◌==◌, codes, ℕ, ◌+◌, ◌-◌, String,
  Bool, true, false, not, ◌&&◌, ◌||◌, Option, none, some, List, [], ◌∷◌, ◌++◌, select, Message,
  part, ℤ, pos, negsuc, Result, ok, err, other, app_error, AppError, Exception, raise, string_key,
  nat_key,
}

-- `text.startswith(prefix)`, on code points
unfoldable pub starts_with : List ℕ → List ℕ → Bool
starts_with [] text = true
starts_with (p ∷ prefix) [] = false
starts_with (p ∷ prefix) (c ∷ text) = nat_eq p c && starts_with prefix text

abbrev pub has_prefix : String → String → Bool
has_prefix prefix path = starts_with (codes prefix) (codes path)

-- `text[:n]`
unfoldable pub text_take : ℕ → String → String
text_take zero s = String.[]
text_take (suc n) String.[] = String.[]
text_take (suc n) (String.◌∷◌ c s) = String.◌∷◌ c (text_take n s)

-- An entry of ROUTE_LIMITS: method, prefix, requests in a minute.
abbrev pub RouteLimit : Type 0
RouteLimit = String × String × ℕ

abbrev pub route_limits : List RouteLimit
route_limits =
    ("POST", "/api/tenants/register", 5)
    ∷ ("POST", "/api/workflows", 20)
    ∷ ("PUT", "/api/workflows/", 20)
    ∷ ("DELETE", "/api/workflows/", 20)
    ∷ ("POST", "/api/executions/", 20)
    ∷ ("POST", "/api/workflows/", 30)
    ∷ ("GET", "/api/executions/", 100)
    ∷ ("GET", "/api/metrics/", 30)
    ∷ ("GET", "/api/", 100)
    ∷ ("POST", "/api/", 100)
    ∷ ("POST", "/webhooks/", 100)
    ∷ []

abbrev pub default_limit : ℕ
default_limit = 100

abbrev pub window_seconds : ℕ
window_seconds = 60

unfoldable pub first_limit : List RouteLimit → String → String → ℕ
unfolding starts_with
first_limit [] method path = default_limit
first_limit ((route_method, route_prefix, limit) ∷ routes) method path =
    if route_method == method && has_prefix route_prefix path
    then limit
    else first_limit routes method path

unfoldable pub get_rate_limit : String → String → ℕ
unfolding first_limit
get_rate_limit method path = first_limit route_limits method path

pub record Request : Type 0 where
  pub method : String
  pub path : String
  pub client : Option String
  pub api_key : Option String

unfoldable pub get_client_key : Request → String
get_client_key request = elim request.client [ none ↦ "unknown" | some host ↦ host ]

abbrev pub redis_key : Request → Message
redis_key request =
    part "ratelimit:"
    ∷ part (get_client_key request)
    ∷ part ":"
    ∷ part request.method
    ∷ part ":"
    ∷ part request.path
    ∷ []

-- The commands of Redis; none or false stands for an exception of the client.
pub record Redis (R : Type 0) : Type 0 where
  pub incr : Message → R → Option ℕ × R
  pub expire : Message → ℕ → R → Bool × R
  pub ttl : Message → R → Option ℤ × R

pub record RateHeaders : Type 0 where
  pub limit : ℕ
  pub remaining : ℕ
  pub reset : ℕ

-- The request is handed on, or answered with 429 and Retry-After.
pub data Rated : Type 0 where
  passed : RateHeaders → Rated
  refused : RateHeaders → ℕ → Rated

abbrev pub seconds_left : ℤ → ℕ
seconds_left (pos t) = t
seconds_left (negsuc t) = window_seconds

-- `except Exception`: the request is allowed if Redis is down.
fail_open : ℕ → ℕ → Rated
fail_open now limit =
    passed (record { limit = limit; remaining = limit; reset = now + window_seconds })

decide : ℕ → ℕ → ℕ → Option ℤ → Rated
unfolding fail_open
decide now limit current none = fail_open now limit
decide now limit current (some ttl) =
    if ltb limit current
    then refused (record { limit = limit; remaining = 0; reset = now + seconds_left ttl })
        (seconds_left ttl)
    else passed
        (record { limit = limit; remaining = limit - current; reset = now + seconds_left ttl })

module _ {R : Type 0} (redis : Redis R) (now : ℕ) (request : Request) where
  -- `if current == 1: await redis.expire(redis_key, WINDOW_SECONDS)`
  start_window : ℕ → R → Bool × R
  start_window current r =
      if current == 1 then redis.expire (redis_key request) window_seconds r else (true, r)

  after_window : ℕ → Bool × R → Rated × R
  unfolding decide fail_open
  after_window current (false, r) = (fail_open now (get_rate_limit request.method request.path), r)
  after_window current (true, r) =
      let (ttl, r') = redis.ttl (redis_key request) r in
      (decide now (get_rate_limit request.method request.path) current ttl, r')

  after_incr : Option ℕ × R → Rated × R
  unfolding start_window after_window fail_open
  after_incr (none, r) = (fail_open now (get_rate_limit request.method request.path), r)
  after_incr (some current, r) = after_window current (start_window current r)

  -- `RateLimitMiddleware.dispatch`
  unfoldable pub rate_limit_dispatch : R → Rated × R
  unfolding after_incr
  rate_limit_dispatch r = after_incr (redis.incr (redis_key request) r)

abbrev pub public_path_prefixes : List String
public_path_prefixes =
    "/api/health" ∷ "/webhooks/" ∷ "/api/tenants/register" ∷ "/docs" ∷ "/openapi.json" ∷ "/redoc"
    ∷ []

any_prefix : List String → String → Bool
unfolding starts_with
any_prefix [] path = false
any_prefix (prefix ∷ prefixes) path = has_prefix prefix path || any_prefix prefixes path

unfoldable pub is_public_path : String → Bool
unfolding any_prefix
is_public_path path = any_prefix public_path_prefixes path

pub record Tenant : Type 0 where
  pub id : ℕ
  pub name : String
  pub api_key_hash : String
  pub api_key_prefix : String
  pub is_active : Bool

pub record TenantContext : Type 0 where
  pub id : ℕ
  pub name : String
  pub is_active : Bool

-- bcrypt's `checkpw` and `hashpw` with a salt, `secrets.token_hex`, and generated identifiers.
pub record Secrets : Type 0 where
  pub checkpw : String → String → Bool
  pub hashpw : String → ℕ → String
  pub token_hex : ℕ → String

abbrev pub api_key_lookup_prefix_length : ℕ
api_key_lookup_prefix_length = 17

-- result.scalar_one_or_none()
scalar_one_or_none : List Tenant → Result (Option Tenant)
scalar_one_or_none [] = ok none
scalar_one_or_none (t ∷ []) = ok (some t)
scalar_one_or_none (t ∷ u ∷ rows) =
    err (other (part "Multiple rows were found when one or none was required" ∷ []))

abbrev pub invalid_key : {A : Type 0} → Result A
invalid_key = raise "INVALID_API_KEY" "Invalid or missing API key." 401

-- What `request.state.tenant` is set to, or the answer of the middleware: status and code.
pub data Access : Type 0 where
  open_path : Access
  as_tenant : TenantContext → Access
  denied : ℕ → String → Access

module _ (secrets : Secrets) where
  -- The checks on the tenant that was found.
  check_tenant : String → Option Tenant → Result TenantContext
  check_tenant api_key none = invalid_key
  check_tenant api_key (some tenant) =
      if not (secrets.checkpw api_key tenant.api_key_hash)
      then invalid_key
      else if not tenant.is_active
      then raise "TENANT_DISABLED" "Tenant account is disabled." 403
      else ok (record { id = tenant.id; name = tenant.name; is_active = tenant.is_active })

  unfoldable pub validate_api_key : String → List Tenant → Result TenantContext
  unfolding check_tenant scalar_one_or_none
  validate_api_key api_key tenants =
      if ltb (length (codes api_key)) api_key_lookup_prefix_length
      then invalid_key
      else (scalar_one_or_none (
            select (λ t. t.api_key_prefix == text_take api_key_lookup_prefix_length api_key)
              tenants)
          >>= check_tenant api_key)

  granted : Result TenantContext → Access
  granted (ok ctx) = as_tenant ctx
  granted (err (app_error e)) = denied e.status_code e.code
  granted (err (other m)) = denied 500 "INTERNAL_ERROR"

  with_key : Option String → List Tenant → Access
  unfolding granted
  with_key none tenants = denied 401 "INVALID_API_KEY"
  with_key (some api_key) tenants =
      if api_key == ""
      then denied 401 "INVALID_API_KEY"
      else granted (validate_api_key api_key tenants)

  -- `AuthMiddleware.dispatch`
  unfoldable pub auth_dispatch : Request → List Tenant → Access
  unfolding with_key is_public_path
  auth_dispatch request tenants =
      if is_public_path request.path then open_path else with_key request.api_key tenants

  -- `_generate_api_key`
  unfoldable pub generate_api_key : ℕ → String
  generate_api_key n = text_append "wae_live_" (secrets.token_hex n)

  -- The new tenant's key, and the table after it.
  unfoldable pub register_tenant : String → ℕ → ℕ → List Tenant → String × List Tenant
  unfolding generate_api_key
  register_tenant name id n tenants =
      let api_key = generate_api_key n in
      (
        api_key,
        tenants
            ++ record {
              id = id;
              name = name;
              api_key_hash = secrets.hashpw api_key n;
              api_key_prefix = text_take api_key_lookup_prefix_length api_key;
              is_active = true;
            }
              ∷ [],
      )

  -- `register_tenant_endpoint` of src/api/tenants.py
  unfoldable pub register_tenant_endpoint :
      Bool → String → ℕ → ℕ → List Tenant → Result String × List Tenant
  unfolding register_tenant
  register_tenant_endpoint enabled name id n tenants =
      if enabled
      then (let (api_key, tenants') = register_tenant name id n tenants in (ok api_key, tenants'))
      else (raise "REGISTRATION_DISABLED" "Tenant self-registration is disabled." 403, tenants)
