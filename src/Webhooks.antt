-- ===== src/Webhooks.antt =====
-- src/api/webhooks.py and src/triggers/webhook.py: receiving a webhook. The body is its bytes;
-- JSON, the HMAC and what starts an execution are parameters.
pub mod Deliveries
pub mod Refusals
mod Tests
use Prim.Native.String.{◌++◌ as text_append}
use workflow_automation_engi.Db.{Workflow}
use workflow_automation_engi.Cache.{WorkflowCache, given, get_by_webhook_path, set}
use workflow_automation_engi.Services.{Starter}
use workflow_automation_engi.Engine.Session.{Session, Execution, or_raise}
use workflow_automation_engi.Prelude.{
  ◌>>=◌, ◌>>◌, Dict, put, get, ℕ, ◌+◌, String, Bool, true, false, not, ◌&&◌, ◌||◌, Option, none,
  some, List, [], ◌∷◌, map, Value, Fields, field, obj, end, Result, ok, err, raise, Exception,
  AppError, app_error, other, Message, part, str_exc, if◌then◌else◌, ◌==◌, string_key, nat_key, ltb,
  length, codes, ℤ, pos, exceeds, int,
}

-- `int(content_length)`; none is a header that is no integer.
pub record Inbound : Type 0 where
  pub webhook_path : String
  pub method : String
  pub content_length : Option (Option ℤ)
  pub body : List ℕ
  pub headers : Fields
  pub signature : Option String
  pub source_ip : Option String

-- The limit of the settings, `json.loads` (none: it raises), `hexdigest` of the HMAC.
pub record WebhookEnv : Type 0 where
  pub max_payload_size : ℕ
  pub loads : List ℕ → Option Value
  pub hexdigest : String → List ℕ → String

-- A row of webhook_deliveries.
pub record Delivery : Type 0 where
  pub tenant_id : ℕ
  pub workflow_id : ℕ
  pub execution_id : Option ℕ
  pub method : String
  pub headers : Fields
  pub payload : Value
  pub source_ip : Option String
  pub status : String
  pub rejection_reason : Option Message

pub record World : Type 0 where
  pub session : Session
  pub workflows : List Workflow
  pub cache : WorkflowCache
  pub deliveries : Dict ℕ Delivery
  pub next_delivery : ℕ

-- 202 with the execution, or an error's status and code.
pub data Reply : Type 0 where
  accepted : ℕ → Reply
  answered : ℕ → String → Reply

-- The workflows with the path: the column is unique.
rows_with_path : String → List Workflow → List Workflow
rows_with_path path [] = []
rows_with_path path (w ∷ rows) =
    let rest = rows_with_path path rows in
    elim w.webhook_path [ none ↦ rest | some p ↦ if p == path then w ∷ rest else rest ]

one_or_none : List Workflow → Result Workflow
one_or_none [] = raise "NOT_FOUND" "Webhook path not found." 404
one_or_none (w ∷ []) = ok w
one_or_none (w ∷ v ∷ rows) =
    err (other (part "Multiple rows were found when one or none was required" ∷ []))

unfoldable pub lookup_workflow_by_path : String → List Workflow → Result Workflow
unfolding rows_with_path one_or_none
lookup_workflow_by_path path workflows = one_or_none (rows_with_path path workflows)

unfoldable pub is_ascii : List ℕ → Bool
is_ascii [] = true
is_ascii (c ∷ cs) = ltb c 128 && is_ascii cs

-- `hmac.compare_digest` of two texts, which wants ASCII
compare_digest : String → String → Result Bool
unfolding is_ascii
compare_digest a b =
    if is_ascii (codes a) && is_ascii (codes b)
    then ok (a == b)
    else err (other (part "comparing strings with non-ASCII characters is not supported" ∷ []))

check_signature : String → Bool → Result (Unit {0})
check_signature expected true = ok tt
check_signature expected false = raise "INVALID_SIGNATURE" "Invalid webhook signature." 401

-- From `if not signature_header` on
check_header : WebhookEnv → String → List ℕ → Option String → Result (Unit {0})
unfolding compare_digest check_signature
check_header env secret body none =
    raise "INVALID_SIGNATURE" "Missing X-Hub-Signature-256 header." 401
check_header env secret body (some signature) =
    let expected = text_append "sha256=" (env.hexdigest secret body) in
    compare_digest signature expected >>= check_signature expected

unfoldable pub validate_hmac_signature :
    WebhookEnv → String → List ℕ → Option String → Result (Unit {0})
unfolding check_header
validate_hmac_signature env secret body header = check_header env secret body (given header)

-- `json.loads(body) if body else {}`, and {} where it raises
unfoldable pub parse_payload : WebhookEnv → List ℕ → Value
parse_payload env [] = obj end
parse_payload env (b ∷ body) = elim (env.loads (b ∷ body)) [ none ↦ obj end | some v ↦ v ]

module _ (env : WebhookEnv) (start : Starter) (inbound : Inbound) where
  abbrev pub webhook_payload : Value
  webhook_payload = parse_payload env inbound.body

  -- `log_webhook_delivery`
  abbrev pub delivery_row : Workflow → String → Option Message → Delivery
  delivery_row w status reason = record {
    tenant_id = w.tenant_id;
    workflow_id = w.id;
    execution_id = none;
    method = inbound.method;
    headers = inbound.headers;
    payload = webhook_payload;
    source_ip = inbound.source_ip;
    status = status;
    rejection_reason = reason;
  }

  unfoldable pub log_webhook_delivery : Workflow → String → Option Message → World → World
  log_webhook_delivery w status reason world = record world {
    deliveries = put world.next_delivery (delivery_row w status reason) world.deliveries;
    next_delivery = world.next_delivery + 1;
  }

  -- How the delivery that was logged as received ends.
  ended : Workflow → ℕ → World → Result Execution × Session → Result Reply × World
  ended w id world (ok execution, session) =
      let received = delivery_row w "received" none in
      let row = record received { status = "accepted"; execution_id = some execution.id } in
      (
        ok (accepted execution.id),
        record world { session = session; deliveries = put id row world.deliveries },
      )
  ended w id world (err exc, session) =
      let row = delivery_row w "error" (some (str_exc exc)) in
      (err exc, record world { session = session; deliveries = put id row world.deliveries })

  -- The delivery is logged as received, and the execution is started.
  unfoldable pub trigger_execution : Workflow → World → Result Reply × World
  unfolding ended log_webhook_delivery
  trigger_execution w world =
      let logged = log_webhook_delivery w "received" none world in
      ended w world.next_delivery logged (
        start w (field "payload" webhook_payload (field "headers" (obj inbound.headers) end))
          w.tenant_id none logged.session)

  abbrev pub log_rejected : Workflow → Message → ℕ → String → World → Result Reply × World
  log_rejected w reason status code world =
      (ok (answered status code), log_webhook_delivery w "rejected" (some reason) world)

  after_signature : Workflow → World → Result (Unit {0}) → Result Reply × World
  unfolding log_webhook_delivery
  after_signature w world (ok _) = trigger_execution w world
  after_signature w world (err (app_error e)) = log_rejected w e.message e.status_code e.code world
  after_signature w world (err (other m)) = (err (other m), world)

  -- `if workflow.webhook_secret: validate_hmac_signature(...)`
  abbrev pub signed : Workflow → Result (Unit {0})
  signed w = elim (given w.webhook_secret) [
    | none ↦ ok tt
    | some secret ↦ validate_hmac_signature env secret inbound.body inbound.signature
  ]

  -- From the workflow on: inactive, wrongly signed, or triggered.
  unfoldable pub process : Workflow → World → Result Reply × World
  unfolding after_signature log_webhook_delivery validate_hmac_signature
  process w world =
      if w.is_active
      then after_signature w world (signed w)
      else log_rejected w (part "Workflow is not active." ∷ []) 404 "NOT_FOUND" world

  with_row : ℕ → World → Result Workflow → Result Reply × World
  with_row now world (err (app_error e)) = (ok (answered e.status_code e.code), world)
  with_row now world (err (other m)) = (err (other m), world)
  with_row now world (ok w) = elim (set now w world.cache) [
    | none ↦ (err (other (part "'dictionary is empty'" ∷ [])), world)
    | some cache ↦ process w (record world { cache = cache })
  ]

  with_cached : ℕ → World → Option Workflow × WorkflowCache → Result Reply × World
  unfolding with_row lookup_workflow_by_path
  with_cached now world (some w, cache) = process w (record world { cache = cache })
  with_cached now world (none, cache) =
      with_row now (record world { cache = cache })
        (lookup_workflow_by_path inbound.webhook_path world.workflows)

  too_large : World → Result Reply × World
  too_large world = (ok (answered 413 "PAYLOAD_TOO_LARGE"), world)

  received : ℕ → World → Result Reply × World
  unfolding with_cached too_large
  received now world =
      if ltb env.max_payload_size (length inbound.body)
      then too_large world
      else with_cached now world (get_by_webhook_path now inbound.webhook_path world.cache)

  -- From `int(content_length)` on; none is a header that is no integer.
  announced : ℕ → World → Option ℤ → Result Reply × World
  unfolding received too_large
  announced now world none =
      (err (other (part "invalid literal for int() with base 10" ∷ [])), world)
  announced now world (some n) =
      if exceeds n env.max_payload_size then too_large world else received now world

  -- `receive_webhook`, at one reading of the clock
  unfoldable pub receive_webhook : ℕ → World → Result Reply × World
  unfolding announced received
  receive_webhook now world = elim inbound.content_length [
    | none ↦ received now world
    | some n ↦ announced now world n
  ]
