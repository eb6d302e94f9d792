-- ===== src/Webhooks/Refusals.antt =====
-- When src/api/webhooks.py leaves the executions alone.
use workflow_automation_engi.Webhooks.{
  WebhookEnv, Inbound, World, Reply, lookup_workflow_by_path, log_webhook_delivery,
  trigger_execution, signed, process, receive_webhook, Starter, answered, ended, after_signature,
  with_row, with_cached, received, too_large, Execution, set, WorkflowCache, get_by_webhook_path,
  announced,
}
use workflow_automation_engi.Db.{Workflow}
use workflow_automation_engi.Prelude.{
  ltb, length, exceeds, Result, ℕ, String, ◌≡◌, refl, ◌≢◌, Option, none, some, ok, err, app_error,
  other, if◌then◌else◌, ℤ, Bool, true, false,
}
use workflow_automation_engi.Services.{Starter}
use workflow_automation_engi.Engine.Session.{Execution, Session}
use workflow_automation_engi.Cache.{set, WorkflowCache, get_by_webhook_path}

module _ (env : WebhookEnv) (start : Starter) (inbound : Inbound) where
  -- An answer with an error's code goes with the session as it was.
  abbrev IsQuiet : World → Result Reply × World → Type 0
  IsQuiet world out =
      (status : ℕ)
      → (code : String) → out.0 ≡ ok (answered status code)
      → out.1.session ≡ world.session

  if-IsQuiet :
      (b : Bool) (world : World) (x y : Result Reply × World)
      → IsQuiet world x
      → IsQuiet world y
      → IsQuiet world (if b then x else y)
  if-IsQuiet true world x y p q = p
  if-IsQuiet false world x y p q = q

  elim-IsQuiet :
      {A : Type 0} (x : Option A) (world : World) (missing : Result Reply × World)
      (found : A → Result Reply × World)
      → IsQuiet world missing
      → ((a : A) → IsQuiet world (found a))
      → IsQuiet world (elim x [ none ↦ missing | some a ↦ found a ])
  elim-IsQuiet none world missing found p q = p
  elim-IsQuiet (some a) world missing found p q = q a

  ended-accepts :
      (w : Workflow) (id : ℕ) (world : World) (out : Result Execution × Session) (status : ℕ)
      (code : String)
      → (ended env start inbound w id world out).0 ≢ ok (answered status code)
  unfolding ended
  ended-accepts w id world (ok execution, session) status code h = absurd (cc h)
  ended-accepts w id world (err exc, session) status code h = absurd (cc h)

  after_signature-IsQuiet :
      (w : Workflow) (world : World) (r : Result (Unit {0}))
      → IsQuiet world (after_signature env start inbound w world r)
  unfolding after_signature log_webhook_delivery trigger_execution
  after_signature-IsQuiet w world (ok u) status code h = absurd (
      ended-accepts w world.next_delivery
        (log_webhook_delivery env start inbound w "received" none world) _ status code h)
  after_signature-IsQuiet w world (err (app_error e)) status code h = refl
  after_signature-IsQuiet w world (err (other m)) status code h = refl

  process-IsQuiet :
      (w : Workflow) (world : World) → IsQuiet world (process env start inbound w world)
  unfolding process log_webhook_delivery
  process-IsQuiet w world =
      if-IsQuiet w.is_active world _ _
        (after_signature-IsQuiet w world (signed env start inbound w)) (λ status code h. refl)

  with_row-IsQuiet :
      (now : ℕ) (world : World) (r : Result Workflow)
      → IsQuiet world (with_row env start inbound now world r)
  unfolding with_row
  with_row-IsQuiet now world (err (app_error e)) = λ status code h. refl
  with_row-IsQuiet now world (err (other m)) = λ status code h. refl
  with_row-IsQuiet now world (ok w) =
      elim-IsQuiet (set now w world.cache) world _ _ (λ status code h. refl)
        (λ cache. process-IsQuiet w (record world { cache = cache }))

  with_cached-IsQuiet :
      (now : ℕ) (world : World) (r : Option Workflow × WorkflowCache)
      → IsQuiet world (with_cached env start inbound now world r)
  unfolding with_cached
  with_cached-IsQuiet now world (some w, cache) = process-IsQuiet w (record world { cache = cache })
  with_cached-IsQuiet now world (none, cache) =
      with_row-IsQuiet now (record world { cache = cache })
        (lookup_workflow_by_path inbound.webhook_path world.workflows)

  received-IsQuiet :
      (now : ℕ) (world : World) → IsQuiet world (received env start inbound now world)
  unfolding received too_large
  received-IsQuiet now world =
      if-IsQuiet (ltb env.max_payload_size (length inbound.body)) world _ _ (λ status code h. refl)
        (with_cached-IsQuiet now world (get_by_webhook_path now inbound.webhook_path world.cache))

  announced-IsQuiet :
      (now : ℕ) (world : World) (n : Option ℤ)
      → IsQuiet world (announced env start inbound now world n)
  unfolding announced too_large
  announced-IsQuiet now world none = λ status code h. refl
  announced-IsQuiet now world (some n) =
      if-IsQuiet (exceeds n env.max_payload_size) world _ _ (λ status code h. refl)
        (received-IsQuiet now world)

  -- A webhook that is answered with an error's code, whichever check refused it, has started no
  -- execution: the executions and their steps are as they were.
  pub receive_webhook-refused :
      (now : ℕ) (world : World) (status : ℕ) (code : String)
      → (receive_webhook env start inbound now world).0 ≡ ok (answered status code)
      → (receive_webhook env start inbound now world).1.session ≡ world.session
  unfolding receive_webhook
  receive_webhook-refused now world =
      elim-IsQuiet inbound.content_length world _ _ (received-IsQuiet now world)
        (announced-IsQuiet now world)
