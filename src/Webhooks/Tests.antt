-- ===== src/Webhooks/Tests.antt =====
-- Examples for the webhooks: a wrong signature, and a payload announced as too large.
use workflow_automation_engi.Webhooks.Deliveries.{expected_signature, IsRejected, process-signed}
use workflow_automation_engi.Webhooks.Refusals.{receive_webhook-refused}
use workflow_automation_engi.Webhooks.{
  Inbound, WebhookEnv, World, is_ascii, trigger_execution, process, answered, receive_webhook,
}
use workflow_automation_engi.Cache.{given}
use workflow_automation_engi.Db.{Workflow}
use workflow_automation_engi.Prelude.{
  String, codes, raise, ◌≡◌, ◌≢◌, ◌⊎◌, refl, true, none, some, [], ◌∷◌, end, ok, part, pos,
}
use workflow_automation_engi.Services.{Starter}

abbrev test_env : WebhookEnv
test_env = record { max_payload_size = 100; loads = λ body. none; hexdigest = λ secret body. "ab" }

abbrev test_workflow : Workflow
test_workflow = record {
  id = 3;
  tenant_id = 1;
  name = "orders";
  description = none;
  trigger_type = "webhook";
  trigger_config = end;
  steps = [];
  is_active = true;
  webhook_path = some "orders";
  webhook_secret = some "s3cret";
  created_at = 0;
  updated_at = 0;
}

abbrev forged : Inbound
forged = record {
  webhook_path = "orders";
  method = "POST";
  content_length = none;
  body = 123 ∷ 125 ∷ [];
  headers = end;
  signature = some "sha256=no";
  source_ip = none;
}

abbrev large_inbound : Inbound
large_inbound = record forged { content_length = some (some (pos 101)) }

abbrev empty_world : World
empty_world = record {
  session = record { executions = []; step_executions = []; clock_reads = 0; uuids = 0 };
  workflows = test_workflow ∷ [];
  cache = record { max_size = 1; ttl = 300; entries = []; path_index = [] };
  deliveries = [];
  next_delivery = 5;
}

abbrev no_start : Starter
no_start workflow trigger_data tenant_id replayed_from s = (raise "QUEUE" "No queue." 503, s)

ascii_expected :
    is_ascii
      (codes (expected_signature test_env no_start forged test_workflow empty_world "s3cret"))
    ≡ true
unfolding is_ascii
ascii_expected = refl

all_ascii :
    (signature : String)
    → given forged.signature ≡ some signature
    → is_ascii (codes signature) ≡ true
unfolding is_ascii
all_ascii signature present = let e : "sha256=no" ≡ signature = cc in rw (← e)

process-signed_example :
    (given forged.signature
        ≡ some (expected_signature test_env no_start forged test_workflow empty_world "s3cret"))
      × (process test_env no_start forged test_workflow empty_world
          ≡ trigger_execution test_env no_start forged test_workflow empty_world)
    ⊎ (given forged.signature ≡ none)
      × IsRejected test_env no_start forged test_workflow empty_world "s3cret"
          (part "Missing X-Hub-Signature-256 header." ∷ [])
    ⊎ ((signature : String) × (given forged.signature ≡ some signature)
        × (signature
            ≢ expected_signature test_env no_start forged test_workflow empty_world "s3cret")
        × IsRejected test_env no_start forged test_workflow empty_world "s3cret"
            (part "Invalid webhook signature." ∷ []))
process-signed_example =
    process-signed test_env no_start forged test_workflow empty_world "s3cret" refl refl
      ascii_expected all_ascii

large_refused :
    (receive_webhook test_env no_start large_inbound 0 empty_world).0
    ≡ ok (answered 413 "PAYLOAD_TOO_LARGE")
unfolding receive_webhook
large_refused = refl

receive_webhook-refused_example :
    (receive_webhook test_env no_start large_inbound 0 empty_world).1.session ≡ empty_world.session
receive_webhook-refused_example =
    receive_webhook-refused test_env no_start large_inbound 0 empty_world 413 "PAYLOAD_TOO_LARGE"
      large_refused
