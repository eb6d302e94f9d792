-- ===== src/Webhooks/Deliveries.antt =====
-- What src/api/webhooks.py does with a webhook of an active workflow that has a secret.
use Prim.Native.String.{◌++◌ as text_append}
use workflow_automation_engi.Cache.{given}
use workflow_automation_engi.Db.{Workflow}
use workflow_automation_engi.Services.{Starter}
use workflow_automation_engi.Webhooks.{
  WebhookEnv, Inbound, World, answered, process, after_signature, log_webhook_delivery,
  delivery_row, signed, trigger_execution, validate_hmac_signature, is_ascii,
}
use workflow_automation_engi.Prelude.{
  ◌≡◌, ◌≢◌, refl, ◌⊎◌, inl, inr, ok, String, none, some, true, false, codes, get, get-put_self,
  nat_key, raise_f, eq_iff, part, [], ◌∷◌, Message, Option-cases, Bool-cases, str_eq, ◌∙◌, ap,
}

module _ (env : WebhookEnv) (start : Starter) (inbound : Inbound) (w : Workflow) (world : World)
    (secret : String) where
  -- The signature that the secret gives for the body.
  abbrev pub expected_signature : String
  expected_signature = text_append "sha256=" (env.hexdigest secret inbound.body)

  -- Answered with 401 and logged as rejected, with the session as it was.
  abbrev pub IsRejected : Message → Type 0
  IsRejected reason =
      ((process env start inbound w world).0 ≡ ok (answered 401 "INVALID_SIGNATURE"))
      × ((process env start inbound w world).1.session ≡ world.session)
      × (get world.next_delivery (process env start inbound w world).1.deliveries
          ≡ some (delivery_row env start inbound w "rejected" (some reason)))

  rejected :
      (message : Message)
      → w.is_active ≡ true
      → signed env start inbound w ≡ raise_f "INVALID_SIGNATURE" message 401
      → IsRejected message
  unfolding process after_signature log_webhook_delivery
  rejected message active refused =
      rw (active, refused) (refl, refl, get-put_self world.next_delivery _ world.deliveries)

  triggered :
      w.is_active ≡ true
      → signed env start inbound w ≡ ok tt
      → process env start inbound w world ≡ trigger_execution env start inbound w world
  unfolding process after_signature
  triggered active accepted = rw (active, accepted)

  signed_secret :
      given w.webhook_secret ≡ some secret
      → signed env start inbound w
        ≡ validate_hmac_signature env secret inbound.body inbound.signature
  signed_secret secured = rw (secured, signed)

  module _ (signature : String) (present : given inbound.signature ≡ some signature)
      (ascii : is_ascii (codes expected_signature) ≡ true)
      (ascii_header : is_ascii (codes signature) ≡ true) where
    validate_same :
        str_eq signature expected_signature ≡ true
        → validate_hmac_signature env secret inbound.body inbound.signature ≡ ok tt
    unfolding validate_hmac_signature
    validate_same same = rw (present, ascii_header, ascii, same)

    validate_other :
        str_eq signature expected_signature ≡ false
        → validate_hmac_signature env secret inbound.body inbound.signature
          ≡ raise_f "INVALID_SIGNATURE" (part "Invalid webhook signature." ∷ []) 401
    unfolding validate_hmac_signature
    validate_other differ = rw (present, ascii_header, ascii, differ)

  validate_missing :
      given inbound.signature ≡ none
      → validate_hmac_signature env secret inbound.body inbound.signature
        ≡ raise_f "INVALID_SIGNATURE" (part "Missing X-Hub-Signature-256 header." ∷ []) 401
  unfolding validate_hmac_signature
  validate_missing missing = rw missing

  -- A webhook of an active workflow with a secret, where the signatures are ASCII: it is triggered
  -- if its header is the signature that the secret gives for the body. If the header is missing or
  -- any other text, it is answered with 401 and logged as rejected, and starts no execution.
  pub process-signed :
      w.is_active ≡ true
      → given w.webhook_secret ≡ some secret
      → is_ascii (codes expected_signature) ≡ true
      → ((signature : String)
          → given inbound.signature ≡ some signature
          → is_ascii (codes signature) ≡ true)
      → (given inbound.signature ≡ some expected_signature)
          × (process env start inbound w world ≡ trigger_execution env start inbound w world)
        ⊎ (given inbound.signature ≡ none)
          × IsRejected (part "Missing X-Hub-Signature-256 header." ∷ [])
        ⊎ ((signature : String) × (given inbound.signature ≡ some signature)
            × (signature ≢ expected_signature)
            × IsRejected (part "Invalid webhook signature." ∷ []))
  process-signed active secured ascii ascii_header = elim (Option-cases (given inbound.signature)) [
    | inl missing ↦
        inr (inl (missing, rejected _ active (signed_secret secured ∙ validate_missing missing)))
    | inr (signature, present) ↦ elim (Bool-cases (str_eq signature expected_signature)) [
      | inl same ↦
          let e = (eq_iff signature expected_signature).0 same in
          inl (
            present ∙ ap some e,
            triggered active (
                signed_secret secured
                ∙ validate_same signature present ascii (ascii_header signature present) same),
          )
      | inr differ ↦ inr (
          inr (
            signature,
            present,
            λ e. cc ((eq_iff signature expected_signature).1 e),
            rejected _ active (
                signed_secret secured
                ∙ validate_other signature present ascii (ascii_header signature present) differ),
          ))
    ]
  ]
