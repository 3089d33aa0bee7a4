-- ===== src/Inbound/Router.antt =====
-- integrations/router.py, the endpoints that ingest, integrations/auth.py and
-- integrations/whatsapp.py. The digest of a body under a secret (HMAC) is a parameter.
use system_dashnote.Prelude.{
  ℕ, String, Bool, not, ◌&&◌, ◌||◌, Option, none, some, List, [], ◌∷◌, if◌then◌else◌,
}
use system_dashnote.Prelude.Text.{Text, codes, text_eq}
use system_dashnote.Prelude.Exec.{
  Exec, Exn, http, Result, ok, err, pure, raise_if, or_raise, ◌>>=◌, ◌>>◌,
}
use system_dashnote.Threads.Service.{truthy}
use system_dashnote.Inbound.Models.{
  Services, World, ResolvedIdentity, EmailInboundRequest, InboundIngestResponse,
}
use system_dashnote.Inbound.Identity.{resolve_email_sender, resolve_whatsapp_sender}
use system_dashnote.Inbound.Ingest.{Inbound, ingest_text_message, ingest_email}

-- A message of Meta's payload, as `extract_text_messages` gives it; a missing key is the empty text.
pub record WhatsAppMessage : Type 0 where
  pub message_id : Text
  pub sender : Text
  pub type_ : Text
  pub text : Text

pub data WebhookResult : Type 0 where
  rejected : (message_id : Text) (reason : String) → WebhookResult
  done : (message_id : Text) (note_id : ℕ) (duplicate : Bool) → WebhookResult

-- The settings, stripped, and what the endpoints call.
pub record Settings : Type 0 where
  pub inbound_api_key : Text
  pub inbound_hmac_secret : Text
  pub whatsapp_app_secret : Text
  pub whatsapp_verify_token : Text
  -- `hmac.new(secret, body, sha256).hexdigest()`
  pub hexdigest : Text → Text → Text
  -- `removeprefix("sha256=").strip()`
  pub provided : Text → Text
  -- `extract_text_messages(json.loads(body))`, none if the body is no JSON
  pub read_messages : Text → Option (List WhatsAppMessage)

module _ (v : Services) (c : Settings) where
  abbrev pub or_empty : Option Text → Text
  or_empty none = []
  or_empty (some s) = s

  unfoldable pub require_inbound_api_key : Option Text → Exec (World v) Unit
  require_inbound_api_key x_inbound_api_key = do
    raise_if (not (truthy c.inbound_api_key)) (http 503 "Inbound integrations are not configured.")
    raise_if
        (not (truthy (or_empty x_inbound_api_key))
          || not (text_eq (or_empty x_inbound_api_key) c.inbound_api_key))
        (http 401 "Invalid inbound credentials.")

  abbrev pub check_signature : Option Text → Text → Exec (World v) Unit
  check_signature x_inbound_signature body = do
    raise_if (not (truthy (or_empty x_inbound_signature))) (http 401 "Missing inbound signature.")
    raise_if
        (not (
          text_eq (c.provided (or_empty x_inbound_signature))
            (c.hexdigest c.inbound_hmac_secret body)))
        (http 401 "Invalid inbound signature.")

  unfoldable pub require_inbound_hmac_if_configured : Option Text → Text → Exec (World v) Unit
  require_inbound_hmac_if_configured x_inbound_signature body =
      if not (truthy c.inbound_hmac_secret)
      then pure tt
      else check_signature x_inbound_signature body

  -- the dependencies of the route, and its handler
  unfoldable pub inbound_email :
      Option Text → Option Text → Text → EmailInboundRequest → Exec (World v) InboundIngestResponse
  inbound_email x_inbound_api_key x_inbound_signature body payload = do
    require_inbound_api_key x_inbound_api_key
    require_inbound_hmac_if_configured x_inbound_signature body
    identity ← resolve_email_sender v payload.from_email
    ingest_email v payload identity

  unfoldable pub whatsapp_webhook_verify :
      Option Text → Option Text → Option Text → Exec (World v) Text
  whatsapp_webhook_verify hub_mode hub_verify_token hub_challenge = do
    raise_if
        (not (
          text_eq (or_empty hub_mode) (codes "subscribe")
          && (truthy c.whatsapp_verify_token
              && text_eq (or_empty hub_verify_token) c.whatsapp_verify_token)))
        (http 403 "Verification failed.")
    pure (or_empty hub_challenge)

  unfoldable pub verify_meta_signature : Text → Option Text → Bool
  verify_meta_signature body header_value =
      (truthy c.whatsapp_app_secret && truthy (or_empty header_value))
      && text_eq (c.provided (or_empty header_value)) (c.hexdigest c.whatsapp_app_secret body)

  abbrev pub text_message : WhatsAppMessage → ResolvedIdentity → Inbound
  text_message msg identity = record {
    channel = codes "whatsapp";
    provider_message_id = msg.message_id;
    identity = identity;
    subject = none;
    body = msg.text;
    attachments = [];
  }

  abbrev pub ingest_as : WhatsAppMessage → ResolvedIdentity → Exec (World v) (Option WebhookResult)
  ingest_as msg identity = do
    ingest ← ingest_text_message v (text_message msg identity)
    pure (some (WebhookResult.done msg.message_id ingest.note_id ingest.duplicate))

  -- `except HTTPException`: other exceptions go on
  abbrev pub after_resolve :
      WhatsAppMessage → Result ResolvedIdentity × World v → Result (Option WebhookResult) × World v
  after_resolve msg (ok identity, w) = ingest_as msg identity w
  after_resolve msg (err (Exn.http status detail), w) =
      (ok (some (WebhookResult.rejected msg.message_id detail)), w)
  after_resolve msg (err e, w) = (err e, w)

  -- one round of the loop, with the result that it appends, if any
  unfoldable pub receive_one : WhatsAppMessage → Exec (World v) (Option WebhookResult)
  receive_one msg w =
      let resolved = after_resolve msg (resolve_whatsapp_sender v msg.sender w) in
      if not (truthy msg.message_id) || not (truthy msg.sender)
      then (ok none, w)
      else if truthy msg.type_ && not (text_eq msg.type_ (codes "text"))
      then (
        ok (
            some (
              WebhookResult.rejected msg.message_id
                "Text-first MVP; media not stored under current file policy.")),
        w,
      )
      else if not (truthy (v.strip msg.text))
      then (ok (some (WebhookResult.rejected msg.message_id "Empty text; no note created.")), w)
      else resolved

  abbrev appended : Option WebhookResult → List WebhookResult → List WebhookResult
  appended none results = results
  appended (some r) results = r ∷ results

  unfoldable pub receive_all : List WhatsAppMessage → Exec (World v) (List WebhookResult)
  receive_all [] = pure []
  receive_all (msg ∷ msgs) = do
    result ← receive_one msg
    results ← receive_all msgs
    pure (appended result results)

  unfoldable pub whatsapp_webhook_receive : Text → Option Text → Exec (World v) (List WebhookResult)
  whatsapp_webhook_receive body signature = do
    raise_if (not (truthy c.whatsapp_app_secret)) (http 503 "WhatsApp webhook is not configured.")
    raise_if (not (verify_meta_signature body signature)) (http 401 "Invalid WhatsApp signature.")
    messages ← or_raise (c.read_messages body) (http 400 "Invalid JSON.")
    receive_all messages
