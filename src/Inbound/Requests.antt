-- ===== src/Inbound/Requests.antt =====
-- Histories of the requests to integrations/router.py.
use system_dashnote.Prelude.{
  ℕ, Bool, Bool-cases, inl, inr, ◌==◌, String, not, ◌&&◌, ◌||◌, Option, none, some, List, [], ◌∷◌,
}
use system_dashnote.Prelude.Text.{Text, text_eq, codes}
use system_dashnote.Prelude.Exec.{
  Exn, http, Result, ok, err, Keeps, >>=-Keeps, if-Keeps, or_raise-Keeps, raise_if-Keeps, or_raise,
  raise_if, modify, pure,
}
use system_dashnote.Auth.Models.{RequestContext, User}
use system_dashnote.Threads.Service.{truthy}
use system_dashnote.Inbound.Models.{
  Services, World, ResolvedIdentity, EmailInboundRequest, WhatsAppIdentityLink,
}
use system_dashnote.Inbound.Identity.{
  resolve_email_sender, resolve_whatsapp_sender, resolve_default_workspace, normalize_phone,
  link_for, user_where, verified,
}
use system_dashnote.Inbound.Ingest.{Inbound, ingest_text_message}
use system_dashnote.Inbound.Links.{
  link_where, has_phone, is_taken, put_pending, put_verified, with_code, whatsapp_link_start,
  whatsapp_link_confirm, whatsapp_link_unlink,
}
use system_dashnote.Inbound.Router.{
  Settings, or_empty, check_signature, require_inbound_api_key, require_inbound_hmac_if_configured,
  verify_meta_signature, after_resolve, text_message, WhatsAppMessage, inbound_email, receive_one,
  receive_all, whatsapp_webhook_receive,
}

pub data Request : Type 0 where
  email : (key signature : Option Text) (body : Text) (payload : EmailInboundRequest) → Request
  webhook : (body : Text) (signature : Option Text) → Request
  link_start : (phone code : Text) (ctx : RequestContext) → Request
  link_confirm : (phone code : Text) (ctx : RequestContext) → Request
  link_unlink : (phone : Text) (ctx : RequestContext) → Request

module _ (v : Services) (c : Settings) where
  abbrev pub perform : Request → World v → World v
  perform (email key signature body payload) w = (inbound_email v c key signature body payload w).1
  perform (webhook body signature) w = (whatsapp_webhook_receive v c body signature w).1
  perform (link_start phone code ctx) w = (whatsapp_link_start v phone code ctx w).1
  perform (link_confirm phone code ctx) w = (whatsapp_link_confirm v phone code ctx w).1
  perform (link_unlink phone ctx) w = (whatsapp_link_unlink v phone ctx w).1

  unfoldable pub perform_all : List Request → World v → World v
  perform_all [] w = w
  perform_all (r ∷ rs) w = perform_all rs (perform r w)

  -- A property that an ingestion keeps and that does not read the links.
  module _ (P : World v → Type 0) (ingested : (m : Inbound) → Keeps P (ingest_text_message v m))
      (relinked : (links : v.links.State) (w : World v)
        → P w
        → P (record w { links = links })) where
    resolve_default_workspace-Keeps : (user : User) → Keeps P (resolve_default_workspace v user)
    unfolding resolve_default_workspace
    resolve_default_workspace-Keeps user w h = h

    resolve_whatsapp_sender-Keeps : (sender : Text) → Keeps P (resolve_whatsapp_sender v sender)
    unfolding resolve_whatsapp_sender
    resolve_whatsapp_sender-Keeps sender =
        >>=-Keeps P (link_for v (normalize_phone v sender) (v.strip sender)) _ (λ w h. h)
          (λ link.
            >>=-Keeps P (or_raise (verified v link) (http 404 "Unlinked WhatsApp sender.")) _
              (or_raise-Keeps P (verified v link) (http 404 "Unlinked WhatsApp sender."))
              (λ row.
                >>=-Keeps P (user_where v (λ u. u.id == row.user_id)) _ (λ w h. h)
                  (λ user.
                    >>=-Keeps P (or_raise user (http 404 "Unlinked WhatsApp sender.")) _
                      (or_raise-Keeps P user (http 404 "Unlinked WhatsApp sender."))
                      (λ user_row. resolve_default_workspace-Keeps user_row))))

    resolve_email_sender-Keeps : (from_email : String) → Keeps P (resolve_email_sender v from_email)
    unfolding resolve_email_sender
    resolve_email_sender-Keeps from_email =
        >>=-Keeps P (user_where v _) _ (λ w h. h)
          (λ user.
            >>=-Keeps P (or_raise user (http 404 "Unknown email sender.")) _
              (or_raise-Keeps P user (http 404 "Unknown email sender."))
              (λ user_row. resolve_default_workspace-Keeps user_row))

    after_resolve-Keeps :
        (msg : WhatsAppMessage) (x : Result ResolvedIdentity × World v)
        → P x.1
        → P (after_resolve v c msg x).1
    after_resolve-Keeps msg (ok identity, w) h =
        >>=-Keeps P (ingest_text_message v (text_message v c msg identity)) _
          (ingested (text_message v c msg identity)) (λ resp w h. h) w h
    after_resolve-Keeps msg (err (Exn.http status detail), w) h = h
    after_resolve-Keeps msg (err Exn.value_error, w) h = h
    after_resolve-Keeps msg (err Exn.key_error, w) h = h
    after_resolve-Keeps msg (err Exn.index_error, w) h = h
    after_resolve-Keeps msg (err Exn.jwt_error, w) h = h
    after_resolve-Keeps msg (err Exn.assertion_error, w) h = h
    after_resolve-Keeps msg (err Exn.multiple_rows, w) h = h
    after_resolve-Keeps msg (err Exn.invalid_current_password, w) h = h
    after_resolve-Keeps msg (err (Exn.password_policy s), w) h = h

    receive_one-Keeps : (msg : WhatsAppMessage) → Keeps P (receive_one v c msg)
    unfolding receive_one
    receive_one-Keeps msg w h =
        let resolved =
          after_resolve-Keeps msg (resolve_whatsapp_sender v msg.sender w)
            (resolve_whatsapp_sender-Keeps msg.sender w h) in
        elim (Bool-cases (not (truthy msg.message_id) || not (truthy msg.sender))) [
          | inl a ↦ rw a h
          | inr a ↦ elim (Bool-cases (truthy msg.type_ && not (text_eq msg.type_ (codes "text")))) [
            | inl b ↦ rw (a, b) h
            | inr b ↦ elim (Bool-cases (not (truthy (v.strip msg.text)))) [
              | inl d ↦ rw (a, b, d) h
              | inr d ↦ rw (a, b, d) resolved
            ]
          ]
        ]

    receive_all-Keeps : (msgs : List WhatsAppMessage) → Keeps P (receive_all v c msgs)
    unfolding receive_all
    receive_all-Keeps [] = λ w h. h
    receive_all-Keeps (msg ∷ msgs) =
        >>=-Keeps P (receive_one v c msg) _ (receive_one-Keeps msg)
          (λ r. >>=-Keeps P (receive_all v c msgs) _ (receive_all-Keeps msgs) (λ rs w h. h))

    require_inbound_api_key-Keeps : (key : Option Text) → Keeps P (require_inbound_api_key v c key)
    unfolding require_inbound_api_key
    require_inbound_api_key-Keeps key =
        let e1 = http 503 "Inbound integrations are not configured." in
        let e2 = http 401 "Invalid inbound credentials." in
        >>=-Keeps P (raise_if (not (truthy c.inbound_api_key)) e1) _
          (raise_if-Keeps P (not (truthy c.inbound_api_key)) e1)
          (λ u.
            raise_if-Keeps P
              (not (truthy (or_empty v c key))
                || not (text_eq (or_empty v c key) c.inbound_api_key))
              e2)

    check_signature-Keeps :
        (signature : Option Text) (body : Text) → Keeps P (check_signature v c signature body)
    check_signature-Keeps signature body =
        let e1 = http 401 "Missing inbound signature." in
        let e2 = http 401 "Invalid inbound signature." in
        >>=-Keeps P (raise_if (not (truthy (or_empty v c signature))) e1) _
          (raise_if-Keeps P (not (truthy (or_empty v c signature))) e1)
          (λ u.
            raise_if-Keeps P
              (not (
                text_eq (c.provided (or_empty v c signature))
                  (c.hexdigest c.inbound_hmac_secret body)))
              e2)

    inbound_email-Keeps :
        (key signature : Option Text) (body : Text) (payload : EmailInboundRequest)
        → Keeps P (inbound_email v c key signature body payload)
    unfolding inbound_email require_inbound_hmac_if_configured
    inbound_email-Keeps key signature body payload =
        >>=-Keeps P (require_inbound_api_key v c key) _ (require_inbound_api_key-Keeps key) (λ u.
          >>=-Keeps P (require_inbound_hmac_if_configured v c signature body) _
            (if-Keeps P (not (truthy c.inbound_hmac_secret)) _ _ (λ w h. h)
              (check_signature-Keeps signature body))
            (λ u1.
              >>=-Keeps P (resolve_email_sender v payload.from_email) _
                (resolve_email_sender-Keeps payload.from_email) (λ identity. ingested _)))

    webhook-Keeps :
        (body : Text) (signature : Option Text)
        → Keeps P (whatsapp_webhook_receive v c body signature)
    unfolding whatsapp_webhook_receive
    webhook-Keeps body signature =
        let e1 = http 503 "WhatsApp webhook is not configured." in
        let e2 = http 401 "Invalid WhatsApp signature." in
        let e3 = http 400 "Invalid JSON." in
        >>=-Keeps P (raise_if (not (truthy c.whatsapp_app_secret)) e1) _
          (raise_if-Keeps P (not (truthy c.whatsapp_app_secret)) e1)
          (λ u.
            >>=-Keeps P (raise_if (not (verify_meta_signature v c body signature)) e2) _
              (raise_if-Keeps P (not (verify_meta_signature v c body signature)) e2)
              (λ u1.
                >>=-Keeps P (or_raise (c.read_messages body) e3) _
                  (or_raise-Keeps P (c.read_messages body) e3) receive_all-Keeps))

    put_pending-keeps :
        (user : ℕ) (phone code : Text) (o : Option WhatsAppIdentityLink) (w : World v)
        → P w
        → P (put_pending v user phone code o w)
    put_pending-keeps user phone code none w h = relinked _ w h
    put_pending-keeps user phone code (some link) w h = relinked _ w h

    link_start-Keeps :
        (phone code : Text) (ctx : RequestContext) → Keeps P (whatsapp_link_start v phone code ctx)
    unfolding whatsapp_link_start
    link_start-Keeps phone code ctx =
        let e = http 409 "Phone already linked to another user." in
        >>=-Keeps P (link_where v (has_phone v (normalize_phone v phone))) _ (λ w h. h)
          (λ link.
            >>=-Keeps P (raise_if (is_taken v ctx.user_id link) e) _
              (raise_if-Keeps P (is_taken v ctx.user_id link) e)
              (λ u.
                >>=-Keeps {B = Text × Text} P
                  (modify (put_pending v ctx.user_id (normalize_phone v phone) code link))
                  (λ u1. pure (normalize_phone v phone, code))
                  (put_pending-keeps ctx.user_id (normalize_phone v phone) code link)
                  (λ u1 w h. h)))

    own_link : RequestContext → Text → WhatsAppIdentityLink → Bool
    own_link ctx phone l = has_phone v (normalize_phone v phone) l && l.user_id == ctx.user_id

    link_confirm-Keeps :
        (phone code : Text) (ctx : RequestContext)
        → Keeps P (whatsapp_link_confirm v phone code ctx)
    unfolding whatsapp_link_confirm own_link
    link_confirm-Keeps phone code ctx =
        let e = http 400 "Invalid link code." in
        >>=-Keeps P (link_where v (own_link ctx phone)) _ (λ w h. h)
          (λ link.
            >>=-Keeps P (or_raise (with_code v (v.strip code) link) e) _
              (or_raise-Keeps P (with_code v (v.strip code) link) e)
              (λ row.
                >>=-Keeps P (modify (put_verified v (normalize_phone v phone) row))
                  (λ u. pure (normalize_phone v phone)) (λ w h. relinked _ w h) (λ u w h. h)))

    link_unlink-Keeps :
        (phone : Text) (ctx : RequestContext) → Keeps P (whatsapp_link_unlink v phone ctx)
    unfolding whatsapp_link_unlink own_link
    link_unlink-Keeps phone ctx =
        let e = http 404 "Link not found." in
        >>=-Keeps P (link_where v (own_link ctx phone)) _ (λ w h. h)
          (λ link.
            >>=-Keeps P (or_raise link e) _ (or_raise-Keeps P link e) (λ row w h. relinked _ w h))

    perform-Keeps : (r : Request) (w : World v) → P w → P (perform r w)
    perform-Keeps (email key signature body payload) =
        inbound_email-Keeps key signature body payload
    perform-Keeps (webhook body signature) = webhook-Keeps body signature
    perform-Keeps (link_start phone code ctx) = link_start-Keeps phone code ctx
    perform-Keeps (link_confirm phone code ctx) = link_confirm-Keeps phone code ctx
    perform-Keeps (link_unlink phone ctx) = link_unlink-Keeps phone ctx

    pub perform_all-Keeps : (rs : List Request) (w : World v) → P w → P (perform_all rs w)
    unfolding perform_all
    perform_all-Keeps [] w h = h
    perform_all-Keeps (r ∷ rs) w h = perform_all-Keeps rs (perform r w) (perform-Keeps r w h)
