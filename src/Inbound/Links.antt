-- ===== src/Inbound/Links.antt =====
-- integrations/router.py: the link of a WhatsApp phone to a user. `code` is the one that
-- `generate_link_code` drew.
use system_dashnote.Prelude.{
  ℕ, Bool, true, false, not, ◌&&◌, Option, none, some, [], ◌∷◌, ◌==◌, if◌then◌else◌,
}
use system_dashnote.Prelude.Text.{Text, text_eq}
use system_dashnote.Prelude.Exec.{Exec, http, pure, modify, raise_if, or_raise, ◌>>=◌, ◌>>◌}
use system_dashnote.Database.{one_or_none}
use system_dashnote.Auth.Models.{RequestContext}
use system_dashnote.Threads.Service.{truthy}
use system_dashnote.Inbound.Models.{Services, World, WhatsAppIdentityLink}
use system_dashnote.Inbound.Identity.{normalize_phone}

-- `link.verified_at is not None`
abbrev pub is_verified : WhatsAppIdentityLink → Bool
is_verified link = elim link.verified_at [ none ↦ false | some t ↦ true ]

-- `phone.lstrip("+")`
abbrev pub lstrip_plus : Text → Text
lstrip_plus [] = []
lstrip_plus (c ∷ s) = let rest = lstrip_plus s in if c == 43 then rest else c ∷ s

module _ (v : Services) where
  abbrev pub link_where :
      (WhatsAppIdentityLink → Bool) → Exec (World v) (Option WhatsAppIdentityLink)
  link_where p w = (one_or_none (v.links.fetch p w.links), w)

  abbrev pub has_phone : Text → WhatsAppIdentityLink → Bool
  has_phone phone l = text_eq l.phone phone

  -- of another user, and verified
  abbrev pub is_taken : ℕ → Option WhatsAppIdentityLink → Bool
  is_taken user none = false
  is_taken user (some link) = not (link.user_id == user) && is_verified link

  -- INSERT, or UPDATE by the primary key
  abbrev pub put_pending : ℕ → Text → Text → Option WhatsAppIdentityLink → World v → World v
  put_pending user phone code none w = record w {
    links =
        v.links.insert
          record {
            id = v.links.next_id w.links;
            user_id = user;
            phone = phone;
            wa_id = none;
            pending_code = some code;
            verified_at = none;
          }
          w.links;
  }
  put_pending user phone code (some link) w = record w {
    links =
        v.links.update (λ l. l.id == link.id)
          (λ l. record link {
            user_id = user;
            phone = phone;
            pending_code = some code;
            verified_at = none;
          })
          w.links;
  }

  unfoldable pub whatsapp_link_start : Text → Text → RequestContext → Exec (World v) (Text × Text)
  whatsapp_link_start body_phone code ctx = do
    let phone = normalize_phone v body_phone
    link ← link_where (has_phone phone)
    raise_if (is_taken ctx.user_id link) (http 409 "Phone already linked to another user.")
    modify (put_pending ctx.user_id phone code link)
    pure (phone, code)

  -- the link, if its pending code is the one of the request
  abbrev pub with_code : Text → Option WhatsAppIdentityLink → Option WhatsAppIdentityLink
  with_code code none = none
  with_code code (some link) = elim link.pending_code [
    | none ↦ none
    | some pending ↦ if truthy pending && text_eq pending code then some link else none
  ]

  abbrev pub put_verified : Text → WhatsAppIdentityLink → World v → World v
  put_verified phone row w = record w {
    links =
        v.links.update (λ l. l.id == row.id)
          (λ l. record row {
            verified_at = some w.now;
            pending_code = none;
            wa_id = some (lstrip_plus phone);
          })
          w.links;
  }

  abbrev pub remove_link : WhatsAppIdentityLink → World v → World v
  remove_link row w = record w { links = v.links.remove (λ l. l.id == row.id) w.links }

  unfoldable pub whatsapp_link_confirm : Text → Text → RequestContext → Exec (World v) Text
  whatsapp_link_confirm body_phone body_code ctx = do
    let phone = normalize_phone v body_phone
    link ← link_where (λ l. has_phone phone l && l.user_id == ctx.user_id)
    row ← or_raise (with_code (v.strip body_code) link) (http 400 "Invalid link code.")
    modify (put_verified phone row)
    pure phone

  unfoldable pub whatsapp_link_unlink : Text → RequestContext → Exec (World v) Unit
  whatsapp_link_unlink phone ctx = do
    let normalized = normalize_phone v phone
    link ← link_where (λ l. has_phone normalized l && l.user_id == ctx.user_id)
    row ← or_raise link (http 404 "Link not found.")
    modify (remove_link row)
