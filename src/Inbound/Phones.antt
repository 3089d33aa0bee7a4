-- ===== src/Inbound/Phones.antt =====
-- A verified link among the calls of other users.
use system_dashnote.Prelude.{ℕ, ◌≡◌, ◌≢◌, true, List, [], ◌∷◌, All}
use system_dashnote.Prelude.Text.{Text}
use system_dashnote.Auth.Models.{RequestContext}
use system_dashnote.Inbound.Models.{Services, World, WhatsAppIdentityLink}
use system_dashnote.Inbound.Links.{
  is_verified, whatsapp_link_start, whatsapp_link_confirm, whatsapp_link_unlink,
}
use system_dashnote.Inbound.Held.{Held}

-- A call of one of the three handlers.
pub data LinkCall : Type 0 where
  start confirm : (phone code : Text) (ctx : RequestContext) → LinkCall
  unlink : (phone : Text) (ctx : RequestContext) → LinkCall

abbrev pub caller : LinkCall → ℕ
caller (start phone code ctx) = ctx.user_id
caller (confirm phone code ctx) = ctx.user_id
caller (unlink phone ctx) = ctx.user_id

module _ (v : Services) where
  abbrev pub perform : LinkCall → World v → World v
  perform (start phone code ctx) w = (whatsapp_link_start v phone code ctx w).1
  perform (confirm phone code ctx) w = (whatsapp_link_confirm v phone code ctx w).1
  perform (unlink phone ctx) w = (whatsapp_link_unlink v phone ctx w).1

  unfoldable pub perform_all : List LinkCall → World v → World v
  perform_all [] w = w
  perform_all (c ∷ cs) w = perform_all cs (perform c w)

module _ (v : Services) (l : WhatsAppIdentityLink)
    (fresh : (s : v.links.State) → All (λ x. x.id ≢ v.links.next_id s) (v.links.rows s))
    (verified : is_verified l ≡ true) where
  abbrev IsKept : World v → Type 0
  IsKept w = Held v l w.links
