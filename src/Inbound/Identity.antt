-- ===== src/Inbound/Identity.antt =====
-- integrations/identity.py.
use system_dashnote.Prelude.{
  ℕ, Bool, true, false, not, ◌&&◌, ◌||◌, Option, none, some, List, [], ◌∷◌, select, drop, ltb,
  find_first, str_eq, ◌==◌, String, if◌then◌else◌,
}
use system_dashnote.Prelude.Text.{Text, text_eq}
use system_dashnote.Prelude.Exec.{Exec, http, Result, ok, err, or_raise, ◌>>=◌}
use system_dashnote.Database.{one_or_none}
use system_dashnote.Auth.Models.{User, WorkspaceUser}
use system_dashnote.Inbound.Models.{Services, World, ResolvedIdentity, WhatsAppIdentityLink}

-- the order of `(m.tenant_id, m.user_id)`
abbrev pub precedes : WorkspaceUser → WorkspaceUser → Bool
precedes m n =
    ltb m.tenant_id n.tenant_id || (m.tenant_id == n.tenant_id && ltb m.user_id n.user_id)

-- `sorted(memberships, key=…)[0]`: of equal keys the first
unfoldable pub earliest : WorkspaceUser → List WorkspaceUser → WorkspaceUser
earliest m [] = m
earliest m (n ∷ ms) =
    let of_n = earliest n ms in let of_m = earliest m ms in if precedes n m then of_n else of_m

abbrev identity_in : User → WorkspaceUser → ResolvedIdentity
identity_in user m = record {
  user_id = user.id;
  workspace_id = m.tenant_id;
  role = m.role;
  email = some user.email;
}

-- the loop over the memberships for the default workspace
abbrev default_of : Option ℕ → List WorkspaceUser → Option WorkspaceUser
default_of none memberships = none
default_of (some default_wid) memberships = find_first (λ m. m.tenant_id == default_wid) memberships

abbrev or_first : Option WorkspaceUser → WorkspaceUser → List WorkspaceUser → WorkspaceUser
or_first (some d) m ms = d
or_first none m [] = m
or_first none m (n ∷ ms) = earliest m (n ∷ ms)

unfoldable pub choose : User → List WorkspaceUser → Result ResolvedIdentity
choose user [] = err (http 400 "Sender has no workspace membership.")
choose user (m ∷ ms) =
    ok (identity_in user (or_first (default_of user.inbound_default_workspace_id (m ∷ ms)) m ms))

module _ (v : Services) where
  -- the memberships of the user; the SELECT that is sent when there are none finds none either
  unfoldable pub resolve_default_workspace : User → Exec (World v) ResolvedIdentity
  resolve_default_workspace user w =
      (choose user (v.members.fetch (λ m. m.user_id == user.id) w.members), w)

  abbrev pub user_where : (User → Bool) → Exec (World v) (Option User)
  user_where p w = (one_or_none (v.users.fetch p w.users), w)

  unfoldable pub resolve_email_sender : String → Exec (World v) ResolvedIdentity
  resolve_email_sender from_email = do
    let email = v.lower_email (v.strip_email from_email)
    user ← user_where (λ u. str_eq (v.lower_email u.email) email)
    user_row ← or_raise user (http 404 "Unknown email sender.")
    resolve_default_workspace user_row

  abbrev starts_with_plus : Text → Bool
  starts_with_plus [] = false
  starts_with_plus (c ∷ s) = c == 43

  abbrev starts_with_00 : Text → Bool
  starts_with_00 [] = false
  starts_with_00 (c ∷ []) = false
  starts_with_00 (c ∷ d ∷ s) = c == 48 && d == 48

  abbrev all_digits : Text → Bool
  all_digits [] = true
  all_digits (c ∷ s) = v.is_digit c && all_digits s

  -- `digits.isdigit()`
  abbrev isdigit : Text → Bool
  isdigit [] = false
  isdigit (c ∷ s) = all_digits (c ∷ s)

  abbrev with_plus : Text → Text
  with_plus digits = if not (starts_with_plus digits) && isdigit digits then 43 ∷ digits else digits

  unfoldable pub normalize_phone : Text → Text
  normalize_phone phone =
      let digits = select (λ ch. v.is_digit ch || ch == 43) (v.strip phone) in
      with_plus (if starts_with_00 digits then 43 ∷ drop 2 digits else digits)

  abbrev has_wa_id : Text → Option Text → Bool
  has_wa_id wa_id none = false
  has_wa_id wa_id (some s) = text_eq s wa_id

  -- `if link is None or link.verified_at is None`
  abbrev pub verified : Option WhatsAppIdentityLink → Option WhatsAppIdentityLink
  verified none = none
  verified (some link) = elim link.verified_at [ none ↦ none | some t ↦ some link ]

  abbrev pub link_for : Text → Text → Exec (World v) (Option WhatsAppIdentityLink)
  link_for phone wa_id w = (
    one_or_none (v.links.fetch (λ l. text_eq l.phone phone || has_wa_id wa_id l.wa_id) w.links),
    w,
  )

  unfoldable pub resolve_whatsapp_sender : Text → Exec (World v) ResolvedIdentity
  resolve_whatsapp_sender phone_or_wa_id = do
    let phone = normalize_phone phone_or_wa_id
    link ← link_for phone (v.strip phone_or_wa_id)
    link_row ← or_raise (verified link) (http 404 "Unlinked WhatsApp sender.")
    user ← user_where (λ u. u.id == link_row.user_id)
    user_row ← or_raise user (http 404 "Unlinked WhatsApp sender.")
    resolve_default_workspace user_row
