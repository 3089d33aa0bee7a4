-- ===== src/Membership/Service.antt =====
-- membership/service.py: the rules of inviting, changing roles and removing.
use system_dashnote.Prelude.{
  ℕ, Bool, true, false, not, ◌&&◌, Option, none, some, String, [], ◌∷◌, str_eq, ◌==◌, any_of,
  if◌then◌else◌,
}
use system_dashnote.Prelude.Exec.{Exec, http, pure, raise, raise_if, or_raise, ◌>>=◌, ◌>>◌}
use system_dashnote.Auth.Models.{WorkspaceUser, RequestContext}
use system_dashnote.Membership.Repository.{Tables, Session}
use system_dashnote.Membership.Repository

abbrev pub is_some_member : Option WorkspaceUser → Bool
is_some_member none = false
is_some_member (some m) = true

-- `strip_lower` is Python's `role.strip().lower()`.
module _ (strip_lower : String → String) (t : Tables) (workspace_id : ℕ) where
  unfoldable pub normalize_role : String → Exec (Session t) String
  normalize_role role =
      let role' = strip_lower role in
      if any_of (str_eq role') ("owner" ∷ "admin" ∷ "member" ∷ [])
      then pure role'
      else raise (http 400 "Invalid role")

  unfoldable pub invite_member : RequestContext → String → String → Exec (Session t) WorkspaceUser
  unfolding normalize_role
  invite_member ctx email role_in = do
    role ← normalize_role role_in
    raise_if (str_eq role "owner") (http 400 "Cannot invite an owner")
    raise_if (str_eq ctx.role "admin" && str_eq role "admin")
        (http 403 "Only owner can invite admins")
    found ← Repository.get_user_by_email t workspace_id email
    user ← or_raise found (http 404 "User not found")
    existing ← Repository.get_member t workspace_id user.id
    raise_if (is_some_member existing) (http 400 "User already a member")
    Repository.add_member t workspace_id user.id role

  unfoldable pub change_member_role : RequestContext → ℕ → String → Exec (Session t) WorkspaceUser
  unfolding normalize_role
  change_member_role ctx user_id role_in = do
    role ← normalize_role role_in
    raise_if (str_eq role "owner") (http 400 "Cannot assign owner role")
    raise_if (not (str_eq ctx.role "owner")) (http 403 "Only owner can change roles")
    found ← Repository.get_member t workspace_id user_id
    member ← or_raise found (http 404 "Member not found")
    Repository.update_role t workspace_id member role

  unfoldable pub remove_member : RequestContext → ℕ → Exec (Session t) Unit
  remove_member ctx user_id = do
    raise_if (not (any_of (str_eq ctx.role) ("owner" ∷ "admin" ∷ [])))
        (http 403 "Insufficient permissions")
    raise_if (user_id == ctx.user_id) (http 400 "Cannot remove yourself")
    found ← Repository.get_member t workspace_id user_id
    member ← or_raise found (http 404 "Member not found")
    raise_if (str_eq ctx.role "admin" && any_of (str_eq member.role) ("admin" ∷ "owner" ∷ []))
        (http 403 "Admin cannot remove admin/owner")
    Repository.remove_member t workspace_id user_id
