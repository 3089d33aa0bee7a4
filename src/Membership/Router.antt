-- ===== src/Membership/Router.antt =====
-- membership/router.py: the handlers of /workspaces/members, in the workspace of the context.
use system_dashnote.Prelude.{ℕ, String, [], ◌∷◌}
use system_dashnote.Prelude.Exec.{Exec, assertion_error, pure, or_raise, ◌>>=◌}
use system_dashnote.Auth.Models.{WorkspaceUser, RequestContext}
use system_dashnote.Auth.Context.{require_roles}
use system_dashnote.Membership.Repository.{Tables, Session, get_user_by_email}
use system_dashnote.Membership.Service

pub record MemberRead : Type 0 where
  pub user_id : ℕ
  pub email : String
  pub role : String

module _ (strip_lower : String → String) (t : Tables) where
  -- the response to an invitation: the user must exist if the invitation succeeded
  abbrev pub invited_read : RequestContext → String → WorkspaceUser → Exec (Session t) MemberRead
  invited_read ctx email membership = do
    found ← get_user_by_email t ctx.workspace_id email
    user ← or_raise found assertion_error
    pure (record { user_id = membership.user_id; email = user.email; role = membership.role })

  unfoldable pub invite : String → String → RequestContext → Exec (Session t) MemberRead
  unfolding Service.invite_member require_roles
  invite email role context = do
    ctx ← require_roles ("owner" ∷ "admin" ∷ []) context
    membership ← Service.invite_member strip_lower t ctx.workspace_id ctx email role
    invited_read ctx email membership

  -- The answer is given without the address of the member.
  unfoldable pub set_role : ℕ → String → RequestContext → Exec (Session t) WorkspaceUser
  unfolding Service.change_member_role require_roles
  set_role user_id role context = do
    ctx ← require_roles ("owner" ∷ []) context
    Service.change_member_role strip_lower t ctx.workspace_id ctx user_id role

  unfoldable pub delete_member : ℕ → RequestContext → Exec (Session t) Unit
  unfolding Service.remove_member require_roles
  delete_member user_id context = do
    ctx ← require_roles ("owner" ∷ "admin" ∷ []) context
    Service.remove_member strip_lower t ctx.workspace_id ctx user_id
