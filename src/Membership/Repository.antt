-- ===== src/Membership/Repository.antt =====
-- membership/repository.py: the queries on workspace_users and users, for one workspace.
use system_dashnote.Prelude.{ℕ, Bool, ◌&&◌, Option, String, List, str_eq, ◌==◌}
use system_dashnote.Prelude.Exec.{Exec, ok}
use system_dashnote.Database.{Table, one_or_none}
use system_dashnote.Auth.Models.{User, WorkspaceUser}

-- The two tables.
pub record Tables : Type 1 where
  pub users : Table User
  pub members : Table WorkspaceUser

pub record Session (t : Tables) : Type 0 where
  pub users : t.users.State
  pub members : t.members.State

-- `WorkspaceUser.tenant_id == workspace_id, WorkspaceUser.user_id == user_id`
abbrev pub is_member : ℕ → ℕ → WorkspaceUser → Bool
is_member workspace_id user_id m = m.tenant_id == workspace_id && m.user_id == user_id

module _ (t : Tables) (workspace_id : ℕ) where
  -- The members with their users, in the order of the table; the code orders them by role and
  -- user.
  unfoldable pub list_members : Exec (Session t) (List WorkspaceUser)
  list_members s = (ok (t.members.fetch (λ m. m.tenant_id == workspace_id) s.members), s)

  unfoldable pub get_member : ℕ → Exec (Session t) (Option WorkspaceUser)
  get_member user_id s =
      (one_or_none (t.members.fetch (is_member workspace_id user_id) s.members), s)

  unfoldable pub get_user_by_email : String → Exec (Session t) (Option User)
  get_user_by_email email s = (one_or_none (t.users.fetch (λ u. str_eq u.email email) s.users), s)

  unfoldable pub add_member : ℕ → String → Exec (Session t) WorkspaceUser
  add_member user_id role s =
      let member : WorkspaceUser = record {
        user_id = user_id;
        tenant_id = workspace_id;
        role = role;
      } in
      (ok member, record s { members = t.members.insert member s.members })

  unfoldable pub update_role : WorkspaceUser → String → Exec (Session t) WorkspaceUser
  update_role member role s = (
    ok (record member { role = role }),
    record s {
      members =
          t.members.update (is_member member.tenant_id member.user_id)
            (λ m. record m { role = role }) s.members;
    },
  )

  unfoldable pub remove_member : ℕ → Exec (Session t) Unit
  remove_member user_id s =
      (ok tt, record s { members = t.members.remove (is_member workspace_id user_id) s.members })
