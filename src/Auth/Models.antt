-- ===== src/Auth/Models.antt =====
-- The rows of auth/models.py, and the context of a request (core/security/context.py). Time stamps
-- are left out.
use system_dashnote.Prelude.{ℕ, String, Option}
use system_dashnote.Prelude.Text.{Text}

pub record User : Type 0 where
  pub id : ℕ
  pub email : String
  pub password_hash : Text
  pub inbound_default_workspace_id : Option ℕ

pub record WorkspaceUser : Type 0 where
  pub user_id : ℕ
  pub tenant_id : ℕ
  pub role : String

pub record Workspace : Type 0 where
  pub id : ℕ
  pub name : String

pub record RequestContext : Type 0 where
  pub user_id : ℕ
  pub workspace_id : ℕ
  pub role : String
