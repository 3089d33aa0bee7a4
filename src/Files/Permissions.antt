-- ===== src/Files/Permissions.antt =====
-- files/models.py, files/schemas.py and files/permissions.py.
use system_dashnote.Prelude.{ℕ, Bool, true, not, ◌||◌, Option, ◌==◌, if◌then◌else◌}
use system_dashnote.Prelude.Text.{Text}
use system_dashnote.Prelude.Exec.{Exec, http, raise_if}
use system_dashnote.Auth.Models.{RequestContext}
use system_dashnote.Notes.Permissions.{is_staff}

-- The columns that the repository reads and writes. `id` stands for the UUID, which is fresh for a
-- new row.
pub record File : Type 0 where
  pub id : ℕ
  pub workspace_id : ℕ
  pub created_by : ℕ
  pub created_at : ℕ
  pub name : Text
  pub storage_key : Text
  pub mime_type : Text
  pub size_bytes : ℕ
  pub is_private : Bool
  pub description : Option Text

pub record FileCreate : Type 0 where
  pub name : Text
  pub mime_type : Text
  pub size_bytes : ℕ
  pub is_private : Bool
  pub description : Option Text

pub record FileUpdate : Type 0 where
  pub name : Option Text
  pub is_private : Option Bool
  pub description : Option Text

unfoldable pub can_read : File → RequestContext → Bool
can_read file ctx =
    if is_staff ctx then true else not file.is_private || file.created_by == ctx.user_id

unfoldable pub can_modify : File → RequestContext → Bool
can_modify file ctx = if is_staff ctx then true else file.created_by == ctx.user_id

abbrev pub assert_can_read : {S : Type 0} → File → RequestContext → Exec S Unit
assert_can_read file ctx =
    raise_if (not (can_read file ctx)) (http 403 "No permission to access this file.")

abbrev pub assert_can_modify : {S : Type 0} → File → RequestContext → Exec S Unit
assert_can_modify file ctx =
    raise_if (not (can_modify file ctx)) (http 403 "No permission to modify this file.")
